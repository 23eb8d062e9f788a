-- ===== src/Monitor/Ready.antt =====
-- A slot's snapshot.bin over `ulcr_monitor_loop` of src/manager.c.
use user_level_checkpoint_re.Base.{
  ℕ, zero, suc, ◌≡◌, Option, none, some, Bytes, Status, done, failed, Bool-cases, inl, inr,
}
use user_level_checkpoint_re.Base.Int.{ℤ, pos, leb_ℤ, eq_ℤ, minus_ℤ}
use user_level_checkpoint_re.Config.{Config}
use user_level_checkpoint_re.Control.{read_pid_from_file, restore_latest}
use user_level_checkpoint_re.Control.Keeps.{
  IsApart, read_pid_from_file-file, process_exists-file, restore_latest-other,
}
use user_level_checkpoint_re.Doubles.{Doubles}
use user_level_checkpoint_re.Files.{Files}
use user_level_checkpoint_re.Files.Posix.{IsPosix}
use user_level_checkpoint_re.Capture.{bin_path}
use user_level_checkpoint_re.Manager.{process_exists, checkpoint_latest}
use user_level_checkpoint_re.Manager.Ready.{
  IsReady, IsReady-same, IsSlotDir, checkpoint_latest-IsReady,
}
use user_level_checkpoint_re.Paths.{RuntimePaths}
use user_level_checkpoint_re.Processes.{Processes, IsProcesses}
use user_level_checkpoint_re.Tracer.{Tracer, IsTracer}
use user_level_checkpoint_re.Monitor.{
  Watch, Loop, watching, returned, interval_for, revived, on_gone, checkpointed, on_running, pass,
  expired, turn, again, turns, timer_started, timer_created, pid_read, monitor_loop,
}

module _ (fs : Files) (px : IsPosix fs) (tr : Tracer fs) (tl : IsTracer fs px tr) (fl : Doubles)
    (per_second : ℤ) (config : Config) (paths : RuntimePaths) (ps : Processes fs)
    (pl : IsProcesses fs px ps) (dir : Bytes) (here : IsSlotDir fs px tr tl paths dir)
    (apart : IsApart paths (bin_path fs tr dir)) where
  open px use {file}

  abbrev bin : Bytes
  bin = bin_path fs tr dir

  -- The slot's snapshot.bin is absent or whole.
  abbrev pub Ready : fs.World → Type 0
  Ready w = IsReady fs px tr tl (file w bin)

  -- The same where the loop stands.
  abbrev pub LoopReady : Loop fs → Type 0
  LoopReady (watching s) = Ready s.world
  LoopReady (returned status w) = Ready w

  Ready-same : (w w' : fs.World) → file w' bin ≡ file w bin → Ready w → Ready w'
  Ready-same w w' e ready = IsReady-same fs px tr tl e ready

  revived-Ready :
      (s : Watch fs) (o : Option ℤ) (w : fs.World)
      → Ready w
      → Ready (revived fs tr fl per_second config paths ps s o w).world
  unfolding revived
  revived-Ready s none w ready = ready
  revived-Ready s (some pid) w ready = Ready-same w _ (pl.time-file w bin) ready

  checkpointed-Ready :
      (s : Watch fs) (status : Status) (w : fs.World)
      → Ready w
      → Ready (checkpointed fs tr fl per_second config paths ps s status w).world
  unfolding checkpointed
  checkpointed-Ready s failed w ready = ready
  checkpointed-Ready s done w ready = Ready-same w _ (pl.time-file w bin) ready

  on_gone-Ready :
      (s : Watch fs) (w : fs.World)
      → Ready w
      → Ready (on_gone fs tr fl per_second config paths ps s w).world
  unfolding on_gone
  on_gone-Ready s w ready =
      let r = restore_latest fs tr fl per_second config paths ps w in
      elim (Bool-cases (eq_ℤ config.auto_restore (pos 0))) [
        | inl off ↦ rw off ready
        | inr on ↦ rw on (
            revived-Ready s r.0 r.1 (
              Ready-same w r.1
                (restore_latest-other fs px tr fl per_second config paths ps pl bin apart w) ready))
      ]

  on_running-Ready :
      (s : Watch fs) (w : fs.World)
      → Ready w
      → Ready (on_running fs tr fl per_second config paths ps s w).world
  unfolding on_running
  on_running-Ready s w ready =
      let interval = interval_for fs tr fl per_second config paths ps s.pid w in
      let t = ps.time w in
      let c = checkpoint_latest fs tr fl per_second config paths s.pid t.1 in
      let timed = Ready-same w t.1 (pl.time-file w bin) ready in
      elim (Bool-cases (leb_ℤ interval (minus_ℤ t.0 s.last_checkpoint))) [
        | inl due ↦ rw due (
            checkpointed-Ready (record s { current_interval = interval }) c.0 c.1
              (checkpoint_latest-IsReady fs px tr tl fl per_second config paths dir here s.pid t.1
                timed))
        | inr early ↦ rw early timed
      ]

  pass-Ready :
      (s : Watch fs) (w : fs.World)
      → Ready w
      → Ready (pass fs tr fl per_second config paths ps s w).world
  unfolding pass
  pass-Ready s w ready =
      let r = process_exists fs tr fl per_second config paths s.pid w in
      let seen =
        Ready-same w r.1 (process_exists-file fs px tr fl per_second config paths ps pl bin s.pid w)
          ready in
      elim (Bool-cases r.0) [
        | inl running ↦ rw running (on_running-Ready s r.1 seen)
        | inr gone ↦ rw gone (on_gone-Ready s r.1 seen)
      ]

  expired-Ready :
      (timer_fd : ℕ) (s : Watch fs) (status : Status) (w : fs.World)
      → Ready w
      → LoopReady (expired fs tr fl per_second config paths ps timer_fd s status w)
  unfolding expired
  expired-Ready timer_fd s failed w ready = Ready-same w _ (px.close-file timer_fd w bin) ready
  expired-Ready timer_fd s done w ready = pass-Ready s w ready

  again-Ready :
      (timer_fd : ℕ) (l : Loop fs)
      → LoopReady l
      → LoopReady (again fs tr fl per_second config paths ps timer_fd l)
  unfolding again turn
  again-Ready timer_fd (returned status w) ready = ready
  again-Ready timer_fd (watching s) ready =
      let r = ps.timer_read timer_fd s.world in
      expired-Ready timer_fd s r.0 r.1
        (Ready-same s.world r.1 (pl.timer_read-file timer_fd s.world bin) ready)

  turns-Ready :
      (timer_fd n : ℕ) (l : Loop fs)
      → LoopReady l
      → LoopReady (turns fs tr fl per_second config paths ps timer_fd n l)
  unfolding turns
  turns-Ready timer_fd zero l ready = ready
  turns-Ready timer_fd (suc n) l ready =
      turns-Ready timer_fd n (again fs tr fl per_second config paths ps timer_fd l)
        (again-Ready timer_fd l ready)

  timer_started-Ready :
      (n : ℕ) (pid : ℤ) (timer_fd : ℕ) (status : Status) (w : fs.World)
      → Ready w
      → LoopReady (timer_started fs tr fl per_second config paths ps n pid timer_fd status w)
  unfolding timer_started
  timer_started-Ready n pid timer_fd failed w ready =
      Ready-same w _ (px.close-file timer_fd w bin) ready
  timer_started-Ready n pid timer_fd done w ready = turns-Ready timer_fd n _ ready

  timer_created-Ready :
      (n : ℕ) (pid : ℤ) (fd : Option ℕ) (w : fs.World)
      → Ready w
      → LoopReady (timer_created fs tr fl per_second config paths ps n pid fd w)
  unfolding timer_created
  timer_created-Ready n pid none w ready = ready
  timer_created-Ready n pid (some timer_fd) w ready =
      let r = ps.timer_set timer_fd config.monitor_interval_sec w in
      timer_started-Ready n pid timer_fd r.0 r.1
        (Ready-same w r.1 (pl.timer_set-file timer_fd config.monitor_interval_sec w bin) ready)

  pid_read-Ready :
      (n : ℕ) (r : ℤ × Status) (w : fs.World)
      → Ready w
      → LoopReady (pid_read fs tr fl per_second config paths ps n r w)
  unfolding pid_read
  pid_read-Ready n (pid, failed) w ready = ready
  pid_read-Ready n (pid, done) w ready =
      let r = ps.timer_create w in
      timer_created-Ready n pid r.0 r.1 (Ready-same w r.1 (pl.timer_create-file w bin) ready)

  -- If a slot's snapshot.bin is absent or a whole snapshot when `ulcr_monitor_loop` is called, it is
  -- so after every number of passes and when the loop returns, whichever calls fail or write in
  -- part, in whichever pass.
  pub monitor_loop-Ready :
      (n : ℕ) (w : fs.World)
      → Ready w
      → LoopReady (monitor_loop fs tr fl per_second config paths ps n w)
  unfolding monitor_loop
  monitor_loop-Ready n w ready =
      let r = read_pid_from_file fs paths.pid_file (pos 0) w in
      pid_read-Ready n r.0 r.1
        (Ready-same w r.1 (read_pid_from_file-file fs px paths.pid_file (pos 0) w bin) ready)
