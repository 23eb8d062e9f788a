-- ===== src/Monitor/Sound.antt =====
-- The variables of `ulcr_monitor_loop` of src/manager.c, in every pass.
use user_level_checkpoint_re.Base.{
  ℕ, ◌≡◌, refl, sym, ◌∙◌, Option, none, some, List, Status, done, failed, ◌⊎◌, inl, inr, Bool-cases,
}
use user_level_checkpoint_re.Base.Int.{ℤ, pos, leb_ℤ, eq_ℤ, minus_ℤ, ◌≤ℤ◌}
use user_level_checkpoint_re.Config.{Config}
use user_level_checkpoint_re.Config.Valid.{IsUsable}
use user_level_checkpoint_re.Control.{restore_latest}
use user_level_checkpoint_re.Control.Pids.{restore_latest-IsPid}
use user_level_checkpoint_re.Doubles.{Doubles}
use user_level_checkpoint_re.Files.{Files}
use user_level_checkpoint_re.Files.Posix.{IsPosix}
use user_level_checkpoint_re.Interval.Bounds.{dynamic_interval_bounds}
use user_level_checkpoint_re.Manager.{process_exists, checkpoint_latest}
use user_level_checkpoint_re.Paths.{RuntimePaths}
use user_level_checkpoint_re.Processes.{Processes, IsProcesses}
use user_level_checkpoint_re.Procfs.Uptime.{runtime_seconds}
use user_level_checkpoint_re.Tracer.{Tracer}
use user_level_checkpoint_re.Monitor.{
  Watch, watching, interval_for, revived, on_gone, checkpointed, on_running, pass, expired, turn,
  monitor_loop,
}
use user_level_checkpoint_re.Monitor.Runs.{first, turns-Passes, monitor_loop-Entered}
use user_level_checkpoint_re.Monitor.Supervisor.{Event}
use user_level_checkpoint_re.Monitor.Trace.{Passes, stays, passes}

-- The pid is above 0, and the interval is that of the monitor, as at the start, or one of 1 up to
-- the configured number of seconds.
pub record IsSound {fs : Files} (config : Config) (s : Watch fs) : Type 0 where
  pub watches : pos 1 ≤ℤ s.pid
  pub paces :
      (s.current_interval ≡ config.monitor_interval_sec)
      ⊎ ((pos 1 ≤ℤ s.current_interval) × (s.current_interval ≤ℤ config.checkpoint_interval_sec))

module _ (fs : Files) (px : IsPosix fs) (tr : Tracer fs) (fl : Doubles) (per_second : ℤ)
    (config : Config) (paths : RuntimePaths) (ps : Processes fs) (pl : IsProcesses fs px ps)
    (usable : IsUsable config) where
  interval_for_paces :
      (pid : ℤ) (w : fs.World) (i : ℤ)
      → i ≡ interval_for fs tr fl per_second config paths ps pid w
      → (i ≡ config.monitor_interval_sec) ⊎ ((pos 1 ≤ℤ i) × (i ≤ℤ config.checkpoint_interval_sec))
  interval_for_paces pid w i e = rw e (
      inr (
        dynamic_interval_bounds fl config.checkpoint_interval_sec
          (runtime_seconds fl per_second (tr.proc w) pid) usable.checkpoints))

  revived-IsSound :
      (s : Watch fs) (o : Option ℤ) (w : fs.World)
      → ((pid : ℤ) → o ≡ some pid → pos 1 ≤ℤ pid)
      → IsSound config s
      → IsSound config (revived fs tr fl per_second config paths ps s o w)
  unfolding revived
  revived-IsSound s none w h sound = record { watches = sound.watches; paces = sound.paces }
  revived-IsSound s (some pid) w h sound = record {
    watches = h pid refl;
    paces = interval_for_paces pid (ps.time w).1 _ refl;
  }

  checkpointed-IsSound :
      (s : Watch fs) (status : Status) (w : fs.World)
      → IsSound config s
      → IsSound config (checkpointed fs tr fl per_second config paths ps s status w)
  unfolding checkpointed
  checkpointed-IsSound s failed w sound = record { watches = sound.watches; paces = sound.paces }
  checkpointed-IsSound s done w sound = record { watches = sound.watches; paces = sound.paces }

  on_running-IsSound :
      (s : Watch fs) (w : fs.World)
      → IsSound config s
      → IsSound config (on_running fs tr fl per_second config paths ps s w)
  unfolding on_running
  on_running-IsSound s w sound =
      let interval = interval_for fs tr fl per_second config paths ps s.pid w in
      let t = ps.time w in
      let c = checkpoint_latest fs tr fl per_second config paths s.pid t.1 in
      let paced = interval_for_paces s.pid w interval refl in
      elim (Bool-cases (leb_ℤ interval (minus_ℤ t.0 s.last_checkpoint))) [
        | inl due ↦ rw due (
            checkpointed-IsSound (record s { current_interval = interval }) c.0 c.1
              (record { watches = sound.watches; paces = paced }))
        | inr early ↦ rw early (record { watches = sound.watches; paces = paced })
      ]

  on_gone-IsSound :
      (s : Watch fs) (w : fs.World)
      → IsSound config s
      → IsSound config (on_gone fs tr fl per_second config paths ps s w)
  unfolding on_gone
  on_gone-IsSound s w sound = elim (Bool-cases (eq_ℤ config.auto_restore (pos 0))) [
    | inl off ↦ rw off (record { watches = sound.watches; paces = sound.paces })
    | inr on ↦
        let l = restore_latest fs tr fl per_second config paths ps w in
        rw on (
          revived-IsSound s l.0 l.1
            (λ pid e. (restore_latest-IsPid fs px tr fl per_second config paths ps pl w pid e).0)
            sound)
  ]

  pass-IsSound :
      (s : Watch fs) (w : fs.World)
      → IsSound config s
      → IsSound config (pass fs tr fl per_second config paths ps s w)
  unfolding pass
  pass-IsSound s w sound =
      let r = process_exists fs tr fl per_second config paths s.pid w in
      elim (Bool-cases r.0) [
        | inl running ↦ rw running (on_running-IsSound s r.1 sound)
        | inr gone ↦ rw gone (on_gone-IsSound s r.1 sound)
      ]

  expired-IsSound :
      (timer_fd : ℕ) (s t : Watch fs) (status : Status) (w : fs.World)
      → IsSound config s
      → expired fs tr fl per_second config paths ps timer_fd s status w ≡ watching t
      → IsSound config t
  unfolding expired
  expired-IsSound timer_fd s t failed w sound e = absurd cc
  expired-IsSound timer_fd s t done w sound e =
      let q : t ≡ pass fs tr fl per_second config paths ps s w = cc in rw q (pass-IsSound s w sound)

  Passes-IsSound :
      {timer_fd : ℕ} {s u : Watch fs} {es : List Event}
      → IsSound config s
      → Passes fs tr fl per_second config paths ps timer_fd s es u
      → IsSound config u
  unfolding turn
  Passes-IsSound sound stays = sound
  Passes-IsSound {timer_fd} sound (passes {s} {t} e rest) =
      let r = ps.timer_read timer_fd s.world in
      Passes-IsSound (expired-IsSound timer_fd s t r.0 r.1 sound e) rest

  -- With a configuration that the loader accepts, wherever `ulcr_monitor_loop` stands between two
  -- passes, the pid is above 0 and the interval is that of the monitor or one of 1 up to the
  -- configured number of seconds.
  pub monitor_loop-IsSound :
      (n : ℕ) (w : fs.World) (t : Watch fs)
      → monitor_loop fs tr fl per_second config paths ps n w ≡ watching t
      → IsSound config t
  monitor_loop-IsSound n w t e =
      let (read, (timer_fd, w', h, k)) =
        monitor_loop-Entered fs tr fl per_second config paths ps n w t e in
      let start = first fs tr fl per_second config paths ps _ w' in
      let (es, count, run) =
        turns-Passes fs tr fl per_second config paths ps timer_fd n start t (sym (k n) ∙ e) in
      Passes-IsSound (record { watches = h; paces = inl refl }) run
