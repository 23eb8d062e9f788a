-- ===== src/Monitor/Refines.antt =====
-- The loop of `ulcr_monitor_loop` of src/manager.c against the supervisor.
use user_level_checkpoint_re.Base.{
  ℕ, ◌≡◌, refl, Bool, true, not, Option, none, some, List, Status, done, failed, Bool-cases, inl,
  inr,
}
use user_level_checkpoint_re.Base.Int.{ℤ, pos, leb_ℤ, eq_ℤ, minus_ℤ, ◌≤ℤ◌}
use user_level_checkpoint_re.Config.{Config}
use user_level_checkpoint_re.Control.{restore_latest}
use user_level_checkpoint_re.Control.Pids.{restore_latest-IsPid}
use user_level_checkpoint_re.Doubles.{Doubles}
use user_level_checkpoint_re.Files.{Files}
use user_level_checkpoint_re.Files.Posix.{IsPosix}
use user_level_checkpoint_re.Interval.Bounds.{dynamic_interval_bounds}
use user_level_checkpoint_re.Manager.{process_exists, checkpoint_latest}
use user_level_checkpoint_re.Paths.{RuntimePaths}
use user_level_checkpoint_re.Processes.{Processes, IsProcesses}
use user_level_checkpoint_re.Procfs.Uptime.{runtime_seconds}
use user_level_checkpoint_re.Tracer.{Tracer}
use user_level_checkpoint_re.Monitor.{
  Watch, watching, interval_for, revived, on_gone, checkpointed, on_running, pass, expired, turn,
}
use user_level_checkpoint_re.Monitor.Supervisor.{
  Event, Supervises, InBase, ignores, gives_up, replaces, waits, misses, saves, Course, rests, goes,
}
use user_level_checkpoint_re.Monitor.Trace.{view, revival, attempt, event_in, Passes, stays, passes}

module _ (fs : Files) (px : IsPosix fs) (tr : Tracer fs) (fl : Doubles) (per_second : ℤ)
    (config : Config) (paths : RuntimePaths) (ps : Processes fs) (pl : IsProcesses fs px ps)
    (usable : pos 1 ≤ℤ config.checkpoint_interval_sec) where
  -- Whether the configuration has processes restored.
  abbrev pub restores : Bool
  restores = not (eq_ℤ config.auto_restore (pos 0))

  abbrev base : ℤ
  base = config.checkpoint_interval_sec

  revived-Supervises :
      (s : Watch fs) (o : Option ℤ) (w : fs.World)
      → ((pid : ℤ) → o ≡ some pid → pos 1 ≤ℤ pid)
      → Supervises true base
          (view s)
          (revival fs tr fl per_second config paths ps o w)
          (view (revived fs tr fl per_second config paths ps s o w))
  unfolding revived revival
  revived-Supervises s none w h = gives_up refl
  revived-Supervises s (some pid) w h = replaces pid (ps.time w).0 refl (h pid refl)

  checkpointed-Supervises :
      (s : Watch fs) (interval now : ℤ) (status : Status) (w : fs.World)
      → InBase base interval
      → leb_ℤ interval (minus_ℤ now s.last_checkpoint) ≡ true
      → Supervises restores base
          (view s)
          (attempt fs tr fl per_second config paths ps interval now status w)
          (view (
            checkpointed fs tr fl per_second config paths ps
              (record s { current_interval = interval })
              status
              w))
  unfolding checkpointed attempt
  checkpointed-Supervises s interval now failed w h due = misses interval now h due
  checkpointed-Supervises s interval now done w h due = saves interval now (ps.time w).0 h due

  interval_for_bounds :
      (pid : ℤ) (w : fs.World)
      → (pos 1 ≤ℤ interval_for fs tr fl per_second config paths ps pid w)
        × (interval_for fs tr fl per_second config paths ps pid w ≤ℤ base)
  interval_for_bounds pid w =
      dynamic_interval_bounds fl base (runtime_seconds fl per_second (tr.proc w) pid) usable

  pass-Supervises :
      (s : Watch fs) (w : fs.World)
      → Supervises restores base
          (view s)
          (event_in fs tr fl per_second config paths ps s w)
          (view (pass fs tr fl per_second config paths ps s w))
  unfolding pass event_in on_gone on_running
  pass-Supervises s w =
      let r = process_exists fs tr fl per_second config paths s.pid w in
      let t = ps.time r.1 in
      let c = checkpoint_latest fs tr fl per_second config paths s.pid t.1 in
      let l = restore_latest fs tr fl per_second config paths ps r.1 in
      let interval = interval_for fs tr fl per_second config paths ps s.pid r.1 in
      let bounds = interval_for_bounds s.pid r.1 in
      elim (Bool-cases r.0) [
        | inl running ↦
            rw running (elim (Bool-cases (leb_ℤ interval (minus_ℤ t.0 s.last_checkpoint))) [
              | inl due ↦ rw due (checkpointed-Supervises s interval t.0 c.0 c.1 bounds due)
              | inr early ↦ rw early (waits interval t.0 bounds early)
            ])
        | inr gone ↦ rw gone (elim (Bool-cases (eq_ℤ config.auto_restore (pos 0))) [
          | inl off ↦ rw off (ignores refl)
          | inr on ↦ rw on (
              revived-Supervises s l.0 l.1 (λ pid e.
                (restore_latest-IsPid fs px tr fl per_second config paths ps pl r.1 pid e).0))
        ])
      ]

  module _ (timer_fd : ℕ) where
    expired-Supervises :
        (s t : Watch fs) (status : Status) (w : fs.World)
        → expired fs tr fl per_second config paths ps timer_fd s status w ≡ watching t
        → Supervises restores base
            (view s)
            (event_in fs tr fl per_second config paths ps s w)
            (view t)
    unfolding expired
    expired-Supervises s t failed w e = absurd cc
    expired-Supervises s t done w e =
        let q : t ≡ pass fs tr fl per_second config paths ps s w = cc in rw q (pass-Supervises s w)

    turn-Supervises :
        (s t : Watch fs)
        → turn fs tr fl per_second config paths ps timer_fd s ≡ watching t
        → Supervises restores base
            (view s)
            (event_in fs tr fl per_second config paths ps s (ps.timer_read timer_fd s.world).1)
            (view t)
    unfolding turn
    turn-Supervises s t e =
        let r = ps.timer_read timer_fd s.world in expired-Supervises s t r.0 r.1 e

    -- Each run of the loop is a run of the supervisor, with the same events, for a configured
    -- checkpoint interval of at least 1 second.
    pub Passes-Course :
        {s u : Watch fs} {es : List Event}
        → Passes fs tr fl per_second config paths ps timer_fd s es u
        → Course restores base (view s) es (view u)
    Passes-Course stays = rests
    Passes-Course (passes {s} {t} e rest) = goes (turn-Supervises s t e) (Passes-Course rest)
