-- ===== src/Monitor/Trace.antt =====
-- The passes of `ulcr_monitor_loop` of src/manager.c as steps, each with what happens in it.
use user_level_checkpoint_re.Base.{
  ℕ, ◌≡◌, Option, none, some, List, [], ◌∷◌, if◌then◌else◌, Status, done, failed,
}
use user_level_checkpoint_re.Base.Int.{ℤ, pos, leb_ℤ, eq_ℤ, minus_ℤ}
use user_level_checkpoint_re.Config.{Config}
use user_level_checkpoint_re.Control.{restore_latest}
use user_level_checkpoint_re.Doubles.{Doubles}
use user_level_checkpoint_re.Files.{Files}
use user_level_checkpoint_re.Manager.{process_exists, checkpoint_latest}
use user_level_checkpoint_re.Paths.{RuntimePaths}
use user_level_checkpoint_re.Processes.{Processes}
use user_level_checkpoint_re.Tracer.{Tracer}
use user_level_checkpoint_re.Monitor.{Watch, watching, interval_for, turn}
use user_level_checkpoint_re.Monitor.Supervisor.{
  Watched, Event, ignored, unrevived, replaced, waited, missed, saved,
}

-- What the supervisor sees of the loop's variables.
abbrev pub view : {fs : Files} → Watch fs → Watched
view s = record { pid = s.pid; last = s.last_checkpoint }

module _ (fs : Files) (tr : Tracer fs) (fl : Doubles) (per_second : ℤ) (config : Config)
    (paths : RuntimePaths) (ps : Processes fs) where
  unfoldable pub revival : Option ℤ → fs.World → Event
  revival none w = unrevived
  revival (some pid) w = replaced pid (ps.time w).0

  unfoldable pub attempt : ℤ → ℤ → Status → fs.World → Event
  attempt interval now failed w = missed interval now
  attempt interval now done w = saved interval now (ps.time w).0

  -- What happens in a pass, behind `read`.
  unfoldable pub event_in : Watch fs → fs.World → Event
  unfolding revival attempt
  event_in s w =
      let (running, w1) = process_exists fs tr fl per_second config paths s.pid w in
      let (pid, w2) = restore_latest fs tr fl per_second config paths ps w1 in
      let (now, w3) = ps.time w1 in
      let (status, w4) = checkpoint_latest fs tr fl per_second config paths s.pid w3 in
      let interval = interval_for fs tr fl per_second config paths ps s.pid w1 in
      if running
      then (if leb_ℤ interval (minus_ℤ now s.last_checkpoint)
          then attempt interval now status w4
          else waited interval now)
      else if eq_ℤ config.auto_restore (pos 0)
      then ignored
      else revival pid w2

  -- The runs of the loop that do not end, with what happens in them.
  pub data Passes (timer_fd : ℕ) : Watch fs → List Event → Watch fs → Type 0 where
    stays : {s : Watch fs} → Passes timer_fd s [] s
    passes :
        {s t u : Watch fs} {es : List Event}
        → turn fs tr fl per_second config paths ps timer_fd s ≡ watching t
        → Passes timer_fd t es u
        → Passes timer_fd s (event_in s (ps.timer_read timer_fd s.world).1 ∷ es) u
