-- ===== src/Monitor.antt =====
-- `ulcr_monitor_loop` of src/manager.c: one pass of its loop, and the loop.
pub mod Supervisor
pub mod Trace
pub mod Refines
pub mod Runs
pub mod Loops
pub mod Due
pub mod Sound
pub mod Ready
mod Examples
mod SlotExamples
use user_level_checkpoint_re.Base.{
  ℕ, zero, suc, Bool, true, false, not, Option, none, some, ◌==◌, if◌then◌else◌, Status, done,
  failed, is_failed,
}
use user_level_checkpoint_re.Base.Int.{ℤ, pos, leb_ℤ, eq_ℤ, minus_ℤ}
use user_level_checkpoint_re.Config.{Config}
use user_level_checkpoint_re.Control.{read_pid_from_file, restore_latest}
use user_level_checkpoint_re.Doubles.{Doubles}
use user_level_checkpoint_re.Files.{Files, ◌>>=◌, pure}
use user_level_checkpoint_re.Interval.{dynamic_interval}
use user_level_checkpoint_re.Manager.{process_exists, checkpoint_latest}
use user_level_checkpoint_re.Paths.{RuntimePaths}
use user_level_checkpoint_re.Processes.{Processes}
use user_level_checkpoint_re.Procfs.Uptime.{runtime_seconds}
use user_level_checkpoint_re.Tracer.{Tracer}

-- The variables that live across the passes, and the state of the machine.
pub record Watch (fs : Files) : Type 0 where
  pub pid : ℤ
  pub last_checkpoint : ℤ
  pub current_interval : ℤ
  pub world : fs.World

-- Where the loop stands: between two passes, or returned with the result.
pub data Loop (fs : Files) : Type 0 where
  watching : Watch fs → Loop fs
  returned : Status → fs.World → Loop fs

module _ (fs : Files) (tr : Tracer fs) (fl : Doubles) (per_second : ℤ) (config : Config)
    (paths : RuntimePaths) (ps : Processes fs) where
  open fs use {World}

  -- `compute_dynamic_checkpoint_interval(config, pid)`
  abbrev pub interval_for : ℤ → World → ℤ
  interval_for pid w =
      dynamic_interval fl config.checkpoint_interval_sec
        (runtime_seconds fl per_second (tr.proc w) pid)

  -- Behind `ulcr_restore_latest`.
  unfoldable pub revived : Watch fs → Option ℤ → World → Watch fs
  revived s none w = record s { world = w }
  revived s (some pid) w =
      let (now, w') = ps.time w in
      record {
        pid = pid;
        last_checkpoint = now;
        current_interval = interval_for pid w';
        world = w';
      }

  -- The branch for a process that is not there.
  unfoldable pub on_gone : Watch fs → World → Watch fs
  unfolding revived
  on_gone s w =
      let (pid, w') = restore_latest fs tr fl per_second config paths ps w in
      if eq_ℤ config.auto_restore (pos 0) then record s { world = w } else revived s pid w'

  -- Behind `ulcr_checkpoint_latest`.
  unfoldable pub checkpointed : Watch fs → Status → World → Watch fs
  checkpointed s failed w = record s { world = w }
  checkpointed s done w =
      let (now, w') = ps.time w in record s { last_checkpoint = now; world = w' }

  -- The branch for a process that is there.
  unfoldable pub on_running : Watch fs → World → Watch fs
  unfolding checkpointed
  on_running s w =
      let interval = interval_for s.pid w in
      let (now, w1) = ps.time w in
      let (status, w2) = checkpoint_latest fs tr fl per_second config paths s.pid w1 in
      if leb_ℤ interval (minus_ℤ now s.last_checkpoint)
      then checkpointed (record s { current_interval = interval }) status w2
      else record s { current_interval = interval; world = w1 }

  -- A pass behind `read`.
  unfoldable pub pass : Watch fs → World → Watch fs
  unfolding on_gone on_running
  pass s w =
      let (running, w') = process_exists fs tr fl per_second config paths s.pid w in
      if running then on_running s w' else on_gone s w'

  unfoldable pub expired : ℕ → Watch fs → Status → World → Loop fs
  unfolding pass
  expired timer_fd s failed w = returned failed (fs.close_file timer_fd w)
  expired timer_fd s done w = watching (pass s w)

  -- The body of the loop.
  unfoldable pub turn : ℕ → Watch fs → Loop fs
  unfolding expired
  turn timer_fd s = let (status, w) = ps.timer_read timer_fd s.world in expired timer_fd s status w

  unfoldable pub again : ℕ → Loop fs → Loop fs
  unfolding turn
  again timer_fd (watching s) = turn timer_fd s
  again timer_fd (returned status w) = returned status w

  -- The first passes of the loop, as many as are given.
  unfoldable pub turns : ℕ → ℕ → Loop fs → Loop fs
  unfolding again
  turns timer_fd zero l = l
  turns timer_fd (suc n) l = turns timer_fd n (again timer_fd l)

  unfoldable pub timer_started : ℕ → ℤ → ℕ → Status → World → Loop fs
  unfolding turns
  timer_started passes pid timer_fd failed w = returned failed (fs.close_file timer_fd w)
  timer_started passes pid timer_fd done w = turns timer_fd passes (
      watching (record {
        pid = pid;
        last_checkpoint = pos 0;
        current_interval = config.monitor_interval_sec;
        world = w;
      }))

  unfoldable pub timer_created : ℕ → ℤ → Option ℕ → World → Loop fs
  unfolding timer_started
  timer_created passes pid none w = returned failed w
  timer_created passes pid (some timer_fd) w =
      let (status, w') = ps.timer_set timer_fd config.monitor_interval_sec w in
      timer_started passes pid timer_fd status w'

  unfoldable pub pid_read : ℕ → ℤ × Status → World → Loop fs
  unfolding timer_created
  pid_read passes (pid, failed) w = returned failed w
  pid_read passes (pid, done) w =
      let (timer_fd, w') = ps.timer_create w in timer_created passes pid timer_fd w'

  -- `ulcr_monitor_loop`, as far as a number of passes.
  unfoldable pub monitor_loop : ℕ → World → Loop fs
  unfolding pid_read
  monitor_loop passes w =
      let (pid, w') = read_pid_from_file fs paths.pid_file (pos 0) w in pid_read passes pid w'
