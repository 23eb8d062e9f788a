-- ===== src/Monitor/Loops.antt =====
-- The whole of `ulcr_monitor_loop` of src/manager.c.
use user_level_checkpoint_re.Base.{
  ℕ, zero, suc, ◌≡◌, refl, sym, ◌∙◌, ap, Option, none, some, List, length, Status, done, failed,
}
use user_level_checkpoint_re.Base.Int.{ℤ, pos, ◌≤ℤ◌}
use user_level_checkpoint_re.Config.{Config}
use user_level_checkpoint_re.Control.{read_pid_from_file}
use user_level_checkpoint_re.Doubles.{Doubles}
use user_level_checkpoint_re.Files.{Files}
use user_level_checkpoint_re.Files.Posix.{IsPosix}
use user_level_checkpoint_re.Paths.{RuntimePaths}
use user_level_checkpoint_re.Processes.{Processes, IsProcesses}
use user_level_checkpoint_re.Tracer.{Tracer}
use user_level_checkpoint_re.Monitor.{
  Watch, Loop, watching, returned, expired, turn, again, turns, timer_started, timer_created,
  pid_read, monitor_loop,
}
use user_level_checkpoint_re.Monitor.Refines.{restores, Passes-Course}
use user_level_checkpoint_re.Monitor.Runs.{first, turns-Passes, turns-fails, monitor_loop-Entered}
use user_level_checkpoint_re.Monitor.Supervisor.{Event, Course}
use user_level_checkpoint_re.Monitor.Trace.{Passes, view}

module _ (fs : Files) (tr : Tracer fs) (fl : Doubles) (per_second : ℤ) (config : Config)
    (paths : RuntimePaths) (ps : Processes fs) where
  -- A loop that has returned has failed.
  Fails : Loop fs → Type 0
  Fails l = (status : Status) (w : fs.World) → l ≡ returned status w → status ≡ failed

  timer_started-Fails :
      (n : ℕ) (pid : ℤ) (timer_fd : ℕ) (status : Status) (w : fs.World)
      → Fails (timer_started fs tr fl per_second config paths ps n pid timer_fd status w)
  unfolding timer_started Fails
  timer_started-Fails n pid timer_fd failed w status' w' e = cc
  timer_started-Fails n pid timer_fd done w status' w' e =
      turns-fails fs tr fl per_second config paths ps timer_fd n
        (watching (first fs tr fl per_second config paths ps pid w)) status' w'
        (λ status w e. absurd cc) e

  timer_created-Fails :
      (n : ℕ) (pid : ℤ) (fd : Option ℕ) (w : fs.World)
      → Fails (timer_created fs tr fl per_second config paths ps n pid fd w)
  unfolding timer_created Fails
  timer_created-Fails n pid none w status w' e = cc
  timer_created-Fails n pid (some timer_fd) w status' w' e =
      let r = ps.timer_set timer_fd config.monitor_interval_sec w in
      timer_started-Fails n pid timer_fd r.0 r.1 status' w' e

  pid_read-Fails :
      (n : ℕ) (r : ℤ × Status) (w : fs.World)
      → Fails (pid_read fs tr fl per_second config paths ps n r w)
  unfolding pid_read Fails
  pid_read-Fails n (pid, failed) w status w' e = cc
  pid_read-Fails n (pid, done) w status w' e =
      let r = ps.timer_create w in timer_created-Fails n pid r.0 r.1 status w' e

  -- `ulcr_monitor_loop` never returns with success: if it returns, on whatever pass, it returns -1.
  pub monitor_loop-fails :
      (n : ℕ) (w w' : fs.World) (status : Status)
      → monitor_loop fs tr fl per_second config paths ps n w ≡ returned status w'
      → status ≡ failed
  unfolding monitor_loop Fails
  monitor_loop-fails n w w' status e =
      let r = read_pid_from_file fs paths.pid_file (pos 0) w in pid_read-Fails n r.0 r.1 status w' e

  module _ (fires : (fd : ℕ) (w : fs.World) → (ps.timer_read fd w).0 ≡ done) where
    turn-watches :
        (timer_fd : ℕ) (s : Watch fs)
        → (t : Watch fs) × (turn fs tr fl per_second config paths ps timer_fd s ≡ watching t)
    unfolding turn expired
    turn-watches timer_fd s = rw (fires timer_fd s.world) (_, refl)

    turns-watches :
        (timer_fd n : ℕ) (s : Watch fs)
        → (t : Watch fs) × (turns fs tr fl per_second config paths ps timer_fd n (watching s)
            ≡ watching t)
    unfolding turns again
    turns-watches timer_fd zero s = (s, refl)
    turns-watches timer_fd (suc n) s =
        let (t, e) = turn-watches timer_fd s in
        let (u, k) = turns-watches timer_fd n t in (u, rw e k)

    -- As long as the timer fires, a loop that has been entered goes on for any number of passes.
    pub monitor_loop-goes_on :
        (n m : ℕ) (w : fs.World) (t : Watch fs)
        → monitor_loop fs tr fl per_second config paths ps n w ≡ watching t
        → (u : Watch fs) × (monitor_loop fs tr fl per_second config paths ps m w ≡ watching u)
    monitor_loop-goes_on n m w t e =
        let (read, (timer_fd, w', h, k)) =
          monitor_loop-Entered fs tr fl per_second config paths ps n w t e in
        let (u, q) = turns-watches timer_fd m (first fs tr fl per_second config paths ps _ w') in
        (u, k m ∙ q)

module _ (fs : Files) (px : IsPosix fs) (tr : Tracer fs) (fl : Doubles) (per_second : ℤ)
    (config : Config) (paths : RuntimePaths) (ps : Processes fs) (pl : IsProcesses fs px ps)
    (usable : pos 1 ≤ℤ config.checkpoint_interval_sec) where
  -- The run that has led to a state: from the pid in the pid file and the time 0, and a run of the
  -- supervisor with what happens in its passes.
  pub record Supervised (n : ℕ) (w : fs.World) (t : Watch fs) : Type 0 where
    pub pid : ℤ
    pub pid_found : (read_pid_from_file fs paths.pid_file (pos 0) w).0 ≡ (pid, done)
    pub pid_positive : pos 1 ≤ℤ pid
    pub timer_fd : ℕ
    pub started : fs.World
    pub entered :
        monitor_loop fs tr fl per_second config paths ps zero w
        ≡ watching (first fs tr fl per_second config paths ps pid started)
    pub events : List Event
    pub counted : length events ≡ n
    pub run :
        Passes fs tr fl per_second config paths ps timer_fd
          (first fs tr fl per_second config paths ps pid started)
          events
          t
    pub course :
        Course
          (restores fs px tr fl per_second config paths ps pl usable)
          config.checkpoint_interval_sec
          (record { pid = pid; last = pos 0 })
          events
          (view t)

  -- For a configured checkpoint interval of at least 1 second, `ulcr_monitor_loop` is a supervisor:
  -- where it stands after a number of passes is where the supervisor is led by what happens in these
  -- passes, from the pid of the pid file, which is above 0, and the time 0. So it changes the pid only
  -- to one above 0 in place of a process that has gone, and only if `auto_restore` is not 0; it makes
  -- a checkpoint only where the interval of this pass, which is 1 up to the configured number of
  -- seconds, has passed since the last one, and then does; and its times are those of the clock.
  pub monitor_loop-Supervised :
      (n : ℕ) (w : fs.World) (t : Watch fs)
      → monitor_loop fs tr fl per_second config paths ps n w ≡ watching t
      → Supervised n w t
  unfolding turns
  monitor_loop-Supervised n w t e =
      let found = read_pid_from_file fs paths.pid_file (pos 0) w in
      let (read, (timer_fd, w', h, k)) =
        monitor_loop-Entered fs tr fl per_second config paths ps n w t e in
      let start = first fs tr fl per_second config paths ps found.0.0 w' in
      let (es, count, run) =
        turns-Passes fs tr fl per_second config paths ps timer_fd n start t (sym (k n) ∙ e) in
      record {
        pid = found.0.0;
        pid_found = ap (λ s. (found.0.0, s)) read;
        pid_positive = h;
        timer_fd = timer_fd;
        started = w';
        entered = k zero;
        events = es;
        counted = count;
        run = run;
        course = Passes-Course fs px tr fl per_second config paths ps pl usable timer_fd run;
      }
