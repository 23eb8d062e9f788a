-- ===== src/Monitor/Runs.antt =====
-- The loop of `ulcr_monitor_loop` of src/manager.c, as far as a number of passes, and its runs.
use user_level_checkpoint_re.Base.{
  ℕ, zero, suc, ◌≡◌, refl, ap, Option, none, some, List, [], Bytes, length, Status, done, failed,
  arith,
}
use user_level_checkpoint_re.Base.Int.{ℤ, pos, ◌≤ℤ◌}
use user_level_checkpoint_re.Config.{Config}
use user_level_checkpoint_re.Control.{pid_of_text, read_pid_from_file}
use user_level_checkpoint_re.Doubles.{Doubles}
use user_level_checkpoint_re.Files.{Files}
use user_level_checkpoint_re.Paths.{RuntimePaths}
use user_level_checkpoint_re.Processes.{Processes}
use user_level_checkpoint_re.Storage.{read_text_file}
use user_level_checkpoint_re.Tracer.{Tracer}
use user_level_checkpoint_re.Monitor.{
  Watch, Loop, watching, returned, expired, turn, again, turns, timer_started, timer_created,
  pid_read, monitor_loop,
}
use user_level_checkpoint_re.Monitor.Supervisor.{Event}
use user_level_checkpoint_re.Monitor.Trace.{Passes, stays, passes}

module _ (fs : Files) (tr : Tracer fs) (fl : Doubles) (per_second : ℤ) (config : Config)
    (paths : RuntimePaths) (ps : Processes fs) where
  abbrev Run : ℕ → Watch fs → List Event → Watch fs → Type 0
  Run = Passes fs tr fl per_second config paths ps

  module _ (timer_fd : ℕ) where
    turns-returned :
        (n : ℕ) (status : Status) (w : fs.World)
        → turns fs tr fl per_second config paths ps timer_fd n (returned status w)
          ≡ returned status w
    unfolding turns again
    turns-returned zero status w = refl
    turns-returned (suc n) status w = turns-returned n status w

    -- A loop that still watches after some passes has made that many.
    pub turns-Passes :
        (n : ℕ) (s t : Watch fs)
        → turns fs tr fl per_second config paths ps timer_fd n (watching s) ≡ watching t
        → (es : List Event) × (length es ≡ n) × Run timer_fd s es t
    unfolding turns again
    turns-Passes zero s t e = let q : t ≡ s = cc in rw q ([], refl, stays)
    turns-Passes (suc n) s t e =
        go (λ u. turns-Passes n u t) (turn fs tr fl per_second config paths ps timer_fd s) refl e
      where
        go :
            ((u : Watch fs)
              → turns fs tr fl per_second config paths ps timer_fd n (watching u) ≡ watching t
              → (es : List Event) × (length es ≡ n) × Run timer_fd u es t)
            → (l : Loop fs) → turn fs tr fl per_second config paths ps timer_fd s ≡ l
            → turns fs tr fl per_second config paths ps timer_fd n l ≡ watching t
            → (es : List Event) × (length es ≡ suc n) × Run timer_fd s es t
        go ih (returned status w) k h = absurd (cc (turns-returned n status w, h))
        go ih (watching u) k h = let (es, count, rest) = ih u h in (_, ap suc count, passes k rest)

    pub turns-fails :
        (n : ℕ) (l : Loop fs) (status : Status) (w : fs.World)
        → ((status' : Status) (w' : fs.World) → l ≡ returned status' w' → status' ≡ failed)
        → turns fs tr fl per_second config paths ps timer_fd n l ≡ returned status w
        → status ≡ failed
    unfolding turns again turn expired
    turns-fails zero l status w h e = h status w e
    turns-fails (suc n) (returned status' w') status w h e = turns-fails n _ status w h e
    turns-fails (suc n) (watching s) status w h e =
        let r = ps.timer_read timer_fd s.world in turns-fails n _ status w (go r.0 r.1) e
      where
        go :
            (read : Status) (w1 : fs.World) (status' : Status) (w' : fs.World)
            → expired fs tr fl per_second config paths ps timer_fd s read w1 ≡ returned status' w'
            → status' ≡ failed
        go failed w1 status' w' k = cc
        go done w1 status' w' k = absurd cc

  -- How the loop is entered.
  abbrev pub first : ℤ → fs.World → Watch fs
  first pid w = record {
    pid = pid;
    last_checkpoint = pos 0;
    current_interval = config.monitor_interval_sec;
    world = w;
  }

  -- A loop, by the number of its passes, that starts them with this pid, which is above 0.
  abbrev pub Entered : ℤ → (ℕ → Loop fs) → Type 0
  Entered pid l =
      (timer_fd : ℕ) × (w : fs.World) × (pos 1 ≤ℤ pid)
      × ((m : ℕ)
          → l m ≡ turns fs tr fl per_second config paths ps timer_fd m (watching (first pid w)))

  timer_started-Entered :
      (n : ℕ) (pid : ℤ) (timer_fd : ℕ) (status : Status) (w : fs.World) (t : Watch fs)
      → pos 1 ≤ℤ pid
      → timer_started fs tr fl per_second config paths ps n pid timer_fd status w ≡ watching t
      → Entered pid (λ m. timer_started fs tr fl per_second config paths ps m pid timer_fd status w)
  unfolding timer_started
  timer_started-Entered n pid timer_fd failed w t h e = absurd cc
  timer_started-Entered n pid timer_fd done w t h e = (timer_fd, w, h, λ m. refl)

  timer_created-Entered :
      (n : ℕ) (pid : ℤ) (fd : Option ℕ) (w : fs.World) (t : Watch fs)
      → pos 1 ≤ℤ pid
      → timer_created fs tr fl per_second config paths ps n pid fd w ≡ watching t
      → Entered pid (λ m. timer_created fs tr fl per_second config paths ps m pid fd w)
  unfolding timer_created
  timer_created-Entered n pid none w t h e = absurd cc
  timer_created-Entered n pid (some timer_fd) w t h e =
      let r = ps.timer_set timer_fd config.monitor_interval_sec w in
      timer_started-Entered n pid timer_fd r.0 r.1 t h e

  pid_read-Entered :
      (n : ℕ) (r : ℤ × Status) (w : fs.World) (t : Watch fs)
      → (r.1 ≡ done → pos 1 ≤ℤ r.0)
      → pid_read fs tr fl per_second config paths ps n r w ≡ watching t
      → Entered r.0 (λ m. pid_read fs tr fl per_second config paths ps m r w)
  unfolding pid_read
  pid_read-Entered n (pid, failed) w t h e = absurd cc
  pid_read-Entered n (pid, done) w t h e =
      let r = ps.timer_create w in timer_created-Entered n pid r.0 r.1 t (h refl) e

  pid_read-done :
      (n : ℕ) (r : ℤ × Status) (w : fs.World) (t : Watch fs)
      → pid_read fs tr fl per_second config paths ps n r w ≡ watching t
      → r.1 ≡ done
  unfolding pid_read
  pid_read-done n (pid, failed) w t e = absurd cc
  pid_read-done n (pid, done) w t e = refl

  pid_of_text-positive :
      (old : ℤ) (o : Option Bytes) → (pid_of_text old o).1 ≡ done → pos 1 ≤ℤ (pid_of_text old o).0
  unfolding pid_of_text
  pid_of_text-positive old none e = absurd cc
  pid_of_text-positive old (some text) e = ground arith

  -- A loop that watches after some passes has been entered with the pid of the pid file.
  pub monitor_loop-Entered :
      (n : ℕ) (w : fs.World) (t : Watch fs)
      → monitor_loop fs tr fl per_second config paths ps n w ≡ watching t
      → ((read_pid_from_file fs paths.pid_file (pos 0) w).0.1 ≡ done)
        × Entered
            (read_pid_from_file fs paths.pid_file (pos 0) w).0.0
            (λ m. monitor_loop fs tr fl per_second config paths ps m w)
  unfolding monitor_loop read_pid_from_file
  monitor_loop-Entered n w t e =
      let r = read_text_file fs paths.pid_file 64 w in
      (
        pid_read-done n (pid_of_text (pos 0) r.0) r.1 t e,
        pid_read-Entered n (pid_of_text (pos 0) r.0) r.1 t (pid_of_text-positive (pos 0) r.0) e,
      )
