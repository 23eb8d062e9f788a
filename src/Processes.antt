-- ===== src/Processes.antt =====
-- The calls with which src/manager.c and src/snapshot.c start, end and watch processes, over the
-- state of the file calls, and the laws that are relied on. A child runs beside its parent: `fork`
-- is what the parent sees, and the code of a child is a definition of its own.
use user_level_checkpoint_re.Base.{ℕ, ◌≡◌, Bool, Option, some, List, Bytes, Status}
use user_level_checkpoint_re.Base.Int.{ℤ, pos, ◌≤ℤ◌}
use user_level_checkpoint_re.Cstring.Number.RoundTrip.{IsInt}
use user_level_checkpoint_re.Files.{Files}
use user_level_checkpoint_re.Files.Posix.{IsPosix}

-- SIGKILL and SIGTERM
pub data Signal : Type 0 where
  sigkill sigterm : Signal

-- What has become of a child: it runs another program, with its arguments, or it has ended.
pub data Child : Type 0 where
  runs : Bytes → List Bytes → Child
  exits : ℕ → Child

pub record Processes (fs : Files) : Type 1 where
  -- `fork` in the parent: the child, or `none` for -1
  pub fork : fs.World → Option ℤ × fs.World
  pub kill : ℤ → Signal → fs.World → Status × fs.World
  -- `time(NULL)`
  pub time : fs.World → ℤ × fs.World
  -- `timerfd_create`, `timerfd_settime` with one number of seconds for the first expiration and for
  -- the period, and whether `read` gives the 8 bytes of the number of expirations
  pub timer_create : fs.World → Option ℕ × fs.World
  pub timer_set : ℕ → ℤ → fs.World → Status × fs.World
  pub timer_read : ℕ → fs.World → Status × fs.World
  -- `fopen(path, "r")` and all that is read of the stream
  pub stream : Bytes → fs.World → Option Bytes × fs.World
  -- `setsid()`, `setenv("ULCR_RESTORE_SNAPSHOT", value, 1)`, and whether `execv` has replaced the
  -- program
  pub setsid : fs.World → fs.World
  pub set_snapshot : Bytes → fs.World → fs.World
  pub execv : Bytes → List Bytes → fs.World → Bool × fs.World

-- None of the calls changes a file, and a child's number is an `int` above 0.
pub record IsProcesses (fs : Files) (px : IsPosix fs) (ps : Processes fs) : Type 0 where
  pub fork-file : (w : fs.World) (q : Bytes) → px.file (ps.fork w).1 q ≡ px.file w q
  pub fork-pid : (w : fs.World) (pid : ℤ) → (ps.fork w).0 ≡ some pid → (pos 1 ≤ℤ pid) × IsInt pid
  pub kill-file :
      (pid : ℤ) (signal : Signal) (w : fs.World) (q : Bytes)
      → px.file (ps.kill pid signal w).1 q ≡ px.file w q
  pub time-file : (w : fs.World) (q : Bytes) → px.file (ps.time w).1 q ≡ px.file w q
  pub timer_create-file : (w : fs.World) (q : Bytes) → px.file (ps.timer_create w).1 q ≡ px.file w q
  pub timer_set-file :
      (fd : ℕ) (seconds : ℤ) (w : fs.World) (q : Bytes)
      → px.file (ps.timer_set fd seconds w).1 q ≡ px.file w q
  pub timer_read-file :
      (fd : ℕ) (w : fs.World) (q : Bytes) → px.file (ps.timer_read fd w).1 q ≡ px.file w q
  pub stream-file :
      (path : Bytes) (w : fs.World) (q : Bytes) → px.file (ps.stream path w).1 q ≡ px.file w q
