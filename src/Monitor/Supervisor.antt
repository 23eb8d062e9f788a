-- ===== src/Monitor/Supervisor.antt =====
-- What the monitor of src/manager.c promises, without the machine: a process is watched, a process
-- that has gone is replaced, and one that runs is checkpointed when its interval has passed.
use user_level_checkpoint_re.Base.{◌≡◌, Bool, true, false, List, [], ◌∷◌}
use user_level_checkpoint_re.Base.Int.{ℤ, pos, leb_ℤ, minus_ℤ, ◌≤ℤ◌}

-- The process that is watched and the time of its last checkpoint.
pub record Watched : Type 0 where
  pub pid : ℤ
  pub last : ℤ

-- What happens in a pass: the process has gone and is left, could not be replaced, or is replaced by
-- another at a time; it runs, and with an interval its checkpoint is not due at a time, or is due and
-- fails, or is due and made at a later time.
pub data Event : Type 0 where
  ignored unrevived : Event
  replaced : ℤ → ℤ → Event
  waited : ℤ → ℤ → Event
  missed : ℤ → ℤ → Event
  saved : ℤ → ℤ → ℤ → Event

-- An interval of 1 up to `base` seconds.
abbrev pub InBase : ℤ → ℤ → Type 0
InBase base interval = (pos 1 ≤ℤ interval) × (interval ≤ℤ base)

-- The steps of a supervisor that replaces processes if `auto_restore`.
pub data Supervises (auto_restore : Bool) (base : ℤ) : Watched → Event → Watched → Type 0 where
  ignores : {s : Watched} → auto_restore ≡ false → Supervises auto_restore base s ignored s
  gives_up : {s : Watched} → auto_restore ≡ true → Supervises auto_restore base s unrevived s
  replaces :
      {s : Watched} (pid now : ℤ)
      → auto_restore ≡ true
      → pos 1 ≤ℤ pid
      → Supervises auto_restore base s (replaced pid now) (record { pid = pid; last = now })
  waits :
      {s : Watched} (interval now : ℤ)
      → InBase base interval
      → leb_ℤ interval (minus_ℤ now s.last) ≡ false
      → Supervises auto_restore base s (waited interval now) s
  misses :
      {s : Watched} (interval now : ℤ)
      → InBase base interval
      → leb_ℤ interval (minus_ℤ now s.last) ≡ true
      → Supervises auto_restore base s (missed interval now) s
  saves :
      {s : Watched} (interval now later : ℤ)
      → InBase base interval
      → leb_ℤ interval (minus_ℤ now s.last) ≡ true
      → Supervises auto_restore base s (saved interval now later) (record s { last = later })

-- The runs of the supervisor.
pub data Course (auto_restore : Bool) (base : ℤ) : Watched → List Event → Watched → Type 0 where
  rests : {s : Watched} → Course auto_restore base s [] s
  goes :
      {s t u : Watched} {e : Event} {es : List Event}
      → Supervises auto_restore base s e t
      → Course auto_restore base t es u
      → Course auto_restore base s (e ∷ es) u
