-- ===== src/Files.antt =====
-- The file calls of the operating system, over an unknown state of the machine, and the state monad
-- in which the sources call them. The kernel and the C library's input and output are not part of
-- the repository: they are a value of `Files`, and what is relied on is in Files/Posix.
pub mod Posix
pub mod Memory
pub mod Calm
use user_level_checkpoint_re.Base.{ℕ, Bool, Option, none, some, [], Bytes, Status}

-- The flags of `open` that the sources use.
pub data OpenMode : Type 0 where
  -- O_RDONLY, and O_RDONLY | O_DIRECTORY
  read_only directory : OpenMode
  -- O_WRONLY | O_CREAT with O_TRUNC, with O_APPEND, and alone
  write_truncate write_append write_create : OpenMode

-- `mkdir`: made, failed with EEXIST, failed otherwise.
pub data MkdirResult : Type 0 where
  created exists refused : MkdirResult

-- A call returns its result and the next state. A descriptor is `none` for -1, and a count too.
pub record Files : Type 1 where
  pub World : Type 0
  pub open_file : OpenMode → Bytes → World → Option ℕ × World
  pub close_file : ℕ → World → World
  pub write : ℕ → Bytes → World → Option ℕ × World
  pub pwrite : ℕ → Bytes → ℕ → World → Option ℕ × World
  pub read : ℕ → ℕ → World → Option Bytes × World
  pub lseek_current : ℕ → World → Option ℕ × World
  pub fsync : ℕ → World → Status × World
  pub rename : Bytes → Bytes → World → Status × World
  pub unlink : Bytes → World → World
  pub mkdir : Bytes → World → MkdirResult × World
  pub access : Bytes → World → Bool × World
  pub flock : ℕ → World → Status × World
  pub funlock : ℕ → World → World
  pub now_text : World → Option Bytes × World

-- `x ← m; rest` runs `m` and goes on from the state that it leaves.
infixl 5 ◌>>=◌ ◌>>◌
abbrev pub ◌>>=◌ : {W A B : Type 0} → (W → A × W) → (A → W → B × W) → W → B × W
◌>>=◌ m f w = let (a, w') = m w in f a w'

-- A call whose result is not looked at, or that has none.
abbrev pub ◌>>◌ : {W B : Type 0} → (W → W) → (W → B × W) → W → B × W
◌>>◌ m n w = n (m w)

abbrev pub pure : {W A : Type 0} → A → W → A × W
pure a w = (a, w)

-- Drops the result of a call.
abbrev pub ignore : {W A : Type 0} → (W → A × W) → W → W
ignore m w = (m w).1
