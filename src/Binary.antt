-- ===== src/Binary.antt =====
-- The bytes of a C struct as the program writes them to a file with `write(fd, &s, sizeof(s))` on
-- x86-64: little-endian words, character arrays and padding, one after the other.
pub mod Words
pub mod Arrays
use user_level_checkpoint_re.Base.{ℕ, ◌+◌, ◌≡◌, ◌++◌, Bytes, length}

-- A type of fixed size in memory. `Fits` says which values of the model the C type can hold.
pub record Codec (A : Type 0) : Type 1 where
  pub size : ℕ
  pub put : A → Bytes
  pub get : Bytes → A
  pub Fits : A → Type 0
  pub length-put : (a : A) → length (put a) ≡ size
  pub get-put : (a : A) (rest : Bytes) → Fits a → get (put a ++ rest) ≡ a
