-- ===== src/Binary/Words.antt =====
-- Unsigned and signed words.
use native.Mathlib.Nat.{pow-suc}
use user_level_checkpoint_re.Base.{
  ℕ, zero, suc, ◌+◌, ◌-◌, ◌*◌, ◌/◌, ◌%◌, ◌^◌, ◌<◌, ◌≡◌, refl, ap, [], ◌∷◌, ◌++◌, Bytes, length, ltb,
  if◌then◌else◌, arith,
}
use user_level_checkpoint_re.Base.Int.{ℤ, pos, negsuc}

-- The low bytes of a number, the lowest first.
unfoldable pub put_word : ℕ → ℕ → Bytes
put_word zero n = []
put_word (suc k) n = (n % 256) ∷ put_word k (n / 256)

unfoldable pub get_word : ℕ → Bytes → ℕ
get_word zero s = 0
get_word (suc k) [] = 0
get_word (suc k) (b ∷ bs) = b + 256 * get_word k bs

pub length-put_word : (k n : ℕ) → length (put_word k n) ≡ k
unfolding put_word
length-put_word zero n = refl
length-put_word (suc k) n = ap suc (length-put_word k (n / 256))

pub get_word-put_word :
    (k n : ℕ) (rest : Bytes) → n < 256 ^ k → get_word k (put_word k n ++ rest) ≡ n
unfolding put_word get_word
get_word-put_word zero n rest h = omega arith
get_word-put_word (suc k) n rest h =
    omega (arith, get_word-put_word k (n / 256) rest (omega (arith, pow-suc 256 k)))

-- The 32 bits of an `int`.
unfoldable pub bits_of_int : ℤ → ℕ
bits_of_int (pos n) = n
bits_of_int (negsuc n) = 2 ^ 32 - 1 - n

-- The 64 bits of a `long long`, and the value of such bits.
unfoldable pub bits_of_long : ℤ → ℕ
bits_of_long (pos n) = n
bits_of_long (negsuc n) = 2 ^ 64 - 1 - n

unfoldable pub long_of_bits : ℕ → ℤ
long_of_bits w = if ltb w (2 ^ 63) then pos w else negsuc (2 ^ 64 - w - 1)

-- The range of a `long long`.
abbrev pub IsLong : ℤ → Type 0
IsLong (pos n) = n < 2 ^ 63
IsLong (negsuc n) = n < 2 ^ 63
