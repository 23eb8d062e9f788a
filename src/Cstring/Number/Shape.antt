-- ===== src/Cstring/Number/Shape.antt =====
-- The characters and the length of a printed number.
use native.Mathlib.Nat.{pow-suc}
use user_level_checkpoint_re.Base.{
  ℕ, zero, suc, ◌+◌, ◌/◌, ◌%◌, ◌^◌, ◌≤◌, ◌<◌, ◌≡◌, refl, Bool, true, [], ◌∷◌, ◌==◌, ◌&&◌, ◌||◌, inl,
  inr, leb, ltb, Bytes, all, length, arith, Bool-cases,
}
use user_level_checkpoint_re.Base.Int.{ℤ, pos, negsuc}
use user_level_checkpoint_re.Cstring.Number.{digit_char, digits_onto, print_onto, print_ℤ_onto}
use user_level_checkpoint_re.Cstring.Number.RoundTrip.{IsInt}

-- A decimal digit, or the sign.
abbrev pub is_numeral : ℕ → Bool
is_numeral c = (leb b'0' c && leb c b'9') || c == b'-'

digit_char-is_numeral : (d : ℕ) → d < 10 → is_numeral (digit_char d) ≡ true
unfolding digit_char
digit_char-is_numeral d h = ground arith

-- A test that all numerals pass holds throughout a printed number, if it holds behind it.
module _ (p : ℕ → Bool) (passes : (c : ℕ) → is_numeral c ≡ true → p c ≡ true) where
  digits_onto-all :
      (fuel n : ℕ) (rest : Bytes) → all p rest ≡ true → all p (digits_onto 10 fuel n rest) ≡ true
  unfolding digits_onto
  digits_onto-all zero n rest h = h
  digits_onto-all (suc fuel) n rest h = elim (Bool-cases (ltb n 10)) [
    | inl small ↦
        rw (small, digits_onto)
          (ground (arith, passes (digit_char n) (digit_char-is_numeral n (ground arith))))
    | inr large ↦
        rw (large, digits_onto)
          (digits_onto-all fuel (n / 10) (digit_char (n % 10) ∷ rest) (
            ground
              (arith, passes (digit_char (n % 10)) (digit_char-is_numeral (n % 10) (omega arith)))))
  ]

  pub print_ℤ_onto-all :
      (z : ℤ) (rest : Bytes) → all p rest ≡ true → all p (print_ℤ_onto z rest) ≡ true
  unfolding print_ℤ_onto print_onto
  print_ℤ_onto-all (pos n) rest h = digits_onto-all (suc n) n rest h
  print_ℤ_onto-all (negsuc n) rest h =
      ground (arith, passes b'-' refl, digits_onto-all (suc (suc n)) (suc n) rest h)

pub print_ℤ_onto-is_numeral : (z : ℤ) → all is_numeral (print_ℤ_onto z []) ≡ true
print_ℤ_onto-is_numeral z = print_ℤ_onto-all is_numeral (λ c h. h) z [] refl

-- A number below 10 ^ (k + 1) has at most k + 1 digits.
length-digits_onto :
    (k fuel n : ℕ) (rest : Bytes)
    → n < 10 ^ suc k
    → length (digits_onto 10 fuel n rest) ≤ suc k + length rest
unfolding digits_onto
length-digits_onto k zero n rest h = omega arith
length-digits_onto zero (suc fuel) n rest h =
    let small : ltb n 10 ≡ true = ground arith in rw (small, digits_onto) (omega arith)
length-digits_onto (suc k) (suc fuel) n rest h = elim (Bool-cases (ltb n 10)) [
  | inl small ↦ rw (small, digits_onto) (omega arith)
  | inr large ↦
      rw (large, digits_onto)
        (omega (
          arith,
          length-digits_onto k fuel (n / 10) (digit_char (n % 10) ∷ rest)
              (omega (arith, pow-suc 10 (suc k))),
        ))
]

pub length-print_ℤ_onto_before :
    (z : ℤ) (rest : Bytes) → IsInt z → length (print_ℤ_onto z rest) ≤ 11 + length rest
unfolding print_ℤ_onto print_onto
length-print_ℤ_onto_before (pos n) rest h =
    omega (arith, length-digits_onto 9 (suc n) n rest (omega arith))
length-print_ℤ_onto_before (negsuc n) rest h =
    omega (arith, length-digits_onto 9 (suc (suc n)) (suc n) rest (omega arith))

pub length-print_ℤ_onto : (z : ℤ) → IsInt z → length (print_ℤ_onto z []) ≤ 11
length-print_ℤ_onto z h = omega (arith, length-print_ℤ_onto_before z [] h)
