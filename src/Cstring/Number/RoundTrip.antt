-- ===== src/Cstring/Number/RoundTrip.antt =====
-- Reading a printed number gives it back.
use user_level_checkpoint_re.Base.{
  ℕ, zero, suc, ◌+◌, ◌*◌, ◌/◌, ◌%◌, ◌^◌, ◌≤◌, ◌<◌, ◌≡◌, refl, ◌∙◌, ap, Bool, true, false, none,
  some, [], ◌∷◌, inl, inr, ltb, Bytes, arith, Bool-cases,
}
use user_level_checkpoint_re.Base.Int.{ℤ, pos, negsuc}
use user_level_checkpoint_re.Cstring.Number.{
  digit_char, char_digit, digits_onto, print_onto, print_ℤ_onto, scan_digits, is_space, skip_space,
  scan_sign, clamp_long, strtol, atoi,
}

-- `rest` does not go on with a digit of the base.
abbrev pub NoDigit : ℕ → Bytes → Type 0
NoDigit base [] = Unit
NoDigit base (c ∷ _) = char_digit base c ≡ none

pub char_digit-digit_char :
    (base d : ℕ) → d < base → base ≤ 16 → char_digit base (digit_char d) ≡ some d
unfolding char_digit digit_char
char_digit-digit_char base d h b = ground arith

scan_digits-NoDigit :
    (base n : ℕ) (rest : Bytes) → NoDigit base rest → scan_digits base n rest ≡ (n, rest)
unfolding scan_digits
scan_digits-NoDigit base n [] h = refl
scan_digits-NoDigit base n (c ∷ cs) h = rw (h, scan_digits)

scan_digits-digit_char :
    (base n d : ℕ) (rest : Bytes)
    → d < base
    → base ≤ 16
    → scan_digits base n (digit_char d ∷ rest) ≡ scan_digits base (n * base + d) rest
unfolding scan_digits
scan_digits-digit_char base n d rest h b = rw (char_digit-digit_char base d h b, scan_digits)

div_mod : (base n : ℕ) → n / base * base + n % base ≡ n
div_mod base n = omega arith

quotient-lt : (base fuel n : ℕ) → 2 ≤ base → base ≤ n → n < suc fuel → n / base < fuel
quotient-lt base fuel n b c h = grind (arith, div_mod)

scan_digits-digits_onto :
    (base fuel n : ℕ) (rest : Bytes)
    → 2 ≤ base
    → base ≤ 16
    → n < fuel
    → scan_digits base 0 (digits_onto base fuel n rest) ≡ scan_digits base n rest
unfolding digits_onto
scan_digits-digits_onto base zero n rest b c h = absurd (omega arith)
scan_digits-digits_onto base (suc fuel) n rest b c h = elim (Bool-cases (ltb n base)) [
  | inl small ↦
      rw (small, digits_onto)
        (scan_digits-digit_char base 0 n rest (ground arith) c
          ∙ ap (λ k. scan_digits base k rest) (omega arith))
  | inr large ↦
      rw (large, digits_onto)
        (scan_digits-digits_onto base fuel (n / base) (digit_char (n % base) ∷ rest) b c
            (quotient-lt base fuel n b (ground arith) h)
          ∙ scan_digits-digit_char base (n / base) (n % base) rest (omega arith) c
          ∙ ap (λ k. scan_digits base k rest) (omega (arith, div_mod base n)))
]

-- A printed number reads back, whatever follows it but a digit.
pub scan_digits-print_onto :
    (base n : ℕ) (rest : Bytes)
    → 2 ≤ base
    → base ≤ 16
    → NoDigit base rest
    → scan_digits base 0 (print_onto base n rest) ≡ (n, rest)
unfolding print_onto
scan_digits-print_onto base n rest b c h =
    scan_digits-digits_onto base (suc n) n rest b c (omega arith)
    ∙ scan_digits-NoDigit base n rest h

skip-digits_onto :
    (fuel n : ℕ) (rest : Bytes)
    → n < fuel
    → scan_sign (skip_space (digits_onto 10 fuel n rest)) ≡ (false, digits_onto 10 fuel n rest)
unfolding digits_onto
skip-digits_onto zero n rest h = absurd (omega arith)
skip-digits_onto (suc fuel) n rest h = elim (Bool-cases (ltb n 10)) [
  | inl small ↦
      rw (small, digits_onto) (unfold scan_sign skip_space is_space digit_char in ground arith)
  | inr large ↦
      rw (large, digits_onto)
        (skip-digits_onto fuel (n / 10) (digit_char (n % 10) ∷ rest) (ground arith))
]

-- A digit comes first.
abbrev pub HeadDigit : Bytes → Type 0
HeadDigit [] = ⊥
HeadDigit (c ∷ _) = (d : ℕ) × (char_digit 10 c ≡ some d)

digits_onto-HeadDigit :
    (fuel n : ℕ) (rest : Bytes) → n < fuel → HeadDigit (digits_onto 10 fuel n rest)
unfolding digits_onto
digits_onto-HeadDigit zero n rest h = absurd (omega arith)
digits_onto-HeadDigit (suc fuel) n rest h = elim (Bool-cases (ltb n 10)) [
  | inl small ↦ rw (small, digits_onto) (n, char_digit-digit_char 10 n (ground arith) (omega arith))
  | inr large ↦
      rw (large, digits_onto)
        (digits_onto-HeadDigit fuel (n / 10) (digit_char (n % 10) ∷ rest) (ground arith))
]

pub print_onto-HeadDigit : (n : ℕ) (rest : Bytes) → HeadDigit (print_onto 10 n rest)
unfolding print_onto
print_onto-HeadDigit n rest = digits_onto-HeadDigit (suc n) n rest (omega arith)

-- The range of an `int`.
abbrev pub IsInt : ℤ → Type 0
IsInt (pos n) = n < 2 ^ 31
IsInt (negsuc n) = n < 2 ^ 31

pub sign-print_onto :
    (n : ℕ) (rest : Bytes)
    → scan_sign (skip_space (print_onto 10 n rest)) ≡ (false, print_onto 10 n rest)
unfolding print_onto
sign-print_onto n rest = skip-digits_onto (suc n) n rest (omega arith)

pub sign-minus : (s : Bytes) → scan_sign (skip_space (b'-' ∷ s)) ≡ (true, s)
unfolding scan_sign skip_space is_space
sign-minus s = refl

strtol_body :
    (negative : Bool) (n : ℕ) (s rest : Bytes)
    → scan_sign (skip_space s) ≡ (negative, print_onto 10 n rest)
    → NoDigit 10 rest
    → strtol 10 s ≡ clamp_long negative n
unfolding strtol
strtol_body negative n s rest e k =
    ap (λ (r : Bool × Bytes). clamp_long r.0 (scan_digits 10 0 r.1).0) e
    ∙ ap (λ (r : ℕ × Bytes). clamp_long negative r.0)
        (scan_digits-print_onto 10 n rest (omega arith) (omega arith) k)

-- `atoi` gives back every `int` that is printed by %d, with no digit behind it.
pub atoi-print_ℤ_onto :
    (z : ℤ) (rest : Bytes) → IsInt z → NoDigit 10 rest → atoi (print_ℤ_onto z rest) ≡ z
unfolding atoi print_ℤ_onto
atoi-print_ℤ_onto (pos n) rest h k =
    rw (strtol_body false n _ rest (sign-print_onto n rest) k) (unfold clamp_long in ground arith)
atoi-print_ℤ_onto (negsuc n) rest h k =
    rw (strtol_body true (suc n) _ rest (sign-minus _) k) (unfold clamp_long in ground arith)
