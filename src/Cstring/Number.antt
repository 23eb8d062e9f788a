-- ===== src/Cstring/Number.antt =====
-- Numbers in text: the conversions %d, %u, %zu, %lld, %llx, and `atoi`, `atoll`, `strtol`.
pub mod RoundTrip
pub mod Shape
use user_level_checkpoint_re.Base.{
  ℕ, zero, suc, ◌+◌, ◌-◌, ◌*◌, ◌/◌, ◌%◌, ◌^◌, Bool, true, false, ◌&&◌, ◌||◌, Option, none, some, [],
  ◌∷◌, ◌++◌, ◌==◌, leb, ltb, if◌then◌else◌, Bytes,
}
use user_level_checkpoint_re.Base.Int.{ℤ, pos, negsuc, neg_of, to_int}

-- The character of a digit below 16.
unfoldable pub digit_char : ℕ → ℕ
digit_char d = if ltb d 10 then b'0' + d else b'a' - 10 + d

-- The digit that a character stands for in a base up to 16.
unfoldable pub char_digit : ℕ → ℕ → Option ℕ
char_digit base c =
    let d : ℕ =
      if leb b'0' c && leb c b'9'
      then c - b'0'
      else if leb b'a' c && leb c b'f'
      then c - b'a' + 10
      else if leb b'A' c && leb c b'F'
      then c - b'A' + 10
      else base in
    if ltb d base then some d else none

-- The digits of a number in front of `rest`; the fuel is to pass the number.
digits_onto : ℕ → ℕ → ℕ → Bytes → Bytes
digits_onto base zero n rest = rest
digits_onto base (suc fuel) n rest = elim (ltb n base) [
  | true ↦ digit_char n ∷ rest
  | false ↦ digits_onto base fuel (n / base) (digit_char (n % base) ∷ rest)
]

-- A number, in front of `rest`.
unfoldable pub print_onto : ℕ → ℕ → Bytes → Bytes
unfolding digits_onto digit_char
print_onto base n rest = digits_onto base (suc n) n rest

unfoldable pub print_ℤ_onto : ℤ → Bytes → Bytes
print_ℤ_onto (pos n) rest = print_onto 10 n rest
print_ℤ_onto (negsuc n) rest = b'-' ∷ print_onto 10 (suc n) rest

-- The number that the leading digits stand for, behind digits that stand for `n`, and the rest.
unfoldable pub scan_digits : ℕ → ℕ → Bytes → ℕ × Bytes
scan_digits base n [] = (n, [])
scan_digits base n (c ∷ cs) = elim (char_digit base c) [
  | none ↦ (n, c ∷ cs)
  | some d ↦ scan_digits base (n * base + d) cs
]

-- `isspace` in the C locale: tab, newline, vertical tab, form feed, carriage return and blank.
unfoldable pub is_space : ℕ → Bool
is_space c = (leb 9 c && leb c 13) || c == b' '

unfoldable pub skip_space : Bytes → Bytes
skip_space [] = []
skip_space (c ∷ cs) = if is_space c then skip_space cs else c ∷ cs

-- A sign: whether it is negative, and what follows.
unfoldable pub scan_sign : Bytes → Bool × Bytes
scan_sign [] = (false, [])
scan_sign (c ∷ cs) =
    if c == b'-' then (true, cs) else if c == b'+' then (false, cs) else (false, c ∷ cs)

-- `strtol` stops at the limits of a 64-bit `long`.
unfoldable pub clamp_long : Bool → ℕ → ℤ
clamp_long false n = pos (if ltb n (2 ^ 63) then n else 2 ^ 63 - 1)
clamp_long true n = neg_of (if leb n (2 ^ 63) then n else 2 ^ 63)

-- `strtol(s, NULL, base)` for the bases 8 and 10, and `atoll` for base 10.
unfoldable pub strtol : ℕ → Bytes → ℤ
unfolding scan_digits char_digit skip_space is_space scan_sign clamp_long
strtol base s =
    let (negative, body) = scan_sign (skip_space s) in
    clamp_long negative (scan_digits base 0 body).0

-- `atoi(s)` is `(int) strtol(s, NULL, 10)`.
unfoldable pub atoi : Bytes → ℤ
unfolding strtol
atoi s = to_int (strtol 10 s)
