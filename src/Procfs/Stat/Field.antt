-- ===== src/Procfs/Stat/Field.antt =====
-- Which field of /proc/<pid>/stat src/procfs.c takes for the start time.
use user_level_checkpoint_re.Base.{
  ℕ, suc, ◌^◌, ◌<◌, ◌≡◌, refl, sym, ◌∙◌, ap, Bool, true, false, not, none, some, List, [], ◌∷◌,
  ◌++◌, ◌==◌, Bytes, length, all, arith,
}
use user_level_checkpoint_re.Base.Int.{ℤ, pos, negsuc}
use user_level_checkpoint_re.Cstring.{split_at_last}
use user_level_checkpoint_re.Cstring.Number.{
  is_space, skip_space, scan_sign, char_digit, print_onto, print_ℤ_onto,
}
use user_level_checkpoint_re.Cstring.Number.RoundTrip.{
  NoDigit, HeadDigit, print_onto-HeadDigit, sign-print_onto, sign-minus, scan_digits-print_onto,
}
use user_level_checkpoint_re.Cstring.Number.Shape.{print_ℤ_onto-all}
use user_level_checkpoint_re.Procfs.Stat.{
  to_ull, starts_digit, scan_number, skip_numbers, last_number, scan_fields, scan_behind,
  start_ticks,
}

-- The numbers of the file behind the state, each after a blank.
abbrev pub fields_text : List ℤ → Bytes
fields_text [] = b'\n' ∷ []
fields_text (z ∷ zs) = b' ' ∷ print_ℤ_onto z (fields_text zs)

-- The text behind the name of the process.
abbrev pub stat_text : Bytes → ℕ → List ℤ → Bytes
stat_text before state fields = before ++ b')' ∷ b' ' ∷ state ∷ fields_text fields

-- What the conversion gives for a number.
abbrev as_ull : ℤ → ℕ
as_ull (pos n) = to_ull false n
as_ull (negsuc n) = to_ull true (suc n)

fields_text-NoDigit : (fields : List ℤ) → NoDigit 10 (fields_text fields)
unfolding char_digit
fields_text-NoDigit [] = refl
fields_text-NoDigit (z ∷ zs) = refl

starts_digit-HeadDigit : (s : Bytes) → HeadDigit s → starts_digit s ≡ true
unfolding starts_digit
starts_digit-HeadDigit [] h = absurd h
starts_digit-HeadDigit (c ∷ cs) (d, e) = rw (e, starts_digit)

skip_blank : (s : Bytes) → scan_sign (skip_space (b' ' ∷ s)) ≡ scan_sign (skip_space s)
unfolding skip_space is_space
skip_blank s = refl

scan_number-body :
    (negative : Bool) (n : ℕ) (s rest : Bytes)
    → scan_sign (skip_space s) ≡ (negative, print_onto 10 n rest)
    → NoDigit 10 rest
    → scan_number s ≡ some (to_ull negative n, rest)
unfolding scan_number
scan_number-body negative n s rest e h = rw e (
    rw (starts_digit-HeadDigit (print_onto 10 n rest) (print_onto-HeadDigit n rest)) (
      ap (λ (r : ℕ × Bytes). some (to_ull negative r.0, r.1))
        (scan_digits-print_onto 10 n rest (omega arith) (omega arith) h)))

skip_space-state :
    (state : ℕ) (rest : Bytes)
    → is_space state ≡ false
    → skip_space (b' ' ∷ state ∷ rest) ≡ state ∷ rest
unfolding skip_space
skip_space-state state rest h = rw h (unfold is_space in refl)

last_number-some :
    (s : Bytes) (n : ℕ) (rest : Bytes)
    → scan_number s ≡ some (n, rest)
    → last_number (some s) ≡ some n
unfolding last_number
last_number-some s n rest e = rw (e, last_number)

to_ull_small : (n : ℕ) → n < 2 ^ 64 → to_ull false n ≡ n
unfolding to_ull
to_ull_small n h = ground arith

-- A printed number is scanned, and what is left is what stands behind it.
scan_number-field :
    (z : ℤ) (rest : Bytes)
    → NoDigit 10 rest
    → scan_number (b' ' ∷ print_ℤ_onto z rest) ≡ some (as_ull z, rest)
unfolding print_ℤ_onto
scan_number-field (pos n) rest h =
    scan_number-body false n (b' ' ∷ print_onto 10 n rest) rest
      (skip_blank (print_onto 10 n rest) ∙ sign-print_onto n rest) h
scan_number-field (negsuc n) rest h =
    scan_number-body true (suc n) (b' ' ∷ b'-' ∷ print_onto 10 (suc n) rest) rest
      (skip_blank (b'-' ∷ print_onto 10 (suc n) rest) ∙ sign-minus (print_onto 10 (suc n) rest)) h

skip_numbers-fields :
    (xs ys : List ℤ) → skip_numbers (length xs) (fields_text (xs ++ ys)) ≡ some (fields_text ys)
unfolding skip_numbers
skip_numbers-fields [] ys = refl
skip_numbers-fields (x ∷ xs) ys =
    rw (scan_number-field x (fields_text (xs ++ ys)) (fields_text-NoDigit (xs ++ ys)), skip_numbers)
      (skip_numbers-fields xs ys)

-- No closing parenthesis.
abbrev is_inner : ℕ → Bool
is_inner c = not (c == b')')

split_at_last-none : (s : Bytes) → all is_inner s ≡ true → split_at_last b')' s ≡ none
unfolding split_at_last
split_at_last-none [] h = refl
split_at_last-none (c ∷ cs) h =
    rw (split_at_last-none cs (ground arith), split_at_last) (ground arith)

split_at_last-append :
    (before behind : Bytes)
    → all is_inner behind ≡ true
    → split_at_last b')' (before ++ b')' ∷ behind) ≡ some (before, behind)
unfolding split_at_last
split_at_last-append [] behind h = rw (split_at_last-none behind h, split_at_last)
split_at_last-append (c ∷ cs) behind h = rw (split_at_last-append cs behind h, split_at_last)

fields_text-is_inner : (fields : List ℤ) → all is_inner (fields_text fields) ≡ true
fields_text-is_inner [] = refl
fields_text-is_inner (z ∷ zs) =
    print_ℤ_onto-all is_inner (λ c h. ground arith) z (fields_text zs) (fields_text-is_inner zs)

-- The start time that the source takes is the 18th number behind the state, which is field 21 of
-- the file (`itrealvalue`), whatever the name of the process. The 19th number, field 22, is the
-- start time that proc(5) documents; the result does not depend on it.
pub start_ticks_lem :
    (before : Bytes) (state : ℕ) (xs : List ℤ) (itrealvalue starttime : ℕ) (ys : List ℤ)
    → length xs ≡ 17
    → itrealvalue < 2 ^ 64
    → is_space state ≡ false
    → (state == b')') ≡ false
    → start_ticks (stat_text before state (xs ++ pos itrealvalue ∷ pos starttime ∷ ys))
      ≡ some itrealvalue
unfolding start_ticks
start_ticks_lem before state xs it st ys count fits solid inner =
    let fields = xs ++ pos it ∷ pos st ∷ ys in
    let behind = fields_text (pos st ∷ ys) in
    ap scan_behind (
      split_at_last-append before (b' ' ∷ state ∷ fields_text fields)
        (ground (arith, fields_text-is_inner fields)))
    ∙ ap scan_fields (skip_space-state state (fields_text fields) solid)
    ∙ ap (λ k. last_number (skip_numbers k (fields_text fields))) (sym count)
    ∙ ap last_number (skip_numbers-fields xs (pos it ∷ pos st ∷ ys))
    ∙ last_number-some (b' ' ∷ print_ℤ_onto (pos it) behind) it behind (
        scan_number-field (pos it) behind (fields_text-NoDigit (pos st ∷ ys))
        ∙ ap (λ n. some (n, behind)) (to_ull_small it fits))
