-- ===== src/Procfs/Stat.antt =====
-- The text of /proc/<pid>/stat as `ulcr_get_process_runtime_seconds` of src/procfs.c scans it.
pub mod Field
use user_level_checkpoint_re.Base.{
  ℕ, zero, suc, ◌+◌, ◌-◌, ◌^◌, ◌%◌, Bool, true, false, Option, none, some, [], ◌∷◌, ◌++◌, ◌==◌, ltb,
  if◌then◌else◌, Bytes,
}
use user_level_checkpoint_re.Cstring.{split_at_last}
use user_level_checkpoint_re.Cstring.Number.{scan_digits, char_digit, scan_sign, skip_space}

-- `unsigned long long` as `strtoull` converts it: capped, and negated by wrapping around.
unfoldable pub to_ull : Bool → ℕ → ℕ
to_ull negative n =
    if ltb n (2 ^ 64) then (if negative then (2 ^ 64 - n) % 2 ^ 64 else n) else 2 ^ 64 - 1

-- Whether a digit comes first.
pub starts_digit : Bytes → Bool
starts_digit [] = false
starts_digit (c ∷ cs) = elim (char_digit 10 c) [ none ↦ false | some d ↦ true ]

-- One conversion %d, %u, %ld, %lu or %llu: white space, a sign, and digits, of which there must be
-- one; what is left, and the number.
unfoldable pub scan_number : Bytes → Option (ℕ × Bytes)
unfolding starts_digit
scan_number s =
    let (negative, body) = scan_sign (skip_space s) in
    if starts_digit body
    then (let (n, rest) = scan_digits 10 0 body in some (to_ull negative n, rest))
    else none

-- Conversions whose number is dropped, `%*…`.
unfoldable pub skip_numbers : ℕ → Bytes → Option Bytes
skip_numbers zero s = some s
skip_numbers (suc k) s = elim (scan_number s) [ none ↦ none | some (n, rest) ↦ skip_numbers k rest ]

-- The last conversion.
last_number : Option Bytes → Option ℕ
last_number none = none
last_number (some s) = elim (scan_number s) [ none ↦ none | some (n, rest) ↦ some n ]

-- " %c", then 17 numbers that are dropped, and the one that is kept.
scan_fields : Bytes → Option ℕ
scan_fields [] = none
scan_fields (state ∷ rest) = last_number (skip_numbers 17 rest)

scan_behind : Option (Bytes × Bytes) → Option ℕ
scan_behind none = none
scan_behind (some (before, [])) = none
scan_behind (some (before, c ∷ cs)) = scan_fields (skip_space (c ∷ cs))

-- `start_ticks`, from the text of the stat file; `none` where the function returns -1.
unfoldable pub start_ticks : Bytes → Option ℕ
unfolding scan_behind scan_fields last_number
start_ticks text = scan_behind (split_at_last b')' text)
