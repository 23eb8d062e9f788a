-- ===== src/Cstring.antt =====
-- The parts of the C library's <string.h>, <ctype.h> and <stdio.h> that the sources call, on
-- byte strings without their terminating 0.
pub mod Number
pub mod Search
pub mod Lines
pub mod Tokens
use user_level_checkpoint_re.Base.{
  ℕ, zero, suc, ◌-◌, Bool, true, false, ◌||◌, ◌&&◌, not, Option, none, some, List, [], ◌∷◌, ◌++◌,
  ◌==◌, leb, ltb, if◌then◌else◌, Bytes, take, length, reverse, Status, done, failed,
}

-- A byte array read as a C string: the bytes before the first 0.
unfoldable pub c_str : Bytes → Bytes
c_str [] = []
c_str (c ∷ cs) = if c == 0 then [] else c ∷ c_str cs

unfoldable pub is_digit : ℕ → Bool
is_digit c = leb b'0' c && leb c b'9'

-- `strchr(s, c)`: the bytes before the first `c`, and those behind it.
unfoldable pub split_at : ℕ → Bytes → Option (Bytes × Bytes)
split_at c [] = none
split_at c (x ∷ xs) =
    if x == c
    then some ([], xs)
    else (elim (split_at c xs) [ none ↦ none | some (l, r) ↦ some (x ∷ l, r) ])

-- `strrchr(s, c)`: the bytes before the last `c`, and those behind it.
unfoldable pub split_at_last : ℕ → Bytes → Option (Bytes × Bytes)
split_at_last c [] = none
split_at_last c (x ∷ xs) = elim (split_at_last c xs) [
  | none ↦ if x == c then some ([], xs) else none
  | some (l, r) ↦ some (x ∷ l, r)
]

-- What follows the prefix, if the string begins with it; `strncmp(s, prefix, strlen(prefix)) == 0`.
unfoldable pub strip_prefix : Bytes → Bytes → Option Bytes
strip_prefix [] s = some s
strip_prefix (p ∷ ps) [] = none
strip_prefix (p ∷ ps) (c ∷ cs) = if p == c then strip_prefix ps cs else none

-- `strstr(s, needle)`: what follows the needle at its first occurrence.
unfoldable pub after_first : Bytes → Bytes → Option Bytes
after_first needle [] = strip_prefix needle []
after_first needle (c ∷ cs) = elim (strip_prefix needle (c ∷ cs)) [
  | none ↦ after_first needle cs
  | some rest ↦ some rest
]

-- `s[strcspn(s, "\r\n")] = '\0'`
unfoldable pub cut_line : Bytes → Bytes
cut_line [] = []
cut_line (c ∷ cs) = if c == b'\r' || c == b'\n' then [] else c ∷ cut_line cs

-- `snprintf(dst, size, …)` for `size > 0`: what is stored of the formatted text, and whether the
-- returned length fails the test `>= size`.
unfoldable pub snprintf : ℕ → Bytes → Bytes × Bool
snprintf size text = (take (size - 1) text, leb size (length text))

-- What has been read of a line or token, last byte first, if it is not empty.
flush : Bytes → List Bytes
flush [] = []
flush (c ∷ cs) = reverse (c ∷ cs) ∷ []

-- `strtok` with the delimiter " ": the maximal runs of other bytes. `run` is the token being read.
tokens_onto : Bytes → Bytes → List Bytes
tokens_onto run [] = flush run
tokens_onto run (c ∷ cs) = elim (c == b' ') [
  | true ↦ flush run ++ tokens_onto [] cs
  | false ↦ tokens_onto (c ∷ run) cs
]

unfoldable pub strtok : Bytes → List Bytes
unfolding tokens_onto flush
strtok = tokens_onto []

-- `fgets` with room for `room + 1` bytes, called until the end: a line ends behind its newline, or
-- where the buffer is full. `left` is the room left for the line being read.
lines_onto : ℕ → ℕ → Bytes → Bytes → List Bytes
lines_onto room left line [] = flush line
lines_onto room left line (c ∷ cs) = elim (c == b'\n' || leb left 1) [
  | true ↦ reverse (c ∷ line) ∷ lines_onto room room [] cs
  | false ↦ lines_onto room (left - 1) (c ∷ line) cs
]

-- `while (fgets(line, size, fp) != NULL)`: the buffer's contents after each call.
unfoldable pub fgets_lines : ℕ → Bytes → List Bytes
unfolding lines_onto flush
fgets_lines size text = lines_onto (size - 1) (size - 1) [] text
