-- ===== src/Cstring/Lines.antt =====
-- `fgets` cuts a file into lines: no byte is lost or moved, and each line fits its buffer.
use mathlib.Core.List.{reverse-append}
use user_level_checkpoint_re.Base.{
  ℕ, ◌+◌, ◌-◌, ◌≤◌, ◌<◌, ◌≡◌, refl, ◌∙◌, ap, true, false, ◌||◌, List, [], ◌∷◌, ◌++◌, ◌==◌, leb,
  Bytes, all, length, length-append, reverse, append_assoc, arith, inl, inr, Bool-cases,
}
use user_level_checkpoint_re.Cstring.{flush, lines_onto, fgets_lines}
use user_level_checkpoint_re.Cstring.Search.{is_plain}

-- The text of a list of lines.
abbrev pub concat : List Bytes → Bytes
concat [] = []
concat (l ∷ ls) = l ++ concat ls

abbrev pub AllShort : ℕ → List Bytes → Type 0
AllShort size [] = Unit
AllShort size (l ∷ ls) = (length l < size) × AllShort size ls

length-reverse : (s : Bytes) → length (reverse s) ≡ length s
length-reverse [] = refl
length-reverse (c ∷ cs) =
    ap length (reverse-append (c ∷ []) cs)
    ∙ omega (arith, length-append (reverse cs) (c ∷ []), length-reverse cs)

reverse-onto : (c : ℕ) (line rest : Bytes) → reverse (c ∷ line) ++ rest ≡ reverse line ++ c ∷ rest
reverse-onto c line rest =
    ap (λ s. s ++ rest) (reverse-append (c ∷ []) line) ∙ append_assoc (reverse line) (c ∷ []) rest

concat-flush : (line : Bytes) → concat (flush line) ≡ reverse line ++ []
unfolding flush
concat-flush [] = refl
concat-flush (c ∷ cs) = refl

concat-lines_onto :
    (room left : ℕ) (line text : Bytes)
    → concat (lines_onto room left line text) ≡ reverse line ++ text
unfolding lines_onto
concat-lines_onto room left line [] = concat-flush line
concat-lines_onto room left line (c ∷ cs) = elim (Bool-cases (c == b'\n' || leb left 1)) [
  | inl full ↦
      rw (full, lines_onto)
        (ap (λ t. reverse (c ∷ line) ++ t) (concat-lines_onto room room [] cs)
          ∙ reverse-onto c line cs)
  | inr more ↦
      rw (more, lines_onto)
        (concat-lines_onto room (left - 1) (c ∷ line) cs ∙ reverse-onto c line cs)
]

flush-AllShort : (size : ℕ) (line : Bytes) → length line < size → AllShort size (flush line)
unfolding flush
flush-AllShort size [] h = tt
flush-AllShort size (c ∷ cs) h = (rw (length-reverse (c ∷ cs)) h, tt)

lines_onto-AllShort :
    (room left : ℕ) (line text : Bytes)
    → length line + left ≤ room
    → 0 < left
    → AllShort (room + 1) (lines_onto room left line text)
unfolding lines_onto
lines_onto-AllShort room left line [] h k = flush-AllShort (room + 1) line (omega arith)
lines_onto-AllShort room left line (c ∷ cs) h k = elim (Bool-cases (c == b'\n' || leb left 1)) [
  | inl full ↦
      rw (full, lines_onto)
        (
          omega (arith, length-reverse (c ∷ line)),
          lines_onto-AllShort room room [] cs (omega arith) (omega arith),
        )
  | inr more ↦
      rw (more, lines_onto)
        (lines_onto-AllShort room (left - 1) (c ∷ line) cs (ground arith) (ground arith))
]

-- With a buffer of two bytes or more, the lines that `fgets` delivers hold the file's bytes in
-- their order, and each is shorter than the buffer.
pub fgets_lines_lem :
    (size : ℕ) (text : Bytes)
    → 2 ≤ size
    → (concat (fgets_lines size text) ≡ text) × AllShort size (fgets_lines size text)
unfolding fgets_lines
fgets_lines_lem size text h = (
  concat-lines_onto (size - 1) (size - 1) [] text,
  let e : size - 1 + 1 ≡ size = omega arith in
      rw e at (lines_onto-AllShort (size - 1) (size - 1) [] text (omega arith) (omega arith)),
)

lines_onto-line :
    (room left : ℕ) (line s rest : Bytes)
    → all is_plain s ≡ true
    → length s < left
    → lines_onto room left line (s ++ b'\n' ∷ rest)
      ≡ (reverse line ++ (s ++ b'\n' ∷ [])) ∷ lines_onto room room [] rest
unfolding lines_onto
lines_onto-line room left line [] rest h k =
    ap (λ l. l ∷ lines_onto room room [] rest) (reverse-append (b'\n' ∷ []) line)
lines_onto-line room left line (c ∷ cs) rest h k =
    let more : (c == b'\n' || leb left 1) ≡ false = ground arith in
    rw (more, lines_onto)
      (lines_onto-line room (left - 1) (c ∷ line) cs rest (ground arith) (omega arith)
        ∙ ap (λ l. l ∷ lines_onto room room [] rest) (reverse-onto c line (cs ++ b'\n' ∷ [])))

-- A line that fits comes out whole, with its newline.
pub fgets_lines-line :
    (size : ℕ) (s rest : Bytes)
    → all is_plain s ≡ true
    → length s + 1 < size
    → fgets_lines size (s ++ b'\n' ∷ rest) ≡ (s ++ b'\n' ∷ []) ∷ fgets_lines size rest
unfolding fgets_lines
fgets_lines-line size s rest h k = lines_onto-line (size - 1) (size - 1) [] s rest h (omega arith)
