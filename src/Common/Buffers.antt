-- ===== src/Common/Buffers.antt =====
-- The buffers and the statuses of the string helpers of src/common.c.
use user_level_checkpoint_re.Base.{
  length-append, ◌^◌, ℕ, ◌-◌, ◌≤◌, ◌<◌, ◌≡◌, refl, inl, inr, ap, false, Option, none, some, ◌∷◌,
  ◌++◌, ◌==◌, leb, Bytes, length, take, length-take, take_all, Status, done, failed, arith,
  Bool-cases, leb→le, le→leb, leb_false→lt, lt→leb_false,
}
use user_level_checkpoint_re.Cstring.{c_str}
use user_level_checkpoint_re.Cstring.Search.{c_str-take}
use user_level_checkpoint_re.Common.{sized_status, formatted, copy_string, path_join, copied}

pub formatted_fits :
    (size : ℕ) (text : Bytes) → length text < size → formatted size text ≡ (text, done)
unfolding formatted
formatted_fits size text h =
    rw (take_all (size - 1) text (omega arith)) (rw (lt→leb_false size (length text) h))

pub formatted_long :
    (size : ℕ) (text : Bytes)
    → size ≤ length text
    → formatted size text ≡ (take (size - 1) text, failed)
unfolding formatted
formatted_long size text h = rw (le→leb size (length text) h)

pub formatted_done :
    (size : ℕ) (text : Bytes) → (formatted size text).1 ≡ done → formatted size text ≡ (text, done)
formatted_done size text e = elim (Bool-cases (leb size (length text))) [
  | inl long ↦ absurd (cc (formatted_long size text (leb→le _ _ long)))
  | inr fits ↦ formatted_fits size text (leb_false→lt _ _ fits)
]

pub length-formatted : (size : ℕ) (text : Bytes) → 0 < size → length (formatted size text).0 < size
unfolding formatted
length-formatted size text h = omega (arith, length-take (size - 1) text)

pub length-copied : (size : ℕ) (text : Bytes) → 0 < size → length (copied size text) < size
unfolding copied
length-copied size text h = length-formatted size text h

pub copied_fits : (size : ℕ) (text : Bytes) → length text < size → copied size text ≡ text
unfolding copied
copied_fits size text h = ap (λ (r : Bytes × Status). r.0) (formatted_fits size text h)

pub copied-text : (size : ℕ) (s : Bytes) → c_str s ≡ s → c_str (copied size s) ≡ copied size s
unfolding copied formatted
copied-text size s h = c_str-take (size - 1) s h

-- What a call into a buffer of `size` bytes leaves of `text`.
pub record Stores (size : ℕ) (text : Bytes) (buffer : Bytes) (status : Status) : Type 0 where
  pub in_bounds : length buffer < size
  pub exact : status ≡ done → buffer ≡ text
  pub done_if_fits : length text < size → status ≡ done
  pub cut : status ≡ failed → (size ≤ length text) × (buffer ≡ take (size - 1) text)

formatted-Stores :
    (size : ℕ) (text : Bytes)
    → 0 < size
    → Stores size text (formatted size text).0 (formatted size text).1
formatted-Stores size text h = elim (Bool-cases (leb size (length text))) [
  | inl long ↦ rw (formatted_long size text (leb→le _ _ long)) (record {
    in_bounds = omega (arith, length-take (size - 1) text);
    exact = λ e. cc;
    done_if_fits = λ l. absurd (omega (arith, leb→le size (length text) long));
    cut = λ e. (leb→le size (length text) long, refl);
  })
  | inr fits ↦ rw (formatted_fits size text (leb_false→lt _ _ fits)) (record {
    in_bounds = leb_false→lt size (length text) fits;
    exact = λ e. refl;
    done_if_fits = λ l. refl;
    cut = λ e. cc;
  })
]

-- The same of a buffer behind a pointer.
abbrev pub StoresIn : ℕ → Bytes → Option Bytes × Status → Type 0
StoresIn size text (none, status) = ⊥
StoresIn size text (some buffer, status) = Stores size text buffer status

sized_status_small :
    (size : ℕ) (text : Bytes)
    → size < 2 ^ 31
    → length text < 2 ^ 31
    → sized_status size text ≡ (formatted size text).1
unfolding sized_status formatted
sized_status_small size text h k = ground arith

sized_status_large :
    (size : ℕ) (text : Bytes)
    → 2 ^ 31 ≤ size
    → size < 2 ^ 32
    → length text < 2 ^ 31
    → sized_status size text ≡ failed
unfolding sized_status
sized_status_large size text h k l = ground arith

-- What both functions do with a text, by the size of the buffer.
pub record Copies (text old : Bytes) (call : ℕ → Option Bytes × Status) : Type 0 where
  pub small : (size : ℕ) → 0 < size → size < 2 ^ 31 → StoresIn size text (call size)
  pub large : (size : ℕ) → 2 ^ 31 ≤ size → size < 2 ^ 32 → (call size).1 ≡ failed
  pub empty : call 0 ≡ (some old, failed)

positive : (n : ℕ) → 0 < n → (n == 0) ≡ false
positive n k = ground arith

-- For a text below 2 ^ 31 bytes and a buffer of a size above 0 and below 2 ^ 31, `copy_string` and
-- `path_join` store a string that ends inside it; they succeed exactly when the whole text fits, and
-- then store it; a failure stores the longest prefix that fits. With a size from 2 ^ 31 up to 2 ^ 32
-- they fail whatever the text. With size 0 they fail and leave the buffer alone.
pub copy_join-Stores :
    (old src right : Bytes)
    → length (src ++ b'/' ∷ right) < 2 ^ 31
    → Copies src old (λ size. copy_string (some old) size (some src))
      × Copies (src ++ b'/' ∷ right) old (λ size. path_join (some old) size (some src) (some right))
unfolding copy_string path_join
copy_join-Stores old src right short =
    let few : length src < 2 ^ 31 = omega (arith, short, length-append src (b'/' ∷ right)) in
    (
      record {
        small = λ size h k.
            rw (positive size h, sized_status_small size src k few) (formatted-Stores size src h);
        large = λ size h k. rw (positive size (omega arith)) (sized_status_large size src h k few);
        empty = refl;
      },
      record {
        small = λ size h k.
            rw (positive size h, sized_status_small size (src ++ b'/' ∷ right) k short)
              (formatted-Stores size (src ++ b'/' ∷ right) h);
        large = λ size h k.
            rw (positive size (omega arith))
              (sized_status_large size (src ++ b'/' ∷ right) h k short);
        empty = refl;
      },
    )
