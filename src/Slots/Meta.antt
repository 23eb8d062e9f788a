-- ===== src/Slots/Meta.antt =====
-- The text of active.meta of src/manager.c, written and searched.
use user_level_checkpoint_re.Base.{
  ℕ, suc, ◌-◌, ◌<◌, ◌≡◌, refl, ◌∙◌, ap, true, some, [], ◌∷◌, ◌++◌, Bytes, codes, length, take,
  take-append_le, take-take, arith, all, Status,
}
use user_level_checkpoint_re.Base.Int.{ℤ}
use user_level_checkpoint_re.Cstring.Number.{print_ℤ_onto}
use user_level_checkpoint_re.Cstring.{snprintf, c_str}
use user_level_checkpoint_re.Cstring.Search.{
  is_plain, c_str-append, cut_line-append, after_first-append,
}
use user_level_checkpoint_re.Common.{copied, formatted}
use user_level_checkpoint_re.Common.Buffers.{formatted_fits}
use user_level_checkpoint_re.Slots.{checked_copy, cut_slot, slot_of_text, slot_size, metadata_text}

pub checked_copy_fits :
    (size : ℕ) (text : Bytes) → length text < size → checked_copy size text ≡ some text
unfolding checked_copy
checked_copy_fits size text h =
    rw (ap (λ (r : Bytes × Status). r.1) (formatted_fits size text h), checked_copy)
      (ap (λ (r : Bytes × Status). some r.0) (formatted_fits size text h))

-- What the reader's buffer holds of a text that starts with a plain line.
prefix_kept :
    (n : ℕ) (line rest : Bytes)
    → all is_plain line ≡ true
    → length line < n
    → (t : Bytes) × (c_str (take n (line ++ b'\n' ∷ rest)) ≡ line ++ b'\n' ∷ t)
prefix_kept n line rest plain h =
    let k : ℕ = n - length line - 1 in
    let e : n - length line ≡ suc k = omega arith in
    (
      c_str (take k rest),
      ap c_str (
            take-append_le n line (b'\n' ∷ rest) (omega arith)
            ∙ ap (λ m. line ++ take m (b'\n' ∷ rest)) e)
          ∙ c_str-append line (b'\n' ∷ take k rest) plain
          ∙ unfold c_str in refl,
    )

-- Whatever follows the line of the slot, the slot is found.
slot_of_text-line :
    (size : ℕ) (slot rest : Bytes)
    → all is_plain slot ≡ true
    → length slot < size
    → slot_of_text size (codes "active_slot=" ++ (slot ++ b'\n' ∷ rest)) ≡ some slot
unfolding slot_of_text
slot_of_text-line size slot rest plain h =
    ap (cut_slot size) (after_first-append (codes "active_slot=") (slot ++ b'\n' ∷ rest))
    ∙ (unfold cut_slot in ap (checked_copy size) (cut_line-append slot rest plain))
    ∙ checked_copy_fits size slot h

-- The rest of the file behind the line of the slot.
abbrev tail_text : Bytes → ℤ → Bytes → Bytes
tail_text timestamp interval runtime_text =
    codes "updated_at="
    ++ (timestamp
        ++ (codes "\ncheckpoint_interval_sec="
            ++ print_ℤ_onto interval (codes "\nruntime_seconds=" ++ (runtime_text ++ b'\n' ∷ []))))

-- The writer cuts its text to 511 bytes and the reader to 255. Whatever the time, the interval and
-- the runtime, the slot that is written is the slot that is read, if its name is a line of at most
-- 7 bytes.
pub slot_of_text-metadata :
    (slot timestamp : Bytes) (interval : ℤ) (runtime_text : Bytes)
    → all is_plain slot ≡ true
    → length slot < slot_size
    → slot_of_text slot_size
        (c_str (take 255 (copied 512 (metadata_text slot timestamp interval runtime_text))))
      ≡ some slot
unfolding copied formatted snprintf metadata_text
slot_of_text-metadata slot timestamp interval runtime_text plain h =
    ap (λ s. slot_of_text slot_size (c_str s))
      (take-take 255 511 (line ++ b'\n' ∷ tail_text timestamp interval runtime_text) (omega arith))
    ∙ (let (t, kept) =
          prefix_kept 255 line (tail_text timestamp interval runtime_text) plain (omega arith) in
        ap (slot_of_text slot_size) kept ∙ slot_of_text-line slot_size slot t plain h)
  where
    line : Bytes
    line = codes "active_slot=" ++ slot
