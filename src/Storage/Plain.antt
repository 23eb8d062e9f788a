-- ===== src/Storage/Plain.antt =====
-- `ulcr_write_text_file` of src/common.c, which writes a file in place.
use user_level_checkpoint_re.Base.{
  ℕ, ◌≡◌, refl, ◌∙◌, ap, false, Option, none, some, [], ◌⊎◌, inl, inr, Bytes, length, take,
  take_all, drop-nil, append-nil, str_eq, str_eq_refl, Status, done, arith, ◌+◌, ◌++◌, Option-cases,
}
use user_level_checkpoint_re.Files.{write_truncate, Files}
use user_level_checkpoint_re.Files.Posix.{IsPosix, count_of, splice}
use user_level_checkpoint_re.Storage.{is_short, write_opened, write_text_file}

-- What writing `value` to the file at `path` may do to the files, and what its status says.
pub record Written (before after : Bytes → Option Bytes) (path value : Bytes) (status : Status)
    : Type 0 where
  pub old_or_part : (after path ≡ before path) ⊎ ((n : ℕ) × (after path ≡ some (take n value)))
  pub new_if_done : status ≡ done → after path ≡ some value
  pub others : (q : Bytes) → str_eq q path ≡ false → after q ≡ before q

module _ (fs : Files) (px : IsPosix fs) (path value : Bytes) where
  open px use {file, target}

  splice_new : (text : Bytes) → splice 0 text [] ≡ text
  splice_new text = ap (λ t. text ++ t) (drop-nil (0 + length text)) ∙ append-nil text

  -- The file behind a write at its start, when it is empty.
  write_new :
      (fd : ℕ) (w : fs.World)
      → target w fd ≡ some (path, 0)
      → file w path ≡ some []
      → file (fs.write fd value w).1 path ≡ some (take (count_of (fs.write fd value w).0) value)
  write_new fd w at empty =
      px.write-file fd value w path 0 path at
      ∙ rw (str_eq_refl path, empty) (ap some (splice_new _))

  whole :
      (count : Option ℕ)
      → is_short count (length value) ≡ false
      → take (count_of count) value ≡ value
  whole none h = cc
  whole (some n) h = let e : n ≡ length value = ground arith in take_all n value (omega arith)

  write_opened-Written :
      (fd : Option ℕ) (w : fs.World)
      → ((n : ℕ) → fd ≡ some n → (target w n ≡ some (path, 0)) × (file w path ≡ some []))
      → Written
          (file w)
          (file (write_opened fs value fd w).1)
          path
          value
          (write_opened fs value fd w).0
  unfolding write_opened
  write_opened-Written none w h = record {
    old_or_part = inl refl;
    new_if_done = λ e. cc;
    others = λ q other. refl;
  }
  write_opened-Written (some fd) w h =
      let (at, empty) = h fd refl in
      let w' = (fs.write fd value w).1 in
      let now = px.close-file fd w' path ∙ write_new fd w at empty in
      record {
        old_or_part = inr (count_of (fs.write fd value w).0, now);
        new_if_done = λ e. now ∙ ap some (whole (fs.write fd value w).0 (ground arith));
        others = λ q other. px.close-file fd w' q ∙ px.write-file fd value w path 0 q at ∙ rw other;
      }

  -- It is enough to start from the file that was emptied.
  Written-emptied :
      {before first after : Bytes → Option Bytes} {status : Status}
      → first path ≡ some []
      → ((q : Bytes) → str_eq q path ≡ false → first q ≡ before q)
      → Written first after path value status
      → Written before after path value status
  Written-emptied {before} {first} {after} {status} empty same r = record {
    old_or_part = move r.old_or_part;
    new_if_done = r.new_if_done;
    others = λ q other. r.others q other ∙ same q other;
  }
    where
      move :
          (after path ≡ first path) ⊎ ((n : ℕ) × (after path ≡ some (take n value)))
          → (after path ≡ before path) ⊎ ((n : ℕ) × (after path ≡ some (take n value)))
      move (inl e) = inr (0, e ∙ empty)
      move (inr e) = inr e

  open-other :
      (w : fs.World) (q : Bytes)
      → str_eq q path ≡ false
      → file (fs.open_file write_truncate path w).1 q ≡ file w q
  open-other w q other = ground (arith, px.open-file write_truncate path w q)

  -- After `write_text_file`, with any calls failing on the way, the path leads to what it led to
  -- before or to the first bytes of the new text; on success to the new text; and no other file has
  -- changed.
  pub write_text_file-Written :
      (w : fs.World)
      → Written
          (file w)
          (file (write_text_file fs path value w).1)
          path
          value
          (write_text_file fs path value w).0
  unfolding write_text_file write_opened
  write_text_file-Written w = elim (Option-cases (fs.open_file write_truncate path w).0) [
    | inl closed ↦ rw closed (record {
      old_or_part = inl (px.open-file write_truncate path w path ∙ rw closed);
      new_if_done = λ e. cc;
      others = λ q. open-other w q;
    })
    | inr (fd, e) ↦
        let w1 = (fs.open_file write_truncate path w).1 in
        let here = px.open-file write_truncate path w path ∙ rw (e, str_eq_refl path) in
        rw e (
          Written-emptied here (open-other w) (
            write_opened-Written (some fd) w1
              (λ n k. (px.open-target write_truncate path w n (e ∙ k), here))))
  ]
