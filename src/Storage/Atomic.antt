-- ===== src/Storage/Atomic.antt =====
-- `ulcr_atomic_write_text_file` of src/common.c and the file that it replaces.
use user_level_checkpoint_re.Base.{
  ℕ, ◌+◌, ◌≡◌, refl, ◌∙◌, ap, false, Option, none, some, [], ◌++◌, ◌⊎◌, inl, inr, Bytes, codes,
  length, length-append, take, take_all, drop-nil, append-nil, str_eq, str_eq_iff, str_eq_refl,
  str_eq-ne, Status, done, failed, Status-cases, Bool-cases, arith,
}
use user_level_checkpoint_re.Common.{max_path, formatted}
use user_level_checkpoint_re.Common.Buffers.{formatted_done}
use user_level_checkpoint_re.Files.{directory, write_truncate, Files}
use user_level_checkpoint_re.Files.Posix.{IsPosix, count_of, splice, renamed}
use user_level_checkpoint_re.Storage.{
  is_short, sync_opened, sync_parent, parent_of, fsync_path_directory, publish, seal,
  replace_opened, atomic_write_text_file,
}

abbrev pub tmp_of : Bytes → Bytes
tmp_of path = path ++ codes ".tmp"

path-ne-tmp_of : (path : Bytes) → str_eq path (tmp_of path) ≡ false
path-ne-tmp_of path =
    str_eq-ne path (tmp_of path)
      (λ e. absurd (omega (arith, length-append path (codes ".tmp"), ap length e)))

-- What replacing the file at `path` by `value` may do to the files, and what its status says.
pub record Replaced (before after : Bytes → Option Bytes) (path value : Bytes) (status : Status)
    : Type 0 where
  pub old_or_new : (after path ≡ before path) ⊎ (after path ≡ some value)
  pub new_if_done : status ≡ done → after path ≡ some value
  pub others :
      (q : Bytes) → str_eq q path ≡ false → str_eq q (tmp_of path) ≡ false → after q ≡ before q

-- Nothing but the temporary file has changed, and the call has failed.
Replaced-never :
    {before after : Bytes → Option Bytes} (path value : Bytes) {status : Status}
    → status ≡ failed
    → ((q : Bytes) → str_eq q (tmp_of path) ≡ false → after q ≡ before q)
    → Replaced before after path value status
Replaced-never path value e same = record {
  old_or_new = inl (same path (path-ne-tmp_of path));
  new_if_done = λ d. cc;
  others = λ q _ other. same q other;
}

-- It is enough to start from files that differ in the temporary file.
Replaced-from :
    {before first after : Bytes → Option Bytes} (path value : Bytes) {status : Status}
    → ((q : Bytes) → str_eq q (tmp_of path) ≡ false → first q ≡ before q)
    → Replaced first after path value status
    → Replaced before after path value status
Replaced-from {before} {first} {after} path value {status} same r = record {
  old_or_new = move r.old_or_new;
  new_if_done = r.new_if_done;
  others = λ q a b. r.others q a b ∙ same q b;
}
  where
    move :
        (after path ≡ first path) ⊎ (after path ≡ some value)
        → (after path ≡ before path) ⊎ (after path ≡ some value)
    move (inl e) = inl (e ∙ same path (path-ne-tmp_of path))
    move (inr e) = inr e

module _ (fs : Files) (px : IsPosix fs) where
  open px use {file, target}

  sync_opened-file :
      (fd : Option ℕ) (w : fs.World) (q : Bytes) → file (sync_opened fs fd w).1 q ≡ file w q
  unfolding sync_opened
  sync_opened-file none w q = refl
  sync_opened-file (some fd) w q = px.close-file fd (fs.fsync fd w).1 q ∙ px.fsync-file fd w q

  open_directory-file :
      (p : Bytes) (w : fs.World) (q : Bytes) → file (fs.open_file directory p w).1 q ≡ file w q
  open_directory-file p w q = ground (arith, px.open-file directory p w q, str_eq_iff q p)

  sync_parent-file :
      (split : Option (Bytes × Bytes)) (w : fs.World) (q : Bytes)
      → file (sync_parent fs split w).1 q ≡ file w q
  unfolding sync_parent
  sync_parent-file none w q = refl
  sync_parent-file (some (before, behind)) w q =
      sync_opened-file (fs.open_file directory (parent_of before) w).0 _ q
      ∙ open_directory-file (parent_of before) w q

  -- Flushing a directory changes no file.
  pub fsync_path_directory-file :
      (path : Bytes) (w : fs.World) (q : Bytes)
      → file (fsync_path_directory fs path w).1 q ≡ file w q
  unfolding fsync_path_directory
  fsync_path_directory-file path w q = elim (Status-cases (formatted max_path path).1) [
    | inl d ↦ rw d (sync_parent-file _ w q)
    | inr f ↦ rw f
  ]

  module _ (path value : Bytes) where
    abbrev tmp : Bytes
    tmp = tmp_of path

    publish_failed :
        (w : fs.World)
        → (fs.rename tmp path w).0 ≡ failed
        → Replaced (file w) (file (publish fs tmp path w).1) path value (publish fs tmp path w).0
    unfolding publish
    publish_failed w f = rw f (
        Replaced-never path value refl (λ q other.
          px.unlink-file tmp (fs.rename tmp path w).1 q other ∙ px.rename-failed tmp path w q f))

    publish_done :
        (w : fs.World)
        → file w tmp ≡ some value
        → (fs.rename tmp path w).0 ≡ done
        → Replaced (file w) (file (publish fs tmp path w).1) path value (publish fs tmp path w).0
    unfolding publish
    publish_done w held d = rw d (record {
      old_or_new = inr (now_there);
      new_if_done = λ _. now_there;
      others = λ q a b. moved q ∙ ground (arith);
    })
      where
        moved :
            (q : Bytes)
            → file (fsync_path_directory fs path (fs.rename tmp path w).1).1 q
              ≡ renamed (file w) tmp path q
        moved q =
            fsync_path_directory-file path (fs.rename tmp path w).1 q
            ∙ px.rename-done tmp path w q d

        now_there : file (fsync_path_directory fs path (fs.rename tmp path w).1).1 path ≡ some value
        now_there = moved path ∙ ground (arith, str_eq_refl path)

    publish-Replaced :
        (w : fs.World)
        → file w tmp ≡ some value
        → Replaced (file w) (file (publish fs tmp path w).1) path value (publish fs tmp path w).0
    publish-Replaced w held = elim (Status-cases (fs.rename tmp path w).0) [
      | inl d ↦ publish_done w held d
      | inr f ↦ publish_failed w f
    ]

    seal-Replaced :
        (fd : ℕ) (count : Option ℕ) (w : fs.World)
        → (is_short count (length value) ≡ false → file w tmp ≡ some value)
        → Replaced
            (file w)
            (file (seal fs tmp path fd (length value) count w).1)
            path
            value
            (seal fs tmp path fd (length value) count w).0
    unfolding seal
    seal-Replaced fd count w held = elim (Bool-cases (is_short count (length value))) [
      | inl short ↦ rw short (
          Replaced-never path value refl
            (λ q other. px.unlink-file tmp (fs.close_file fd w) q other ∙ px.close-file fd w q))
      | inr whole ↦ rw whole (elim (Status-cases (fs.fsync fd w).0) [
        | inl d ↦ rw d (
            Replaced-from path value (λ q _. flushed q)
              (publish-Replaced (fs.close_file fd (fs.fsync fd w).1) (flushed tmp ∙ held whole)))
        | inr f ↦ rw f (
            Replaced-never path value refl (λ q other.
              px.unlink-file tmp (fs.close_file fd (fs.fsync fd w).1) q other ∙ flushed q))
      ])
    ]
      where
        flushed : (q : Bytes) → file (fs.close_file fd (fs.fsync fd w).1) q ≡ file w q
        flushed q = px.close-file fd (fs.fsync fd w).1 q ∙ px.fsync-file fd w q

    -- A write that is not short, to a file that has just been emptied, leaves the value.
    written_whole :
        (fd : ℕ) (w : fs.World)
        → target w fd ≡ some (tmp, 0)
        → file w tmp ≡ some []
        → is_short (fs.write fd value w).0 (length value) ≡ false
        → file (fs.write fd value w).1 tmp ≡ some value
    written_whole fd w at empty whole =
        px.write-file fd value w tmp 0 tmp at
        ∙ rw (str_eq_refl tmp, empty) (ap some (go (fs.write fd value w).0 whole))
      where
        go :
            (count : Option ℕ)
            → is_short count (length value) ≡ false
            → splice 0 (take (count_of count) value) [] ≡ value
        go none h = cc
        go (some n) h =
            let e : n ≡ length value = ground arith in
            rw (take_all n value (omega arith))
              (ap (λ t. value ++ t) (drop-nil (0 + length value)) ∙ append-nil value)

    replace_opened-Replaced :
        (fd : Option ℕ) (w : fs.World)
        → ((n : ℕ) → fd ≡ some n → (target w n ≡ some (tmp, 0)) × (file w tmp ≡ some []))
        → Replaced
            (file w)
            (file (replace_opened fs tmp path value fd w).1)
            path
            value
            (replace_opened fs tmp path value fd w).0
    unfolding replace_opened
    replace_opened-Replaced none w h = Replaced-never path value refl (λ q _. refl)
    replace_opened-Replaced (some fd) w h =
        let (at, empty) = h fd refl in
        Replaced-from path value (λ q other. px.write-file fd value w tmp 0 q at ∙ rw other)
          (seal-Replaced fd (fs.write fd value w).0 (fs.write fd value w).1
            (written_whole fd w at empty))

  open_tmp-file :
      (p : Bytes) (w : fs.World) (q : Bytes)
      → str_eq q p ≡ false
      → file (fs.open_file write_truncate p w).1 q ≡ file w q
  open_tmp-file p w q other = ground (arith, px.open-file write_truncate p w q)

  open_tmp-target :
      (p : Bytes) (w : fs.World) (n : ℕ)
      → (fs.open_file write_truncate p w).0 ≡ some n
      → (target (fs.open_file write_truncate p w).1 n ≡ some (p, 0))
        × (file (fs.open_file write_truncate p w).1 p ≡ some [])
  open_tmp-target p w n e = (
    px.open-target write_truncate p w n e,
    px.open-file write_truncate p w p ∙ rw (e, str_eq_refl p),
  )

  -- After `atomic_write_text_file`, with any calls failing on the way, the path leads to what it
  -- led to before or to exactly the new text; on success to the new text; and no file has changed
  -- but this one and the one with `.tmp` behind its name.
  pub atomic_write_text_file-Replaced :
      (path value : Bytes) (w : fs.World)
      → Replaced
          (file w)
          (file (atomic_write_text_file fs path value w).1)
          path
          value
          (atomic_write_text_file fs path value w).0
  unfolding atomic_write_text_file
  atomic_write_text_file-Replaced path value w =
      elim (Status-cases (formatted max_path (path ++ codes ".tmp")).1) [
        | inl d ↦ rw (formatted_done max_path (path ++ codes ".tmp") d) (
            Replaced-from path value (open_tmp-file (tmp_of path) w) (
              replace_opened-Replaced path value (fs.open_file write_truncate (tmp_of path) w).0
                (fs.open_file write_truncate (tmp_of path) w).1 (open_tmp-target (tmp_of path) w)))
        | inr f ↦ rw f (Replaced-never path value refl (λ q _. refl))
      ]
