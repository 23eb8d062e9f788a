-- ===== src/Capture/Whole.antt =====
-- snapshot.bin after `ulcr_capture_snapshot` of src/snapshot.c.
use user_level_checkpoint_re.Base.{
  true, length, ℕ, ◌≡◌, refl, ◌∙◌, false, Option, none, some, [], ◌++◌, ◌⊎◌, inl, inr, Bytes,
  str_eq, str_eq_refl, Status, done, failed, is_failed, if◌then◌else◌, Status-cases,
}
use user_level_checkpoint_re.Base.Int.{ℤ}
use user_level_checkpoint_re.Binary.{Codec}
use user_level_checkpoint_re.Files.{Files, write_truncate}
use user_level_checkpoint_re.Files.Posix.{IsPosix}
use user_level_checkpoint_re.Manifest.{move_file}
use user_level_checkpoint_re.Snapshot.{Image, image_bytes}
use user_level_checkpoint_re.Storage.Atomic.{fsync_path_directory-file}
use user_level_checkpoint_re.Tracer.{Tracer, IsTracer}
use user_level_checkpoint_re.Capture.Frame.{write_image-other, open_tmp-others}
use user_level_checkpoint_re.Capture.Regions.{Counted}
use user_level_checkpoint_re.Capture.Dumped.{IsOpen}
use user_level_checkpoint_re.Capture.Stored.{write_image-HoldsImage}
use user_level_checkpoint_re.Capture.{
  write_image, bin_path, bin_tmp_path, publish_image, fill_file, capture_file,
}

module _ {Regs : Type 0} where
  -- What a file holds if it is the snapshot of an image whose regions have been saved from the memory
  -- `m`.
  pub record IsImage (m : ℕ → ℕ) (tr_regs : Codec Regs) (image saved_image : Image Regs)
      (included : ℕ) (o : Option Bytes) : Type 0 where
    pub header_same : saved_image.header ≡ image.header
    pub fds_same : saved_image.fds ≡ image.fds
    pub contents : Bytes
    pub regions_saved :
        Counted m
          (length (image_bytes tr_regs saved_image))
          contents
          image.regions
          saved_image.regions
          included
    pub here : o ≡ some (image_bytes tr_regs saved_image ++ contents)

  IsImage-from :
      (m : ℕ → ℕ) (regs : Codec Regs) (image saved_image : Image Regs) (n : ℕ) {o o' : Option Bytes}
      → o' ≡ o
      → IsImage m regs image saved_image n o
      → IsImage m regs image saved_image n o'
  IsImage-from m regs image saved_image n e h = record {
    header_same = h.header_same;
    fds_same = h.fds_same;
    regions_saved = h.regions_saved;
    contents = h.contents;
    here = e ∙ h.here;
  }

  -- A file that is left as it is or holds the snapshot of an image, and does so on success.
  pub record OldOrImage (m : ℕ → ℕ) (regs : Codec Regs) (image : Image Regs)
      (before after : Option Bytes) (result : Option (Image Regs × ℕ)) : Type 0 where
    pub old_or_image :
        (after ≡ before)
        ⊎ ((saved_image : Image Regs) × (n : ℕ) × IsImage m regs image saved_image n after)
    pub image_if_done :
        (saved_image : Image Regs) (n : ℕ)
        → result ≡ some (saved_image, n)
        → IsImage m regs image saved_image n after

  OldOrImage-from :
      (m : ℕ → ℕ) (regs : Codec Regs) (image : Image Regs) {before first after : Option Bytes}
      {result : Option (Image Regs × ℕ)}
      → first ≡ before
      → OldOrImage m regs image first after result
      → OldOrImage m regs image before after result
  OldOrImage-from m regs image {before} {first} {after} e h = record {
    old_or_image = move h.old_or_image;
    image_if_done = h.image_if_done;
  }
    where
      move :
          (after ≡ first)
            ⊎ ((saved_image : Image Regs) × (n : ℕ) × IsImage m regs image saved_image n after)
          → (after ≡ before)
            ⊎ ((saved_image : Image Regs) × (n : ℕ) × IsImage m regs image saved_image n after)
      move (inl f) = inl (f ∙ e)
      move (inr h) = inr h

module _ (fs : Files) (px : IsPosix fs) (tr : Tracer fs) (tl : IsTracer fs px tr) where
  open px use {file, target}

  -- `rename` leaves what was in the first file in the second, or changes nothing in it.
  move_file-moves :
      (tmp path : Bytes) (w : fs.World)
      → str_eq path tmp ≡ false
      → ((file (move_file fs tr tmp path w).1 path ≡ file w path)
          ⊎ (file (move_file fs tr tmp path w).1 path ≡ file w tmp))
        × ((move_file fs tr tmp path w).0 ≡ done
            → file (move_file fs tr tmp path w).1 path ≡ file w tmp)
  unfolding move_file
  move_file-moves tmp path w differ = elim (Status-cases (fs.rename tmp path w).0) [
    | inl moved ↦
        let now =
          fsync_path_directory-file fs px path (fs.rename tmp path w).1 path
          ∙ px.rename-done tmp path w path moved
          ∙ rw (str_eq_refl path) refl in
        rw moved (inr now, λ e. now)
    | inr stuck ↦ rw stuck (
      inl (
          px.unlink-file tmp (fs.rename tmp path w).1 path differ
          ∙ px.rename-failed tmp path w path stuck),
      λ e. absurd cc,
    )
  ]

  module _ (dir : Bytes) (image : Image tr.Regs) (pid : ℤ) (m : ℕ → ℕ)
      (differ : str_eq (bin_path fs tr dir) (bin_tmp_path fs tr dir) ≡ false) where
    abbrev bin : Bytes
    bin = bin_path fs tr dir

    abbrev bin_tmp : Bytes
    bin_tmp = bin_tmp_path fs tr dir

    published :
        (saved_image : Image tr.Regs) (n : ℕ) (status : Status) (before after : Option Bytes)
        → ((after ≡ before) ⊎ IsImage m tr.regs image saved_image n after)
        → (status ≡ done → IsImage m tr.regs image saved_image n after)
        → OldOrImage m tr.regs image before after
            (if is_failed status then none else some (saved_image, n))
    published saved_image n failed before after either h = record {
      old_or_image = move either;
      image_if_done = λ s m e. absurd cc;
    }
      where
        move :
            (after ≡ before) ⊎ IsImage m tr.regs image saved_image n after
            → (after ≡ before)
              ⊎ ((saved_image : Image tr.Regs) × (n : ℕ) × IsImage m tr.regs image saved_image n
                    after)
        move (inl e) = inl e
        move (inr i) = inr (saved_image, n, i)
    published saved_image n done before after either h = record {
      old_or_image = inr (saved_image, n, h refl);
      image_if_done =
          λ s k e. let q : s ≡ saved_image = cc in let l : k ≡ n = cc in rw (q, l) (h refl);
    }

    publish_image-OldOrImage :
        (fd : ℕ) (o : Option (Image tr.Regs × ℕ)) (w : fs.World)
        → ((saved_image : Image tr.Regs) (n : ℕ)
            → o ≡ some (saved_image, n)
            → IsImage m tr.regs image saved_image n (file w bin_tmp))
        → OldOrImage m tr.regs image
            (file w bin)
            (file (publish_image fs tr dir fd o w).1 bin)
            (publish_image fs tr dir fd o w).0
    unfolding publish_image
    publish_image-OldOrImage fd none w h = record {
      old_or_image = inl (px.close-file fd w bin);
      image_if_done = λ s n e. absurd cc;
    }
    publish_image-OldOrImage fd (some (saved_image, n)) w h =
        let w1 = fs.close_file fd w in
        let r = move_file fs tr bin_tmp bin w1 in
        let (either, moved) = move_file-moves bin_tmp bin w1 differ in
        let whole =
          IsImage-from m tr.regs image saved_image n (px.close-file fd w bin_tmp)
            (h saved_image n refl) in
        published saved_image n r.0 (file w bin) (file r.1 bin) (choose either whole)
          (λ e. IsImage-from m tr.regs image saved_image n (moved e) whole)
      where
        choose :
            {after first : Option Bytes}
            → (after ≡ file (fs.close_file fd w) bin) ⊎ (after ≡ first)
            → IsImage m tr.regs image saved_image n first
            → (after ≡ file w bin) ⊎ IsImage m tr.regs image saved_image n after
        choose (inl e) i = inl (e ∙ px.close-file fd w bin)
        choose (inr e) i = inr (IsImage-from m tr.regs image saved_image n e i)

    fill_file-OldOrImage :
        (o : Option ℕ) (w : fs.World)
        → ((fd : ℕ) → o ≡ some fd → IsOpen fs px tr tl bin_tmp fd pid m w [])
        → OldOrImage m tr.regs image
            (file w bin)
            (file (fill_file fs tr pid dir image o w).1 bin)
            (fill_file fs tr pid dir image o w).0
    unfolding fill_file
    fill_file-OldOrImage none w h = record {
      old_or_image = inl refl;
      image_if_done = λ s n e. absurd cc;
    }
    fill_file-OldOrImage (some fd) w h =
        let empty = h fd refl in
        let r = write_image fs tr pid fd image w in
        OldOrImage-from m tr.regs image
          (write_image-other fs px tr tl bin_tmp bin fd pid image w differ empty.holds.at)
          (publish_image-OldOrImage fd r.0 r.1 (λ saved_image n e.
            let i =
              write_image-HoldsImage fs px tr tl bin_tmp fd pid m image n saved_image w empty e in
            record {
              header_same = i.header_same;
              fds_same = i.fds_same;
              regions_saved = i.regions_saved;
              contents = i.contents;
              here = i.here;
            }))

    -- The part that makes snapshot.bin.
    pub capture_file-OldOrImage :
        (w : fs.World)
        → tl.stopped pid w ≡ true
        → tl.memory pid w ≡ m
        → OldOrImage m tr.regs image
            (file w bin)
            (file (capture_file fs tr pid dir image w).1 bin)
            (capture_file fs tr pid dir image w).0
    unfolding capture_file
    capture_file-OldOrImage w stopped same =
        let r = fs.open_file write_truncate bin_tmp w in
        OldOrImage-from m tr.regs image (open_tmp-others fs px tr tl bin_tmp bin w differ) (
          fill_file-OldOrImage r.0 r.1 (λ fd e.
            let (still, kept) = tl.open-frozen pid write_truncate bin_tmp w stopped in
            record {
              holds = record {
                at = px.open-target write_truncate bin_tmp w fd e;
                here =
                    px.open-file write_truncate bin_tmp w bin_tmp
                    ∙ rw (e, str_eq_refl bin_tmp) refl;
              };
              stopped = still;
              memory = kept ∙ same;
            }))
