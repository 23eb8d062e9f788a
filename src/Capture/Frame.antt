-- ===== src/Capture/Frame.antt =====
-- The files beside the one that `ulcr_capture_snapshot` of src/snapshot.c has open.
use user_level_checkpoint_re.Base.{
  ℕ, ◌+◌, ◌≡◌, refl, ◌∙◌, false, Option, none, some, List, Bytes, str_eq, Bool-cases, Status-cases,
  inl, inr, arith,
}
use user_level_checkpoint_re.Base.Int.{ℤ}
use user_level_checkpoint_re.Binary.Arrays.{put_array}
use user_level_checkpoint_re.Files.{Files, write_truncate}
use user_level_checkpoint_re.Files.Posix.{IsPosix, count_of}
use user_level_checkpoint_re.Snapshot.{
  SnapshotRegion, Image, snapshot_region_codec, fd_codec, header_codec,
}
use user_level_checkpoint_re.Storage.{is_short}
use user_level_checkpoint_re.Storage.Atomic.{fsync_path_directory-file}
use user_level_checkpoint_re.Tracer.{Tracer, IsTracer}
use user_level_checkpoint_re.Manifest.{move_file}
use user_level_checkpoint_re.Capture.Loop.{save_regions-keeps}
use user_level_checkpoint_re.Capture.{
  save_regions, written, rewrite_image, write_image, bin_path, bin_tmp_path, publish_image,
  fill_file, capture_file,
}

module _ (fs : Files) (px : IsPosix fs) (tr : Tracer fs) (tl : IsTracer fs px tr) where
  open px use {file, target}

  -- What `written` keeps.
  written-keeps :
      {A : Type 0} (P Q : fs.World → Type 0) (call : fs.World → Option ℕ × fs.World) (size : ℕ)
      (next : fs.World → Option A × fs.World)
      → ((w : fs.World) → P w → P (call w).1)
      → ((w : fs.World) → P w → Q w)
      → ((w : fs.World) → P w → Q (next w).1)
      → (w : fs.World) → P w
      → Q (written fs tr call size next w).1
  unfolding written
  written-keeps P Q call size next kept weaker goes w p =
      elim (Bool-cases (is_short (call w).0 size)) [
        | inl short ↦ rw short (weaker (call w).1 (kept w p))
        | inr whole ↦ rw whole (goes (call w).1 (kept w p))
      ]

  -- A file other than the one that is open for writing.
  module _ (tmp : Bytes) (fd : ℕ) (q : Bytes) (c : Option Bytes)
      (differ : str_eq q tmp ≡ false) where
    record Steady (w : fs.World) : Type 0 where
      offset : ℕ
      at : target w fd ≡ some (tmp, offset)
      same : file w q ≡ c

    abbrev Same : fs.World → Type 0
    Same w = file w q ≡ c

    write-Steady : (bytes : Bytes) (w : fs.World) → Steady w → Steady (fs.write fd bytes w).1
    write-Steady bytes w s = record {
      offset = s.offset + count_of (fs.write fd bytes w).0;
      at = px.write-target fd bytes w tmp s.offset s.at;
      same = px.write-file fd bytes w tmp s.offset q s.at ∙ rw differ s.same;
    }

    pwrite-Steady :
        (bytes : Bytes) (offset : ℕ) (w : fs.World)
        → Steady w
        → Steady (fs.pwrite fd bytes offset w).1
    pwrite-Steady bytes offset w s = record {
      offset = s.offset;
      at = px.pwrite-target fd bytes offset w ∙ s.at;
      same = px.pwrite-file fd bytes offset w tmp s.offset q s.at ∙ rw differ s.same;
    }

    memory-Steady :
        (pid : ℤ) (address size : ℕ) (w : fs.World)
        → Steady w
        → Steady (tr.read_memory pid address size w).1
    memory-Steady pid address size w s = record {
      offset = s.offset;
      at = tl.memory-target pid address size w fd ∙ s.at;
      same = tl.memory-file pid address size w q ∙ s.same;
    }

    lseek-Steady : (w : fs.World) → Steady w → Steady (fs.lseek_current fd w).1
    lseek-Steady w s = record {
      offset = s.offset;
      at = px.lseek-target fd w ∙ s.at;
      same = px.lseek-file fd w q ∙ s.same;
    }

    rewrite_image-Same :
        (image : Image tr.Regs) (o : Option (List SnapshotRegion × ℕ)) (w : fs.World)
        → Steady w
        → Same (rewrite_image fs tr fd image o w).1
    unfolding rewrite_image
    rewrite_image-Same image none w s = s.same
    rewrite_image-Same image (some (rs, n)) w s =
        written-keeps Steady Same (fs.pwrite fd ((header_codec tr.regs).put image.header) 0) _ _
          (pwrite-Steady ((header_codec tr.regs).put image.header) 0) (λ v t. t.same)
          (written-keeps Steady Same
            (fs.pwrite fd (put_array snapshot_region_codec rs) (header_codec tr.regs).size) _ _
            (pwrite-Steady (put_array snapshot_region_codec rs) (header_codec tr.regs).size)
            (λ v t. t.same) (λ v t. px.fsync-file fd v q ∙ t.same))
          w s

    write_image-Same :
        (pid : ℤ) (image : Image tr.Regs) (w : fs.World)
        → Steady w
        → Same (write_image fs tr pid fd image w).1
    unfolding write_image
    write_image-Same pid image =
        written-keeps Steady Same (fs.write fd ((header_codec tr.regs).put image.header)) _ _
          (write-Steady ((header_codec tr.regs).put image.header)) (λ v t. t.same)
          (written-keeps Steady Same (fs.write fd (put_array snapshot_region_codec image.regions)) _
            _ (write-Steady (put_array snapshot_region_codec image.regions)) (λ v t. t.same)
            (written-keeps Steady Same (fs.write fd (put_array fd_codec image.fds)) _ _
              (write-Steady (put_array fd_codec image.fds)) (λ v t. t.same)
              (λ v t.
                rewrite_image-Same image (save_regions fs tr pid fd image.regions v).0
                  (save_regions fs tr pid fd image.regions v).1
                  (save_regions-keeps fs tr fd Steady write-Steady memory-Steady lseek-Steady pid
                    image.regions v t))))

  -- Moving a file changes no third one.
  pub move_file-others :
      (tmp path q : Bytes) (w : fs.World)
      → str_eq q tmp ≡ false
      → str_eq q path ≡ false
      → file (move_file fs tr tmp path w).1 q ≡ file w q
  unfolding move_file
  move_file-others tmp path q w a b = elim (Status-cases (fs.rename tmp path w).0) [
    | inl moved ↦ rw moved (
        fsync_path_directory-file fs px path (fs.rename tmp path w).1 q
        ∙ px.rename-done tmp path w q moved
        ∙ rw (b, a) refl)
    | inr stuck ↦
        rw stuck
          (px.unlink-file tmp (fs.rename tmp path w).1 q a ∙ px.rename-failed tmp path w q stuck)
  ]

  -- Opening a file for writing empties it and changes no other.
  pub open_tmp-others :
      (tmp q : Bytes) (w : fs.World)
      → str_eq q tmp ≡ false
      → file (fs.open_file write_truncate tmp w).1 q ≡ file w q
  open_tmp-others tmp q w a = ground (arith, px.open-file write_truncate tmp w q, a)

  publish_image-others :
      (dir q : Bytes) (fd : ℕ) (o : Option (Image tr.Regs × ℕ)) (w : fs.World)
      → str_eq q (bin_tmp_path fs tr dir) ≡ false
      → str_eq q (bin_path fs tr dir) ≡ false
      → file (publish_image fs tr dir fd o w).1 q ≡ file w q
  unfolding publish_image
  publish_image-others dir q fd none w a b = px.close-file fd w q
  publish_image-others dir q fd (some s) w a b =
      move_file-others (bin_tmp_path fs tr dir) (bin_path fs tr dir) q (fs.close_file fd w) a b
      ∙ px.close-file fd w q

  -- Writing an image to a file changes no other.
  pub write_image-other :
      (tmp q : Bytes) (fd : ℕ) (pid : ℤ) (image : Image tr.Regs) (w : fs.World)
      → str_eq q tmp ≡ false
      → target w fd ≡ some (tmp, 0)
      → file (write_image fs tr pid fd image w).1 q ≡ file w q
  write_image-other tmp q fd pid image w a at =
      write_image-Same tmp fd q (file w q) a pid image w
        (record { offset = 0; at = at; same = refl })

  fill_file-others :
      (pid : ℤ) (dir q : Bytes) (image : Image tr.Regs) (o : Option ℕ) (w : fs.World)
      → ((fd : ℕ) → o ≡ some fd → target w fd ≡ some (bin_tmp_path fs tr dir, 0))
      → str_eq q (bin_tmp_path fs tr dir) ≡ false
      → str_eq q (bin_path fs tr dir) ≡ false
      → file (fill_file fs tr pid dir image o w).1 q ≡ file w q
  unfolding fill_file
  fill_file-others pid dir q image none w at a b = refl
  fill_file-others pid dir q image (some fd) w at a b =
      publish_image-others dir q fd (write_image fs tr pid fd image w).0
        (write_image fs tr pid fd image w).1 a b
      ∙ write_image-other (bin_tmp_path fs tr dir) q fd pid image w a (at fd refl)

  -- The part that makes snapshot.bin.
  pub capture_file-others :
      (pid : ℤ) (dir q : Bytes) (image : Image tr.Regs) (w : fs.World)
      → str_eq q (bin_tmp_path fs tr dir) ≡ false
      → str_eq q (bin_path fs tr dir) ≡ false
      → file (capture_file fs tr pid dir image w).1 q ≡ file w q
  unfolding capture_file
  capture_file-others pid dir q image w a b =
      let tmp = bin_tmp_path fs tr dir in
      fill_file-others pid dir q image (fs.open_file write_truncate tmp w).0
        (fs.open_file write_truncate tmp w).1 (px.open-target write_truncate tmp w) a b
      ∙ open_tmp-others tmp q w a
