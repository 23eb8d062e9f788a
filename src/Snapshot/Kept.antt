-- ===== src/Snapshot/Kept.antt =====
-- `ulcr_load_snapshot` of src/snapshot.c and the files.
use user_level_checkpoint_re.Base.{
  ℕ, ◌*◌, ◌≡◌, refl, ◌∙◌, Option, none, some, List, Bytes, codes, Bool-cases, inl, inr,
}
use user_level_checkpoint_re.Binary.{Codec}
use user_level_checkpoint_re.Binary.Arrays.{get_array}
use user_level_checkpoint_re.Common.{max_path, joined}
use user_level_checkpoint_re.Files.{Files, read_only}
use user_level_checkpoint_re.Files.Posix.{IsPosix}
use user_level_checkpoint_re.Snapshot.{
  Header, SnapshotRegion, snapshot_region_codec, fd_codec, header_codec, exactly, load_fds,
  load_regions, is_refused, load_counted, load_header, load_opened, load_snapshot, give_up,
}
use user_level_checkpoint_re.Storage.Reading.{open_read-file}

module _ {Regs : Type 0} (regs : Codec Regs) (fs : Files) (px : IsPosix fs) (q : Bytes) where
  open px use {file}

  load_fds-file :
      (fd : ℕ) (h : Header Regs) (rs : List SnapshotRegion) (o : Option Bytes) (w : fs.World)
      → file (load_fds regs fs fd h rs o w).1 q ≡ file w q
  unfolding load_fds give_up
  load_fds-file fd h rs none w = px.close-file fd w q
  load_fds-file fd h rs (some b) w = refl

  load_regions-file :
      (fd : ℕ) (h : Header Regs) (o : Option Bytes) (w : fs.World)
      → file (load_regions regs fs fd h o w).1 q ≡ file w q
  unfolding load_regions give_up
  load_regions-file fd h none w = px.close-file fd w q
  load_regions-file fd h (some b) w =
      let size = fd_codec.size * h.fd_count in
      let got = fs.read fd size w in
      load_fds-file fd h (get_array snapshot_region_codec h.region_count b) (exactly size got.0)
        got.1
      ∙ px.read-file fd size w q

  load_counted-file :
      (fd : ℕ) (h : Header Regs) (w : fs.World) → file (load_counted regs fs fd h w).1 q ≡ file w q
  unfolding load_counted give_up
  load_counted-file fd h w = elim (Bool-cases (is_refused h)) [
    | inl t ↦ rw t (px.close-file fd w q)
    | inr f ↦
        let size = snapshot_region_codec.size * h.region_count in
        let got = fs.read fd size w in
        rw f (load_regions-file fd h (exactly size got.0) got.1 ∙ px.read-file fd size w q)
  ]

  load_header-file :
      (fd : ℕ) (o : Option Bytes) (w : fs.World) → file (load_header regs fs fd o w).1 q ≡ file w q
  unfolding load_header give_up
  load_header-file fd none w = px.close-file fd w q
  load_header-file fd (some b) w = load_counted-file fd ((header_codec regs).get b) w

  load_opened-file : (fd : Option ℕ) (w : fs.World) → file (load_opened regs fs fd w).1 q ≡ file w q
  unfolding load_opened
  load_opened-file none w = refl
  load_opened-file (some fd) w =
      let size = (header_codec regs).size in
      let got = fs.read fd size w in
      load_header-file fd (exactly size got.0) got.1 ∙ px.read-file fd size w q

  -- Loading a snapshot changes no file.
  pub load_snapshot-file :
      (dir : Bytes) (w : fs.World) → file (load_snapshot regs fs dir w).1 q ≡ file w q
  unfolding load_snapshot
  load_snapshot-file dir w =
      let path = joined max_path dir (codes "snapshot.bin") in
      let r = fs.open_file read_only path w in
      load_opened-file r.0 r.1 ∙ open_read-file fs px path w q
