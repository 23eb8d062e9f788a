-- ===== src/Snapshot/Load.antt =====
-- What `ulcr_load_snapshot` of src/snapshot.c accepts.
use user_level_checkpoint_re.Base.{
  ℕ, ◌*◌, ◌≤◌, ◌≡◌, false, Option, none, some, List, Bytes, codes, length, Bool-cases, inl, inr,
  arith,
}
use user_level_checkpoint_re.Binary.{Codec}
use user_level_checkpoint_re.Binary.Arrays.{length-get_array, get_array}
use user_level_checkpoint_re.Common.{max_path, joined}
use user_level_checkpoint_re.Files.{Files, read_only}
use user_level_checkpoint_re.Procfs.{max_regions, max_fds}
use user_level_checkpoint_re.Snapshot.{
  magic_number, version_number, Header, SnapshotRegion, Image, snapshot_region_codec, fd_codec,
  header_codec, exactly, load_fds, load_regions, is_refused, load_counted, load_header, load_opened,
  load_snapshot, give_up,
}

module _ {Regs : Type 0} where
  -- The header is one of this program, and the arrays of the image hold as many elements as it says.
  pub record IsBounded (image : Image Regs) : Type 0 where
    pub magic_right : image.header.magic ≡ magic_number
    pub version_right : image.header.version ≡ version_number
    pub regions_counted : length image.regions ≡ image.header.region_count
    pub fds_counted : length image.fds ≡ image.header.fd_count
    pub regions_bounded : length image.regions ≤ max_regions
    pub fds_bounded : length image.fds ≤ max_fds

  -- The tests on the header pass.
  pub record IsAccepted (h : Header Regs) : Type 0 where
    pub magic_right : h.magic ≡ magic_number
    pub version_right : h.version ≡ version_number
    pub few_regions : h.region_count ≤ max_regions
    pub few_fds : h.fd_count ≤ max_fds

pub is_refused_lem : {Regs : Type 0} → (h : Header Regs) → is_refused h ≡ false → IsAccepted h
unfolding is_refused
is_refused_lem h e = record {
  magic_right = ground arith;
  version_right = ground arith;
  few_regions = ground arith;
  few_fds = ground arith;
}

module _ {Regs : Type 0} (regs : Codec Regs) (fs : Files) where
  load_fds-IsBounded :
      (fd : ℕ) (h : Header Regs) (rs : List SnapshotRegion) (o : Option Bytes) (w : fs.World)
      (r : Image Regs × ℕ)
      → IsAccepted h
      → length rs ≡ h.region_count
      → (load_fds regs fs fd h rs o w).0 ≡ some r
      → IsBounded r.0
  unfolding load_fds give_up
  load_fds-IsBounded fd h rs none w r ok n e = cc
  load_fds-IsBounded fd h rs (some b) w r ok n e =
      let m : Image Regs = record {
        header = h;
        regions = rs;
        fds = get_array fd_codec h.fd_count b;
      } in
      let q : r.0 ≡ m = cc in
      let bounded : IsBounded m = record {
        magic_right = ok.magic_right;
        version_right = ok.version_right;
        regions_counted = n;
        fds_counted = length-get_array fd_codec h.fd_count b;
        regions_bounded = omega (arith, n, ok.few_regions);
        fds_bounded = omega (arith, length-get_array fd_codec h.fd_count b, ok.few_fds);
      } in
      rw q bounded

  load_regions-IsBounded :
      (fd : ℕ) (h : Header Regs) (o : Option Bytes) (w : fs.World) (r : Image Regs × ℕ)
      → IsAccepted h
      → (load_regions regs fs fd h o w).0 ≡ some r
      → IsBounded r.0
  unfolding load_regions give_up
  load_regions-IsBounded fd h none w r ok e = cc
  load_regions-IsBounded fd h (some b) w r ok e =
      let got = fs.read fd (fd_codec.size * h.fd_count) w in
      load_fds-IsBounded fd h (get_array snapshot_region_codec h.region_count b)
        (exactly (fd_codec.size * h.fd_count) got.0) got.1 r ok
        (length-get_array snapshot_region_codec h.region_count b) e

  load_counted-IsBounded :
      (fd : ℕ) (h : Header Regs) (w : fs.World) (r : Image Regs × ℕ)
      → (load_counted regs fs fd h w).0 ≡ some r
      → IsBounded r.0
  unfolding load_counted give_up
  load_counted-IsBounded fd h w r e = elim (Bool-cases (is_refused h)) [
    | inl t ↦ cc (rw t at e)
    | inr f ↦
        let got = fs.read fd (snapshot_region_codec.size * h.region_count) w in
        load_regions-IsBounded fd h (exactly (snapshot_region_codec.size * h.region_count) got.0)
          got.1 r (is_refused_lem h f) (rw f at e)
  ]

  load_opened-IsBounded :
      (fd : Option ℕ) (w : fs.World) (r : Image Regs × ℕ)
      → (load_opened regs fs fd w).0 ≡ some r
      → IsBounded r.0
  unfolding load_opened load_header give_up
  load_opened-IsBounded none w r e = cc
  load_opened-IsBounded (some fd) w r e =
      go (exactly (header_codec regs).size (fs.read fd (header_codec regs).size w).0) e
    where
      go :
          (o : Option Bytes)
          → (load_header regs fs fd o (fs.read fd (header_codec regs).size w).1).0 ≡ some r
          → IsBounded r.0
      go none k = cc
      go (some b) k =
          load_counted-IsBounded fd ((header_codec regs).get b)
            (fs.read fd (header_codec regs).size w).1 r k

  -- Whatever bytes the file holds and whichever reads fail or are short, an image that
  -- `ulcr_load_snapshot` returns with success has the program's magic number and version, and it
  -- has as many regions and descriptors as its header says, at most 512 and 128 of them, which is
  -- what the arrays of `ulcr_snapshot_image_t` hold.
  pub load_snapshot-IsBounded :
      (snapshot_dir : Bytes) (w : fs.World) (image : Image Regs) (fd : ℕ)
      → (load_snapshot regs fs snapshot_dir w).0 ≡ some (image, fd)
      → IsBounded image
  unfolding load_snapshot
  load_snapshot-IsBounded snapshot_dir w image fd e =
      let got = fs.open_file read_only (joined max_path snapshot_dir (codes "snapshot.bin")) w in
      load_opened-IsBounded got.0 got.1 (image, fd) e
