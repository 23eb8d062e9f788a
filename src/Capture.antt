-- ===== src/Capture.antt =====
-- `ulcr_capture_snapshot` of src/snapshot.c.
pub mod Loop
pub mod Frame
pub mod Contents
pub mod Dumped
pub mod Regions
pub mod Stored
pub mod Whole
pub mod Snapshots
pub mod Loads
pub mod Others
pub mod Dump
mod Sample
mod Examples
mod LoadExamples
use user_level_checkpoint_re.Base.{
  ℕ, zero, suc, ◌+◌, ◌-◌, ◌*◌, ◌%◌, ◌^◌, min, Bool, true, false, ◌||◌, ◌==◌, if◌then◌else◌, ltb,
  Option, none, some, List, [], ◌∷◌, ◌++◌, Bytes, codes, length, map, is_empty, Status, done,
  failed, is_failed,
}
use user_level_checkpoint_re.Base.Int.{ℤ, pos}
use user_level_checkpoint_re.Binary.{Codec}
use user_level_checkpoint_re.Binary.Arrays.{put_array}
use user_level_checkpoint_re.Common.{max_path, copied, joined}
use user_level_checkpoint_re.Cstring.Number.{print_onto, print_ℤ_onto}
use user_level_checkpoint_re.Files.{Files, write_truncate, ◌>>=◌, ◌>>◌, pure, ignore}
use user_level_checkpoint_re.Manifest.{move_file, write_manifest}
use user_level_checkpoint_re.Procfs.{Region, FdEntry, ProcLayout}
use user_level_checkpoint_re.Procfs.Descriptors.{collect_proc_layout}
use user_level_checkpoint_re.Snapshot.{
  magic_number, version_number, Header, SnapshotRegion, Image, snapshot_region_codec, fd_codec,
  header_codec,
}
use user_level_checkpoint_re.Storage.{is_short, ensure_directory, fsync_path_directory}
use user_level_checkpoint_re.Tracer.{Tracer}

-- Nothing is saved yet of a region.
abbrev pub unsaved : Region → SnapshotRegion
unsaved r = record { meta = r; file_offset = 0; data_size = 0 }

-- A region whose memory could not be read.
abbrev pub dropped : SnapshotRegion → SnapshotRegion
dropped r = record { meta = record r.meta { include = false }; file_offset = 0; data_size = 0 }

-- `region->end - region->start` in 64 bits
abbrev pub span : Region → ℕ
span r = (2 ^ 64 + r.end - r.start) % 2 ^ 64

-- The image before the regions are saved.
unfoldable pub first_image : {Regs : Type 0} → ℤ → Bytes → ProcLayout → Regs → Image Regs
first_image pid process_name layout regs = record {
  header = record {
    magic = magic_number;
    version = version_number;
    pid = pid;
    region_count = length layout.regions;
    fd_count = length layout.fds;
    regs = regs;
    process_name = copied 64 process_name;
    exe_path = copied max_path layout.exe_path;
    cwd = copied max_path layout.cwd;
  };
  regions = map unsaved layout.regions;
  fds = layout.fds;
}

module _ (fs : Files) (tr : Tracer fs) where
  open fs use {World, open_file, close_file, write, pwrite, lseek_current, fsync}

  -- What `dump_region_bytes` does with the bytes that it has read; `rest` is the next round.
  unfoldable pub dump_chunk :
      (ℕ → ℕ → ℕ → World → Option ℕ × World)
      → ℕ
      → ℕ
      → ℕ
      → ℕ
      → Option Bytes
      → World
      → Option ℕ × World
  dump_chunk rest out_fd address remaining total none = pure none
  dump_chunk rest out_fd address remaining total (some []) = pure none
  dump_chunk rest out_fd address remaining total (some (b ∷ bs)) = do
    count ← write out_fd (b ∷ bs)
    if is_short count (length (b ∷ bs))
        then pure none
        else rest (address + length (b ∷ bs)) (remaining - length (b ∷ bs))
            (total + length (b ∷ bs))

  -- The loop of `dump_region_bytes`. Each round takes a byte or more, so the fuel lasts if it is not
  -- below `remaining`.
  unfoldable pub dump_from : ℕ → ℤ → ℕ → ℕ → ℕ → ℕ → World → Option ℕ × World
  dump_from zero pid out_fd address remaining total =
      pure (if remaining == 0 then some total else none)
  dump_from (suc fuel) pid out_fd address remaining total =
      let rest : ℕ → ℕ → ℕ → World → Option ℕ × World = dump_from fuel pid out_fd in
      if remaining == 0 then pure (some total) else (do
        chunk ← tr.read_memory pid address (min remaining 65536)
        dump_chunk rest out_fd address remaining total chunk)

  -- `dump_region_bytes`: the number of bytes, or `none` for -1.
  unfoldable pub dump_region_bytes : ℤ → Region → ℕ → World → Option ℕ × World
  dump_region_bytes pid region out_fd =
      dump_from (span region) pid out_fd region.start (span region) 0

  unfoldable pub saved : SnapshotRegion → ℕ → Option ℕ → SnapshotRegion × ℕ
  saved region offset none = (dropped region, 0)
  saved region offset (some bytes) =
      (record { meta = region.meta; file_offset = offset; data_size = bytes }, 1)

  unfoldable pub save_at :
      ℤ → ℕ → SnapshotRegion → Option ℕ → World → Option (SnapshotRegion × ℕ) × World
  save_at pid fd region none = pure none
  save_at pid fd region (some offset) = do
    bytes ← dump_region_bytes pid region.meta fd
    pure (some (saved region offset bytes))

  -- The body of the loop over the regions, for a region that is included and for one that is not:
  -- the region and how many regions it adds to those that are included, or `none` where the
  -- function gives up.
  unfoldable pub save_region :
      ℤ → ℕ → SnapshotRegion → Bool → World → Option (SnapshotRegion × ℕ) × World
  save_region pid fd region true = do offset ← lseek_current fd; save_at pid fd region offset
  save_region pid fd region false = pure (some (region, 0))

  unfoldable pub with_region :
      SnapshotRegion → ℕ → Option (List SnapshotRegion × ℕ) → Option (List SnapshotRegion × ℕ)
  with_region r i none = none
  with_region r i (some (rs, n)) = some (r ∷ rs, i + n)

  unfoldable pub save_rest :
      Option (SnapshotRegion × ℕ)
      → (World → Option (List SnapshotRegion × ℕ) × World)
      → World
      → Option (List SnapshotRegion × ℕ) × World
  save_rest none rest = pure none
  save_rest (some (r, i)) rest = do regions ← rest; pure (with_region r i regions)

  unfoldable pub save_regions :
      ℤ → ℕ → List SnapshotRegion → World → Option (List SnapshotRegion × ℕ) × World
  unfolding save_rest
  save_regions pid fd [] w = (some ([], 0), w)
  save_regions pid fd (region ∷ regions) w =
      let (one, w') = save_region pid fd region region.meta.include w in
      save_rest one (save_regions pid fd regions) w'

  -- A call that has to write all of its bytes.
  unfoldable pub written :
      {A : Type 0}
      → (World → Option ℕ × World)
      → ℕ
      → (World → Option A × World)
      → World
      → Option A × World
  written call size next = do count ← call; if is_short count size then pure none else next

  abbrev pub Saved : Type 0
  Saved = Option (Image tr.Regs × ℕ)

  abbrev header_size : ℕ
  header_size = (header_codec tr.regs).size

  abbrev regions_size : List SnapshotRegion → ℕ
  regions_size rs = snapshot_region_codec.size * length rs

  -- From the rewrite of the header and the regions to `fsync`.
  unfoldable pub rewrite_image :
      ℕ → Image tr.Regs → Option (List SnapshotRegion × ℕ) → World → Saved × World
  unfolding written
  rewrite_image fd image none = pure none
  rewrite_image fd image (some (regions, included)) =
      written (pwrite fd ((header_codec tr.regs).put image.header) 0) header_size (
        written (pwrite fd (put_array snapshot_region_codec regions) header_size)
          (regions_size regions)
          (do
            synced ← fsync fd
            pure (
                if is_failed synced
                then none
                else some (record image { regions = regions }, included))))

  -- What is written to the open file.
  unfoldable pub write_image : ℤ → ℕ → Image tr.Regs → World → Saved × World
  unfolding written rewrite_image
  write_image pid fd image =
      written (write fd ((header_codec tr.regs).put image.header)) header_size (
        written (write fd (put_array snapshot_region_codec image.regions))
          (regions_size image.regions)
          (written (write fd (put_array fd_codec image.fds)) (fd_codec.size * length image.fds)
            (do regions ← save_regions pid fd image.regions; rewrite_image fd image regions)))

  abbrev pub bin_path : Bytes → Bytes
  bin_path dir = joined max_path dir (codes "snapshot.bin")

  abbrev pub bin_tmp_path : Bytes → Bytes
  bin_tmp_path dir = joined max_path dir (codes "snapshot.bin.tmp")

  unfoldable pub publish_image : Bytes → ℕ → Saved → World → Saved × World
  publish_image dir fd none = do close_file fd; pure none
  publish_image dir fd (some saved_image) = do
    close_file fd
    moved ← move_file fs tr (bin_tmp_path dir) (bin_path dir)
    pure (if is_failed moved then none else some saved_image)

  unfoldable pub fill_file : ℤ → Bytes → Image tr.Regs → Option ℕ → World → Saved × World
  fill_file pid dir image none = pure none
  fill_file pid dir image (some fd) = do
    saved_image ← write_image pid fd image
    publish_image dir fd saved_image

  -- The part of `ulcr_capture_snapshot` that makes snapshot.bin: the image and the number of regions
  -- that are included, or `none` where the function gives up.
  unfoldable pub capture_file : ℤ → Bytes → Image tr.Regs → World → Saved × World
  unfolding fill_file publish_image
  capture_file pid dir image = do
    fd ← open_file write_truncate (bin_tmp_path dir)
    fill_file pid dir image fd

  -- Every exit behind the attach.
  unfoldable pub detached : ℤ → Status → World → Status × World
  detached pid status = do tr.detach pid; pure status

  unfoldable pub report : ℤ → Bytes → Saved → World → Status × World
  unfolding detached
  report pid dir none = detached pid failed
  report pid dir (some (image, included)) = do
    status ← write_manifest fs tr dir image
    detached pid (if is_failed status || included == 0 then failed else done)

  unfoldable pub capture_regs :
      ℤ → Bytes → Bytes → ProcLayout → Option tr.Regs → World → Status × World
  unfolding detached
  capture_regs pid process_name dir layout none = detached pid failed
  capture_regs pid process_name dir layout (some regs) = do
    saved_image ← capture_file pid dir (first_image pid process_name layout regs)
    report pid dir saved_image

  unfoldable pub capture_layout : ℤ → Bytes → Bytes → Option ProcLayout → World → Status × World
  unfolding detached
  capture_layout pid process_name dir none = detached pid failed
  capture_layout pid process_name dir (some layout) = do
    regs ← tr.get_regs pid
    capture_regs pid process_name dir layout regs

  unfoldable pub capture_stopped : ℤ → Bytes → Bytes → Option Bool → World → Status × World
  capture_stopped pid process_name dir (some true) w =
      capture_layout pid process_name dir (collect_proc_layout (tr.proc w) pid) w
  capture_stopped pid process_name dir _ w = (failed, w)

  unfoldable pub capture_attached : ℤ → Bytes → Bytes → World → Status × World
  capture_attached pid process_name dir = do
    attached ← tr.attach pid
    if is_failed attached
        then pure failed
        else (do stopped ← tr.wait_stopped pid; capture_stopped pid process_name dir stopped)

  -- `ulcr_capture_snapshot`
  unfoldable pub capture_snapshot : ℤ → Bytes → Bytes → World → Status × World
  unfolding capture_attached
  capture_snapshot pid process_name dir = do
    made ← ensure_directory fs dir
    if is_failed made then pure failed else capture_attached pid process_name dir
