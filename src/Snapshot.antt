-- ===== src/Snapshot.antt =====
-- The snapshot file of src/snapshot.c and include/ulcr/snapshot.h: its layout and its loader. The
-- registers' type is the system's `struct user_regs_struct`, and so a parameter.
pub mod Load
pub mod Kept
pub mod RoundTrip
pub mod Collected
mod Examples
use user_level_checkpoint_re.Base.{
  ℕ, ◌+◌, ◌*◌, ◌≡◌, refl, Bool, true, false, ◌||◌, not, Option, none, some, List, [], ◌∷◌, ◌++◌,
  ◌==◌, ltb, if◌then◌else◌, Bytes, codes, length,
}
use user_level_checkpoint_re.Base.Int.{ℤ}
use user_level_checkpoint_re.Binary.{Codec}
use user_level_checkpoint_re.Binary.Arrays.{
  word, int, long, flag, text, padding, pair, via, put_array, get_array,
}
use user_level_checkpoint_re.Common.{max_path, joined}
use user_level_checkpoint_re.Files.{Files, read_only, ◌>>=◌, ◌>>◌, pure}
use user_level_checkpoint_re.Procfs.{Region, FdEntry, max_regions, max_fds}

-- ULCR_MAGIC and ULCR_VERSION
abbrev pub magic_number : ℕ
magic_number = 0x554C4352

abbrev pub version_number : ℕ
version_number = 1

-- `ulcr_snapshot_header_t`
pub record Header (Regs : Type 0) : Type 0 where
  pub magic : ℕ
  pub version : ℕ
  pub pid : ℤ
  pub region_count : ℕ
  pub fd_count : ℕ
  pub regs : Regs
  pub process_name : Bytes
  pub exe_path : Bytes
  pub cwd : Bytes

-- `ulcr_snapshot_region_t`
pub record SnapshotRegion : Type 0 where
  pub meta : Region
  pub file_offset : ℕ
  pub data_size : ℕ

-- `ulcr_snapshot_image_t`; the counts outside the header are the lengths.
pub record Image (Regs : Type 0) : Type 0 where
  pub header : Header Regs
  pub regions : List SnapshotRegion
  pub fds : List FdEntry

abbrev region_fields : Codec (ℕ × (ℕ × (ℕ × (ℕ × (ℕ × (Bool × (Bool × Bytes)))))))
region_fields = pair (word 8) (
    pair (word 8)
      (pair (word 8) (pair (word 4) (pair (word 4) (pair flag (pair flag (text 256)))))))

abbrev region_tuple : Region → ℕ × (ℕ × (ℕ × (ℕ × (ℕ × (Bool × (Bool × Bytes))))))
region_tuple r =
    (r.start, (r.end, (r.offset, (r.prot, (r.flags, (r.is_anonymous, (r.include, r.name)))))))

abbrev tuple_region : ℕ × (ℕ × (ℕ × (ℕ × (ℕ × (Bool × (Bool × Bytes)))))) → Region
tuple_region t = record {
  start = t.0;
  end = t.1.0;
  offset = t.1.1.0;
  prot = t.1.1.1.0;
  flags = t.1.1.1.1.0;
  is_anonymous = t.1.1.1.1.1.0;
  include = t.1.1.1.1.1.1.0;
  name = t.1.1.1.1.1.1.1;
}

-- The bytes of `ulcr_region_t`.
abbrev pub region_codec : Codec Region
region_codec =
    via region_fields region_tuple tuple_region (λ r. region_fields.Fits (region_tuple r))
      (λ r h. h) (λ r h. refl)

abbrev snapshot_fields : Codec (Region × (ℕ × ℕ))
snapshot_fields = pair region_codec (pair (word 8) (word 8))

abbrev snapshot_tuple : SnapshotRegion → Region × (ℕ × ℕ)
snapshot_tuple r = (r.meta, (r.file_offset, r.data_size))

-- The bytes of `ulcr_snapshot_region_t`.
abbrev pub snapshot_region_codec : Codec SnapshotRegion
snapshot_region_codec =
    via snapshot_fields snapshot_tuple
      (λ t. record { meta = t.0; file_offset = t.1.0; data_size = t.1.1 })
      (λ r. snapshot_fields.Fits (snapshot_tuple r)) (λ r h. h) (λ r h. refl)

abbrev fd_fields : Codec (ℤ × (ℤ × (ℤ × (Bool × (Bytes × Unit {0})))))
fd_fields = pair int (pair int (pair long (pair flag (pair (text 512) (padding 4)))))

abbrev fd_tuple : FdEntry → ℤ × (ℤ × (ℤ × (Bool × (Bytes × Unit {0}))))
fd_tuple e = (e.fd, (e.flags, (e.position, (e.supported, (e.target, tt)))))

-- The bytes of `ulcr_fd_entry_t`.
abbrev pub fd_codec : Codec FdEntry
fd_codec =
    via fd_fields fd_tuple
      (λ t. record {
        fd = t.0;
        flags = t.1.0;
        position = t.1.1.0;
        supported = t.1.1.1.0;
        target = t.1.1.1.1.0;
      })
      (λ e. fd_fields.Fits (fd_tuple e)) (λ e h. h) (λ e h. refl)

module _ {Regs : Type 0} (regs : Codec Regs) where
  abbrev Fields : Type 0
  Fields = ℕ × (ℕ × (ℤ × (ℕ × (ℕ × (Unit {0} × (Regs × (Bytes × (Bytes × Bytes))))))))

  abbrev header_fields : Codec Fields
  header_fields = pair (word 4) (
      pair (word 4) (
        pair int (
          pair (word 4) (
            pair (word 4)
              (pair (padding 4) (pair regs (pair (text 64) (pair (text 512) (text 512)))))))))

  abbrev header_tuple : Header Regs → Fields
  header_tuple h = (
    h.magic,
    (
      h.version,
      (
        h.pid,
        (h.region_count, (h.fd_count, (tt, (h.regs, (h.process_name, (h.exe_path, h.cwd)))))),
      ),
    ),
  )

  abbrev tuple_header : Fields → Header Regs
  tuple_header t = record {
    magic = t.0;
    version = t.1.0;
    pid = t.1.1.0;
    region_count = t.1.1.1.0;
    fd_count = t.1.1.1.1.0;
    regs = t.1.1.1.1.1.1.0;
    process_name = t.1.1.1.1.1.1.1.0;
    exe_path = t.1.1.1.1.1.1.1.1.0;
    cwd = t.1.1.1.1.1.1.1.1.1;
  }

  -- The bytes of `ulcr_snapshot_header_t`.
  abbrev pub header_codec : Codec (Header Regs)
  header_codec =
      via header_fields header_tuple tuple_header (λ h. header_fields.Fits (header_tuple h))
        (λ h k. k) (λ h k. refl)

  -- The header, the regions and the descriptors, as `ulcr_capture_snapshot` writes them in front of
  -- the contents of the regions.
  unfoldable pub image_bytes : Image Regs → Bytes
  image_bytes image =
      header_codec.put image.header
      ++ (put_array snapshot_region_codec image.regions ++ put_array fd_codec image.fds)

-- The tests on the header.
unfoldable pub is_refused : {Regs : Type 0} → Header Regs → Bool
is_refused header =
    not (header.magic == magic_number)
    || not (header.version == version_number)
    || ltb max_regions header.region_count
    || ltb max_fds header.fd_count

-- `read(fd, buffer, size)` of which the caller wants all bytes.
unfoldable pub exactly : ℕ → Option Bytes → Option Bytes
exactly size none = none
exactly size (some b) = if length b == size then some b else none

module _ {Regs : Type 0} (regs : Codec Regs) (fs : Files) where
  open fs use {World, open_file, close_file, read}

  -- The path that leaves the file open and the one that closes it.
  unfoldable pub give_up : ℕ → World → Option (Image Regs × ℕ) × World
  give_up fd = do close_file fd; pure none

  unfoldable pub load_fds :
      ℕ → Header Regs → List SnapshotRegion → Option Bytes → World → Option (Image Regs × ℕ) × World
  load_fds fd header regions none = give_up fd
  load_fds fd header regions (some b) = pure (
      some (
        record { header = header; regions = regions; fds = get_array fd_codec header.fd_count b },
        fd,
      ))

  unfoldable pub load_regions :
      ℕ → Header Regs → Option Bytes → World → Option (Image Regs × ℕ) × World
  load_regions fd header none = give_up fd
  load_regions fd header (some b) = do
    r ← read fd (fd_codec.size * header.fd_count)
    load_fds fd header (get_array snapshot_region_codec header.region_count b)
        (exactly (fd_codec.size * header.fd_count) r)

  unfoldable pub load_counted : ℕ → Header Regs → World → Option (Image Regs × ℕ) × World
  load_counted fd header = if is_refused header then give_up fd else (do
    r ← read fd (snapshot_region_codec.size * header.region_count)
    load_regions fd header (exactly (snapshot_region_codec.size * header.region_count) r))

  unfoldable pub load_header : ℕ → Option Bytes → World → Option (Image Regs × ℕ) × World
  load_header fd none = give_up fd
  load_header fd (some b) = load_counted fd ((header_codec regs).get b)

  unfoldable pub load_opened : Option ℕ → World → Option (Image Regs × ℕ) × World
  unfolding load_header load_counted load_regions load_fds give_up
  load_opened none = pure none
  load_opened (some fd) = do
    r ← read fd (header_codec regs).size
    load_header fd (exactly (header_codec regs).size r)

  -- `ulcr_load_snapshot`: the image and the open descriptor, or `none` for -1.
  unfoldable pub load_snapshot : Bytes → World → Option (Image Regs × ℕ) × World
  unfolding load_opened
  load_snapshot snapshot_dir = do
    fd ← open_file read_only (joined max_path snapshot_dir (codes "snapshot.bin"))
    load_opened fd
