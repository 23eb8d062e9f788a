-- ===== src/Runtime.antt =====
-- src/runtime.c: what a process that is started for a restore does with the snapshot.
pub mod Reopened
pub mod Window
mod Examples
use user_level_checkpoint_re.Base.{
  ℕ, ◌+◌, ◌-◌, ◌%◌, ◌^◌, Bool, true, false, not, ◌||◌, ◌==◌, ltb, if◌then◌else◌, Option, none, some,
  List, [], ◌∷◌, Bytes, Status, done, failed, is_failed,
}
use user_level_checkpoint_re.Base.Int.{ℤ, pos, pos_part, ltb_ℤ, leb_ℤ}
use user_level_checkpoint_re.Binary.{Codec}
use user_level_checkpoint_re.Files.{Files, ◌>>=◌, ◌>>◌, pure}
use user_level_checkpoint_re.Kernel.{Kernel}
use user_level_checkpoint_re.Procfs.{FdEntry}
use user_level_checkpoint_re.Snapshot.{SnapshotRegion, Image, load_snapshot}
use user_level_checkpoint_re.Storage.{is_short}

-- ULCR_MANAGED_BASE and ULCR_MANAGED_LIMIT
abbrev pub managed_base : ℕ
managed_base = 0x530000000000

abbrev pub managed_limit : ℕ
managed_limit = 0x530000100000

-- What `ulcr_runtime_bootstrap` returns: 0, 1 and -1.
pub data Boot : Type 0 where
  fresh restored broken : Boot

-- Whether an entry is opened again.
unfoldable pub is_reopened : FdEntry → Bool
is_reopened entry = not (not entry.supported || leb_ℤ entry.fd (pos 2))

-- Whether a region is mapped again.
unfoldable pub is_managed : SnapshotRegion → Bool
is_managed region =
    if not region.meta.include || region.data_size == 0
    then false
    else if ltb region.meta.start managed_base || ltb managed_limit region.meta.end
    then false
    else true

-- `region->meta.end - region->meta.start` in 64 bits
abbrev pub region_size : SnapshotRegion → ℕ
region_size region = (2 ^ 64 + region.meta.end - region.meta.start) % 2 ^ 64

module _ (fs : Files) (k : Kernel fs) where
  open fs use {World, close_file}

  -- The number that an entry had; it is above 2 where this is asked.
  abbrev pub number_of : FdEntry → ℕ
  number_of entry = pos_part entry.fd

  unfoldable pub sought : FdEntry → ℕ → World → World
  sought entry fd w = if ltb_ℤ (pos 0) entry.position then k.seek_set fd entry.position w else w

  -- From `lseek` on.
  unfoldable pub place_fd : FdEntry → Option ℕ → World → World
  place_fd entry none w = w
  place_fd entry (some fd) w =
      let w' = sought entry fd w in
      if fd == number_of entry then w' else close_file fd (k.dup2 fd (number_of entry) w').1

  -- The body of the loop.
  unfoldable pub restore_fd : FdEntry → World → World
  restore_fd entry w =
      if is_reopened entry
      then (let (fd, w') = k.open_as entry.target entry.flags w in place_fd entry fd w')
      else w

  -- `restore_supported_fds`, whose result is always 0.
  unfoldable pub restore_supported_fds : List FdEntry → World → World
  restore_supported_fds [] w = w
  restore_supported_fds (entry ∷ entries) w = restore_supported_fds entries (restore_fd entry w)

  -- From `mmap` on.
  unfoldable pub fill_region : SnapshotRegion → ℕ → World → Status × World
  fill_region region snapshot_fd = do
    mapped ← k.map_fixed region.meta.start (region_size region)
    if is_failed mapped then pure failed else (do
      count ← k.pread_into snapshot_fd region.meta.start region.data_size region.file_offset
      if is_short count region.data_size
          then pure failed
          else k.protect region.meta.start (region_size region) region.meta.prot)

  -- `restore_managed_regions`
  unfoldable pub restore_managed_regions : List SnapshotRegion → ℕ → World → Status × World
  restore_managed_regions [] snapshot_fd w = (done, w)
  restore_managed_regions (region ∷ regions) snapshot_fd w =
      let rest : World → Status × World = restore_managed_regions regions snapshot_fd in
      if is_managed region
      then (let (status, w') = fill_region region snapshot_fd w in
          if is_failed status then (failed, w') else rest w')
      else rest w

  -- `ulcr_runtime_bootstrap` behind the load.
  unfoldable pub boot_image : {Regs : Type 0} → Option (Image Regs × ℕ) → World → Boot × World
  boot_image none w = (Boot.broken, w)
  boot_image (some (image, snapshot_fd)) w =
      let (status, w') =
        restore_managed_regions image.regions snapshot_fd
          (restore_supported_fds image.fds (k.chdir image.header.cwd w)) in
      let w'' = close_file snapshot_fd w' in
      if is_failed status then (Boot.broken, w'') else (Boot.restored, k.mark_restored w'')

  -- `ulcr_runtime_bootstrap`, with the value of the environment's ULCR_RESTORE_SNAPSHOT.
  unfoldable pub runtime_bootstrap :
      {Regs : Type 0} → Codec Regs → Option Bytes → World → Boot × World
  unfolding boot_image
  runtime_bootstrap regs none w = (Boot.fresh, w)
  runtime_bootstrap regs (some []) w = (Boot.fresh, w)
  runtime_bootstrap regs (some (c ∷ cs)) w =
      let (loaded, w') = load_snapshot regs fs (c ∷ cs) w in boot_image loaded w'
