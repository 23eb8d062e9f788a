-- ===== src/Kernel.antt =====
-- The calls with which src/runtime.c rebuilds a process: descriptors and memory mappings, over the
-- state of the file calls.
use user_level_checkpoint_re.Base.{ℕ, ◌≡◌, ◌≢◌, Option, none, some, Bytes, Status, done}
use user_level_checkpoint_re.Base.Int.{ℤ}
use user_level_checkpoint_re.Files.{Files}

pub record Kernel (fs : Files) : Type 0 where
  -- `open(path, flags, 0644)`
  pub open_as : Bytes → ℤ → fs.World → Option ℕ × fs.World
  -- `lseek(fd, position, SEEK_SET)`
  pub seek_set : ℕ → ℤ → fs.World → fs.World
  pub dup2 : ℕ → ℕ → fs.World → Status × fs.World
  -- `mmap` of anonymous private memory at a fixed address, of a size
  pub map_fixed : ℕ → ℕ → fs.World → Status × fs.World
  -- `pread(fd, address, size, offset)`: the number of bytes, or `none` for -1
  pub pread_into : ℕ → ℕ → ℕ → ℕ → fs.World → Option ℕ × fs.World
  -- `mprotect(address, size, prot)`
  pub protect : ℕ → ℕ → ℕ → fs.World → Status × fs.World
  pub chdir : Bytes → fs.World → fs.World
  -- `setenv("ULCR_RESTORED", "1", 1)`
  pub mark_restored : fs.World → fs.World

-- What is relied on in the calls on descriptors: `leads` is the path that a descriptor was opened
-- with, if it is open. Every call may fail.
pub record IsKernel (fs : Files) (k : Kernel fs) : Type 0 where
  pub leads : fs.World → ℕ → Option Bytes
  -- `open` gives a descriptor that was not in use.
  pub open-new :
      (path : Bytes) (flags : ℤ) (w : fs.World) (fd : ℕ)
      → (k.open_as path flags w).0 ≡ some fd
      → (leads w fd ≡ none) × (leads (k.open_as path flags w).1 fd ≡ some path)
  pub open-others :
      (path : Bytes) (flags : ℤ) (w : fs.World) (c : ℕ)
      → (k.open_as path flags w).0 ≢ some c
      → leads (k.open_as path flags w).1 c ≡ leads w c
  pub seek-leads :
      (fd : ℕ) (position : ℤ) (w : fs.World) (c : ℕ)
      → leads (k.seek_set fd position w) c ≡ leads w c
  pub dup2-done :
      (fd new : ℕ) (w : fs.World)
      → (k.dup2 fd new w).0 ≡ done
      → leads (k.dup2 fd new w).1 new ≡ leads w fd
  pub dup2-others :
      (fd new : ℕ) (w : fs.World) (c : ℕ) → c ≢ new → leads (k.dup2 fd new w).1 c ≡ leads w c
  pub close-others :
      (fd : ℕ) (w : fs.World) (c : ℕ) → c ≢ fd → leads (fs.close_file fd w) c ≡ leads w c
