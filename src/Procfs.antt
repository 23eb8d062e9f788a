-- ===== src/Procfs.antt =====
-- src/procfs.c: what is read of a process under /proc, and the types of include/ulcr/procfs.h.
pub mod Stat
pub mod Regions
pub mod Descriptors
pub mod Uptime
mod Examples
use user_level_checkpoint_re.Base.{ℕ, Bool, List, Bytes}
use user_level_checkpoint_re.Base.Int.{ℤ}

-- `ulcr_region_t`. The addresses are below 2 ^ 64 and the two flags of the C type are truth values.
pub record Region : Type 0 where
  pub start : ℕ
  pub end : ℕ
  pub offset : ℕ
  pub prot : ℕ
  pub flags : ℕ
  pub is_anonymous : Bool
  pub include : Bool
  pub name : Bytes

-- `ulcr_fd_entry_t`
pub record FdEntry : Type 0 where
  pub fd : ℤ
  pub flags : ℤ
  pub position : ℤ
  pub supported : Bool
  pub target : Bytes

-- ULCR_MAX_REGIONS and ULCR_MAX_FDS
abbrev pub max_regions : ℕ
max_regions = 512

abbrev pub max_fds : ℕ
max_fds = 128

-- `ulcr_proc_layout_t`; the counts are the lengths.
pub record ProcLayout : Type 0 where
  pub regions : List Region
  pub fds : List FdEntry
  pub exe_path : Bytes
  pub cwd : Bytes
