-- ===== src/Procfs/Descriptors.antt =====
-- The descriptors and links of a process, and the whole layout, as src/procfs.c collects them. Every
-- path under /proc is read once, so a function of the path stands for what the reads give.
pub mod Limit
pub mod Sizes
pub mod Ranges
use user_level_checkpoint_re.Base.{
  ℕ, ◌-◌, Bool, true, false, Option, none, some, List, [], ◌∷◌, ◌++◌, ◌==◌, ltb, if◌then◌else◌,
  Bytes, codes, length, take,
}
use user_level_checkpoint_re.Base.Options.{◌>>=◌}
use user_level_checkpoint_re.Base.Int.{ℤ, pos, to_int}
use user_level_checkpoint_re.Cstring.{c_str, strip_prefix, fgets_lines}
use user_level_checkpoint_re.Cstring.Number.{print_ℤ_onto, atoi, strtol}
use user_level_checkpoint_re.Common.{max_path, copied, joined, is_numeric}
use user_level_checkpoint_re.Procfs.{Region, FdEntry, ProcLayout, max_fds}
use user_level_checkpoint_re.Procfs.Regions.{collect_regions}

-- What the kernel shows under /proc: the text of a file, the names in a directory and the target of
-- a link, `none` where the call fails.
pub record Proc : Type 0 where
  pub contents : Bytes → Option Bytes
  pub entries : Bytes → Option (List Bytes)
  pub link : Bytes → Option Bytes

-- "/proc/%d" in front of `rest`, in a buffer of the size of a path.
abbrev pub proc_path : ℤ → Bytes → Bytes
proc_path pid rest = copied max_path (codes "/proc/" ++ print_ℤ_onto pid rest)

-- `readlink(path, buffer, size - 1)` and the terminator.
unfoldable pub link_text : Proc → Bytes → ℕ → Option Bytes
link_text proc path room = do t ← proc.link path; some (c_str (take room t))

-- One line of a fdinfo file, from what follows "pos:" and "flags:" in it.
unfoldable pub fdinfo_from : FdEntry → Option Bytes → Option Bytes → FdEntry
fdinfo_from entry (some rest) flags = record entry { position = strtol 10 rest }
fdinfo_from entry none (some rest) = record entry { flags = to_int (strtol 8 rest) }
fdinfo_from entry none none = entry

unfoldable pub read_fdinfo_line : FdEntry → Bytes → FdEntry
unfolding fdinfo_from
read_fdinfo_line entry line =
    fdinfo_from entry (strip_prefix (codes "pos:") line) (strip_prefix (codes "flags:") line)

unfoldable pub read_fdinfo_lines : FdEntry → List Bytes → FdEntry
read_fdinfo_lines entry [] = entry
read_fdinfo_lines entry (line ∷ lines) =
    read_fdinfo_lines (read_fdinfo_line entry (c_str line)) lines

unfoldable pub read_fdinfo : FdEntry → Option Bytes → FdEntry
unfolding read_fdinfo_lines
read_fdinfo entry none = entry
read_fdinfo entry (some text) = read_fdinfo_lines entry (fgets_lines 256 text)

-- `collect_fdinfo`, whose status the caller drops.
unfoldable pub collect_fdinfo : Proc → ℤ → FdEntry → FdEntry
unfolding read_fdinfo
collect_fdinfo proc pid entry =
    read_fdinfo entry (proc.contents (proc_path pid (codes "/fdinfo/" ++ print_ℤ_onto entry.fd [])))

abbrev pub starts_slash : Bytes → Bool
starts_slash [] = false
starts_slash (c ∷ cs) = c == b'/'

-- An entry that is cleared but for its number.
abbrev pub blank : Bytes → FdEntry
blank name = record {
  fd = atoi name;
  flags = pos 0;
  position = pos 0;
  supported = false;
  target = [];
}

-- The entry by the link's target, if it can be read.
unfoldable pub describe_target : Proc → ℤ → FdEntry → Option Bytes → FdEntry
describe_target proc pid entry none = entry
describe_target proc pid entry (some target) =
    collect_fdinfo proc pid
      (record entry { target = copied max_path target; supported = starts_slash target })

-- The entry of one descriptor, by its name in the directory.
unfoldable pub describe_fd : Proc → ℤ → Bytes → FdEntry
unfolding describe_target
describe_fd proc pid name =
    describe_target proc pid (blank name)
      (link_text proc (joined max_path (proc_path pid (codes "/fd")) name) (max_path - 1))

-- The loop of `collect_fds` on the names, from the entries that are stored.
unfoldable pub collect_names : Proc → ℤ → List FdEntry → List Bytes → List FdEntry
collect_names proc pid fds [] = fds
collect_names proc pid fds (name ∷ names) =
    let skipped = collect_names proc pid fds names in
    let stored = collect_names proc pid (fds ++ describe_fd proc pid name ∷ []) names in
    if is_numeric (some name) then (if ltb (length fds) max_fds then stored else fds) else skipped

-- `collect_fds`
unfoldable pub collect_fds : Proc → ℤ → Option (List FdEntry)
collect_fds proc pid = do
  names ← proc.entries (proc_path pid (codes "/fd"))
  some (collect_names proc pid [] names)

-- `collect_link_path`, into a buffer of the size of a path.
unfoldable pub collect_link_path : Proc → ℤ → Bytes → Option Bytes
collect_link_path proc pid name = link_text proc (proc_path pid (b'/' ∷ name)) (max_path - 1)

-- `ulcr_collect_proc_layout`
unfoldable pub collect_proc_layout : Proc → ℤ → Option ProcLayout
collect_proc_layout proc pid = do
  regions ← collect_regions (proc.contents (proc_path pid (codes "/maps")))
  fds ← collect_fds proc pid
  exe_path ← collect_link_path proc pid (codes "exe")
  cwd ← collect_link_path proc pid (codes "cwd")
  some (record { regions = regions; fds = fds; exe_path = exe_path; cwd = cwd })
