-- ===== src/Procfs/Examples.antt =====
-- The theorems on /proc, for a small process.
use user_level_checkpoint_re.Base.{
  ◌≤◌, ◌≡◌, refl, not, ◌&&◌, ◌||◌, ◌==◌, some, List, [], ◌∷◌, ◌++◌, Bytes, codes, take, length,
  arith, str_eq, is_empty,
}
use user_level_checkpoint_re.Base.Int.{pos}
use user_level_checkpoint_re.Cstring.{fgets_lines}
use user_level_checkpoint_re.Cstring.Number.{is_space}
use user_level_checkpoint_re.Procfs.{Region, FdEntry, max_regions, max_fds}
use user_level_checkpoint_re.Procfs.Stat.{start_ticks}
use user_level_checkpoint_re.Procfs.Stat.Field.{stat_text, start_ticks_lem}
use user_level_checkpoint_re.Procfs.Regions.{
  prot_of, is_included, perm_at, contains, collect_regions,
}
use user_level_checkpoint_re.Procfs.Regions.Collect.{
  parsed_regions, collect_regions_lem, is_included_lem,
}
use user_level_checkpoint_re.Procfs.Descriptors.{Proc, collect_fds}
use user_level_checkpoint_re.Procfs.Descriptors.Limit.{described, collect_fds_lem}

-- "7 (a) S 1 7 7 0 …", started 8520 ticks after the boot.
start_ticks_lem_example :
    start_ticks (
      stat_text (codes "7 (a") b'S' (
        (pos 1 ∷ pos 7 ∷ pos 7 ∷ pos 0 ∷ pos 0 ∷ pos 0 ∷ pos 0 ∷ pos 0 ∷ [])
        ++ (pos 0 ∷ pos 0 ∷ pos 0 ∷ pos 0 ∷ pos 0 ∷ pos 0 ∷ pos 20 ∷ pos 0 ∷ pos 1 ∷ [])
        ++ pos 0 ∷ pos 8520 ∷ []))
    ≡ some 0
unfolding is_space
start_ticks_lem_example =
    start_ticks_lem (codes "7 (a") b'S'
      ((pos 1 ∷ pos 7 ∷ pos 7 ∷ pos 0 ∷ pos 0 ∷ pos 0 ∷ pos 0 ∷ pos 0 ∷ [])
        ++ (pos 0 ∷ pos 0 ∷ pos 0 ∷ pos 0 ∷ pos 0 ∷ pos 0 ∷ pos 20 ∷ pos 0 ∷ pos 1 ∷ []))
      0 8520 [] refl (omega arith) refl refl

abbrev maps : Bytes
maps = codes "00400000-00401000 rw-p 00000000 08:01 42 /bin/a\n7ff0-7ff8 r--p 0 00:00 0 [vvar]\n"

collect_regions_lem_example :
    (regions : List Region) × (collect_regions (some maps) ≡ some regions)
    × (regions ≡ take max_regions (parsed_regions (fgets_lines 1024 maps)))
    × (length regions ≤ max_regions)
collect_regions_lem_example = collect_regions_lem maps

is_included_lem_example : is_included (prot_of (codes "r--p")) (codes "[vvar]") ≡ (
    perm_at 0 (codes "r--p") == b'r'
    && (perm_at 1 (codes "r--p") == b'w'
        || contains (codes "[vvar]") (codes "[heap]")
        || contains (codes "[vvar]") (codes "[stack]")
        || is_empty (codes "[vvar]"))
    && not (str_eq (codes "[vvar]") (codes "[vvar]"))
    && not (str_eq (codes "[vvar]") (codes "[vdso]"))
    && not (str_eq (codes "[vvar]") (codes "[vsyscall]")))
is_included_lem_example = is_included_lem (codes "r--p") (codes "[vvar]")

abbrev proc : Proc
proc = record {
  contents = λ p. some (codes "pos:\t120\nflags:\t0100001\n");
  entries = λ p. some (codes "." ∷ codes ".." ∷ codes "0" ∷ codes "1" ∷ []);
  link = λ p. some (codes "/tmp/log");
}

collect_fds_lem_example :
    (fds : List FdEntry) × (collect_fds proc (pos 7) ≡ some fds)
    × (fds
        ≡ take max_fds
            (described proc (pos 7) (codes "." ∷ codes ".." ∷ codes "0" ∷ codes "1" ∷ [])))
    × (length fds ≤ max_fds)
collect_fds_lem_example =
    collect_fds_lem proc (pos 7) (codes "." ∷ codes ".." ∷ codes "0" ∷ codes "1" ∷ []) refl
