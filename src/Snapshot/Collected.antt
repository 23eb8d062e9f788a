-- ===== src/Snapshot/Collected.antt =====
-- The regions and descriptors that src/procfs.c collects, in a snapshot file.
use user_level_checkpoint_re.Base.{
  ◌≡◌, Option, none, some, List, [], ◌∷◌, ◌++◌, Bytes, codes, length, ltb, Bool-cases, inl, inr,
  arith,
}
use user_level_checkpoint_re.Base.Options.{◌>>=◌}
use user_level_checkpoint_re.Base.Results.{Holds}
use user_level_checkpoint_re.Base.Int.{ℤ}
use user_level_checkpoint_re.Binary.{Codec}
use user_level_checkpoint_re.Binary.Arrays.{AllFit, put_array, get_array, get_array-put_array}
use user_level_checkpoint_re.Cstring.{c_str, fgets_lines}
use user_level_checkpoint_re.Common.{is_numeric}
use user_level_checkpoint_re.Procfs.{Region, FdEntry, max_regions, max_fds}
use user_level_checkpoint_re.Procfs.Descriptors.{
  Proc, proc_path, describe_fd, collect_names, collect_fds,
}
use user_level_checkpoint_re.Procfs.Regions.{
  parse_maps_line, add_region, collect_lines, collect_regions,
}
use user_level_checkpoint_re.Procfs.Regions.Ranges
use user_level_checkpoint_re.Procfs.Descriptors.Ranges.{InRange, describe_fd-InRange}
use user_level_checkpoint_re.Snapshot.{region_codec, fd_codec}

fd_codec-Fits : (e : FdEntry) → InRange e → fd_codec.Fits e
fd_codec-Fits e h =
    (h.fd_int, (h.flags_int, (h.position_long, (tt, ((h.target_short, h.target_text), tt)))))

AllFit-snoc :
    {A : Type 0}
    → (c : Codec A) (l : List A) (a : A) → AllFit c l
    → c.Fits a
    → AllFit c (l ++ a ∷ [])
AllFit-snoc c [] a h k = (k, tt)
AllFit-snoc c (x ∷ l) a h k = (h.0, AllFit-snoc c l a h.1 k)

collect_names-AllFit :
    (proc : Proc) (pid : ℤ) (fds : List FdEntry) (names : List Bytes)
    → AllFit fd_codec fds
    → AllFit fd_codec (collect_names proc pid fds names)
unfolding collect_names
collect_names-AllFit proc pid fds [] h = h
collect_names-AllFit proc pid fds (name ∷ names) h =
    let entry = describe_fd proc pid name in
    elim (Bool-cases (is_numeric (some name))) [
      | inr other ↦ rw other (collect_names-AllFit proc pid fds names h)
      | inl number ↦ rw number (elim (Bool-cases (ltb (length fds) max_fds)) [
        | inl room ↦ rw room (
            collect_names-AllFit proc pid (fds ++ entry ∷ []) names (
              AllFit-snoc fd_codec fds entry h
                (fd_codec-Fits entry (describe_fd-InRange proc pid name))))
        | inr full ↦ rw full h
      ])
    ]

-- Whatever the kernel shows of the descriptors of a process, the entries that `collect_fds` stores
-- are such as the C type holds, so what is read of the bytes that the snapshot file has for them
-- are the same entries.
pub collect_fds-put_array :
    (proc : Proc) (pid : ℤ) (fds : List FdEntry) (rest : Bytes)
    → collect_fds proc pid ≡ some fds
    → AllFit fd_codec fds × (get_array fd_codec (length fds) (put_array fd_codec fds ++ rest) ≡ fds)
unfolding collect_fds
collect_fds-put_array proc pid fds rest e =
    let fit = go (proc.entries (proc_path pid (codes "/fd"))) e in
    (fit, get_array-put_array fd_codec fds rest fit)
  where
    go :
        (o : Option (List Bytes))
        → (o >>= λ names. some (collect_names proc pid [] names)) ≡ some fds
        → AllFit fd_codec fds
    go none k = absurd (cc)
    go (some names) k =
        let q : fds ≡ collect_names proc pid [] names = cc in
        rw q (collect_names-AllFit proc pid [] names tt)

region_codec-Fits : (r : Region) → Ranges.InRange r → region_codec.Fits r
region_codec-Fits r h = (
  omega (arith, h.start_word),
  (
    omega (arith, h.end_word),
    (
      omega (arith, h.offset_word),
      (
        omega (arith, h.prot_int),
        (omega (arith, h.flags_int), (tt, (tt, (h.name_short, h.name_text)))),
      ),
    ),
  ),
)

add_region-AllFit :
    (regions : List Region) (o : Option Region)
    → AllFit region_codec regions
    → Holds Ranges.InRange o
    → AllFit region_codec (add_region regions o)
unfolding add_region
add_region-AllFit regions none h k = h
add_region-AllFit regions (some r) h k =
    AllFit-snoc region_codec regions r h (region_codec-Fits r k)

collect_lines-AllFit :
    (regions : List Region) (lines : List Bytes)
    → AllFit region_codec regions
    → AllFit region_codec (collect_lines regions lines)
unfolding collect_lines
collect_lines-AllFit regions [] h = h
collect_lines-AllFit regions (line ∷ lines) h =
    elim (Bool-cases (ltb (length regions) max_regions)) [
      | inl room ↦ rw room (
          collect_lines-AllFit (add_region regions (parse_maps_line (c_str line))) lines (
            add_region-AllFit regions (parse_maps_line (c_str line)) h
              (Ranges.parse_maps_line-InRange line)))
      | inr full ↦ rw full h
    ]

-- Whatever text the kernel shows for /proc/<pid>/maps, the regions that `collect_regions` stores
-- are such as the C type holds, so what is read of the bytes that the snapshot file has for them
-- are the same regions.
pub collect_regions-put_array :
    (maps : Option Bytes) (regions : List Region) (rest : Bytes)
    → collect_regions maps ≡ some regions
    → AllFit region_codec regions
      × (get_array region_codec (length regions) (put_array region_codec regions ++ rest) ≡ regions)
unfolding collect_regions
collect_regions-put_array none regions rest e = absurd cc
collect_regions-put_array (some maps) regions rest e =
    let q : regions ≡ collect_lines [] (fgets_lines 1024 maps) = cc in
    let fit : AllFit region_codec regions =
      rw q (collect_lines-AllFit [] (fgets_lines 1024 maps) tt) in
    (fit, get_array-put_array region_codec regions rest fit)
