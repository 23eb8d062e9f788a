-- ===== src/Procfs/Descriptors/Sizes.antt =====
-- How many regions and descriptors `ulcr_collect_proc_layout` of src/procfs.c collects.
use user_level_checkpoint_re.Base.{
  ◌≤◌, ◌≡◌, ap, Option, none, some, List, Bytes, codes, length, Option-cases, inl, inr, arith, refl,
}
use user_level_checkpoint_re.Base.Options.{◌>>=◌}
use user_level_checkpoint_re.Base.Int.{ℤ}
use user_level_checkpoint_re.Procfs.{Region, FdEntry, ProcLayout, max_regions, max_fds}
use user_level_checkpoint_re.Procfs.Descriptors.{
  Proc, proc_path, collect_fds, collect_link_path, collect_proc_layout,
}
use user_level_checkpoint_re.Procfs.Descriptors.Limit.{collect_fds_lem}
use user_level_checkpoint_re.Procfs.Regions.{collect_regions}
use user_level_checkpoint_re.Procfs.Regions.Collect.{collect_regions_lem}

-- The sizes of the arrays of `ulcr_proc_layout_t`.
abbrev pub IsSmall : ProcLayout → Type 0
IsSmall layout = (length layout.regions ≤ max_regions) × (length layout.fds ≤ max_fds)

collect_regions-few :
    (o : Option Bytes) (rs : List Region) → collect_regions o ≡ some rs → length rs ≤ max_regions
unfolding collect_regions
collect_regions-few none rs e = absurd cc
collect_regions-few (some maps) rs e =
    let (rs', found, taken, few) = collect_regions_lem maps in
    let q : rs ≡ rs' = cc in omega (arith, few, ap length q)

collect_fds-few :
    (proc : Proc) (pid : ℤ) (fds : List FdEntry)
    → collect_fds proc pid ≡ some fds
    → length fds ≤ max_fds
unfolding collect_fds
collect_fds-few proc pid fds e = elim (Option-cases (proc.entries (proc_path pid (codes "/fd")))) [
  | inl gone ↦ absurd (cc (rw gone at e))
  | inr (names, here) ↦
      let (fds', found, taken, few) = collect_fds_lem proc pid names here in
      let q : fds ≡ fds' = cc in omega (arith, few, ap length q)
]

-- Where each part of the layout has come from.
pub record Parts (proc : Proc) (pid : ℤ) (layout : ProcLayout) : Type 0 where
  pub regions_read :
      collect_regions (proc.contents (proc_path pid (codes "/maps"))) ≡ some layout.regions
  pub fds_read : collect_fds proc pid ≡ some layout.fds
  pub exe_read : collect_link_path proc pid (codes "exe") ≡ some layout.exe_path
  pub cwd_read : collect_link_path proc pid (codes "cwd") ≡ some layout.cwd

layout_from :
    (r : Option (List Region)) (f : Option (List FdEntry)) (x c : Option Bytes)
    (layout : ProcLayout)
    → (r >>= λ rs. f >>= λ fds. x >>= λ exe.
        c >>= λ cwd. some (record { regions = rs; fds = fds; exe_path = exe; cwd = cwd }))
      ≡ some layout
    → (r ≡ some layout.regions)
      × (f ≡ some layout.fds)
      × (x ≡ some layout.exe_path)
      × (c ≡ some layout.cwd)
layout_from none f x c layout e = absurd cc
layout_from (some rs) none x c layout e = absurd cc
layout_from (some rs) (some fds) none c layout e = absurd cc
layout_from (some rs) (some fds) (some exe) none layout e = absurd cc
layout_from (some rs) (some fds) (some exe) (some cwd) layout e =
    let q : layout ≡ record { regions = rs; fds = fds; exe_path = exe; cwd = cwd } = cc in
    rw q (refl, refl, refl, refl)

pub collect_proc_layout-Parts :
    (proc : Proc) (pid : ℤ) (layout : ProcLayout)
    → collect_proc_layout proc pid ≡ some layout
    → Parts proc pid layout
unfolding collect_proc_layout
collect_proc_layout-Parts proc pid layout e =
    let (r, f, x, c) =
      layout_from (collect_regions (proc.contents (proc_path pid (codes "/maps"))))
        (collect_fds proc pid) (collect_link_path proc pid (codes "exe"))
        (collect_link_path proc pid (codes "cwd")) layout e in
    record { regions_read = r; fds_read = f; exe_read = x; cwd_read = c }

pub collect_proc_layout-IsSmall :
    (proc : Proc) (pid : ℤ) (layout : ProcLayout)
    → collect_proc_layout proc pid ≡ some layout
    → IsSmall layout
collect_proc_layout-IsSmall proc pid layout e =
    let parts = collect_proc_layout-Parts proc pid layout e in
    (
      collect_regions-few _ layout.regions parts.regions_read,
      collect_fds-few proc pid layout.fds parts.fds_read,
    )
