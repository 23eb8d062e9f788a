-- ===== src/Runtime/Window.antt =====
-- `restore_managed_regions` of src/runtime.c and the window of managed memory.
use user_level_checkpoint_re.Base.{
  ℕ, ◌+◌, ◌-◌, ◌%◌, ◌^◌, ◌≤◌, ◌<◌, ◌≡◌, true, List, [], ◌∷◌, is_failed, Bool-cases, inl, inr, arith,
}
use user_level_checkpoint_re.Files.{Files}
use user_level_checkpoint_re.Kernel.{Kernel}
use user_level_checkpoint_re.Snapshot.{SnapshotRegion}
use user_level_checkpoint_re.Storage.{is_short}
use user_level_checkpoint_re.Runtime.{
  managed_base, managed_limit, is_managed, region_size, fill_region, restore_managed_regions,
}

-- A stretch of the window of managed memory.
abbrev pub InWindow : ℕ → ℕ → Type 0
InWindow start size = (managed_base ≤ start) × (start + size ≤ managed_limit)

-- What the regions of a snapshot that is not damaged satisfy.
abbrev pub IsRegular : SnapshotRegion → Type 0
IsRegular r =
    (r.meta.start ≤ r.meta.end) × (r.meta.end < 2 ^ 64) × (r.data_size ≤ r.meta.end - r.meta.start)

abbrev pub AllRegular : List SnapshotRegion → Type 0
AllRegular [] = Unit
AllRegular (r ∷ rs) = IsRegular r × AllRegular rs

-- A property of the state that no change inside the window breaks.
pub record HoldsInWindow (fs : Files) (k : Kernel fs) (P : fs.World → Type 0) : Type 0 where
  pub map :
      (start size : ℕ) (w : fs.World) → InWindow start size → P w → P (k.map_fixed start size w).1
  pub pread :
      (fd start size offset : ℕ) (w : fs.World)
      → InWindow start size
      → P w
      → P (k.pread_into fd start size offset w).1
  pub protect :
      (start size prot : ℕ) (w : fs.World)
      → InWindow start size
      → P w
      → P (k.protect start size prot w).1

is_managed_lem :
    (r : SnapshotRegion)
    → is_managed r ≡ true
    → (managed_base ≤ r.meta.start) × (r.meta.end ≤ managed_limit)
unfolding is_managed
is_managed_lem r m = ground arith

region_size_lem :
    (start end : ℕ) → start ≤ end → end < 2 ^ 64 → (2 ^ 64 + end - start) % 2 ^ 64 ≡ end - start
region_size_lem start end h k = omega arith

region_size-InWindow :
    (r : SnapshotRegion)
    → IsRegular r
    → is_managed r ≡ true
    → InWindow r.meta.start (region_size r) × InWindow r.meta.start r.data_size
region_size-InWindow r h m =
    let bounds = is_managed_lem r m in
    let size = region_size_lem r.meta.start r.meta.end h.0 h.1 in
    ((bounds.0, omega arith), (bounds.0, omega arith))

module _ (fs : Files) (k : Kernel fs) (P : fs.World → Type 0) (kept : HoldsInWindow fs k P) where
  fill_region-keeps :
      (r : SnapshotRegion) (snapshot_fd : ℕ) (w : fs.World)
      → InWindow r.meta.start (region_size r)
      → InWindow r.meta.start r.data_size
      → P w
      → P (fill_region fs k r snapshot_fd w).1
  unfolding fill_region
  fill_region-keeps r snapshot_fd w h d p =
      let w1 = (k.map_fixed r.meta.start (region_size r) w).1 in
      let p1 = kept.map r.meta.start (region_size r) w h p in
      let w2 = (k.pread_into snapshot_fd r.meta.start r.data_size r.file_offset w1).1 in
      let p2 = kept.pread snapshot_fd r.meta.start r.data_size r.file_offset w1 d p1 in
      elim (Bool-cases (is_failed (k.map_fixed r.meta.start (region_size r) w).0)) [
        | inl unmapped ↦ rw unmapped p1
        | inr mapped ↦
            rw mapped
              (elim (Bool-cases (
                is_short (k.pread_into snapshot_fd r.meta.start r.data_size r.file_offset w1).0
                  r.data_size)) [
                    | inl short ↦ rw short p2
                    | inr full ↦
                        rw full (kept.protect r.meta.start (region_size r) r.meta.prot w2 h p2)
                  ])
      ]

  -- Whichever calls fail, `restore_managed_regions` maps, fills and protects nothing outside the
  -- window from 0x530000000000 to 0x530000100000, as far as the regions of the image end behind
  -- their start and their data fits: every property of the state that no change inside the window
  -- breaks still holds.
  pub restore_managed_regions-keeps :
      (rs : List SnapshotRegion) (snapshot_fd : ℕ) (w : fs.World)
      → AllRegular rs
      → P w
      → P (restore_managed_regions fs k rs snapshot_fd w).1
  unfolding restore_managed_regions
  restore_managed_regions-keeps [] snapshot_fd w h p = p
  restore_managed_regions-keeps (r ∷ rs) snapshot_fd w h p = elim (Bool-cases (is_managed r)) [
    | inr skipped ↦ rw skipped (restore_managed_regions-keeps rs snapshot_fd w h.1 p)
    | inl managed ↦
        let inside = region_size-InWindow r h.0 managed in
        let w' = (fill_region fs k r snapshot_fd w).1 in
        let p' = fill_region-keeps r snapshot_fd w inside.0 inside.1 p in
        rw managed (elim (Bool-cases (is_failed (fill_region fs k r snapshot_fd w).0)) [
          | inl stopped ↦ rw stopped p'
          | inr filled ↦ rw filled (restore_managed_regions-keeps rs snapshot_fd w' h.1 p')
        ])
  ]
