-- ===== src/Capture/Loop.antt =====
-- What the loop over the regions in `ulcr_capture_snapshot` of src/snapshot.c keeps: all that writing
-- to the open file, reading the process's memory and asking for the offset keep.
use user_level_checkpoint_re.Base.{
  ℕ, zero, suc, ◌+◌, ◌-◌, min, Bool, true, false, ◌==◌, Option, none, some, List, [], ◌∷◌, Bytes,
  length, Bool-cases, inl, inr,
}
use user_level_checkpoint_re.Base.Int.{ℤ}
use user_level_checkpoint_re.Files.{Files}
use user_level_checkpoint_re.Snapshot.{SnapshotRegion}
use user_level_checkpoint_re.Storage.{is_short}
use user_level_checkpoint_re.Tracer.{Tracer}
use user_level_checkpoint_re.Capture.{
  span, dump_chunk, dump_from, dump_region_bytes, save_at, save_region, save_rest, save_regions,
}

module _ (fs : Files) (tr : Tracer fs) (fd : ℕ) (P : fs.World → Type 0)
    (write-keeps : (bytes : Bytes) (w : fs.World) → P w → P (fs.write fd bytes w).1)
    (memory-keeps : (pid : ℤ) (address size : ℕ) (w : fs.World)
      → P w
      → P (tr.read_memory pid address size w).1)
    (lseek-keeps : (w : fs.World) → P w → P (fs.lseek_current fd w).1) where
  dump_chunk-keeps :
      (rest : ℕ → ℕ → ℕ → fs.World → Option ℕ × fs.World) (address remaining total : ℕ)
      (o : Option Bytes) (w : fs.World)
      → ((a r t : ℕ) (v : fs.World) → P v → P (rest a r t v).1)
      → P w
      → P (dump_chunk fs tr rest fd address remaining total o w).1
  unfolding dump_chunk
  dump_chunk-keeps rest address remaining total none w goes s = s
  dump_chunk-keeps rest address remaining total (some []) w goes s = s
  dump_chunk-keeps rest address remaining total (some (b ∷ bs)) w goes s =
      let s' = write-keeps (b ∷ bs) w s in
      elim (Bool-cases (is_short (fs.write fd (b ∷ bs) w).0 (length (b ∷ bs)))) [
        | inl short ↦ rw short s'
        | inr whole ↦ rw whole (
            goes (address + length (b ∷ bs)) (remaining - length (b ∷ bs)) (total + length (b ∷ bs))
              (fs.write fd (b ∷ bs) w).1 s')
      ]

  dump_from-keeps :
      (fuel : ℕ) (pid : ℤ) (address remaining total : ℕ) (w : fs.World)
      → P w
      → P (dump_from fs tr fuel pid fd address remaining total w).1
  unfolding dump_from
  dump_from-keeps zero pid address remaining total w s = s
  dump_from-keeps (suc fuel) pid address remaining total w s = elim (Bool-cases (remaining == 0)) [
    | inl end_reached ↦ rw end_reached s
    | inr more ↦ rw more (
        dump_chunk-keeps (dump_from fs tr fuel pid fd) address remaining total
          (tr.read_memory pid address (min remaining 65536) w).0
          (tr.read_memory pid address (min remaining 65536) w).1 (dump_from-keeps fuel pid)
          (memory-keeps pid address (min remaining 65536) w s))
  ]

  save_at-keeps :
      (pid : ℤ) (r : SnapshotRegion) (o : Option ℕ) (w : fs.World)
      → P w
      → P (save_at fs tr pid fd r o w).1
  unfolding save_at dump_region_bytes
  save_at-keeps pid r none w s = s
  save_at-keeps pid r (some offset) w s =
      dump_from-keeps (span r.meta) pid r.meta.start (span r.meta) 0 w s

  save_region-keeps :
      (pid : ℤ) (r : SnapshotRegion) (wanted : Bool) (w : fs.World)
      → P w
      → P (save_region fs tr pid fd r wanted w).1
  unfolding save_region
  save_region-keeps pid r true w s =
      save_at-keeps pid r (fs.lseek_current fd w).0 (fs.lseek_current fd w).1 (lseek-keeps w s)
  save_region-keeps pid r false w s = s

  save_rest-keeps :
      (one : Option (SnapshotRegion × ℕ))
      (rest : fs.World → Option (List SnapshotRegion × ℕ) × fs.World) (w : fs.World)
      → ((v : fs.World) → P v → P (rest v).1)
      → P w
      → P (save_rest fs tr one rest w).1
  unfolding save_rest
  save_rest-keeps none rest w goes s = s
  save_rest-keeps (some (r, i)) rest w goes s = goes w s

  pub save_regions-keeps :
      (pid : ℤ) (rs : List SnapshotRegion) (w : fs.World)
      → P w
      → P (save_regions fs tr pid fd rs w).1
  unfolding save_regions
  save_regions-keeps pid [] w s = s
  save_regions-keeps pid (r ∷ rs) w s =
      save_rest-keeps (save_region fs tr pid fd r r.meta.include w).0 (save_regions fs tr pid fd rs)
        (save_region fs tr pid fd r r.meta.include w).1 (save_regions-keeps pid rs)
        (save_region-keeps pid r r.meta.include w s)
