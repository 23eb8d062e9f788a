-- ===== src/Capture/Dump.antt =====
-- The rounds of `dump_region_bytes` of src/snapshot.c.
use user_level_checkpoint_re.Base.{
  ℕ, zero, suc, ◌+◌, ◌-◌, ◌≤◌, ◌≡◌, refl, ◌∙◌, ap, min, true, ◌==◌, Option, none, some, [], ◌∷◌,
  Bytes, length, Bool-cases, inl, inr, arith,
}
use user_level_checkpoint_re.Base.Int.{ℤ}
use user_level_checkpoint_re.Files.{Files}
use user_level_checkpoint_re.Files.Posix.{IsPosix}
use user_level_checkpoint_re.Procfs.{Region}
use user_level_checkpoint_re.Storage.{is_short}
use user_level_checkpoint_re.Tracer.{Tracer, IsTracer}
use user_level_checkpoint_re.Capture.{span, dump_chunk, dump_from, dump_region_bytes}

module _ (fs : Files) (px : IsPosix fs) (tr : Tracer fs) (tl : IsTracer fs px tr) (out_fd : ℕ) where
  -- Two rounds that agree from `remaining - 1` down.
  dump_chunk-same :
      (one two : ℕ → ℕ → ℕ → fs.World → Option ℕ × fs.World) (address remaining total : ℕ)
      (o : Option Bytes) (w : fs.World)
      → ((a r t : ℕ) (v : fs.World) → suc r ≤ remaining → one a r t v ≡ two a r t v)
      → ((b : Bytes) → o ≡ some b → length b ≤ remaining)
      → dump_chunk fs tr one out_fd address remaining total o w
        ≡ dump_chunk fs tr two out_fd address remaining total o w
  unfolding dump_chunk
  dump_chunk-same one two address remaining total none w same fits = refl
  dump_chunk-same one two address remaining total (some []) w same fits = refl
  dump_chunk-same one two address remaining total (some (b ∷ bs)) w same fits =
      let few = fits (b ∷ bs) refl in
      elim (Bool-cases (is_short (fs.write out_fd (b ∷ bs) w).0 (length (b ∷ bs)))) [
        | inl short ↦ rw short refl
        | inr whole ↦ rw whole (
            same (address + length (b ∷ bs)) (remaining - length (b ∷ bs)) (total + length (b ∷ bs))
              (fs.write out_fd (b ∷ bs) w).1 (omega arith))
      ]

  dump_from-suc :
      (fuel : ℕ) (pid : ℤ) (address remaining total : ℕ) (w : fs.World)
      → remaining ≤ fuel
      → dump_from fs tr (suc fuel) pid out_fd address remaining total w
        ≡ dump_from fs tr fuel pid out_fd address remaining total w
  unfolding dump_from
  dump_from-suc zero pid address remaining total w h =
      let e : (remaining == 0) ≡ true = ground arith in rw e refl
  dump_from-suc (suc fuel) pid address remaining total w h = elim (Bool-cases (remaining == 0)) [
    | inl end_reached ↦ rw end_reached refl
    | inr more ↦ rw more (
        dump_chunk-same (dump_from fs tr (suc fuel) pid out_fd) (dump_from fs tr fuel pid out_fd)
          address remaining total (tr.read_memory pid address (min remaining 65536) w).0
          (tr.read_memory pid address (min remaining 65536) w).1
          (λ a r t v k. dump_from-suc fuel pid a r t v (omega arith))
          (λ b e. omega (arith, tl.memory-length pid address (min remaining 65536) w b e)))
  ]

  dump_chunk-total :
      (rest : ℕ → ℕ → ℕ → fs.World → Option ℕ × fs.World) (address remaining total : ℕ)
      (o : Option Bytes) (w : fs.World) (n : ℕ)
      → ((a r t : ℕ) (v : fs.World) → (rest a r t v).0 ≡ some n → n ≡ t + r)
      → ((b : Bytes) → o ≡ some b → length b ≤ remaining)
      → (dump_chunk fs tr rest out_fd address remaining total o w).0 ≡ some n
      → n ≡ total + remaining
  unfolding dump_chunk
  dump_chunk-total rest address remaining total none w n goes fits e = absurd (cc)
  dump_chunk-total rest address remaining total (some []) w n goes fits e = absurd (cc)
  dump_chunk-total rest address remaining total (some (b ∷ bs)) w n goes fits e =
      let few = fits (b ∷ bs) refl in
      elim (Bool-cases (is_short (fs.write out_fd (b ∷ bs) w).0 (length (b ∷ bs)))) [
        | inl short ↦ absurd (cc (rw short at e))
        | inr whole ↦ omega (
          arith,
          goes (address + length (b ∷ bs)) (remaining - length (b ∷ bs)) (total + length (b ∷ bs))
              (fs.write out_fd (b ∷ bs) w).1 (rw whole at e),
        )
      ]

  dump_from-total :
      (fuel : ℕ) (pid : ℤ) (address remaining total : ℕ) (w : fs.World) (n : ℕ)
      → (dump_from fs tr fuel pid out_fd address remaining total w).0 ≡ some n
      → n ≡ total + remaining
  unfolding dump_from
  dump_from-total zero pid address remaining total w n e = ground arith
  dump_from-total (suc fuel) pid address remaining total w n e =
      elim (Bool-cases (remaining == 0)) [
        | inl end_reached ↦
            let q : n ≡ total = cc (rw end_reached at e) in
            let z : remaining ≡ 0 = ground arith in omega arith
        | inr more ↦
            dump_chunk-total (dump_from fs tr fuel pid out_fd) address remaining total
              (tr.read_memory pid address (min remaining 65536) w).0
              (tr.read_memory pid address (min remaining 65536) w).1 n
              (λ a r t v k. dump_from-total fuel pid a r t v n k)
              (λ b k. omega (arith, tl.memory-length pid address (min remaining 65536) w b k))
              (rw more at e)
      ]

  -- The size of a region is enough fuel for `dump_region_bytes`: more fuel gives the same result and
  -- the same state. When it succeeds it has taken as many bytes as the region has, so no region is
  -- stored in part.
  pub dump_region_bytes_lem :
      (pid : ℤ) (region : Region) (w : fs.World)
      → ((more : ℕ)
          → dump_from fs tr (more + span region) pid out_fd region.start (span region) 0 w
            ≡ dump_region_bytes fs tr pid region out_fd w)
        × ((n : ℕ) → (dump_region_bytes fs tr pid region out_fd w).0 ≡ some n → n ≡ span region)
  unfolding dump_region_bytes
  dump_region_bytes_lem pid region w = (
    enough,
    λ n e. dump_from-total (span region) pid region.start (span region) 0 w n e ∙ omega arith,
  )
    where
      enough :
          (more : ℕ)
          → dump_from fs tr (more + span region) pid out_fd region.start (span region) 0 w
            ≡ dump_from fs tr (span region) pid out_fd region.start (span region) 0 w
      enough zero =
          ap (λ k. dump_from fs tr k pid out_fd region.start (span region) 0 w) (omega arith)
      enough (suc more) =
          let e : suc more + span region ≡ suc (more + span region) = omega arith in
          ap (λ k. dump_from fs tr k pid out_fd region.start (span region) 0 w) e
          ∙ dump_from-suc (more + span region) pid region.start (span region) 0 w (omega arith)
          ∙ enough more
