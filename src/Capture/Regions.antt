-- ===== src/Capture/Regions.antt =====
-- What the loop over the regions in `ulcr_capture_snapshot` of src/snapshot.c makes of them.
use user_level_checkpoint_re.Base.{
  ℕ, suc, ◌+◌, ◌<◌, ◌^◌, ◌≡◌, refl, sym, ◌∙◌, ap, ap₂, subst, Bool, true, false, Option, none, some,
  List, [], ◌∷◌, ◌++◌, ◌⊎◌, inl, inr, Bytes, length, append_assoc, append-nil, length-append, arith,
}
use user_level_checkpoint_re.Base.Int.{ℤ}
use user_level_checkpoint_re.Files.{Files}
use user_level_checkpoint_re.Files.Posix.{IsPosix}
use user_level_checkpoint_re.Snapshot.{SnapshotRegion}
use user_level_checkpoint_re.Tracer.{Tracer, IsTracer, bytes_at}
use user_level_checkpoint_re.Capture.Dump.{dump_region_bytes_lem}
use user_level_checkpoint_re.Capture.Dumped.{IsOpen, lseek-IsOpen, dump_region_bytes-IsDumped}
use user_level_checkpoint_re.Capture.{
  span, dropped, saved, dump_region_bytes, save_at, save_region, save_rest, with_region,
  save_regions,
}

-- A region whose contents stand at an offset of the file: they are the memory `m` from its start to
-- its end. The file is `base` bytes and then `more`.
pub record IsAt (m : ℕ → ℕ) (base : ℕ) (more : Bytes) (r s : SnapshotRegion) : Type 0 where
  pub before : Bytes
  pub after : Bytes
  pub offset_long : base + length before < 2 ^ 63
  pub there :
      s ≡ record { meta = r.meta; file_offset = base + length before; data_size = span r.meta }
  pub held : more ≡ before ++ (bytes_at m r.meta.start (span r.meta) ++ after)

abbrev pub SavedFrom : (ℕ → ℕ) → ℕ → Bytes → SnapshotRegion → SnapshotRegion → Type 0
SavedFrom m base more r s =
    ((r.meta.include ≡ false) × (s ≡ r))
    ⊎ ((r.meta.include ≡ true) × ((s ≡ dropped r) ⊎ IsAt m base more r s))

-- Region by region.
abbrev pub AllSaved : (ℕ → ℕ) → ℕ → Bytes → List SnapshotRegion → List SnapshotRegion → Type 0
AllSaved m base more [] [] = Unit
AllSaved m base more [] (s ∷ ss) = ⊥
AllSaved m base more (r ∷ rs) [] = ⊥
AllSaved m base more (r ∷ rs) (s ∷ ss) = SavedFrom m base more r s × AllSaved m base more rs ss

-- One of the regions has its memory in the file.
abbrev pub AnyAt : (ℕ → ℕ) → ℕ → Bytes → List SnapshotRegion → List SnapshotRegion → Type 0
AnyAt m base more [] [] = ⊥
AnyAt m base more [] (s ∷ ss) = ⊥
AnyAt m base more (r ∷ rs) [] = ⊥
AnyAt m base more (r ∷ rs) (s ∷ ss) = IsAt m base more r s ⊎ AnyAt m base more rs ss

-- With the number of regions that have been counted as included.
abbrev pub Counted : (ℕ → ℕ) → ℕ → Bytes → List SnapshotRegion → List SnapshotRegion → ℕ → Type 0
Counted m base more rs ss n = AllSaved m base more rs ss × ((n ≡ 0) ⊎ AnyAt m base more rs ss)

abbrev CountedOne : (ℕ → ℕ) → ℕ → Bytes → SnapshotRegion → SnapshotRegion → ℕ → Type 0
CountedOne m base more r s i = SavedFrom m base more r s × ((i ≡ 0) ⊎ IsAt m base more r s)

pub AllSaved-length :
    (m : ℕ → ℕ) (base : ℕ) (more : Bytes) (rs ss : List SnapshotRegion)
    → AllSaved m base more rs ss
    → length ss ≡ length rs
AllSaved-length m base more [] [] h = refl
AllSaved-length m base more [] (s ∷ ss) h = absurd h
AllSaved-length m base more (r ∷ rs) [] h = absurd h
AllSaved-length m base more (r ∷ rs) (s ∷ ss) h = ap suc (AllSaved-length m base more rs ss h.1)

-- A region that has been saved stays so while the file grows.
IsAt-more :
    (m : ℕ → ℕ) (base : ℕ) (more x : Bytes) (r s : SnapshotRegion)
    → IsAt m base more r s
    → IsAt m base (more ++ x) r s
IsAt-more m base more x r s at = record {
  before = at.before;
  after = at.after ++ x;
  offset_long = at.offset_long;
  there = at.there;
  held =
      let here = bytes_at m r.meta.start (span r.meta) in
      ap (λ t. t ++ x) at.held
      ∙ append_assoc at.before (here ++ at.after) x
      ∙ ap (λ t. at.before ++ t) (append_assoc here at.after x);
}

SavedFrom-more :
    (m : ℕ → ℕ) (base : ℕ) (more x : Bytes) (r s : SnapshotRegion)
    → SavedFrom m base more r s
    → SavedFrom m base (more ++ x) r s
SavedFrom-more m base more x r s (inl h) = inl h
SavedFrom-more m base more x r s (inr (wanted, inl e)) = inr (wanted, inl e)
SavedFrom-more m base more x r s (inr (wanted, inr at)) =
    inr (wanted, inr (IsAt-more m base more x r s at))

CountedOne-more :
    (m : ℕ → ℕ) (base : ℕ) (more x : Bytes) (r s : SnapshotRegion) (i : ℕ)
    → CountedOne m base more r s i
    → CountedOne m base (more ++ x) r s i
CountedOne-more m base more x r s i (h, inl z) = (SavedFrom-more m base more x r s h, inl z)
CountedOne-more m base more x r s i (h, inr at) =
    (SavedFrom-more m base more x r s h, inr (IsAt-more m base more x r s at))

Counted-cons :
    (m : ℕ → ℕ) (base : ℕ) (more : Bytes) (r s : SnapshotRegion) (rs ss : List SnapshotRegion)
    (i n : ℕ)
    → CountedOne m base more r s i
    → Counted m base more rs ss n
    → Counted m base more (r ∷ rs) (s ∷ ss) (i + n)
Counted-cons m base more r s rs ss i n (h, inr at) (k, any) = ((h, k), inr (inl at))
Counted-cons m base more r s rs ss i n (h, inl z) (k, inr any) = ((h, k), inr (inr any))
Counted-cons m base more r s rs ss i n (h, inl z) (k, inl w) = ((h, k), inl (omega arith))

module _ (fs : Files) (px : IsPosix fs) (tr : Tracer fs) (tl : IsTracer fs px tr) (tmp : Bytes)
    (fd : ℕ) (pid : ℤ) (m : ℕ → ℕ) (c : Bytes) where
  abbrev Open : fs.World → Bytes → Type 0
  Open = IsOpen fs px tr tl tmp fd pid m

  -- The file goes on with `more` behind `c`, and then with a part.
  record Grows (more : Bytes) (w : fs.World) : Type 0 where
    part : Bytes
    now : Open w (c ++ (more ++ part))

  same_size : (more : Bytes) (w : fs.World) → Open w (c ++ more) → Grows more w
  same_size more w h = record {
    part = [];
    now = subst (λ t. Open w (c ++ t)) (sym (append-nil more)) h;
  }

  -- What the loop makes of one region.
  record SavesOne (more : Bytes) (r : SnapshotRegion) (w : fs.World)
      (o : Option (SnapshotRegion × ℕ)) : Type 0 where
    grown : Grows more w
    one :
        (s : SnapshotRegion) (i : ℕ)
        → o ≡ some (s, i)
        → CountedOne m (length c) (more ++ grown.part) r s i

  saved-CountedOne :
      (more part : Bytes) (r : SnapshotRegion) (offset : ℕ) (bytes : Option ℕ)
      → r.meta.include ≡ true
      → offset < 2 ^ 63
      → offset ≡ length (c ++ more)
      → ((n : ℕ) → bytes ≡ some n → part ≡ bytes_at m r.meta.start (span r.meta))
      → ((n : ℕ) → bytes ≡ some n → n ≡ span r.meta)
      → CountedOne m
          (length c)
          (more ++ part)
          r
          (saved fs tr r offset bytes).0
          (saved fs tr r offset bytes).1
  unfolding saved
  saved-CountedOne more part r offset none wanted small here read size =
      (inr (wanted, inl refl), inl refl)
  saved-CountedOne more part r offset (some n) wanted small here read size =
      let e : offset ≡ length c + length more = here ∙ length-append c more in
      let at : IsAt m (length c) (more ++ part) r (saved fs tr r offset (some n)).0 = record {
        before = more;
        after = [];
        offset_long = omega (arith, e);
        there =
            ap₂ (λ k l. record { meta = r.meta; file_offset = k; data_size = l }) e (size n refl);
        held = ap (λ t. more ++ t) (read n refl ∙ sym (append-nil _));
      } in
      (inr (wanted, inr at), inr at)

  save_at-SavesOne :
      (more : Bytes) (r : SnapshotRegion) (o : Option ℕ) (w : fs.World)
      → r.meta.include ≡ true
      → ((n : ℕ) → o ≡ some n → (n < 2 ^ 63) × (n ≡ length (c ++ more)))
      → Open w (c ++ more)
      → SavesOne more r (save_at fs tr pid fd r o w).1 (save_at fs tr pid fd r o w).0
  unfolding save_at
  save_at-SavesOne more r none w wanted told h = record {
    grown = same_size more w h;
    one = λ s i e. absurd cc;
  }
  save_at-SavesOne more r (some offset) w wanted told h =
      let d = dump_region_bytes-IsDumped fs px tr tl tmp fd pid m (c ++ more) r.meta w h in
      let dump = dump_region_bytes fs tr pid r.meta fd w in
      let (small, here) = told offset refl in
      record {
        grown = record {
          part = d.part;
          now = subst (Open dump.1) (append_assoc c more d.part) d.now;
        };
        one = λ s i e.
            let q : s ≡ (saved fs tr r offset dump.0).0 = cc in
            let k : i ≡ (saved fs tr r offset dump.0).1 = cc in
            rw (q, k)
              (saved-CountedOne more d.part r offset dump.0 wanted small here d.whole
                (dump_region_bytes_lem fs px tr tl fd pid r.meta w).1);
      }

  save_region-SavesOne :
      (more : Bytes) (r : SnapshotRegion) (wanted : Bool) (w : fs.World)
      → r.meta.include ≡ wanted
      → Open w (c ++ more)
      → SavesOne more r
          (save_region fs tr pid fd r wanted w).1
          (save_region fs tr pid fd r wanted w).0
  unfolding save_region
  save_region-SavesOne more r true w k h =
      let o = fs.lseek_current fd w in
      save_at-SavesOne more r o.0 o.1 k
        (λ n e.
          (px.lseek-offset fd w n e, px.lseek-tells fd w tmp (length (c ++ more)) n h.holds.at e))
        (lseek-IsOpen fs px tr tl tmp fd pid m (c ++ more) w h)
  save_region-SavesOne more r false w k h = record {
    grown = same_size more w h;
    one = λ s i e. (inl (k, cc), inl cc);
  }

  -- What it makes of the regions.
  pub record Saves (more : Bytes) (rs : List SnapshotRegion) (w : fs.World)
      (o : Option (List SnapshotRegion × ℕ)) : Type 0 where
    pub part : Bytes
    pub now : Open w (c ++ (more ++ part))
    pub all :
        (ss : List SnapshotRegion) (n : ℕ)
        → o ≡ some (ss, n)
        → Counted m (length c) (more ++ part) rs ss n

  with_region-Counted :
      (more : Bytes) (r s : SnapshotRegion) (i : ℕ) (o : Option (List SnapshotRegion × ℕ))
      (rs ss : List SnapshotRegion) (n : ℕ)
      → CountedOne m (length c) more r s i
      → ((ss' : List SnapshotRegion) (n' : ℕ)
          → o ≡ some (ss', n')
          → Counted m (length c) more rs ss' n')
      → with_region fs tr s i o ≡ some (ss, n)
      → Counted m (length c) more (r ∷ rs) ss n
  unfolding with_region
  with_region-Counted more r s i none rs ss n one h e = absurd cc
  with_region-Counted more r s i (some (ss', n')) rs ss n one h e =
      let q : ss ≡ s ∷ ss' = cc in
      let k : n ≡ i + n' = cc in
      rw (q, k) (Counted-cons m (length c) more r s rs ss' i n' one (h ss' n' refl))

  save_rest-Saves :
      (more : Bytes) (r : SnapshotRegion) (o : Option (SnapshotRegion × ℕ))
      (rest : fs.World → Option (List SnapshotRegion × ℕ) × fs.World) (w : fs.World)
      (rs : List SnapshotRegion)
      → SavesOne more r w o
      → ((more' : Bytes) (v : fs.World)
          → Open v (c ++ more')
          → Saves more' rs (rest v).1 (rest v).0)
      → Saves more (r ∷ rs) (save_rest fs tr o rest w).1 (save_rest fs tr o rest w).0
  unfolding save_rest
  save_rest-Saves more r none rest w rs h goes = record {
    part = h.grown.part;
    now = h.grown.now;
    all = λ ss n e. absurd cc;
  }
  save_rest-Saves more r (some (s, i)) rest w rs h goes =
      let k = goes (more ++ h.grown.part) w h.grown.now in
      let e = append_assoc more h.grown.part k.part in
      record {
        part = h.grown.part ++ k.part;
        now = subst (λ t. Open (rest w).1 (c ++ t)) e k.now;
        all = λ ss n f.
            subst (λ t. Counted m (length c) t (r ∷ rs) ss n) e
              (with_region-Counted ((more ++ h.grown.part) ++ k.part) r s i (rest w).0 rs ss n
                (CountedOne-more m (length c) (more ++ h.grown.part) k.part r s i (h.one s i refl))
                k.all f);
      }

  -- The loop appends to the file. Where it does not give up, it leaves the regions that are not
  -- included as they are, and an included one is dropped or has its memory at an offset
  -- of the file; if it counts a region as included, one has.
  pub save_regions-Saves :
      (more : Bytes) (rs : List SnapshotRegion) (w : fs.World)
      → Open w (c ++ more)
      → Saves more rs (save_regions fs tr pid fd rs w).1 (save_regions fs tr pid fd rs w).0
  unfolding save_regions
  save_regions-Saves more [] w h =
      let g = same_size more w h in
      record {
        part = g.part;
        now = g.now;
        all = λ ss n e. let q : ss ≡ [] = cc in rw q (tt, inl cc);
      }
  save_regions-Saves more (r ∷ rs) w h =
      let one = save_region fs tr pid fd r r.meta.include w in
      save_rest-Saves more r one.0 (save_regions fs tr pid fd rs) one.1 rs
        (save_region-SavesOne more r r.meta.include w refl h)
        (λ more' v k. save_regions-Saves more' rs v k)
