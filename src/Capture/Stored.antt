-- ===== src/Capture/Stored.antt =====
-- The image that `ulcr_capture_snapshot` of src/snapshot.c leaves in the open file.
use user_level_checkpoint_re.Base.{
  ℕ, ◌*◌, ◌≡◌, refl, sym, ◌∙◌, ap, subst, false, Option, none, some, List, [], ◌++◌, Bytes, length,
  length-append, arith, append_assoc, append-nil, str_eq_refl, is_failed, if◌then◌else◌, Status,
  done, failed, Bool-cases, inl, inr,
}
use user_level_checkpoint_re.Base.Int.{ℤ}
use user_level_checkpoint_re.Binary.Arrays.{put_array, length-put_array}
use user_level_checkpoint_re.Files.{Files}
use user_level_checkpoint_re.Files.Posix.{IsPosix}
use user_level_checkpoint_re.Snapshot.{
  SnapshotRegion, Image, snapshot_region_codec, fd_codec, header_codec, image_bytes,
}
use user_level_checkpoint_re.Snapshot.RoundTrip.{image_bytes-parts}
use user_level_checkpoint_re.Storage.{is_short}
use user_level_checkpoint_re.Tracer.{Tracer, IsTracer}
use user_level_checkpoint_re.Capture.Contents.{splice_part, whole_count}
use user_level_checkpoint_re.Capture.Dumped.{IsOpen, write_whole-IsOpen}
use user_level_checkpoint_re.Capture.Regions.{Counted, AllSaved-length, save_regions-Saves}
use user_level_checkpoint_re.Capture.{written, save_regions, rewrite_image, write_image}

module _ (fs : Files) (px : IsPosix fs) (tr : Tracer fs) (tl : IsTracer fs px tr) where
  open px use {file, target}

  -- What holds behind `written` where it has a result.
  written-some :
      {A : Type 0} (Q : fs.World → Type 0) (call : fs.World → Option ℕ × fs.World) (size : ℕ)
      (next : fs.World → Option A × fs.World) (w : fs.World) (a : A)
      → (is_short (call w).0 size ≡ false → (next (call w).1).0 ≡ some a → Q (next (call w).1).1)
      → (written fs tr call size next w).0 ≡ some a
      → Q (written fs tr call size next w).1
  unfolding written
  written-some Q call size next w a go e = elim (Bool-cases (is_short (call w).0 size)) [
    | inl short ↦ absurd (cc (rw short at e))
    | inr whole ↦ rw whole (go whole (rw whole at e))
  ]

  module _ (tmp : Bytes) (fd : ℕ) where
    -- The file holds `c`, wherever in it the descriptor stands.
    record Stores (w : fs.World) (c : Bytes) : Type 0 where
      offset : ℕ
      at : target w fd ≡ some (tmp, offset)
      here : file w tmp ≡ some c

    -- A part of the file that is written again in the same length.
    pwrite-Stores :
        (a b b' c : Bytes) (n size : ℕ) (w : fs.World)
        → n ≡ length a
        → length b' ≡ length b
        → length b' ≡ size
        → is_short (fs.pwrite fd b' n w).0 size ≡ false
        → Stores w (a ++ (b ++ c))
        → Stores (fs.pwrite fd b' n w).1 (a ++ (b' ++ c))
    pwrite-Stores a b b' c n size w e f k whole s = record {
      offset = s.offset;
      at = px.pwrite-target fd b' n w ∙ s.at;
      here =
          px.pwrite-file fd b' n w tmp s.offset tmp s.at
          ∙ rw (str_eq_refl tmp, s.here, whole_count (fs.pwrite fd b' n w).0 b' size k whole)
              (ap some (splice_part a b b' c n e f));
    }

  module _ (tmp : Bytes) (fd : ℕ) (pid : ℤ) (m : ℕ → ℕ) (image : Image tr.Regs) where
    abbrev header_bytes : Bytes
    header_bytes = (header_codec tr.regs).put image.header

    abbrev fd_bytes : Bytes
    fd_bytes = put_array fd_codec image.fds

    -- The file holds an image that is the given one but that its regions have been saved, with the
    -- memory `m` behind it.
    pub record HoldsImage (saved_image : Image tr.Regs) (included : ℕ) (w : fs.World) : Type 0 where
      pub header_same : saved_image.header ≡ image.header
      pub fds_same : saved_image.fds ≡ image.fds
      pub contents : Bytes
      pub regions_saved :
          Counted m
            (length (image_bytes tr.regs saved_image))
            contents
            image.regions
            saved_image.regions
            included
      pub here : file w tmp ≡ some (image_bytes tr.regs saved_image ++ contents)

    abbrev region_bytes : List SnapshotRegion → Bytes
    region_bytes = put_array snapshot_region_codec

    -- What is written in front of the contents.
    abbrev front : Bytes
    front = (header_bytes ++ region_bytes image.regions) ++ fd_bytes

    length-front :
        (rs : List SnapshotRegion)
        → length rs ≡ length image.regions
        → length front ≡ length (image_bytes tr.regs (record image { regions = rs }))
    unfolding image_bytes
    length-front rs e =
        let now : length (region_bytes rs) ≡ length (region_bytes image.regions) =
          length-put_array snapshot_region_codec rs
          ∙ ap (λ k. snapshot_region_codec.size * k) e
          ∙ sym (length-put_array snapshot_region_codec image.regions) in
        omega (
          arith,
          now,
          length-append (header_bytes ++ region_bytes image.regions) fd_bytes,
          length-append header_bytes (region_bytes image.regions),
          length-append header_bytes (region_bytes rs ++ fd_bytes),
          length-append (region_bytes rs) fd_bytes,
        )

    synced :
        (rs : List SnapshotRegion) (more : Bytes) (n i : ℕ) (saved_image : Image tr.Regs)
        (status : Status) (w : fs.World)
        → Counted m (length front) more image.regions rs n
        → file w tmp ≡ some (header_bytes ++ (region_bytes rs ++ (fd_bytes ++ more)))
        → ◌≡◌ {A = Option (Image tr.Regs × ℕ)}
            (if is_failed status then none else some (record image { regions = rs }, n))
            (some (saved_image, i))
        → HoldsImage saved_image i w
    synced rs more n i saved_image failed w e here r = absurd cc
    synced rs more n i saved_image done w e here r =
        let q : saved_image ≡ record image { regions = rs } = cc in
        let k : i ≡ n = cc in
        rw (q, k)
          (record {
            header_same = refl;
            fds_same = refl;
            regions_saved =
                subst (λ b. Counted m b more image.regions rs n)
                  (length-front rs (AllSaved-length m (length front) more image.regions rs e.0)) e;
            contents = more;
            here =
                here
                ∙ ap some (sym (image_bytes-parts tr.regs (record image { regions = rs }) more));
          })

    rewritten_regions :
        (rs : List SnapshotRegion) (more : Bytes) (n i : ℕ) (saved_image : Image tr.Regs)
        (w : fs.World)
        → length rs ≡ length image.regions
        → Stores tmp fd w (header_bytes ++ (region_bytes image.regions ++ (fd_bytes ++ more)))
        → is_short
            (fs.pwrite fd (region_bytes rs) (header_codec tr.regs).size w).0
            (snapshot_region_codec.size * length rs)
          ≡ false
        → Stores tmp fd
            (fs.pwrite fd (region_bytes rs) (header_codec tr.regs).size w).1
            (header_bytes ++ (region_bytes rs ++ (fd_bytes ++ more)))
    rewritten_regions rs more n i saved_image w e s whole =
        pwrite-Stores tmp fd header_bytes (region_bytes image.regions) (region_bytes rs)
          (fd_bytes ++ more) (header_codec tr.regs).size (snapshot_region_codec.size * length rs) w
          (sym ((header_codec tr.regs).length-put image.header))
          (length-put_array snapshot_region_codec rs
            ∙ ap (λ k. snapshot_region_codec.size * k) e
            ∙ sym (length-put_array snapshot_region_codec image.regions))
          (length-put_array snapshot_region_codec rs) whole s

    rewritten :
        (rs : List SnapshotRegion) (more : Bytes) (n i : ℕ) (saved_image : Image tr.Regs)
        (w : fs.World)
        → Counted m (length front) more image.regions rs n
        → Stores tmp fd w (header_bytes ++ (region_bytes image.regions ++ (fd_bytes ++ more)))
        → (rewrite_image fs tr fd image (some (rs, n)) w).0 ≡ some (saved_image, i)
        → HoldsImage saved_image i (rewrite_image fs tr fd image (some (rs, n)) w).1
    unfolding rewrite_image
    rewritten rs more n i saved_image w e s =
        written-some (HoldsImage saved_image i) (fs.pwrite fd header_bytes 0) _ _ w (saved_image, i)
          (λ whole.
            let w1 = (fs.pwrite fd header_bytes 0 w).1 in
            let s1 =
              pwrite-Stores tmp fd [] header_bytes header_bytes
                (region_bytes image.regions ++ (fd_bytes ++ more)) 0 (header_codec tr.regs).size w
                refl refl ((header_codec tr.regs).length-put image.header) whole s in
            written-some (HoldsImage saved_image i)
              (fs.pwrite fd (region_bytes rs) (header_codec tr.regs).size) _ _ w1 (saved_image, i)
              (λ whole' r.
                let w2 = (fs.pwrite fd (region_bytes rs) (header_codec tr.regs).size w1).1 in
                let s2 =
                  rewritten_regions rs more n i saved_image w1
                    (AllSaved-length m (length front) more image.regions rs e.0) s1 whole' in
                synced rs more n i saved_image (fs.fsync fd w2).0 (fs.fsync fd w2).1 e
                  (px.fsync-file fd w2 tmp ∙ s2.here) r))

    rewritten_any :
        (o : Option (List SnapshotRegion × ℕ)) (more : Bytes) (i : ℕ) (saved_image : Image tr.Regs)
        (w : fs.World)
        → ((rs : List SnapshotRegion) (n : ℕ)
            → o ≡ some (rs, n)
            → Counted m (length front) more image.regions rs n)
        → Stores tmp fd w (header_bytes ++ (region_bytes image.regions ++ (fd_bytes ++ more)))
        → (rewrite_image fs tr fd image o w).0 ≡ some (saved_image, i)
        → HoldsImage saved_image i (rewrite_image fs tr fd image o w).1
    unfolding rewrite_image
    rewritten_any none more i saved_image w h s r = absurd cc
    rewritten_any (some (rs, n)) more i saved_image w h s r =
        rewritten rs more n i saved_image w (h rs n refl) s r

    -- Behind the writes in front of the contents.
    dumped :
        (i : ℕ) (saved_image : Image tr.Regs) (w : fs.World)
        → IsOpen fs px tr tl tmp fd pid m w front
        → (rewrite_image fs tr fd image
            (save_regions fs tr pid fd image.regions w).0
            (save_regions fs tr pid fd image.regions w).1).0
          ≡ some (saved_image, i)
        → HoldsImage saved_image i
            (rewrite_image fs tr fd image
              (save_regions fs tr pid fd image.regions w).0
              (save_regions fs tr pid fd image.regions w).1).1
    dumped i saved_image w h r =
        let d = save_regions fs tr pid fd image.regions w in
        let x =
          save_regions-Saves fs px tr tl tmp fd pid m front [] image.regions w
            (subst (IsOpen fs px tr tl tmp fd pid m w) (sym (append-nil front)) h) in
        let parts =
          append_assoc (header_bytes ++ region_bytes image.regions) fd_bytes x.part
          ∙ append_assoc header_bytes (region_bytes image.regions) (fd_bytes ++ x.part) in
        rewritten_any d.0 x.part i saved_image d.1 x.all
          (record {
            offset = length (front ++ x.part);
            at = x.now.holds.at;
            here = x.now.holds.here ∙ ap some parts;
          })
          r

    -- An image that `ulcr_capture_snapshot` has written to a file that was empty is whole in it.
    pub write_image-HoldsImage :
        (i : ℕ) (saved_image : Image tr.Regs) (w : fs.World)
        → IsOpen fs px tr tl tmp fd pid m w []
        → (write_image fs tr pid fd image w).0 ≡ some (saved_image, i)
        → HoldsImage saved_image i (write_image fs tr pid fd image w).1
    unfolding write_image
    write_image-HoldsImage i saved_image w h =
        written-some (HoldsImage saved_image i) (fs.write fd header_bytes) _ _ w (saved_image, i)
          (λ whole.
            let w1 = (fs.write fd header_bytes w).1 in
            let h1 =
              write_whole-IsOpen fs px tr tl tmp fd pid m header_bytes []
                (header_codec tr.regs).size w ((header_codec tr.regs).length-put image.header) whole
                h in
            written-some (HoldsImage saved_image i) (fs.write fd (region_bytes image.regions)) _ _
              w1 (saved_image, i)
              (λ whole1.
                let w2 = (fs.write fd (region_bytes image.regions) w1).1 in
                let h2 =
                  write_whole-IsOpen fs px tr tl tmp fd pid m (region_bytes image.regions)
                    header_bytes (snapshot_region_codec.size * length image.regions) w1
                    (length-put_array snapshot_region_codec image.regions) whole1 h1 in
                written-some (HoldsImage saved_image i) (fs.write fd fd_bytes) _ _ w2
                  (saved_image, i)
                  (λ whole2. dumped i saved_image (fs.write fd fd_bytes w2).1 (
                    write_whole-IsOpen fs px tr tl tmp fd pid m fd_bytes
                      (header_bytes ++ region_bytes image.regions)
                      (fd_codec.size * length image.fds) w2 (length-put_array fd_codec image.fds)
                      whole2 h2))))
