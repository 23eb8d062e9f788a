-- ===== src/Snapshot/RoundTrip.antt =====
-- `ulcr_load_snapshot` on the layout that `ulcr_capture_snapshot` of src/snapshot.c writes.
use user_level_checkpoint_re.Base.{
  ℕ, ◌*◌, ◌≡◌, refl, sym, ◌∙◌, ap, ap₂, false, some, List, [], ◌++◌, Bytes, codes, length,
  append_assoc, append-nil, Option-cases, inl, inr, arith,
}
use user_level_checkpoint_re.Binary.{Codec}
use user_level_checkpoint_re.Binary.Arrays.{
  put_array, get_array, AllFit, length-put_array, get_array-put_array,
}
use user_level_checkpoint_re.Common.{max_path, joined}
use user_level_checkpoint_re.Files.{Files, read_only}
use user_level_checkpoint_re.Files.Posix.{IsPosix}
use user_level_checkpoint_re.Files.Calm.{IsCalm, StandsAt, read-part}
use user_level_checkpoint_re.Snapshot.{
  Header, Image, snapshot_region_codec, fd_codec, header_codec, image_bytes, exactly, load_fds,
  load_regions, is_refused, load_counted, load_header, load_opened, load_snapshot,
}
use user_level_checkpoint_re.Storage.Reading.{open_read-file}
use user_level_checkpoint_re.Snapshot.Load.{IsBounded}

exactly_whole : (n : ℕ) (b : Bytes) → length b ≡ n → exactly n (some b) ≡ some b
unfolding exactly
exactly_whole n b e = ground arith

get-put_alone : {A : Type 0} → (c : Codec A) (a : A) → c.Fits a → c.get (c.put a) ≡ a
get-put_alone c a h = ap c.get (sym (append-nil (c.put a))) ∙ c.get-put a [] h

get_array_alone :
    {A : Type 0}
    → (c : Codec A) (n : ℕ) (l : List A) → length l ≡ n
    → AllFit c l
    → get_array c n (put_array c l) ≡ l
get_array_alone c n l e h =
    ap₂ (get_array c) (sym e) (sym (append-nil (put_array c l))) ∙ get_array-put_array c l [] h

is_refused_not :
    {Regs : Type 0} → (image : Image Regs) → IsBounded image → is_refused image.header ≡ false
unfolding is_refused
is_refused_not image h = ground (
  arith, h.magic_right, h.version_right, h.regions_counted, h.fds_counted, h.regions_bounded,
  h.fds_bounded,
)

module _ {Regs : Type 0} (regs : Codec Regs) where
  -- An image whose values the C types hold.
  pub record IsStorable (image : Image Regs) : Type 0 where
    pub bounded : IsBounded image
    pub header_fits : (header_codec regs).Fits image.header
    pub regions_fit : AllFit snapshot_region_codec image.regions
    pub fds_fit : AllFit fd_codec image.fds

append-parts : (a b c d : Bytes) → (a ++ (b ++ c)) ++ d ≡ a ++ (b ++ (c ++ d))
append-parts a b c d = append_assoc a (b ++ c) d ∙ ap (λ t. a ++ t) (append_assoc b c d)

pub image_bytes-parts :
    {Regs : Type 0}
    → (regs : Codec Regs) (image : Image Regs) (contents : Bytes)
    → image_bytes regs image ++ contents
      ≡ (header_codec regs).put image.header
        ++ (put_array snapshot_region_codec image.regions
            ++ (put_array fd_codec image.fds ++ contents))
unfolding image_bytes
image_bytes-parts regs image contents =
    append-parts ((header_codec regs).put image.header)
      (put_array snapshot_region_codec image.regions) (put_array fd_codec image.fds) contents

module _ {Regs : Type 0} (regs : Codec Regs) (fs : Files) (px : IsPosix fs)
    (Calm : fs.World → Type 0) (cm : IsCalm fs px Calm) (image : Image Regs)
    (ok : IsStorable regs image) (p c contents : Bytes) (fd : ℕ) where
  abbrev hc : Codec (Header Regs)
  hc = header_codec regs

  load_regions_whole :
      (w : fs.World)
      → StandsAt fs px Calm cm w fd p c (put_array fd_codec image.fds ++ contents)
      → (load_regions regs fs fd image.header
          (some (put_array snapshot_region_codec image.regions))
          w).0
        ≡ some (image, fd)
  unfolding load_regions load_fds
  load_regions_whole w s =
      let size = fd_codec.size * image.header.fd_count in
      let part = put_array fd_codec image.fds in
      let len : length part ≡ size =
        length-put_array fd_codec image.fds ∙ ap (λ n. fd_codec.size * n) ok.bounded.fds_counted in
      let r = read-part fs px Calm cm w fd p c part contents size len s in
      let w' = (fs.read fd size w).1 in
      let rs =
        get_array snapshot_region_codec image.header.region_count
          (put_array snapshot_region_codec image.regions) in
      ap (λ o. (load_fds regs fs fd image.header rs (exactly size o) w').0) r.0
      ∙ ap (λ o. (load_fds regs fs fd image.header rs o w').0) (exactly_whole size part len)
      ∙ ap₂ (λ l k. some (record { header = image.header; regions = l; fds = k }, fd))
          (get_array_alone snapshot_region_codec image.header.region_count image.regions
            ok.bounded.regions_counted ok.regions_fit)
          (get_array_alone fd_codec image.header.fd_count image.fds ok.bounded.fds_counted
            ok.fds_fit)

  load_counted_whole :
      (w : fs.World)
      → StandsAt fs px Calm cm w fd p c (
          put_array snapshot_region_codec image.regions
          ++ (put_array fd_codec image.fds ++ contents))
      → (load_counted regs fs fd image.header w).0 ≡ some (image, fd)
  unfolding load_counted
  load_counted_whole w s =
      let size = snapshot_region_codec.size * image.header.region_count in
      let part = put_array snapshot_region_codec image.regions in
      let len : length part ≡ size =
        length-put_array snapshot_region_codec image.regions
        ∙ ap (λ n. snapshot_region_codec.size * n) ok.bounded.regions_counted in
      let r =
        read-part fs px Calm cm w fd p c part (put_array fd_codec image.fds ++ contents) size len
          s in
      let w' = (fs.read fd size w).1 in
      rw (is_refused_not image ok.bounded) (
        ap (λ o. (load_regions regs fs fd image.header (exactly size o) w').0) r.0
        ∙ ap (λ o. (load_regions regs fs fd image.header o w').0) (exactly_whole size part len)
        ∙ load_regions_whole w' r.1)

  load_opened_whole :
      (w : fs.World)
      → StandsAt fs px Calm cm w fd p c (image_bytes regs image ++ contents)
      → (load_opened regs fs (some fd) w).0 ≡ some (image, fd)
  unfolding load_opened load_header
  load_opened_whole w s =
      let part = hc.put image.header in
      let rest' =
        put_array snapshot_region_codec image.regions
        ++ (put_array fd_codec image.fds ++ contents) in
      let split = image_bytes-parts regs image contents in
      let s' : StandsAt fs px Calm cm w fd p c (part ++ rest') = record {
        offset = s.offset;
        calm = s.calm;
        at = s.at;
        here = s.here;
        left = s.left ∙ split;
      } in
      let len = hc.length-put image.header in
      let r = read-part fs px Calm cm w fd p c part rest' hc.size len s' in
      let w' = (fs.read fd hc.size w).1 in
      ap (λ o. (load_header regs fs fd (exactly hc.size o) w').0) r.0
      ∙ ap (λ o. (load_header regs fs fd o w').0) (exactly_whole hc.size part len)
      ∙ ap (λ h. (load_counted regs fs fd h w').0) (get-put_alone hc image.header ok.header_fits)
      ∙ load_counted_whole w' r.1

-- In a state in which no call fails, `ulcr_load_snapshot` returns the image whose layout is at the
-- start of the file `snapshot.bin`, whatever contents of the regions follow it, with the descriptor
-- that `open` gave, provided the image has the counts that its header says and the C types hold
-- its values.
pub load_snapshot-image_bytes :
    {Regs : Type 0}
    → (regs : Codec Regs) (fs : Files) (px : IsPosix fs) (Calm : fs.World → Type 0)
      (cm : IsCalm fs px Calm) (image : Image Regs) (snapshot_dir contents : Bytes) (w : fs.World)
    → IsStorable regs image
    → Calm w
    → px.file w (joined max_path snapshot_dir (codes "snapshot.bin"))
      ≡ some (image_bytes regs image ++ contents)
    → (fd : ℕ) × (((fs.open_file read_only
            (joined max_path snapshot_dir (codes "snapshot.bin"))
            w).0
          ≡ some fd)
        × ((load_snapshot regs fs snapshot_dir w).0 ≡ some (image, fd)))
unfolding load_snapshot
load_snapshot-image_bytes regs fs px Calm cm image snapshot_dir contents w ok calm here =
    let path = joined max_path snapshot_dir (codes "snapshot.bin") in
    let w' = (fs.open_file read_only path w).1 in
    let opening = cm.open-calm path w (image_bytes regs image ++ contents) calm here in
    elim (Option-cases (fs.open_file read_only path w).0) [
      | inl closed ↦ absurd (cc (rw closed at opening.0))
      | inr (fd, e) ↦
          let s : StandsAt fs px Calm cm w' fd path (image_bytes regs image ++ contents)
              (image_bytes regs image ++ contents) =
            record {
              offset = 0;
              calm = opening.1;
              at = px.open-target read_only path w fd e;
              here = open_read-file fs px path w path ∙ here;
              left = refl;
            } in
          (
            fd,
            (
              e,
              ap (λ o. (load_opened regs fs o w').0) e
                  ∙ load_opened_whole regs fs px Calm cm image ok path
                      (image_bytes regs image ++ contents) contents fd w' s,
            ),
          )
    ]
