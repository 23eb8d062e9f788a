-- ===== src/Capture/Snapshots.antt =====
-- snapshot.bin over a whole run of `ulcr_capture_snapshot` of src/snapshot.c.
use user_level_checkpoint_re.Base.{
  is_failed, if◌then◌else◌, ◌||◌, ◌==◌, ℕ, ◌≡◌, refl, sym, ◌∙◌, ap, Bool, true, false, Option, none,
  some, List, [], ◌++◌, ◌⊎◌, inl, inr, Bytes, length, map, str_eq, Status, done, failed,
  Status-cases, arith, suc, ◌∷◌,
}
use user_level_checkpoint_re.Base.Int.{ℤ}
use user_level_checkpoint_re.Files.{Files}
use user_level_checkpoint_re.Files.Posix.{IsPosix}
use user_level_checkpoint_re.Manifest.{manifest_path, manifest_tmp_path, write_manifest}
use user_level_checkpoint_re.Procfs.{Region, ProcLayout}
use user_level_checkpoint_re.Procfs.Descriptors.{collect_proc_layout}
use user_level_checkpoint_re.Procfs.Descriptors.Sizes.{IsSmall, collect_proc_layout-IsSmall}
use user_level_checkpoint_re.Snapshot.{Header, Image, image_bytes}
use user_level_checkpoint_re.Snapshot.Load.{IsBounded}
use user_level_checkpoint_re.Storage.{ensure_directory}
use user_level_checkpoint_re.Storage.Directory.{ensure_directory-file}
use user_level_checkpoint_re.Tracer.{Tracer, IsTracer}
use user_level_checkpoint_re.Capture.Others.{write_manifest-other}
use user_level_checkpoint_re.Capture.Regions.{AnyAt, AllSaved, AllSaved-length}
use user_level_checkpoint_re.Capture.Whole.{IsImage, OldOrImage, capture_file-OldOrImage}
use user_level_checkpoint_re.Capture.{
  unsaved, first_image, bin_path, bin_tmp_path, capture_file, detached, report, capture_regs,
  capture_layout, capture_stopped, capture_attached, capture_snapshot,
}

length-unsaved : (rs : List Region) → length (map unsaved rs) ≡ length rs
length-unsaved [] = refl
length-unsaved (r ∷ rs) = ap suc (length-unsaved rs)

module _ (fs : Files) (px : IsPosix fs) (tr : Tracer fs) (tl : IsTracer fs px tr) where
  open px use {file}

  -- A file that holds a whole snapshot of a process as it was in the state `v`: the layout of the image
  -- of what /proc showed of it there and of its registers, with its regions saved, and behind it the
  -- memory that it had there; `ulcr_load_snapshot` does not refuse the image.
  pub record IsSnapshot (pid : ℤ) (name : Bytes) (v : fs.World) (o : Option Bytes) : Type 0 where
    pub image : Image tr.Regs
    pub contents : Bytes
    pub here : o ≡ some (image_bytes tr.regs image ++ contents)
    pub stopped : tl.stopped pid v ≡ true
    pub layout : ProcLayout
    pub collected : collect_proc_layout (tr.proc v) pid ≡ some layout
    pub regs : tr.Regs
    pub told : (tr.get_regs pid v).0 ≡ some regs
    pub header_same : image.header ≡ (first_image pid name layout regs).header
    pub fds_same : image.fds ≡ layout.fds
    pub regions_saved :
        AllSaved
          (tl.memory pid v)
          (length (image_bytes tr.regs image))
          contents
          (map unsaved layout.regions)
          image.regions
    pub bounded : IsBounded image

  -- Of one region at least, the memory is in the file.
  abbrev pub HoldsMemory :
      (pid : ℤ) (name : Bytes) (v : fs.World) {o : Option Bytes} → IsSnapshot pid name v o → Type 0
  HoldsMemory pid name v s =
      AnyAt (tl.memory pid v) (length (image_bytes tr.regs s.image)) s.contents
        (map unsaved s.layout.regions) s.image.regions

  -- The names of the four files of a capture that have to differ from snapshot.bin's.
  pub record IsDistinct (dir : Bytes) : Type 0 where
    pub bin_tmp : str_eq (bin_path fs tr dir) (bin_tmp_path fs tr dir) ≡ false
    pub manifest : str_eq (bin_path fs tr dir) (manifest_path fs tr dir) ≡ false
    pub manifest_tmp : str_eq (bin_path fs tr dir) (manifest_tmp_path fs tr dir) ≡ false

  -- A file that is left as it was or holds a whole snapshot, and does so on success.
  pub record OldOrSnapshot (pid : ℤ) (name : Bytes) (v : fs.World) (before after : Option Bytes)
      (status : Status) : Type 0 where
    pub old_or_snapshot : (after ≡ before) ⊎ IsSnapshot pid name v after
    pub snapshot_if_done :
        status ≡ done → (s : IsSnapshot pid name v after) × HoldsMemory pid name v s

  IsImage-IsSnapshot :
      (pid : ℤ) (name : Bytes) (v : fs.World) (layout : ProcLayout) (regs : tr.Regs)
      (saved_image : Image tr.Regs) (n : ℕ) {o o' : Option Bytes}
      → tl.stopped pid v ≡ true
      → collect_proc_layout (tr.proc v) pid ≡ some layout
      → (tr.get_regs pid v).0 ≡ some regs
      → o' ≡ o
      → IsImage (tl.memory pid v) tr.regs (first_image pid name layout regs) saved_image n o
      → (s : IsSnapshot pid name v o') × ((n ≡ 0) ⊎ HoldsMemory pid name v s)
  unfolding first_image
  IsImage-IsSnapshot pid name v layout regs saved_image n {o} {o'} stopped collected told e i =
      let small : IsSmall layout = collect_proc_layout-IsSmall (tr.proc v) pid layout collected in
      let regions : length saved_image.regions ≡ length layout.regions =
        AllSaved-length (tl.memory pid v) (length (image_bytes tr.regs saved_image)) i.contents
          (map unsaved layout.regions) saved_image.regions i.regions_saved.0
        ∙ length-unsaved layout.regions in
      let fds : length saved_image.fds ≡ length layout.fds = ap length i.fds_same in
      let header = i.header_same in
      let s : IsSnapshot pid name v o' = record {
        image = saved_image;
        contents = i.contents;
        here = e ∙ i.here;
        stopped = stopped;
        layout = layout;
        collected = collected;
        regs = regs;
        told = told;
        header_same = i.header_same;
        fds_same = i.fds_same;
        regions_saved = i.regions_saved.0;
        bounded = record {
          magic_right = ap (λ (h : Header tr.Regs). h.magic) header;
          version_right = ap (λ (h : Header tr.Regs). h.version) header;
          regions_counted = regions ∙ sym (ap (λ (h : Header tr.Regs). h.region_count) header);
          fds_counted = fds ∙ sym (ap (λ (h : Header tr.Regs). h.fd_count) header);
          regions_bounded = omega (arith, regions, small.0);
          fds_bounded = omega (arith, fds, small.1);
        };
      } in
      (s, i.regions_saved.1)

  OldOrSnapshot-from :
      (pid : ℤ) (name : Bytes) (v : fs.World) {before first after : Option Bytes} {status : Status}
      → first ≡ before
      → OldOrSnapshot pid name v first after status
      → OldOrSnapshot pid name v before after status
  OldOrSnapshot-from pid name v {before} {first} {after} e h = record {
    old_or_snapshot = move h.old_or_snapshot;
    snapshot_if_done = h.snapshot_if_done;
  }
    where
      move :
          (after ≡ first) ⊎ IsSnapshot pid name v after
          → (after ≡ before) ⊎ IsSnapshot pid name v after
      move (inl f) = inl (f ∙ e)
      move (inr s) = inr s

  unchanged :
      (pid : ℤ) (name : Bytes) (v : fs.World) {before after : Option Bytes} {status : Status}
      → status ≡ failed
      → after ≡ before
      → OldOrSnapshot pid name v before after status
  unchanged pid name v f e = record { old_or_snapshot = inl e; snapshot_if_done = λ d. absurd cc }

  module _ (pid : ℤ) (name dir : Bytes) (distinct : IsDistinct dir) where
    abbrev bin : Bytes
    bin = bin_path fs tr dir

    -- Behind the part that makes snapshot.bin.
    report-bin :
        (o : Option (Image tr.Regs × ℕ)) (w : fs.World)
        → file (report fs tr pid dir o w).1 bin ≡ file w bin
    unfolding report detached
    report-bin none w = tl.detach-file pid w bin
    report-bin (some (image, n)) w =
        tl.detach-file pid (write_manifest fs tr dir image w).1 bin
        ∙ write_manifest-other fs px tr tl dir bin image w distinct.manifest distinct.manifest_tmp

    -- With no region included it has failed.
    some_included :
        {P : Type 0} (n : ℕ) (status : Status)
        → (if is_failed status || n == 0 then failed else done) ≡ done
        → (n ≡ 0) ⊎ P
        → P
    some_included n status d (inl z) = absurd (ground arith)
    some_included n status d (inr p) = p

    reported :
        (v : fs.World) (layout : ProcLayout) (regs : tr.Regs) (o : Option (Image tr.Regs × ℕ))
        (before : Option Bytes) (w : fs.World)
        → tl.stopped pid v ≡ true
        → collect_proc_layout (tr.proc v) pid ≡ some layout
        → (tr.get_regs pid v).0 ≡ some regs
        → OldOrImage
            (tl.memory pid v)
            tr.regs
            (first_image pid name layout regs)
            before
            (file w bin)
            o
        → OldOrSnapshot pid name v before
            (file (report fs tr pid dir o w).1 bin)
            (report fs tr pid dir o w).0
    unfolding report detached
    reported v layout regs o before w stopped collected told h = record {
      old_or_snapshot = move h.old_or_image;
      snapshot_if_done = λ d. saved_one o d h.image_if_done;
    }
      where
        move :
            (file w bin ≡ before)
              ⊎ ((saved_image : Image tr.Regs) × (n : ℕ) × IsImage
                    (tl.memory pid v)
                    tr.regs
                    (first_image pid name layout regs)
                    saved_image
                    n
                    (file w bin))
            → (file (report fs tr pid dir o w).1 bin ≡ before)
              ⊎ IsSnapshot pid name v (file (report fs tr pid dir o w).1 bin)
        move (inl e) = inl (report-bin o w ∙ e)
        move (inr (saved_image, n, i)) = inr (
            (IsImage-IsSnapshot pid name v layout regs saved_image n stopped collected told
              (report-bin o w) i).0)

        saved_one :
            (o' : Option (Image tr.Regs × ℕ))
            → (report fs tr pid dir o' w).0 ≡ done
            → ((saved_image : Image tr.Regs) (n : ℕ)
                → o' ≡ some (saved_image, n)
                → IsImage
                    (tl.memory pid v)
                    tr.regs
                    (first_image pid name layout regs)
                    saved_image
                    n
                    (file w bin))
            → (s : IsSnapshot pid name v (file (report fs tr pid dir o w).1 bin)) × HoldsMemory pid
                name v s
        saved_one none d k = absurd cc
        saved_one (some (image, n)) d k =
            let (s, held) =
              IsImage-IsSnapshot pid name v layout regs image n stopped collected told
                (report-bin o w) (k image n refl) in
            (s, some_included n (write_manifest fs tr dir image w).0 d held)

    capture_regs-OldOrSnapshot :
        (v : fs.World) (layout : ProcLayout) (o : Option tr.Regs) (w : fs.World)
        → tl.stopped pid v ≡ true
        → collect_proc_layout (tr.proc v) pid ≡ some layout
        → (tr.get_regs pid v).0 ≡ o
        → (tl.stopped pid w ≡ true) × (tl.memory pid w ≡ tl.memory pid v)
        → OldOrSnapshot pid name v
            (file w bin)
            (file (capture_regs fs tr pid name dir layout o w).1 bin)
            (capture_regs fs tr pid name dir layout o w).0
    unfolding capture_regs detached
    capture_regs-OldOrSnapshot v layout none w stopped collected told frozen =
        unchanged pid name v refl (tl.detach-file pid w bin)
    capture_regs-OldOrSnapshot v layout (some regs) w stopped collected told frozen =
        let image = first_image pid name layout regs in
        let r = capture_file fs tr pid dir image w in
        reported v layout regs r.0 (file w bin) r.1 stopped collected told (
          capture_file-OldOrImage fs px tr tl dir image pid (tl.memory pid v) distinct.bin_tmp w
            frozen.0 frozen.1)

    capture_layout-OldOrSnapshot :
        (o : Option ProcLayout) (w : fs.World)
        → tl.stopped pid w ≡ true
        → collect_proc_layout (tr.proc w) pid ≡ o
        → OldOrSnapshot pid name w
            (file w bin)
            (file (capture_layout fs tr pid name dir o w).1 bin)
            (capture_layout fs tr pid name dir o w).0
    unfolding capture_layout detached
    capture_layout-OldOrSnapshot none w stopped collected =
        unchanged pid name w refl (tl.detach-file pid w bin)
    capture_layout-OldOrSnapshot (some layout) w stopped collected =
        OldOrSnapshot-from pid name w (tl.regs-file pid w bin) (
          capture_regs-OldOrSnapshot w layout (tr.get_regs pid w).0 (tr.get_regs pid w).1 stopped
            collected refl (tl.regs-frozen pid w stopped))

    capture_stopped-OldOrSnapshot :
        (o : Option Bool) (w : fs.World)
        → (o ≡ some true → tl.stopped pid w ≡ true)
        → OldOrSnapshot pid name w
            (file w bin)
            (file (capture_stopped fs tr pid name dir o w).1 bin)
            (capture_stopped fs tr pid name dir o w).0
    unfolding capture_stopped
    capture_stopped-OldOrSnapshot none w stops = unchanged pid name w refl refl
    capture_stopped-OldOrSnapshot (some false) w stops = unchanged pid name w refl refl
    capture_stopped-OldOrSnapshot (some true) w stops =
        capture_layout-OldOrSnapshot (collect_proc_layout (tr.proc w) pid) w (stops refl) refl

    -- The state in which `ulcr_capture_snapshot` has waited for the process to stop.
    abbrev pub waited_for : fs.World → fs.World
    waited_for w = (tr.wait_stopped pid (tr.attach pid (ensure_directory fs dir w).1).1).1

    capture_attached-OldOrSnapshot :
        (w : fs.World)
        → OldOrSnapshot pid name
            (tr.wait_stopped pid (tr.attach pid w).1).1
            (file w bin)
            (file (capture_attached fs tr pid name dir w).1 bin)
            (capture_attached fs tr pid name dir w).0
    unfolding capture_attached
    capture_attached-OldOrSnapshot w =
        let w1 = (tr.attach pid w).1 in
        let v = (tr.wait_stopped pid w1).1 in
        elim (Status-cases (tr.attach pid w).0) [
          | inl attached ↦ rw attached (
              OldOrSnapshot-from pid name v (tl.wait-file pid w1 bin ∙ tl.attach-file pid w bin)
                (capture_stopped-OldOrSnapshot (tr.wait_stopped pid w1).0 v (tl.wait-stops pid w1)))
          | inr refused ↦ rw refused (unchanged pid name v refl (tl.attach-file pid w bin))
        ]

    -- Whichever calls of `ulcr_capture_snapshot` fail or write in part, snapshot.bin is as it was
    -- before, or it is a whole snapshot of this process in the state in which it has been waited for;
    -- on success it is one. A snapshot has the registers and the layout of the regions and
    -- descriptors that the process and /proc showed in that state, and counts that
    -- `ulcr_load_snapshot` does not refuse; each region that is included has been dropped or has at
    -- its offset in the file all bytes of the memory that the process had in that state from the
    -- region's start to its end, and on success one of them has. The paths of the four files have to differ, which they do if they
    -- fit their buffers.
    pub capture_snapshot-OldOrSnapshot :
        (w : fs.World)
        → OldOrSnapshot pid name
            (waited_for w)
            (file w bin)
            (file (capture_snapshot fs tr pid name dir w).1 bin)
            (capture_snapshot fs tr pid name dir w).0
    unfolding capture_snapshot
    capture_snapshot-OldOrSnapshot w =
        let w1 = (ensure_directory fs dir w).1 in
        let v = waited_for w in
        let kept = ensure_directory-file fs px dir w bin in
        elim (Status-cases (ensure_directory fs dir w).0) [
          | inl ready ↦
              rw ready (OldOrSnapshot-from pid name v kept (capture_attached-OldOrSnapshot w1))
          | inr unready ↦ rw unready (unchanged pid name v refl kept)
        ]
