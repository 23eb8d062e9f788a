-- ===== src/Capture/Loads.antt =====
-- `ulcr_load_snapshot` on a file that `ulcr_capture_snapshot` of src/snapshot.c has left.
use user_level_checkpoint_re.Base.{
  ℕ, ◌<◌, ◌≡◌, sym, ◌∙◌, subst, Option, some, List, [], ◌∷◌, inl, inr, Bytes, length, map, done,
  arith,
}
use user_level_checkpoint_re.Base.Int.{ℤ}
use user_level_checkpoint_re.Binary.Arrays.{AllFit}
use user_level_checkpoint_re.Common.{max_path, copied}
use user_level_checkpoint_re.Common.Buffers.{length-copied, copied-text}
use user_level_checkpoint_re.Cstring.{c_str}
use user_level_checkpoint_re.Cstring.Number.RoundTrip.{IsInt}
use user_level_checkpoint_re.Files.{Files}
use user_level_checkpoint_re.Files.Calm.{IsCalm}
use user_level_checkpoint_re.Files.Posix.{IsPosix}
use user_level_checkpoint_re.Procfs.{Region, ProcLayout}
use user_level_checkpoint_re.Procfs.Descriptors.{collect_proc_layout, collect_link_path}
use user_level_checkpoint_re.Procfs.Descriptors.Ranges.{link_text-text}
use user_level_checkpoint_re.Procfs.Descriptors.Sizes.{
  collect_proc_layout-Parts, collect_proc_layout-IsSmall,
}
use user_level_checkpoint_re.Snapshot.{
  SnapshotRegion, region_codec, snapshot_region_codec, fd_codec, header_codec, load_snapshot,
}
use user_level_checkpoint_re.Snapshot.Collected.{collect_regions-put_array, collect_fds-put_array}
use user_level_checkpoint_re.Snapshot.RoundTrip.{IsStorable, load_snapshot-image_bytes}
use user_level_checkpoint_re.Tracer.{Tracer, IsTracer}
use user_level_checkpoint_re.Capture.Regions.{SavedFrom, AllSaved}
use user_level_checkpoint_re.Capture.Snapshots.{
  IsSnapshot, IsDistinct, waited_for, HoldsMemory, capture_snapshot-OldOrSnapshot,
}
use user_level_checkpoint_re.Capture.{unsaved, first_image, bin_path, capture_snapshot}

-- The region of a line, and what is saved of it, fit their C types.
SavedFrom-Fits :
    (m : ℕ → ℕ) (base : ℕ) (more : Bytes) (r : Region) (s : SnapshotRegion)
    → region_codec.Fits r
    → SavedFrom m base more (unsaved r) s
    → snapshot_region_codec.Fits s
SavedFrom-Fits m base more r s h (inl (out, e)) = rw e (h, (omega arith, omega arith))
SavedFrom-Fits m base more r s h (inr (wanted, inl e)) = rw e (h, (omega arith, omega arith))
SavedFrom-Fits m base more r s h (inr (wanted, inr at)) =
    rw at.there (h, (omega (arith, at.offset_long), omega arith))

AllSaved-AllFit :
    (m : ℕ → ℕ) (base : ℕ) (more : Bytes) (rs : List Region) (ss : List SnapshotRegion)
    → AllFit region_codec rs
    → AllSaved m base more (map unsaved rs) ss
    → AllFit snapshot_region_codec ss
AllSaved-AllFit m base more [] [] h k = tt
AllSaved-AllFit m base more [] (s ∷ ss) h k = absurd k
AllSaved-AllFit m base more (r ∷ rs) [] h k = absurd k
AllSaved-AllFit m base more (r ∷ rs) (s ∷ ss) h k =
    (SavedFrom-Fits m base more r s h.0 k.0, AllSaved-AllFit m base more rs ss h.1 k.1)

-- A buffer holds what is copied to it as a C string.
copied-Fits :
    (size : ℕ) (s : Bytes)
    → 0 < size
    → c_str s ≡ s
    → (length (copied size s) < size) × (c_str (copied size s) ≡ copied size s)
copied-Fits size s h k = (length-copied size s h, copied-text size s k)

module _ (fs : Files) (px : IsPosix fs) (tr : Tracer fs) (tl : IsTracer fs px tr) (pid : ℤ)
    (name : Bytes) (pid_int : IsInt pid) (name_text : c_str name ≡ name) where
  header_fits :
      (v : fs.World) (layout : ProcLayout) (regs : tr.Regs)
      → collect_proc_layout (tr.proc v) pid ≡ some layout
      → (tr.get_regs pid v).0 ≡ some regs
      → (header_codec tr.regs).Fits (first_image pid name layout regs).header
  unfolding first_image collect_link_path
  header_fits v layout regs collected told =
      let parts = collect_proc_layout-Parts (tr.proc v) pid layout collected in
      let small = collect_proc_layout-IsSmall (tr.proc v) pid layout collected in
      let text = link_text-text (tr.proc v) in
      (
        omega arith,
        (
          omega arith,
          (
            pid_int,
            (
              omega (arith, small.0),
              (
                omega (arith, small.1),
                (
                  tt,
                  (
                    tl.regs-fits pid v regs told,
                    (
                      copied-Fits 64 name (omega arith) name_text,
                      (
                        copied-Fits max_path layout.exe_path (omega arith)
                            (text _ _ layout.exe_path parts.exe_read),
                        copied-Fits max_path layout.cwd (omega arith)
                            (text _ _ layout.cwd parts.cwd_read),
                      ),
                    ),
                  ),
                ),
              ),
            ),
          ),
        ),
      )

  -- The image of a snapshot has values that the C types hold.
  pub IsSnapshot-IsStorable :
      {v : fs.World} {o : Option Bytes} (s : IsSnapshot fs px tr tl pid name v o)
      → IsStorable tr.regs s.image
  IsSnapshot-IsStorable {v} s =
      let parts = collect_proc_layout-Parts (tr.proc v) pid s.layout s.collected in
      record {
        bounded = s.bounded;
        header_fits =
            subst (header_codec tr.regs).Fits (sym s.header_same)
              (header_fits v s.layout s.regs s.collected s.told);
        regions_fit =
            AllSaved-AllFit (tl.memory pid v) _ s.contents s.layout.regions s.image.regions
              (collect_regions-put_array _ s.layout.regions [] parts.regions_read).0
              s.regions_saved;
        fds_fit =
            subst (AllFit fd_codec) (sym s.fds_same)
              (collect_fds-put_array (tr.proc v) pid s.layout.fds [] parts.fds_read).0;
      }

  -- What `ulcr_load_snapshot` gives of a file: the image of a whole snapshot of the process, and a
  -- descriptor.
  pub record LoadsSnapshot (dir : Bytes) (v : fs.World) (o : Option Bytes) (w : fs.World)
      : Type 0 where
    pub snapshot : IsSnapshot fs px tr tl pid name v o
    pub held : HoldsMemory fs px tr tl pid name v snapshot
    pub fd : ℕ
    pub loaded : (load_snapshot tr.regs fs dir w).0 ≡ some (snapshot.image, fd)

  -- When `ulcr_capture_snapshot` has returned 0, `ulcr_load_snapshot` succeeds in any state in which
  -- snapshot.bin still holds what it left there and no call fails, and gives back the image that was
  -- captured: that of the process in the state in which it has been waited for, with the memory
  -- that one of its regions or more had there behind it in the file. The number of the process is an `int`, its name is a C string, and the paths of the
  -- four files of the capture differ.
  pub capture_snapshot-LoadsSnapshot :
      (dir : Bytes) (Calm : fs.World → Type 0) (cm : IsCalm fs px Calm) (w later : fs.World)
      (distinct : IsDistinct fs px tr tl dir)
      → (capture_snapshot fs tr pid name dir w).0 ≡ done
      → px.file later (bin_path fs tr dir)
        ≡ px.file (capture_snapshot fs tr pid name dir w).1 (bin_path fs tr dir)
      → Calm later
      → LoadsSnapshot dir
          (waited_for fs px tr tl pid name dir distinct w)
          (px.file (capture_snapshot fs tr pid name dir w).1 (bin_path fs tr dir))
          later
  capture_snapshot-LoadsSnapshot dir Calm cm w later distinct success same calm =
      let h = capture_snapshot-OldOrSnapshot fs px tr tl pid name dir distinct w in
      let (s, held) = h.snapshot_if_done success in
      let r =
        load_snapshot-image_bytes tr.regs fs px Calm cm s.image dir s.contents later
          (IsSnapshot-IsStorable s) calm (same ∙ s.here) in
      record { snapshot = s; held = held; fd = r.0; loaded = r.1.1 }
