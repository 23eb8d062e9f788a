-- ===== src/Capture/Others.antt =====
-- The files that `ulcr_capture_snapshot` of src/snapshot.c does not write.
use user_level_checkpoint_re.Base.{
  ℕ, ◌≡◌, refl, ◌∙◌, Bool, true, false, Option, none, some, Bytes, str_eq, Status-cases, inl, inr,
}
use user_level_checkpoint_re.Base.Int.{ℤ}
use user_level_checkpoint_re.Files.{Files, write_truncate}
use user_level_checkpoint_re.Files.Posix.{IsPosix}
use user_level_checkpoint_re.Procfs.{ProcLayout}
use user_level_checkpoint_re.Procfs.Descriptors.{collect_proc_layout}
use user_level_checkpoint_re.Snapshot.{Image}
use user_level_checkpoint_re.Storage.{ensure_directory}
use user_level_checkpoint_re.Storage.Directory.{ensure_directory-file}
use user_level_checkpoint_re.Tracer.{Tracer, IsTracer}
use user_level_checkpoint_re.Manifest.{
  manifest_path, manifest_tmp_path, fill_manifest, manifest_text, write_manifest,
}
use user_level_checkpoint_re.Capture.{
  bin_path, bin_tmp_path, capture_file, detached, report, first_image, capture_regs, capture_layout,
  capture_stopped, capture_attached, capture_snapshot,
}
use user_level_checkpoint_re.Capture.Frame.{capture_file-others, move_file-others, open_tmp-others}

module _ (fs : Files) (px : IsPosix fs) (tr : Tracer fs) (tl : IsTracer fs px tr) where
  open px use {file, target}

  -- None of the four files that a capture into `dir` writes.
  pub record IsOther (dir q : Bytes) : Type 0 where
    pub bin : str_eq q (bin_path fs tr dir) ≡ false
    pub bin_tmp : str_eq q (bin_tmp_path fs tr dir) ≡ false
    pub manifest : str_eq q (manifest_path fs tr dir) ≡ false
    pub manifest_tmp : str_eq q (manifest_tmp_path fs tr dir) ≡ false

  fill_manifest-other :
      (dir q : Bytes) (image : Image tr.Regs) (o : Option ℕ) (w : fs.World)
      → str_eq q (manifest_path fs tr dir) ≡ false
      → str_eq q (manifest_tmp_path fs tr dir) ≡ false
      → ((fd : ℕ) → o ≡ some fd → target w fd ≡ some (manifest_tmp_path fs tr dir, 0))
      → file (fill_manifest fs tr dir image o w).1 q ≡ file w q
  unfolding fill_manifest
  fill_manifest-other dir q image none w a b at = refl
  fill_manifest-other dir q image (some fd) w a b at =
      let text = manifest_text fs tr image in
      move_file-others fs px tr tl (manifest_tmp_path fs tr dir) (manifest_path fs tr dir) q
        (fs.close_file fd (fs.write fd text w).1) b a
      ∙ px.close-file fd (fs.write fd text w).1 q
      ∙ px.write-file fd text w (manifest_tmp_path fs tr dir) 0 q (at fd refl)
      ∙ rw b refl

  -- The manifest's file and its temporary file are all that writing a manifest changes.
  pub write_manifest-other :
      (dir q : Bytes) (image : Image tr.Regs) (w : fs.World)
      → str_eq q (manifest_path fs tr dir) ≡ false
      → str_eq q (manifest_tmp_path fs tr dir) ≡ false
      → file (write_manifest fs tr dir image w).1 q ≡ file w q
  unfolding write_manifest
  write_manifest-other dir q image w a b =
      let tmp = manifest_tmp_path fs tr dir in
      fill_manifest-other dir q image (fs.open_file write_truncate tmp w).0
        (fs.open_file write_truncate tmp w).1 a b (px.open-target write_truncate tmp w)
      ∙ open_tmp-others fs px tr tl tmp q w b

  module _ (dir q : Bytes) (other : IsOther dir q) where
    report-other :
        (pid : ℤ) (o : Option (Image tr.Regs × ℕ)) (w : fs.World)
        → file (report fs tr pid dir o w).1 q ≡ file w q
    unfolding report detached
    report-other pid none w = tl.detach-file pid w q
    report-other pid (some (image, n)) w =
        tl.detach-file pid (write_manifest fs tr dir image w).1 q
        ∙ write_manifest-other dir q image w other.manifest other.manifest_tmp

    capture_regs-other :
        (pid : ℤ) (name : Bytes) (layout : ProcLayout) (o : Option tr.Regs) (w : fs.World)
        → file (capture_regs fs tr pid name dir layout o w).1 q ≡ file w q
    unfolding capture_regs detached
    capture_regs-other pid name layout none w = tl.detach-file pid w q
    capture_regs-other pid name layout (some regs) w =
        let image = first_image pid name layout regs in
        report-other pid (capture_file fs tr pid dir image w).0
          (capture_file fs tr pid dir image w).1
        ∙ capture_file-others fs px tr tl pid dir q image w other.bin_tmp other.bin

    capture_layout-other :
        (pid : ℤ) (name : Bytes) (o : Option ProcLayout) (w : fs.World)
        → file (capture_layout fs tr pid name dir o w).1 q ≡ file w q
    unfolding capture_layout detached
    capture_layout-other pid name none w = tl.detach-file pid w q
    capture_layout-other pid name (some layout) w =
        capture_regs-other pid name layout (tr.get_regs pid w).0 (tr.get_regs pid w).1
        ∙ tl.regs-file pid w q

    capture_stopped-other :
        (pid : ℤ) (name : Bytes) (o : Option Bool) (w : fs.World)
        → file (capture_stopped fs tr pid name dir o w).1 q ≡ file w q
    unfolding capture_stopped
    capture_stopped-other pid name none w = refl
    capture_stopped-other pid name (some false) w = refl
    capture_stopped-other pid name (some true) w =
        capture_layout-other pid name (collect_proc_layout (tr.proc w) pid) w

    capture_attached-other :
        (pid : ℤ) (name : Bytes) (w : fs.World)
        → file (capture_attached fs tr pid name dir w).1 q ≡ file w q
    unfolding capture_attached
    capture_attached-other pid name w =
        let w1 = (tr.attach pid w).1 in
        elim (Status-cases (tr.attach pid w).0) [
          | inl attached ↦ rw attached (
              capture_stopped-other pid name (tr.wait_stopped pid w1).0 (tr.wait_stopped pid w1).1
              ∙ tl.wait-file pid w1 q
              ∙ tl.attach-file pid w q)
          | inr refused ↦ rw refused (tl.attach-file pid w q)
        ]

  -- Whichever calls of `ulcr_capture_snapshot` fail, every file is as before but snapshot.bin and
  -- manifest.txt in the directory and the two with `.tmp` behind their names: the other slot, with
  -- the active snapshot, and active.meta are not touched.
  pub capture_snapshot-others :
      (pid : ℤ) (process_name dir q : Bytes) (w : fs.World)
      → IsOther dir q
      → file (capture_snapshot fs tr pid process_name dir w).1 q ≡ file w q
  unfolding capture_snapshot
  capture_snapshot-others pid process_name dir q w other =
      let w1 = (ensure_directory fs dir w).1 in
      elim (Status-cases (ensure_directory fs dir w).0) [
        | inl ready ↦ rw ready (
            capture_attached-other dir q other pid process_name w1
            ∙ ensure_directory-file fs px dir w q)
        | inr unready ↦ rw unready (ensure_directory-file fs px dir w q)
      ]
