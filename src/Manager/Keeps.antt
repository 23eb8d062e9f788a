-- ===== src/Manager/Keeps.antt =====
-- The files that `ulcr_checkpoint_latest` of src/manager.c does not write.
use user_level_checkpoint_re.Base.{
  ℕ, ◌≡◌, refl, ◌∙◌, false, Option, none, some, [], ◌++◌, Bytes, codes, str_eq, Status, done,
  failed, Bool-cases, Status-cases, inl, inr,
}
use user_level_checkpoint_re.Base.Int.{ℤ}
use user_level_checkpoint_re.Capture.{capture_snapshot}
use user_level_checkpoint_re.Capture.Others.{IsOther, capture_snapshot-others}
use user_level_checkpoint_re.Common.{max_path, copied}
use user_level_checkpoint_re.Config.{Config}
use user_level_checkpoint_re.Cstring.Number.{print_ℤ_onto}
use user_level_checkpoint_re.Doubles.{Doubles}
use user_level_checkpoint_re.Files.{Files}
use user_level_checkpoint_re.Files.Posix.{IsPosix}
use user_level_checkpoint_re.Interval.{dynamic_interval}
use user_level_checkpoint_re.Paths.{RuntimePaths}
use user_level_checkpoint_re.Procfs.Uptime.{runtime_seconds}
use user_level_checkpoint_re.Slots.{
  slot_size, slot_directory_for_name, choose_next_slot, write_stamped, write_active_metadata,
  metadata_text,
}
use user_level_checkpoint_re.Storage.{file_exists}
use user_level_checkpoint_re.Storage.Atomic.{tmp_of, atomic_write_text_file-Replaced}
use user_level_checkpoint_re.Tracer.{Tracer, IsTracer}
use user_level_checkpoint_re.Manager.Aside.{
  IsAside, lock-other, choose_next_slot-other, note_checkpoint-other,
}
use user_level_checkpoint_re.Manager.{
  or_zero, lock_try_acquire, lock_release, process_exists, noted, commit, capture_into,
  checkpoint_slot, checkpoint_locked, checkpoint_latest,
}

-- None of the files that a checkpoint writes outside its slot.
pub record IsUntouched (paths : RuntimePaths) (q : Bytes) : Type 0 where
  pub aside : IsAside paths q
  pub meta : str_eq q paths.checkpoint_meta_file ≡ false
  pub meta_tmp : str_eq q (tmp_of paths.checkpoint_meta_file) ≡ false

module _ (fs : Files) (px : IsPosix fs) (tr : Tracer fs) (tl : IsTracer fs px tr) (fl : Doubles)
    (per_second : ℤ) (config : Config) (paths : RuntimePaths) (q : Bytes)
    (far : IsUntouched paths q) where
  open px use {file}

  write_stamped-other :
      (slot : Bytes) (interval : ℤ) (runtime_text : Bytes) (o : Option Bytes) (w : fs.World)
      → file (write_stamped fs paths slot interval runtime_text o w).1 q ≡ file w q
  unfolding write_stamped
  write_stamped-other slot interval runtime_text none w = refl
  write_stamped-other slot interval runtime_text (some timestamp) w =
      let text = copied 512 (metadata_text slot timestamp interval runtime_text) in
      let r = atomic_write_text_file-Replaced fs px paths.checkpoint_meta_file text w in
      r.others q far.meta far.meta_tmp

  write_active_metadata-other :
      (slot : Bytes) (interval : ℤ) (runtime_text : Bytes) (w : fs.World)
      → file (write_active_metadata fs paths slot interval runtime_text w).1 q ≡ file w q
  unfolding write_active_metadata
  write_active_metadata-other slot interval runtime_text w =
      write_stamped-other slot interval runtime_text (fs.now_text w).0 (fs.now_text w).1
      ∙ px.now-file w q

  noted-other :
      (slot : Bytes) (interval : ℤ) (status : Status) (w : fs.World)
      → file (noted fs tr fl per_second config paths slot interval status w).1 q ≡ file w q
  unfolding noted
  noted-other slot interval failed w = refl
  noted-other slot interval done w =
      note_checkpoint-other fs px tr fl per_second config paths q far.aside slot interval w

  pub commit-other :
      (pid : ℤ) (slot : Bytes) (w : fs.World)
      → file (commit fs tr fl per_second config paths pid slot w).1 q ≡ file w q
  unfolding commit
  commit-other pid slot w =
      let runtime = runtime_seconds fl per_second (tr.proc w) pid in
      let interval = dynamic_interval fl config.checkpoint_interval_sec runtime in
      let text = fl.print_2f (or_zero fl runtime) in
      let r = write_active_metadata fs paths slot interval text w in
      noted-other slot interval r.0 r.1 ∙ write_active_metadata-other slot interval text w

  capture_into-other :
      (pid : ℤ) (slot : Bytes) (o : Option Bytes) (w : fs.World)
      → ((dir : Bytes) → o ≡ some dir → IsOther fs px tr tl dir q)
      → file (capture_into fs tr fl per_second config paths pid slot o w).1 q ≡ file w q
  unfolding capture_into
  capture_into-other pid slot none w h = refl
  capture_into-other pid slot (some dir) w h =
      let r = capture_snapshot fs tr pid config.process_name dir w in
      let kept = capture_snapshot-others fs px tr tl pid config.process_name dir q w (h dir refl) in
      elim (Status-cases r.0) [
        | inl captured ↦ rw captured (commit-other pid slot r.1 ∙ kept)
        | inr lost ↦ rw lost kept
      ]

  checkpoint_slot-other :
      (pid : ℤ) (o : Option Bytes) (w : fs.World)
      → ((slot dir : Bytes)
          → o ≡ some slot
          → slot_directory_for_name paths slot max_path ≡ some dir
          → IsOther fs px tr tl dir q)
      → file (checkpoint_slot fs tr fl per_second config paths pid o w).1 q ≡ file w q
  unfolding checkpoint_slot
  checkpoint_slot-other pid none w h = refl
  checkpoint_slot-other pid (some slot) w h =
      capture_into-other pid slot (slot_directory_for_name paths slot max_path) w
        (λ dir e. h slot dir refl e)

  checkpoint_locked-other :
      (pid : ℤ) (o : Option ℕ) (w : fs.World)
      → ((slot dir : Bytes)
          → (choose_next_slot fs paths slot_size w).0 ≡ some slot
          → slot_directory_for_name paths slot max_path ≡ some dir
          → IsOther fs px tr tl dir q)
      → file (checkpoint_locked fs tr fl per_second config paths pid o w).1 q ≡ file w q
  unfolding checkpoint_locked lock_release
  checkpoint_locked-other pid none w h = refl
  checkpoint_locked-other pid (some fd) w h =
      let r = choose_next_slot fs paths slot_size w in
      let w2 = (checkpoint_slot fs tr fl per_second config paths pid r.0 r.1).1 in
      px.close-file fd (fs.funlock fd w2) q
      ∙ px.funlock-file fd w2 q
      ∙ checkpoint_slot-other pid r.0 r.1 h
      ∙ choose_next_slot-other fs px tr fl per_second config paths q far.aside w

  -- The state in which `ulcr_checkpoint_latest` chooses its slot.
  abbrev pub choosing : ℤ → fs.World → fs.World
  choosing pid w =
      (lock_try_acquire fs tr fl per_second config paths
        (process_exists fs tr fl per_second config paths pid w).1).1

  -- Whichever calls of `ulcr_checkpoint_latest` fail, a file is as before if it is not active.meta,
  -- the state file, the status file, one of their temporary files or the lock, and is none of the
  -- four files that a capture writes in the directory of the slot that was chosen. So the snapshot
  -- in the other slot survives every failure.
  pub checkpoint_latest-keeps :
      (pid : ℤ) (w : fs.World)
      → ((slot dir : Bytes)
          → (choose_next_slot fs paths slot_size (choosing pid w)).0 ≡ some slot
          → slot_directory_for_name paths slot max_path ≡ some dir
          → IsOther fs px tr tl dir q)
      → file (checkpoint_latest fs tr fl per_second config paths pid w).1 q ≡ file w q
  unfolding checkpoint_latest process_exists file_exists
  checkpoint_latest-keeps pid w h =
      let path = copied 64 (codes "/proc/" ++ print_ℤ_onto pid []) in
      let w1 = (fs.access path w).1 in
      let r = lock_try_acquire fs tr fl per_second config paths w1 in
      elim (Bool-cases (fs.access path w).0) [
        | inl running ↦ rw running (
            checkpoint_locked-other pid r.0 r.1 h
            ∙ lock-other fs px tr fl per_second config paths q far.aside w1
            ∙ px.access-file path w q)
        | inr gone ↦ rw gone (px.access-file path w q)
      ]
