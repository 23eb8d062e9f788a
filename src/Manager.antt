-- ===== src/Manager.antt =====
-- `ulcr_checkpoint_latest` of src/manager.c and what it calls.
pub mod Aside
pub mod Keeps
pub mod Commit
pub mod Ready
pub mod Sample
mod Examples
use user_level_checkpoint_re.Base.{
  ℕ, Bool, true, false, if◌then◌else◌, Option, none, some, [], ◌∷◌, ◌++◌, Bytes, codes, Status,
  done, failed, is_failed,
}
use user_level_checkpoint_re.Base.Int.{ℤ}
use user_level_checkpoint_re.Capture.{capture_snapshot}
use user_level_checkpoint_re.Common.{max_path, copied}
use user_level_checkpoint_re.Config.{Config}
use user_level_checkpoint_re.Cstring.Number.{print_ℤ_onto}
use user_level_checkpoint_re.Doubles.{Doubles}
use user_level_checkpoint_re.Files.{Files, write_create, ◌>>=◌, ◌>>◌, pure, ignore}
use user_level_checkpoint_re.Interval.{dynamic_interval}
use user_level_checkpoint_re.Paths.{RuntimePaths}
use user_level_checkpoint_re.Procfs.Uptime.{runtime_seconds}
use user_level_checkpoint_re.Slots.{
  slot_size, slot_directory_for_name, choose_next_slot, write_active_metadata,
}
use user_level_checkpoint_re.Storage.{atomic_write_text_file, file_exists}
use user_level_checkpoint_re.Tracer.{Tracer}

abbrev pub or_zero : (fl : Doubles) → Option fl.Double → fl.Double
or_zero fl none = fl.zero_double
or_zero fl (some seconds) = seconds

module _ (fs : Files) (tr : Tracer fs) (fl : Doubles) (per_second : ℤ) (config : Config)
    (paths : RuntimePaths) where
  open fs use {World}

  -- `write_status_file`
  unfoldable pub write_status_file : Bytes → World → Status × World
  write_status_file value = atomic_write_text_file fs paths.status_file value

  -- `write_state_line`
  unfoldable pub write_state_line : Bytes → Bytes → World → Status × World
  write_state_line key value =
      atomic_write_text_file fs paths.state_file (copied 1024 (key ++ b'=' ∷ (value ++ b'\n' ∷ [])))

  unfoldable pub lock_opened : Option ℕ → World → Option ℕ × World
  lock_opened none = pure none
  lock_opened (some fd) = do
    locked ← fs.flock fd
    if is_failed locked then (do fs.close_file fd; pure none) else pure (some fd)

  -- `checkpoint_lock_try_acquire`: the descriptor, or `none` for -1.
  unfoldable pub lock_try_acquire : World → Option ℕ × World
  unfolding lock_opened
  lock_try_acquire = do fd ← fs.open_file write_create paths.checkpoint_lock_file; lock_opened fd

  -- `checkpoint_lock_release` of a descriptor that is held.
  unfoldable pub lock_release : ℕ → World → World
  lock_release fd w = fs.close_file fd (fs.funlock fd w)

  -- `ulcr_process_exists`
  unfoldable pub process_exists : ℤ → World → Bool × World
  process_exists pid = file_exists fs (copied 64 (codes "/proc/" ++ print_ℤ_onto pid []))

  -- The three writes whose results are not looked at.
  unfoldable pub note_checkpoint : Bytes → ℤ → World → World
  note_checkpoint slot interval w =
      let w1 = ignore (write_state_line (codes "checkpoint_slot") slot) w in
      let w2 = ignore (write_status_file (codes "checkpointed\n")) w1 in
      ignore
        (write_state_line (codes "checkpoint_interval_sec") (copied 64 (print_ℤ_onto interval [])))
        w2

  unfoldable pub noted : Bytes → ℤ → Status → World → Status × World
  unfolding note_checkpoint
  noted slot interval failed w = (failed, w)
  noted slot interval done w = (done, note_checkpoint slot interval w)

  -- From `compute_dynamic_checkpoint_interval` on; both queries of the runtime read this state.
  unfoldable pub commit : ℤ → Bytes → World → Status × World
  unfolding noted
  commit pid slot w =
      let runtime = runtime_seconds fl per_second (tr.proc w) pid in
      let interval = dynamic_interval fl config.checkpoint_interval_sec runtime in
      let (status, w') =
        write_active_metadata fs paths slot interval (fl.print_2f (or_zero fl runtime)) w in
      noted slot interval status w'

  -- From the capture on.
  unfoldable pub capture_into : ℤ → Bytes → Option Bytes → World → Status × World
  unfolding commit
  capture_into pid slot none w = (failed, w)
  capture_into pid slot (some dir) w =
      let (status, w') = capture_snapshot fs tr pid config.process_name dir w in
      if is_failed status then (failed, w') else commit pid slot w'

  unfoldable pub checkpoint_slot : ℤ → Option Bytes → World → Status × World
  unfolding capture_into
  checkpoint_slot pid none w = (failed, w)
  checkpoint_slot pid (some slot) w =
      capture_into pid slot (slot_directory_for_name paths slot max_path) w

  unfoldable pub checkpoint_locked : ℤ → Option ℕ → World → Status × World
  unfolding checkpoint_slot
  checkpoint_locked pid none w = (failed, w)
  checkpoint_locked pid (some lock_fd) w =
      let (slot, w1) = choose_next_slot fs paths slot_size w in
      let (status, w2) = checkpoint_slot pid slot w1 in (status, lock_release lock_fd w2)

  -- `ulcr_checkpoint_latest`
  unfoldable pub checkpoint_latest : ℤ → World → Status × World
  unfolding checkpoint_locked
  checkpoint_latest pid = do
    running ← process_exists pid
    if running then (do lock_fd ← lock_try_acquire; checkpoint_locked pid lock_fd) else pure failed
