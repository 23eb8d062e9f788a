-- ===== src/Control/Pids.antt =====
-- The pids that `ulcr_start_process` and `ulcr_restore_latest` of src/manager.c give.
use user_level_checkpoint_re.Base.{ℕ, ◌≡◌, refl, sym, ◌∙◌, Option, none, some, Bytes}
use user_level_checkpoint_re.Base.Int.{ℤ, pos, ◌≤ℤ◌}
use user_level_checkpoint_re.Common.{max_path}
use user_level_checkpoint_re.Config.{Config}
use user_level_checkpoint_re.Cstring.Number.RoundTrip.{IsInt}
use user_level_checkpoint_re.Doubles.{Doubles}
use user_level_checkpoint_re.Files.{Files}
use user_level_checkpoint_re.Files.Posix.{IsPosix}
use user_level_checkpoint_re.Paths.{RuntimePaths}
use user_level_checkpoint_re.Processes.{Processes, IsProcesses}
use user_level_checkpoint_re.Restore.{fork_loaded, restore_managed_process}
use user_level_checkpoint_re.Slots.{slot_size, active_checkpoint_dir}
use user_level_checkpoint_re.Snapshot.{Image, load_snapshot}
use user_level_checkpoint_re.Tracer.{Tracer}
use user_level_checkpoint_re.Control.{restore_forked, restore_found, restore_latest}

-- A child's number.
abbrev pub IsPid : ℤ → Type 0
IsPid pid = (pos 1 ≤ℤ pid) × IsInt pid

module _ (fs : Files) (px : IsPosix fs) (tr : Tracer fs) (fl : Doubles) (per_second : ℤ)
    (config : Config) (paths : RuntimePaths) (ps : Processes fs) (pl : IsProcesses fs px ps) where
  fork_loaded-IsPid :
      {Regs : Type 0} (loaded : Option (Image Regs × ℕ)) (w : fs.World) (pid : ℤ)
      → (fork_loaded fs ps loaded w).0 ≡ some pid
      → IsPid pid
  unfolding fork_loaded
  fork_loaded-IsPid none w pid e = absurd cc
  fork_loaded-IsPid (some (image, fd)) w pid e = pl.fork-pid (fs.close_file fd w) pid e

  restore_forked-pid :
      (slot : Bytes) (o : Option ℤ) (w : fs.World)
      → (restore_forked fs tr fl per_second config paths ps slot o w).0 ≡ o
  unfolding restore_forked
  restore_forked-pid slot none w = refl
  restore_forked-pid slot (some pid) w = refl

  restore_found-IsPid :
      (active : Option (Bytes × Bytes)) (w : fs.World) (pid : ℤ)
      → (restore_found fs tr fl per_second config paths ps active w).0 ≡ some pid
      → IsPid pid
  unfolding restore_found restore_managed_process
  restore_found-IsPid none w pid e = absurd cc
  restore_found-IsPid (some (dir, slot)) w pid e =
      let r = restore_managed_process fs ps tr.regs dir w in
      let l = load_snapshot tr.regs fs dir w in
      fork_loaded-IsPid l.0 l.1 pid (sym (restore_forked-pid slot r.0 r.1) ∙ e)

  pub restore_latest-IsPid :
      (w : fs.World) (pid : ℤ)
      → (restore_latest fs tr fl per_second config paths ps w).0 ≡ some pid
      → IsPid pid
  unfolding restore_latest
  restore_latest-IsPid w pid e =
      let r = active_checkpoint_dir fs paths max_path slot_size w in
      restore_found-IsPid r.0 r.1 pid e
