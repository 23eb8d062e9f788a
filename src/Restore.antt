-- ===== src/Restore.antt =====
-- `ulcr_restore_managed_process` of src/snapshot.c: the parent's side, and the child's.
use user_level_checkpoint_re.Base.{ℕ, Option, none, some, List, Bytes, if◌then◌else◌}
use user_level_checkpoint_re.Base.Int.{ℤ}
use user_level_checkpoint_re.Argv.{build_exec_argv}
use user_level_checkpoint_re.Binary.{Codec}
use user_level_checkpoint_re.Files.{Files, write_append, ◌>>=◌, ◌>>◌, pure}
use user_level_checkpoint_re.Kernel.{Kernel}
use user_level_checkpoint_re.Processes.{Processes, Child, runs, exits}
use user_level_checkpoint_re.Snapshot.{Image, load_snapshot}

-- The room of the argument vectors.
abbrev pub max_args : ℕ
max_args = 32

module _ (fs : Files) (ps : Processes fs) where
  open fs use {World}

  -- From `fork` on in the parent, where the snapshot could be loaded.
  unfoldable pub fork_loaded : {Regs : Type 0} → Option (Image Regs × ℕ) → World → Option ℤ × World
  fork_loaded none = pure none
  fork_loaded (some (image, fd)) = do fs.close_file fd; ps.fork

  -- `ulcr_restore_managed_process`, as the parent returns from it: the child, or `none` for -1.
  unfoldable pub restore_managed_process :
      {Regs : Type 0} → Codec Regs → Bytes → World → Option ℤ × World
  unfolding fork_loaded
  restore_managed_process regs snapshot_dir = do
    loaded ← load_snapshot regs fs snapshot_dir
    fork_loaded loaded

  -- `execv` and the `_exit(127)` behind it.
  unfoldable pub run_program : Bytes → List Bytes → World → Child × World
  run_program path argv = do
    replaced ← ps.execv path argv
    pure (if replaced then runs path argv else exits 127)

  module _ (k : Kernel fs) where
    -- The log as the standard output and the standard error.
    unfoldable pub redirect : ℕ → World → World
    redirect log_fd w =
        let w1 = (k.dup2 log_fd 1 w).1 in let w2 = (k.dup2 log_fd 2 w1).1 in fs.close_file log_fd w2

    unfoldable pub redirect_opened : Option ℕ → World → World
    unfolding redirect
    redirect_opened none w = w
    redirect_opened (some log_fd) w = redirect log_fd w

    unfoldable pub restore_with :
        Bytes → Bytes → Option ℕ → Option (List Bytes) → World → Child × World
    unfolding redirect_opened run_program
    restore_with snapshot_dir workload_path log_fd none = pure (exits 126)
    restore_with snapshot_dir workload_path log_fd (some argv) = do
      redirect_opened log_fd
      ps.setsid
      ps.set_snapshot snapshot_dir
      run_program workload_path argv

    -- What the child of `ulcr_restore_managed_process` does.
    unfoldable pub restore_child : Bytes → Bytes → Bytes → Bytes → World → Child × World
    unfolding restore_with
    restore_child snapshot_dir log_path workload_path workload_args = do
      log_fd ← fs.open_file write_append log_path
      restore_with snapshot_dir workload_path log_fd
          (build_exec_argv workload_path (some workload_args) max_args)
