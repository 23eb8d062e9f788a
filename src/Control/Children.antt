-- ===== src/Control/Children.antt =====
-- The children of `ulcr_start_process` of src/manager.c and `ulcr_restore_managed_process` of
-- src/snapshot.c.
use user_level_checkpoint_re.Base.{
  ℕ, ◌≡◌, refl, ◌∙◌, some, List, ◌∷◌, Bytes, ◌⊎◌, inl, inr, take, Bool-cases, arith,
}
use user_level_checkpoint_re.Argv.{build_workload_argv}
use user_level_checkpoint_re.Argv.Bounds.{build_argv_lem}
use user_level_checkpoint_re.Common.{copied}
use user_level_checkpoint_re.Cstring.{strtok}
use user_level_checkpoint_re.Files.{Files}
use user_level_checkpoint_re.Kernel.{Kernel}
use user_level_checkpoint_re.Processes.{Processes, Child, runs, exits}
use user_level_checkpoint_re.Restore.{max_args, run_program, restore_with, restore_child}
use user_level_checkpoint_re.Control.{start_child}

-- The program of the configuration with its arguments, or the end where it could not be executed.
abbrev pub IsWorkload : Bytes → Bytes → Child → Type 0
IsWorkload path args child =
    (child ≡ runs path (path ∷ take 30 (strtok (copied 256 args)))) ⊎ (child ≡ exits 127)

module _ (fs : Files) (ps : Processes fs) (k : Kernel fs) where
  run_program-cases :
      (path : Bytes) (argv : List Bytes) (w : fs.World)
      → ((run_program fs ps path argv w).0 ≡ runs path argv)
        ⊎ ((run_program fs ps path argv w).0 ≡ exits 127)
  unfolding run_program
  run_program-cases path argv w = elim (Bool-cases (ps.execv path argv w).0) [
    | inl replaced ↦ rw replaced (inl refl)
    | inr refused ↦ rw refused (inr refl)
  ]

  -- The argument vector is always built, and the process that is started and the one that is
  -- restored run the same program with the same arguments, or end with 127 where it cannot be
  -- executed; the 126 of the restored one does not occur.
  pub children-IsWorkload :
      (snapshot_dir log_path path args : Bytes) (log_fd : ℕ) (w : fs.World)
      → (argv : List Bytes) × (build_workload_argv path args max_args ≡ some argv)
        × IsWorkload path args (start_child fs ps k path log_fd argv w).0
        × IsWorkload path args (restore_child fs ps k snapshot_dir log_path path args w).0
  unfolding start_child restore_child restore_with
  children-IsWorkload snapshot_dir log_path path args log_fd w =
      let lem = build_argv_lem path args max_args in
      let (argv, built, e, short) = lem.0 (omega arith) in
      (
        argv,
        built,
        rw e (run_program-cases path _ _),
        rw (lem.1 ∙ built) (rw e (run_program-cases path _ _)),
      )
