-- ===== src/Control/Looks.antt =====
-- The commands of src/manager.c that change no file.
use user_level_checkpoint_re.Base.{
  ◌≡◌, refl, ◌∙◌, List, [], ◌∷◌, Bytes, Status, done, failed, Status-cases, inl, inr,
}
use user_level_checkpoint_re.Base.Int.{ℤ, pos}
use user_level_checkpoint_re.Common.{max_path}
use user_level_checkpoint_re.Config.{Config}
use user_level_checkpoint_re.Doubles.{Doubles}
use user_level_checkpoint_re.Files.{Files}
use user_level_checkpoint_re.Files.Posix.{IsPosix}
use user_level_checkpoint_re.Paths.{RuntimePaths}
use user_level_checkpoint_re.Processes.{Processes, IsProcesses}
use user_level_checkpoint_re.Slots.{slot_size, active_checkpoint_dir}
use user_level_checkpoint_re.Slots.Kept.{active_checkpoint_dir-file, count_available_slots-file}
use user_level_checkpoint_re.Storage.{ensure_directory}
use user_level_checkpoint_re.Storage.Directory.{ensure_directory-file}
use user_level_checkpoint_re.Tracer.{Tracer}
use user_level_checkpoint_re.Control.{runtime_dirs, read_pid_from_file, ensure_all, init_runtime}
use user_level_checkpoint_re.Control.Keeps.{read_pid_from_file-file, process_exists-file}
use user_level_checkpoint_re.Control.Report.{look_at, print_status}

module _ (fs : Files) (px : IsPosix fs) (tr : Tracer fs) (fl : Doubles) (per_second : ℤ)
    (config : Config) (paths : RuntimePaths) (ps : Processes fs) (pl : IsProcesses fs px ps)
    (q : Bytes) where
  open px use {file}

  ensure_all-file : (dirs : List Bytes) (w : fs.World) → file (ensure_all fs dirs w).1 q ≡ file w q
  unfolding ensure_all
  ensure_all-file [] w = refl
  ensure_all-file (dir ∷ dirs) w = elim (Status-cases (ensure_directory fs dir w).0) [
    | inl made ↦
        rw made
          (ensure_all-file dirs (ensure_directory fs dir w).1 ∙ ensure_directory-file fs px dir w q)
    | inr refused ↦ rw refused (ensure_directory-file fs px dir w q)
  ]

  pub init_runtime-file : (w : fs.World) → file (init_runtime fs paths w).1 q ≡ file w q
  unfolding init_runtime
  init_runtime-file w = ensure_all-file (runtime_dirs paths) w

  look_at-file :
      (pid : ℤ × Status) (w : fs.World)
      → file (look_at fs tr fl per_second config paths pid w).1 q ≡ file w q
  unfolding look_at
  look_at-file (pid, failed) w = refl
  look_at-file (pid, done) w = process_exists-file fs px tr fl per_second config paths ps pl q pid w

  pub print_status-file :
      (w : fs.World) → file (print_status fs tr fl per_second config paths w).1 q ≡ file w q
  unfolding print_status
  print_status-file w =
      let r = read_pid_from_file fs paths.pid_file (pos 0) w in
      let s = look_at fs tr fl per_second config paths r.0 r.1 in
      let t = active_checkpoint_dir fs paths max_path slot_size s.1 in
      count_available_slots-file fs px paths q t.1
      ∙ active_checkpoint_dir-file fs px paths q max_path slot_size s.1
      ∙ look_at-file r.0 r.1
      ∙ read_pid_from_file-file fs px paths.pid_file (pos 0) w q
