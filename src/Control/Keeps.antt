-- ===== src/Control/Keeps.antt =====
-- The files that the commands of src/manager.c other than the checkpoint do not write.
use user_level_checkpoint_re.Base.{
  ℕ, ◌≡◌, refl, ◌∙◌, Bool, true, false, Option, none, some, List, [], ◌++◌, Bytes, codes, str_eq,
  Status, done, failed, Bool-cases, inl, inr, arith,
}
use user_level_checkpoint_re.Base.Int.{ℤ, pos}
use user_level_checkpoint_re.Argv.{build_workload_argv}
use user_level_checkpoint_re.Common.{max_path, copied}
use user_level_checkpoint_re.Config.{Config}
use user_level_checkpoint_re.Cstring.Number.{print_ℤ_onto}
use user_level_checkpoint_re.Doubles.{Doubles}
use user_level_checkpoint_re.Files.{Files, write_append}
use user_level_checkpoint_re.Files.Posix.{IsPosix}
use user_level_checkpoint_re.Manager.{write_state_line, write_status_file, process_exists}
use user_level_checkpoint_re.Manager.Aside.{IsAside, state-other, status-other}
use user_level_checkpoint_re.Paths.{RuntimePaths}
use user_level_checkpoint_re.Processes.{Signal, sigkill, sigterm, Processes, IsProcesses}
use user_level_checkpoint_re.Restore.{max_args, fork_loaded, restore_managed_process}
use user_level_checkpoint_re.Slots.{slot_size, active_checkpoint_dir}
use user_level_checkpoint_re.Slots.Kept.{active_checkpoint_dir-file}
use user_level_checkpoint_re.Snapshot.{Image, load_snapshot}
use user_level_checkpoint_re.Snapshot.Kept.{load_snapshot-file}
use user_level_checkpoint_re.Storage.{file_exists, write_text_file}
use user_level_checkpoint_re.Storage.Plain.{write_text_file-Written}
use user_level_checkpoint_re.Storage.Reading.{read_text_file-file}
use user_level_checkpoint_re.Tracer.{Tracer}
use user_level_checkpoint_re.Control.{
  read_pid_from_file, pid_text, note_started, start_forked, start_logged, start_built, still_runs,
  recorded_runs, start_process, note_restored, restore_forked, restore_found, restore_latest,
  note_signalled, signal_read, fail_process, stop_process,
}

-- None of the files that these commands write.
pub record IsApart (paths : RuntimePaths) (q : Bytes) : Type 0 where
  pub aside : IsAside paths q
  pub pid : str_eq q paths.pid_file ≡ false
  pub log : str_eq q paths.process_log ≡ false

module _ (fs : Files) (px : IsPosix fs) where
  open px use {file}

  pub read_pid_from_file-file :
      (path : Bytes) (old : ℤ) (w : fs.World) (q : Bytes)
      → file (read_pid_from_file fs path old w).1 q ≡ file w q
  unfolding read_pid_from_file
  read_pid_from_file-file path old w q = read_text_file-file fs px path 64 w q

module _ (fs : Files) (px : IsPosix fs) (tr : Tracer fs) (fl : Doubles) (per_second : ℤ)
    (config : Config) (paths : RuntimePaths) (ps : Processes fs) (pl : IsProcesses fs px ps)
    (q : Bytes) where
  open px use {file}

  pub process_exists-file :
      (pid : ℤ) (w : fs.World)
      → file (process_exists fs tr fl per_second config paths pid w).1 q ≡ file w q
  unfolding process_exists file_exists
  process_exists-file pid w = px.access-file (copied 64 (codes "/proc/" ++ print_ℤ_onto pid [])) w q

  fork_loaded-file :
      {Regs : Type 0} (loaded : Option (Image Regs × ℕ)) (w : fs.World)
      → file (fork_loaded fs ps loaded w).1 q ≡ file w q
  unfolding fork_loaded
  fork_loaded-file none w = refl
  fork_loaded-file (some (image, fd)) w = pl.fork-file (fs.close_file fd w) q ∙ px.close-file fd w q

  pub restore_managed_process-file :
      (dir : Bytes) (w : fs.World)
      → file (restore_managed_process fs ps tr.regs dir w).1 q ≡ file w q
  unfolding restore_managed_process
  restore_managed_process-file dir w =
      let r = load_snapshot tr.regs fs dir w in
      fork_loaded-file r.0 r.1 ∙ load_snapshot-file tr.regs fs px q dir w

  still_runs-file :
      (pid : ℤ × Status) (w : fs.World)
      → file (still_runs fs tr fl per_second config paths ps pid w).1 q ≡ file w q
  unfolding still_runs
  still_runs-file (pid, failed) w = refl
  still_runs-file (pid, done) w = process_exists-file pid w

  pub recorded_runs-file :
      (there : Bool) (w : fs.World)
      → file (recorded_runs fs tr fl per_second config paths ps there w).1 q ≡ file w q
  unfolding recorded_runs
  recorded_runs-file false w = refl
  recorded_runs-file true w =
      let r = read_pid_from_file fs paths.pid_file (pos 0) w in
      still_runs-file r.0 r.1 ∙ read_pid_from_file-file fs px paths.pid_file (pos 0) w q

  module _ (apart : IsApart paths q) where
    state_line-other :
        (key value : Bytes) (w : fs.World)
        → file (write_state_line fs tr fl per_second config paths key value w).1 q ≡ file w q
    state_line-other key value w =
        state-other fs px tr fl per_second config paths q apart.aside key value w

    status_text-other :
        (value : Bytes) (w : fs.World)
        → file (write_status_file fs tr fl per_second config paths value w).1 q ≡ file w q
    status_text-other value w =
        status-other fs px tr fl per_second config paths q apart.aside value w

    pid-other :
        (pid : ℤ) (w : fs.World)
        → file (write_text_file fs paths.pid_file (pid_text pid) w).1 q ≡ file w q
    pid-other pid w =
        (write_text_file-Written fs px paths.pid_file (pid_text pid) w).others q apart.pid

    note_started-other :
        (child : ℤ) (w : fs.World)
        → file (note_started fs tr fl per_second config paths ps child w) q ≡ file w q
    unfolding note_started
    note_started-other child w =
        let w1 = (write_text_file fs paths.pid_file (pid_text child) w).1 in
        let w2 =
          (write_state_line fs tr fl per_second config paths (codes "status") (codes "running")
            w1).1 in
        status_text-other (codes "running\n") w2
        ∙ state_line-other (codes "status") (codes "running") w1
        ∙ pid-other child w

    start_forked-other :
        (child : Option ℤ) (w : fs.World)
        → file (start_forked fs tr fl per_second config paths ps child w).1 q ≡ file w q
    unfolding start_forked
    start_forked-other none w = refl
    start_forked-other (some child) w = note_started-other child w

    start_logged-other :
        (log_fd : Option ℕ) (w : fs.World)
        → file (start_logged fs tr fl per_second config paths ps log_fd w).1 q ≡ file w q
    unfolding start_logged
    start_logged-other none w = refl
    start_logged-other (some fd) w =
        let r = ps.fork w in
        start_forked-other r.0 (fs.close_file fd r.1) ∙ px.close-file fd r.1 q ∙ pl.fork-file w q

    start_built-other :
        (argv : Option (List Bytes)) (w : fs.World)
        → file (start_built fs tr fl per_second config paths ps argv w).1 q ≡ file w q
    unfolding start_built
    start_built-other none w = refl
    start_built-other (some argv) w =
        let r = fs.open_file write_append paths.process_log w in
        start_logged-other r.0 r.1
        ∙ ground (arith, px.open-file write_append paths.process_log w q, apart.log)

    note_restored-other :
        (pid : ℤ) (slot : Bytes) (w : fs.World)
        → file (note_restored fs tr fl per_second config paths ps pid slot w) q ≡ file w q
    unfolding note_restored
    note_restored-other pid slot w =
        let w1 = (write_text_file fs paths.pid_file (pid_text pid) w).1 in
        let w2 =
          (write_state_line fs tr fl per_second config paths (codes "status") (codes "restored")
            w1).1 in
        let w3 =
          (write_state_line fs tr fl per_second config paths (codes "checkpoint_slot") slot w2).1 in
        status_text-other (codes "restored\n") w3
        ∙ state_line-other (codes "checkpoint_slot") slot w2
        ∙ state_line-other (codes "status") (codes "restored") w1
        ∙ pid-other pid w

    restore_forked-other :
        (slot : Bytes) (pid : Option ℤ) (w : fs.World)
        → file (restore_forked fs tr fl per_second config paths ps slot pid w).1 q ≡ file w q
    unfolding restore_forked
    restore_forked-other slot none w = refl
    restore_forked-other slot (some pid) w = note_restored-other pid slot w

    restore_found-other :
        (active : Option (Bytes × Bytes)) (w : fs.World)
        → file (restore_found fs tr fl per_second config paths ps active w).1 q ≡ file w q
    unfolding restore_found
    restore_found-other none w = refl
    restore_found-other (some (dir, slot)) w =
        let r = restore_managed_process fs ps tr.regs dir w in
        restore_forked-other slot r.0 r.1 ∙ restore_managed_process-file dir w

    note_signalled-other :
        (value text : Bytes) (sent : Status) (w : fs.World)
        → file (note_signalled fs tr fl per_second config paths ps value text sent w).1 q ≡ file w q
    unfolding note_signalled
    note_signalled-other value text failed w = refl
    note_signalled-other value text done w =
        let w1 = (write_state_line fs tr fl per_second config paths (codes "status") value w).1 in
        status_text-other text w1 ∙ state_line-other (codes "status") value w

    signal_read-other :
        (signal : Signal) (value text : Bytes) (pid : ℤ × Status) (w : fs.World)
        → file (signal_read fs tr fl per_second config paths ps signal value text pid w).1 q
          ≡ file w q
    unfolding signal_read
    signal_read-other signal value text (pid, failed) w = refl
    signal_read-other signal value text (pid, done) w =
        let r = ps.kill pid signal w in
        note_signalled-other value text r.0 r.1 ∙ pl.kill-file pid signal w q

    pub start_process-other :
        (w : fs.World) → file (start_process fs tr fl per_second config paths ps w).1 q ≡ file w q
    unfolding start_process file_exists
    start_process-other w =
        let r = fs.access paths.pid_file w in
        let s = recorded_runs fs tr fl per_second config paths ps r.0 r.1 in
        let kept = recorded_runs-file r.0 r.1 ∙ px.access-file paths.pid_file w q in
        let argv = build_workload_argv config.workload_path config.workload_args max_args in
        elim (Bool-cases s.0) [
          | inl running ↦ rw running kept
          | inr gone ↦ rw gone (start_built-other argv s.1 ∙ kept)
        ]

    pub restore_latest-other :
        (w : fs.World) → file (restore_latest fs tr fl per_second config paths ps w).1 q ≡ file w q
    unfolding restore_latest
    restore_latest-other w =
        let r = active_checkpoint_dir fs paths max_path slot_size w in
        restore_found-other r.0 r.1 ∙ active_checkpoint_dir-file fs px paths q max_path slot_size w

    -- Whatever calls fail in them, `ulcr_start_process`, `ulcr_restore_latest`, `ulcr_fail_process`
    -- and `ulcr_stop_process` leave each file as it is, except the pid file, the process log, the
    -- state file, the status file and the last two's temporary files: so they change no snapshot and
    -- not active.meta.
    pub commands-keep :
        (w : fs.World)
        → (file (start_process fs tr fl per_second config paths ps w).1 q ≡ file w q)
          × (file (restore_latest fs tr fl per_second config paths ps w).1 q ≡ file w q)
          × (file (fail_process fs tr fl per_second config paths ps w).1 q ≡ file w q)
          × (file (stop_process fs tr fl per_second config paths ps w).1 q ≡ file w q)
    unfolding fail_process stop_process
    commands-keep w =
        let r = read_pid_from_file fs paths.pid_file (pos 0) w in
        let kept = read_pid_from_file-file fs px paths.pid_file (pos 0) w q in
        (
          start_process-other w,
          restore_latest-other w,
          signal_read-other sigkill (codes "failed") (codes "failed\n") r.0 r.1 ∙ kept,
          signal_read-other sigterm (codes "stopped") (codes "stopped\n") r.0 r.1 ∙ kept,
        )
