-- ===== src/Control.antt =====
-- The commands of src/manager.c beside the checkpoint: the runtime's directories, start, restore,
-- fail, stop and status.
pub mod Report
pub mod Keeps
pub mod Looks
pub mod Pids
pub mod PidText
pub mod Records
pub mod Once
pub mod Children
mod Examples
use user_level_checkpoint_re.Base.{
  ℕ, Bool, true, false, Option, none, some, List, [], ◌∷◌, ◌++◌, if◌then◌else◌, Bytes, codes,
  Status, done, failed, is_failed,
}
use user_level_checkpoint_re.Base.Int.{ℤ, pos, ltb_ℤ}
use user_level_checkpoint_re.Argv.{build_workload_argv}
use user_level_checkpoint_re.Common.{max_path, copied}
use user_level_checkpoint_re.Config.{Config}
use user_level_checkpoint_re.Cstring.Number.{print_ℤ_onto, print_onto, atoi}
use user_level_checkpoint_re.Doubles.{Doubles}
use user_level_checkpoint_re.Files.{Files, write_append, ◌>>=◌, ◌>>◌, pure, ignore}
use user_level_checkpoint_re.Interval.{dynamic_interval}
use user_level_checkpoint_re.Kernel.{Kernel}
use user_level_checkpoint_re.Manager.{or_zero, write_status_file, write_state_line, process_exists}
use user_level_checkpoint_re.Paths.{RuntimePaths}
use user_level_checkpoint_re.Processes.{Signal, sigkill, sigterm, Child, Processes}
use user_level_checkpoint_re.Procfs.Uptime.{runtime_seconds}
use user_level_checkpoint_re.Restore.{max_args, restore_managed_process, run_program}
use user_level_checkpoint_re.Slots.{slot_size, active_checkpoint_dir, count_available_slots}
use user_level_checkpoint_re.Storage.{
  ensure_directory, file_exists, read_text_file, write_text_file,
}
use user_level_checkpoint_re.Tracer.{Tracer}

-- `*pid` and the result, from its old value and the text of the file.
unfoldable pub pid_of_text : ℤ → Option Bytes → ℤ × Status
pid_of_text old none = (old, failed)
pid_of_text old (some text) = (atoi text, if ltb_ℤ (pos 0) (atoi text) then done else failed)

-- The text of a pid in its file.
abbrev pub pid_text : ℤ → Bytes
pid_text pid = copied 32 (print_ℤ_onto pid (b'\n' ∷ []))

-- The directories of `ulcr_init_runtime`, in its order.
abbrev pub runtime_dirs : RuntimePaths → List Bytes
runtime_dirs paths =
    paths.runtime_dir ∷ paths.state_dir ∷ paths.logs_dir ∷ paths.process_dir ∷ paths.checkpoints_dir
    ∷ paths.checkpoint_slot_a_dir ∷ paths.checkpoint_slot_b_dir ∷ []

module _ (fs : Files) where
  open fs use {World}

  -- `read_pid_from_file`: `*pid`, which also a failure may set, and the result.
  unfoldable pub read_pid_from_file : Bytes → ℤ → World → (ℤ × Status) × World
  unfolding pid_of_text
  read_pid_from_file path old = do text ← read_text_file fs path 64; pure (pid_of_text old text)

  -- `&&` stops at the first that fails.
  unfoldable pub ensure_all : List Bytes → World → Status × World
  ensure_all [] w = (done, w)
  ensure_all (dir ∷ dirs) w =
      let rest : World → Status × World = ensure_all dirs in
      let (status, w') = ensure_directory fs dir w in
      if is_failed status then (failed, w') else rest w'

  -- `ulcr_init_runtime`
  unfoldable pub init_runtime : RuntimePaths → World → Status × World
  unfolding ensure_all
  init_runtime paths = ensure_all (runtime_dirs paths)

  -- What the child of `ulcr_start_process` does, with the log that the parent has opened.
  unfoldable pub start_child :
      Processes fs → Kernel fs → Bytes → ℕ → List Bytes → World → Child × World
  unfolding run_program
  start_child ps k workload_path log_fd argv w =
      let w1 = ps.setsid w in
      let w2 = (k.dup2 log_fd 1 w1).1 in
      let w3 = (k.dup2 log_fd 2 w2).1 in
      let w4 = fs.close_file log_fd w3 in run_program fs ps workload_path argv w4

module _ (fs : Files) (tr : Tracer fs) (fl : Doubles) (per_second : ℤ) (config : Config)
    (paths : RuntimePaths) (ps : Processes fs) where
  open fs use {World}

  abbrev state_line : Bytes → Bytes → World → World
  state_line key value = ignore (write_state_line fs tr fl per_second config paths key value)

  abbrev status_text : Bytes → World → World
  status_text value = ignore (write_status_file fs tr fl per_second config paths value)

  -- The writes of `ulcr_start_process` whose results are not looked at.
  unfoldable pub note_started : ℤ → World → World
  note_started child w =
      let w1 = ignore (write_text_file fs paths.pid_file (pid_text child)) w in
      let w2 = state_line (codes "status") (codes "running") w1 in
      status_text (codes "running\n") w2

  unfoldable pub start_forked : Option ℤ → World → Option ℤ × World
  unfolding note_started
  start_forked none w = (none, w)
  start_forked (some child) w = (some child, note_started child w)

  unfoldable pub start_logged : Option ℕ → World → Option ℤ × World
  unfolding start_forked
  start_logged none = pure none
  start_logged (some log_fd) = do child ← ps.fork; fs.close_file log_fd; start_forked child

  unfoldable pub start_built : Option (List Bytes) → World → Option ℤ × World
  unfolding start_logged
  start_built none = pure none
  start_built (some argv) = do
    log_fd ← fs.open_file write_append paths.process_log
    start_logged log_fd

  -- Whether the process of a pid that was read is there.
  unfoldable pub still_runs : ℤ × Status → World → Bool × World
  still_runs (existing, failed) = pure false
  still_runs (existing, done) = process_exists fs tr fl per_second config paths existing

  unfoldable pub recorded_runs : Bool → World → Bool × World
  unfolding still_runs
  recorded_runs false = pure false
  recorded_runs true = do
    existing ← read_pid_from_file fs paths.pid_file (pos 0)
    still_runs existing

  -- `ulcr_start_process`: `*pid_out`, or `none` for -1.
  unfoldable pub start_process : World → Option ℤ × World
  unfolding recorded_runs start_built
  start_process = do
    there ← file_exists fs paths.pid_file
    running ← recorded_runs there
    if running
        then pure none
        else start_built (build_workload_argv config.workload_path config.workload_args max_args)

  -- The writes of `ulcr_restore_latest` whose results are not looked at.
  unfoldable pub note_restored : ℤ → Bytes → World → World
  note_restored pid slot_name w =
      let w1 = ignore (write_text_file fs paths.pid_file (pid_text pid)) w in
      let w2 = state_line (codes "status") (codes "restored") w1 in
      let w3 = state_line (codes "checkpoint_slot") slot_name w2 in
      status_text (codes "restored\n") w3

  unfoldable pub restore_forked : Bytes → Option ℤ → World → Option ℤ × World
  unfolding note_restored
  restore_forked slot_name none w = (none, w)
  restore_forked slot_name (some pid) w = (some pid, note_restored pid slot_name w)

  unfoldable pub restore_found : Option (Bytes × Bytes) → World → Option ℤ × World
  unfolding restore_forked
  restore_found none = pure none
  restore_found (some (snapshot_dir, slot_name)) = do
    pid ← restore_managed_process fs ps tr.regs snapshot_dir
    restore_forked slot_name pid

  -- `ulcr_restore_latest`: `*restored_pid`, or `none` for -1.
  unfoldable pub restore_latest : World → Option ℤ × World
  unfolding restore_found
  restore_latest = do
    active ← active_checkpoint_dir fs paths max_path slot_size
    restore_found active

  -- The code behind `kill` that `ulcr_fail_process` and `ulcr_stop_process` share.
  unfoldable pub note_signalled : Bytes → Bytes → Status → World → Status × World
  note_signalled value text failed w = (failed, w)
  note_signalled value text done w = (done, status_text text (state_line (codes "status") value w))

  unfoldable pub signal_read : Signal → Bytes → Bytes → ℤ × Status → World → Status × World
  unfolding note_signalled
  signal_read signal value text (pid, failed) = pure failed
  signal_read signal value text (pid, done) = do
    sent ← ps.kill pid signal
    note_signalled value text sent

  -- `ulcr_fail_process`
  unfoldable pub fail_process : World → Status × World
  unfolding signal_read
  fail_process = do
    pid ← read_pid_from_file fs paths.pid_file (pos 0)
    signal_read sigkill (codes "failed") (codes "failed\n") pid

  -- `ulcr_stop_process`
  unfoldable pub stop_process : World → Status × World
  unfolding signal_read
  stop_process = do
    pid ← read_pid_from_file fs paths.pid_file (pos 0)
    signal_read sigterm (codes "stopped") (codes "stopped\n") pid
