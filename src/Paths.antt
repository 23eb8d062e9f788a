-- ===== src/Paths.antt =====
-- `ulcr_prepare_runtime_paths` of src/config.c. Every text is cut to the array that it goes into,
-- and the statuses of the calls are not looked at.
pub mod Exact
pub mod Slots
mod Examples
use user_level_checkpoint_re.Base.{ℕ, ◌∷◌, ◌++◌, Bytes, codes}
use user_level_checkpoint_re.Common.{max_path, copied, joined}
use user_level_checkpoint_re.Config.{Config}

-- `ulcr_runtime_paths_t`
pub record RuntimePaths : Type 0 where
  pub runtime_dir : Bytes
  pub state_dir : Bytes
  pub logs_dir : Bytes
  pub process_dir : Bytes
  pub checkpoints_dir : Bytes
  pub checkpoint_slot_a_dir : Bytes
  pub checkpoint_slot_b_dir : Bytes
  pub checkpoint_meta_file : Bytes
  pub checkpoint_lock_file : Bytes
  pub state_file : Bytes
  pub pid_file : Bytes
  pub status_file : Bytes
  pub process_log : Bytes
  pub monitor_log : Bytes

unfoldable pub prepare_runtime_paths : Config → RuntimePaths
prepare_runtime_paths config =
    let root = config.runtime_root in
    let name = config.process_name in
    let state_dir = joined max_path root (codes "state") in
    let logs_dir = joined max_path root (codes "logs") in
    let checkpoints_root = joined max_path root (codes "checkpoints") in
    let processes_root = joined max_path root (codes "processes") in
    let process_dir = joined max_path processes_root name in
    let checkpoints_dir = joined max_path checkpoints_root name in
    record {
      runtime_dir = copied max_path root;
      state_dir = state_dir;
      logs_dir = logs_dir;
      process_dir = process_dir;
      checkpoints_dir = checkpoints_dir;
      checkpoint_slot_a_dir = joined max_path checkpoints_dir (codes "slot_A");
      checkpoint_slot_b_dir = joined max_path checkpoints_dir (codes "slot_B");
      checkpoint_meta_file = joined max_path checkpoints_dir (codes "active.meta");
      checkpoint_lock_file = joined max_path checkpoints_dir (codes "checkpoint.lock");
      state_file = joined max_path state_dir (name ++ codes ".state");
      pid_file = joined max_path process_dir (codes "pid");
      status_file = joined max_path process_dir (codes "status.txt");
      process_log = joined max_path process_dir (codes "process.log");
      monitor_log = joined max_path logs_dir (name ++ codes "-monitor.log");
    }
