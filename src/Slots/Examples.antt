-- ===== src/Slots/Examples.antt =====
-- The theorems on the slots, on a machine whose active slot is A.
use user_level_checkpoint_re.Base.{
  ◌≡◌, ◌≢◌, inr, refl, true, false, none, some, [], codes, str_eq, if◌then◌else◌,
}
use user_level_checkpoint_re.Base.Int.{pos}
use user_level_checkpoint_re.Cstring.{split_at_last}
use user_level_checkpoint_re.Cstring.Number.{print_ℤ_onto, print_onto}
use user_level_checkpoint_re.Common.{max_path, copied, formatted}
use user_level_checkpoint_re.Files.Memory.{Machine, memory_files, memory_files-IsPosix}
use user_level_checkpoint_re.Files.Calm.{HasNoFaults, memory_files-IsCalm}
use user_level_checkpoint_re.Paths.{RuntimePaths}
use user_level_checkpoint_re.Storage.{atomic_write_text_file, fsync_path_directory}
use user_level_checkpoint_re.Slots.{
  slot_directory_for_name, active_checkpoint_dir, checked_copy, slot_a, slot_b, slot_size,
  metadata_text, read_active_slot, choose_next_slot, write_active_metadata,
}
use user_level_checkpoint_re.Slots.Rotation.{choose_next_slot-write, active_checkpoint_dir-write}

abbrev paths : RuntimePaths
paths = record {
  runtime_dir = codes "r";
  state_dir = codes "r/state";
  logs_dir = codes "r/logs";
  process_dir = codes "r/process";
  checkpoints_dir = codes "r/checkpoints";
  checkpoint_slot_a_dir = codes "r/checkpoints/slot_a";
  checkpoint_slot_b_dir = codes "r/checkpoints/slot_b";
  checkpoint_meta_file = codes "r/active.meta";
  checkpoint_lock_file = codes "r/checkpoint.lock";
  state_file = codes "r/state/manager.state";
  pid_file = codes "r/state/workload.pid";
  status_file = codes "r/state/status";
  process_log = codes "r/logs/process.log";
  monitor_log = codes "r/logs/monitor.log";
}

abbrev machine : Machine
machine = record {
  files = λ q. if str_eq q paths.checkpoint_meta_file then some (codes "active_slot=A\n") else none;
  dirs = λ q. true;
  handles = λ n. none;
  next = 3;
  locked = false;
  faults = [];
}

choose_next_slot-write_example :
    ((read_active_slot memory_files paths slot_size
        (write_active_metadata memory_files paths slot_b (pos 15) (codes "9.00") machine).1).0
      ≡ some slot_b)
    × ((choose_next_slot memory_files paths slot_size
          (write_active_metadata memory_files paths slot_b (pos 15) (codes "9.00") machine).1).0
        ≡ some slot_a)
    × (slot_a ≢ slot_b)
unfolding str_eq memory_files-IsPosix write_active_metadata atomic_write_text_file
    fsync_path_directory formatted copied split_at_last metadata_text print_ℤ_onto print_onto
choose_next_slot-write_example =
    choose_next_slot-write memory_files memory_files-IsPosix HasNoFaults memory_files-IsCalm paths
      slot_b (pos 15) (codes "9.00") machine (inr refl) refl refl

active_checkpoint_dir-write_example :
    (active_checkpoint_dir memory_files paths max_path slot_size
      (write_active_metadata memory_files paths slot_b (pos 15) (codes "9.00") machine).1).0
    ≡ some (paths.checkpoint_slot_b_dir, slot_b)
unfolding str_eq memory_files-IsPosix write_active_metadata atomic_write_text_file
    fsync_path_directory formatted copied split_at_last metadata_text print_ℤ_onto print_onto
    slot_directory_for_name checked_copy
active_checkpoint_dir-write_example =
    active_checkpoint_dir-write memory_files memory_files-IsPosix HasNoFaults memory_files-IsCalm
      paths slot_b paths.checkpoint_slot_b_dir (pos 15) (codes "9.00") machine (inr refl) refl refl
      refl
