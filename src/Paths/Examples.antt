-- ===== src/Paths/Examples.antt =====
-- The theorems on the paths, at configs/demo.conf and at a root that is too long.
use user_level_checkpoint_re.Base.{ℕ, zero, suc, ◌≡◌, [], ◌++◌, codes, Bytes, arith}
use user_level_checkpoint_re.Base.Int.{pos}
use user_level_checkpoint_re.Config.{Config}
use user_level_checkpoint_re.Paths.{prepare_runtime_paths}
use user_level_checkpoint_re.Paths.Slots.{Separate, prepare_runtime_paths-Separate, slots_collide}

abbrev with_root : Bytes → Config
with_root root = record {
  process_name = codes "demo";
  workload_path = codes "./bin/counter_demo";
  workload_args = [];
  runtime_root = root;
  checkpoint_interval_sec = pos 15;
  monitor_interval_sec = pos 3;
  max_checkpoints = pos 2;
  auto_restore = pos 1;
}

prepare_runtime_paths-Separate_example :
    Separate (prepare_runtime_paths (with_root (codes "./runtime")))
prepare_runtime_paths-Separate_example =
    prepare_runtime_paths-Separate (with_root (codes "./runtime")) (omega arith)

-- A root of 500 bytes.
abbrev repeated : ℕ → Bytes → Bytes
repeated zero s = []
repeated (suc n) s = s ++ repeated n s

abbrev long_root : Bytes
long_root = repeated 50 (codes "/directory")

slots_collide_example :
    (prepare_runtime_paths (with_root long_root)).checkpoint_slot_a_dir
    ≡ (prepare_runtime_paths (with_root long_root)).checkpoint_slot_b_dir
slots_collide_example = slots_collide (with_root long_root) (omega arith)
