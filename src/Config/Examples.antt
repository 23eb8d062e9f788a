-- ===== src/Config/Examples.antt =====
-- The theorems on the configuration at configs/demo.conf.
use user_level_checkpoint_re.Base.{
  ◌≡◌, ◌≢◌, refl, some, none, List, [], ◌∷◌, ◌++◌, inl, inr, codes, Bytes, done, failed, arith,
  str_eq,
}
use user_level_checkpoint_re.Base.Int.{pos}
use user_level_checkpoint_re.Cstring.{fgets_lines, c_str, split_at, cut_line}
use user_level_checkpoint_re.Cstring.Number.{is_space, atoi, skip_space}
use user_level_checkpoint_re.Common.{copied}
use user_level_checkpoint_re.Config.{
  Config, Key, trim, key_of, assign, is_skipped, read_line, load_config,
}
use user_level_checkpoint_re.Config.RoundTrip.{render, IsWritable}
use user_level_checkpoint_re.Config.Valid.{InBounds, IsUsable, load_config_lem}
use user_level_checkpoint_re.Config.Written.{Has, load_config-render}

-- The text of configs/demo.conf.
abbrev demo_conf : Bytes
demo_conf =
    codes "# Linux user-level checkpoint/restore demo configuration\nprocess_name=counter-demo\n"
    ++ codes "workload_path=./bin/counter_demo\nworkload_args=\nruntime_root=./runtime\n"
    ++ codes
        "checkpoint_interval_sec=15\nmonitor_interval_sec=3\nmax_checkpoints=2\nauto_restore=1\n"

abbrev demo : Config
demo = record {
  process_name = codes "counter-demo";
  workload_path = codes "./bin/counter_demo";
  workload_args = [];
  runtime_root = codes "./runtime";
  checkpoint_interval_sec = pos 15;
  monitor_interval_sec = pos 3;
  max_checkpoints = pos 2;
  auto_restore = pos 1;
}

demo_loads : load_config (some demo_conf) ≡ (demo, done)
unfolding load_config read_line trim key_of assign is_skipped fgets_lines c_str split_at cut_line
    skip_space is_space atoi copied str_eq
demo_loads = refl

-- A missing file, a file with no process name, and an interval of 0.
refused :
    ((load_config none).1 ≡ failed)
    × ((load_config (some (codes "workload_path=a\n"))).1 ≡ failed)
    × ((load_config (some (codes "process_name=a\nworkload_path=b\nmax_checkpoints=0\n"))).1
        ≡ failed)
unfolding load_config read_line trim key_of assign is_skipped fgets_lines c_str split_at cut_line
    skip_space is_space atoi copied str_eq
refused = (refl, refl, refl)

load_config_lem_example :
    InBounds (load_config (some demo_conf)).0
    × ((load_config (some demo_conf)).1 ≡ done
        → IsUsable (load_config (some demo_conf)).0 × (some demo_conf ≢ none))
    × (some demo_conf ≢ none
        → IsUsable (load_config (some demo_conf)).0
        → (load_config (some demo_conf)).1 ≡ done)
load_config_lem_example = load_config_lem (some demo_conf)

abbrev some_keys : List Key
some_keys =
    Key.auto_restore ∷ Key.process_name ∷ Key.workload_path ∷ Key.workload_args ∷ Key.runtime_root
    ∷ Key.checkpoint_interval_sec ∷ Key.monitor_interval_sec ∷ Key.max_checkpoints ∷ []

every_key : (k : Key) → Has k some_keys
every_key Key.auto_restore = inl refl
every_key Key.process_name = inr (inl refl)
every_key Key.workload_path = inr (inr (inl refl))
every_key Key.workload_args = inr (inr (inr (inl refl)))
every_key Key.runtime_root = inr (inr (inr (inr (inl refl))))
every_key Key.checkpoint_interval_sec = inr (inr (inr (inr (inr (inl refl)))))
every_key Key.monitor_interval_sec = inr (inr (inr (inr (inr (inr (inl refl))))))
every_key Key.max_checkpoints = inr (inr (inr (inr (inr (inr (inr (inl refl)))))))

demo-IsWritable : IsWritable demo
unfolding is_space
demo-IsWritable = record {
  bounds = omega arith;
  process_name = record {
    plain = refl;
    trimmed = record { front = refl; back = refl };
    short = omega arith;
  };
  workload_path = record {
    plain = refl;
    trimmed = record { front = refl; back = refl };
    short = omega arith;
  };
  workload_args = record {
    plain = refl;
    trimmed = record { front = refl; back = refl };
    short = omega arith;
  };
  runtime_root = record {
    plain = refl;
    trimmed = record { front = refl; back = refl };
    short = omega arith;
  };
  checkpoint_interval_sec = omega arith;
  monitor_interval_sec = omega arith;
  max_checkpoints = omega arith;
  auto_restore = omega arith;
}

demo-IsUsable : IsUsable demo
demo-IsUsable = record {
  named = λ e. cc;
  runs = λ e. cc;
  checkpoints = omega arith;
  monitors = omega arith;
  keeps = omega arith;
}

load_config-render_example : load_config (some (render demo some_keys)) ≡ (demo, done)
load_config-render_example =
    load_config-render demo some_keys demo-IsWritable demo-IsUsable every_key
