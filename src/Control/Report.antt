-- ===== src/Control/Report.antt =====
-- `ulcr_print_status` of src/manager.c; what it prints is its result.
use user_level_checkpoint_re.Base.{
  ℕ, Bool, false, Option, none, some, [], ◌∷◌, ◌++◌, if◌then◌else◌, Bytes, codes, Status, done,
  failed,
}
use user_level_checkpoint_re.Base.Int.{ℤ, pos}
use user_level_checkpoint_re.Common.{max_path}
use user_level_checkpoint_re.Config.{Config}
use user_level_checkpoint_re.Cstring.Number.{print_ℤ_onto, print_onto}
use user_level_checkpoint_re.Doubles.{Doubles}
use user_level_checkpoint_re.Files.{Files, ◌>>=◌, pure}
use user_level_checkpoint_re.Interval.{dynamic_interval}
use user_level_checkpoint_re.Manager.{or_zero, process_exists}
use user_level_checkpoint_re.Paths.{RuntimePaths}
use user_level_checkpoint_re.Procfs.Uptime.{runtime_seconds}
use user_level_checkpoint_re.Slots.{slot_size, active_checkpoint_dir, count_available_slots}
use user_level_checkpoint_re.Tracer.{Tracer}
use user_level_checkpoint_re.Control.{read_pid_from_file}

-- The local variables `pid`, `alive`, `current_interval` and `runtime_seconds`.
pub record Seen (fl : Doubles) : Type 0 where
  pub pid : ℤ
  pub alive : Bool
  pub current_interval : ℤ
  pub runtime : fl.Double

-- `"key: value\n"`
abbrev pub status_line : Bytes → Bytes → Bytes
status_line key value = key ++ (codes ": " ++ (value ++ b'\n' ∷ []))

abbrev pub none_text : Bytes
none_text = codes "<none>"

-- `latest` and `slot_name`
abbrev pub shown : Option (Bytes × Bytes) → Bytes × Bytes
shown none = (none_text, none_text)
shown (some (latest, slot_name)) = (latest, slot_name)

-- The lines of the `printf` calls.
unfoldable pub status_report :
    (fl : Doubles) → Config → RuntimePaths → Seen fl → Bytes × Bytes → ℕ → Bytes
status_report fl config paths seen (latest, slot_name) slots =
    status_line (codes "process_name") config.process_name
    ++ (status_line (codes "pid") (print_ℤ_onto seen.pid [])
        ++ (status_line (codes "alive") (if seen.alive then codes "yes" else codes "no")
            ++ (status_line (codes "checkpoint_slots_available") (print_onto 10 slots [])
                ++ (status_line (codes "active_checkpoint_slot") slot_name
                    ++ (status_line (codes "active_checkpoint_dir") latest
                        ++ (status_line (codes "dynamic_checkpoint_interval_sec")
                              (print_ℤ_onto seen.current_interval [])
                            ++ (status_line (codes "runtime_seconds") (fl.print_2f seen.runtime)
                                ++ (status_line (codes "checkpoint_meta_file")
                                      paths.checkpoint_meta_file
                                    ++ (status_line (codes "process_log") paths.process_log
                                        ++ status_line (codes "state_file")
                                            paths.state_file)))))))))

module _ (fs : Files) (tr : Tracer fs) (fl : Doubles) (per_second : ℤ) (config : Config)
    (paths : RuntimePaths) where
  open fs use {World}

  -- Behind `read_pid_from_file`, which may have set `pid` and failed; both queries of the runtime read
  -- the state behind the test of the process.
  unfoldable pub look_at : ℤ × Status → World → Seen fl × World
  look_at (pid, failed) w =
      (record { pid = pid; alive = false; current_interval = pos 0; runtime = fl.zero_double }, w)
  look_at (pid, done) w =
      let (alive, w') = process_exists fs tr fl per_second config paths pid w in
      let runtime = runtime_seconds fl per_second (tr.proc w') pid in
      (
        record {
          pid = pid;
          alive = alive;
          current_interval = dynamic_interval fl config.checkpoint_interval_sec runtime;
          runtime = or_zero fl runtime;
        },
        w',
      )

  -- `ulcr_print_status`: what it prints; it returns 0.
  unfoldable pub print_status : World → Bytes × World
  unfolding look_at
  print_status = do
    pid ← read_pid_from_file fs paths.pid_file (pos 0)
    seen ← look_at pid
    active ← active_checkpoint_dir fs paths max_path slot_size
    slots ← count_available_slots fs paths
    pure (status_report fl config paths seen (shown active) slots)
