-- ===== src/Control/Examples.antt =====
-- The theorems on the commands, on a machine in memory.
use user_level_checkpoint_re.Base.{
  ◌≡◌, refl, false, none, some, [], Bytes, codes, str_eq, if◌then◌else◌, done, Option, arith,
}
use user_level_checkpoint_re.Base.Int.{ℤ, pos}
use user_level_checkpoint_re.Argv.{build_workload_argv}
use user_level_checkpoint_re.Common.{copied, joined, formatted}
use user_level_checkpoint_re.Cstring.{c_str}
use user_level_checkpoint_re.Cstring.Number.{print_ℤ_onto, print_onto, atoi}
use user_level_checkpoint_re.Files.Calm.{HasNoFaults, memory_files-IsCalm}
use user_level_checkpoint_re.Files.Memory.{Machine, memory_files, memory_files-IsPosix}
use user_level_checkpoint_re.Manager.{process_exists, write_state_line, write_status_file}
use user_level_checkpoint_re.Manager.Aside.{IsAside}
use user_level_checkpoint_re.Manager.Sample.{
  whole_seconds, tracer, config, processes, processes-IsProcesses,
}
use user_level_checkpoint_re.Paths.{RuntimePaths, prepare_runtime_paths}
use user_level_checkpoint_re.Storage.{file_exists, read_text_file}
use user_level_checkpoint_re.Storage.Quiet.{write_text_file-quiet, atomic_write_text_file-quiet}
use user_level_checkpoint_re.Control.{
  pid_text, note_started, read_pid_from_file, start_process, restore_latest, fail_process,
  stop_process,
}
use user_level_checkpoint_re.Control.Keeps.{IsApart, commands-keep}
use user_level_checkpoint_re.Control.Once.{proc_dir, start_process-refuses}
use user_level_checkpoint_re.Control.Pids.{IsPid}
use user_level_checkpoint_re.Control.Records.{Recorded, start_process-read}

abbrev paths : RuntimePaths
paths = prepare_runtime_paths config

-- A machine whose pid file names the process 42, which runs if it is in /proc.
abbrev machine : Option Bytes → Machine
machine running = record {
  files = λ q.
      if str_eq q (codes "r/processes/demo/pid")
      then some (codes "42\n")
      else if str_eq q (codes "r/checkpoints/demo/slot_A/snapshot.bin")
      then some (codes "saved")
      else if str_eq q (codes "/proc/42")
      then running
      else none;
  dirs = λ q. false;
  handles = λ n. none;
  next = 3;
  locked = false;
  faults = [];
}

abbrev snapshot_a : Bytes
snapshot_a = codes "r/checkpoints/demo/slot_A/snapshot.bin"

snapshot_apart : IsApart paths snapshot_a
unfolding str_eq prepare_runtime_paths copied joined formatted
snapshot_apart = record {
  aside = record { state = refl; state_tmp = refl; status = refl; status_tmp = refl; lock = refl };
  pid = refl;
  log = refl;
}

commands-keep_example :
    ((start_process memory_files tracer whole_seconds
          (pos 100)
          config
          paths
          processes
          (machine (some []))).1.files
        snapshot_a
      ≡ some (codes "saved"))
    × ((restore_latest memory_files tracer whole_seconds
            (pos 100)
            config
            paths
            processes
            (machine (some []))).1.files
          snapshot_a
        ≡ some (codes "saved"))
    × ((fail_process memory_files tracer whole_seconds
            (pos 100)
            config
            paths
            processes
            (machine (some []))).1.files
          snapshot_a
        ≡ some (codes "saved"))
    × ((stop_process memory_files tracer whole_seconds
            (pos 100)
            config
            paths
            processes
            (machine (some []))).1.files
          snapshot_a
        ≡ some (codes "saved"))
unfolding memory_files-IsPosix str_eq
commands-keep_example =
    commands-keep memory_files memory_files-IsPosix tracer whole_seconds (pos 100) config paths
      processes processes-IsProcesses snapshot_a snapshot_apart (machine (some []))

child-IsPid : IsPid (pos 42)
child-IsPid = (omega arith, omega arith)

pid_held : (machine (some [])).files paths.pid_file ≡ some (pid_text (pos 42))
unfolding str_eq prepare_runtime_paths copied joined formatted print_ℤ_onto print_onto
pid_held = refl

pid_runs : (machine (some [])).files (proc_dir (pos 42)) ≡ some []
unfolding str_eq copied formatted print_ℤ_onto print_onto
pid_runs = refl

start_process-refuses_example :
    ((start_process memory_files tracer whole_seconds
        (pos 100)
        config
        paths
        processes
        (machine (some []))).0
      ≡ none)
    × ((q : Bytes)
        → (start_process memory_files tracer whole_seconds
              (pos 100)
              config
              paths
              processes
              (machine (some []))).1.files
            q
          ≡ (machine (some [])).files q)
unfolding memory_files-IsPosix
start_process-refuses_example =
    start_process-refuses memory_files memory_files-IsPosix HasNoFaults memory_files-IsCalm tracer
      whole_seconds (pos 100) config paths processes processes-IsProcesses (pos 42)
      (machine (some [])) [] child-IsPid refl pid_held pid_runs

pid_aside : IsAside paths paths.pid_file
unfolding str_eq prepare_runtime_paths copied joined formatted
pid_aside = record { state = refl; state_tmp = refl; status = refl; status_tmp = refl; lock = refl }

log_apart : str_eq paths.pid_file paths.process_log ≡ false
unfolding str_eq prepare_runtime_paths copied joined formatted
log_apart = refl

started :
    (start_process memory_files tracer whole_seconds
      (pos 100)
      config
      paths
      processes
      (machine none)).0
    ≡ some (pos 42)
unfolding str_eq prepare_runtime_paths copied joined formatted start_process file_exists
    read_pid_from_file read_text_file process_exists c_str print_ℤ_onto print_onto atoi
    build_workload_argv
started = refl

note_started-quiet :
    (pid : ℤ) (w : Machine)
    → HasNoFaults w
    → HasNoFaults
        (note_started memory_files tracer whole_seconds (pos 100) config paths processes pid w)
unfolding note_started write_state_line write_status_file
note_started-quiet pid w h =
    atomic_write_text_file-quiet _ _ _
      (atomic_write_text_file-quiet _ _ _ (write_text_file-quiet paths.pid_file (pid_text pid) w h))

started_calm :
    HasNoFaults
      (start_process memory_files tracer whole_seconds
        (pos 100)
        config
        paths
        processes
        (machine none)).1
unfolding str_eq prepare_runtime_paths copied joined formatted start_process file_exists
    read_pid_from_file read_text_file process_exists c_str print_ℤ_onto print_onto atoi
    build_workload_argv
started_calm = note_started-quiet (pos 42) _ refl

start_process-read_example :
    IsPid (pos 42)
    × Recorded
        (some (codes "42\n"))
        ((start_process memory_files tracer whole_seconds
            (pos 100)
            config
            paths
            processes
            (machine none)).1.files
          paths.pid_file)
        (pos 42)
    × ((start_process memory_files tracer whole_seconds
              (pos 100)
              config
              paths
              processes
              (machine none)).1.files
            paths.pid_file
          ≡ some (pid_text (pos 42))
        → (read_pid_from_file memory_files paths.pid_file
            (pos 0)
            (start_process memory_files tracer whole_seconds
              (pos 100)
              config
              paths
              processes
              (machine none)).1).0
          ≡ (pos 42, done))
unfolding memory_files-IsPosix str_eq prepare_runtime_paths copied joined formatted
start_process-read_example =
    start_process-read memory_files memory_files-IsPosix tracer whole_seconds (pos 100) config paths
      processes processes-IsProcesses pid_aside HasNoFaults memory_files-IsCalm (machine none)
      (pos 42) (pos 0) log_apart started started_calm
