-- ===== src/Monitor/Examples.antt =====
-- The theorems on the monitor, on a machine in memory whose clock stands at 100.
use user_level_checkpoint_re.Base.{
  true, ◌≡◌, refl, false, none, some, [], ◌∷◌, codes, str_eq, if◌then◌else◌, arith,
}
use user_level_checkpoint_re.Base.Int.{pos}
use user_level_checkpoint_re.Common.{copied, joined, formatted}
use user_level_checkpoint_re.Config.{Config}
use user_level_checkpoint_re.Config.Valid.{IsUsable}
use user_level_checkpoint_re.Cstring.{c_str, split_at_last}
use user_level_checkpoint_re.Cstring.Number.{print_ℤ_onto, print_onto, atoi}
use user_level_checkpoint_re.Control.{read_pid_from_file}
use user_level_checkpoint_re.Files.Memory.{Machine, memory_files, memory_files-IsPosix}
use user_level_checkpoint_re.Interval.{dynamic_interval}
use user_level_checkpoint_re.Procfs.Stat.{start_ticks}
use user_level_checkpoint_re.Procfs.Uptime.{runtime_seconds}
use user_level_checkpoint_re.Manager.{process_exists}
use user_level_checkpoint_re.Manager.Sample.{
  whole_seconds, tracer, config, processes, processes-IsProcesses,
}
use user_level_checkpoint_re.Paths.{RuntimePaths, prepare_runtime_paths}
use user_level_checkpoint_re.Storage.{file_exists, read_text_file}
use user_level_checkpoint_re.Monitor.{Watch, Loop, watching, returned, turn, monitor_loop}
use user_level_checkpoint_re.Monitor.Due.{
  looked, Watching, stays, passes, Rising, Tries, Watching-Tries,
}
use user_level_checkpoint_re.Monitor.Loops.{Supervised, monitor_loop-Supervised}
use user_level_checkpoint_re.Monitor.Sound.{IsSound, monitor_loop-IsSound}

abbrev paths : RuntimePaths
paths = prepare_runtime_paths config

-- The configuration with an interval that is longer than the clock's time.
abbrev patient : Config
patient = record config { checkpoint_interval_sec = pos 1000 }

-- The one with an interval of one second.
abbrev hasty : Config
hasty = record config { checkpoint_interval_sec = pos 1 }

abbrev machine : Machine
machine = record {
  files = λ q.
      if str_eq q (codes "r/processes/demo/pid")
      then some (codes "42\n")
      else if str_eq q (codes "/proc/42")
      then some []
      else none;
  dirs = λ q. false;
  handles = λ n. none;
  next = 3;
  locked = false;
  faults = [];
}

abbrev watch : Watch memory_files
watch = record {
  pid = pos 42;
  last_checkpoint = pos 99;
  current_interval = pos 15;
  world = machine;
}

abbrev watch_of : Loop memory_files → Watch memory_files
watch_of (watching s) = s
watch_of (returned status w) = watch

runs_42 :
    (looked memory_files tracer whole_seconds (pos 100) hasty paths processes 9 watch).0 ≡ true
unfolding str_eq copied formatted process_exists file_exists print_ℤ_onto print_onto
runs_42 = refl

abbrev tried : Watch memory_files
tried = watch_of (turn memory_files tracer whole_seconds (pos 100) hasty paths processes 9 watch)

one_try :
    turn memory_files tracer whole_seconds (pos 100) hasty paths processes 9 watch ≡ watching tried
unfolding turn
one_try = refl

one_pass :
    Watching memory_files tracer whole_seconds
      (pos 100)
      hasty
      paths
      processes
      9
      watch
      (100 ∷ [])
      tried
one_pass = passes runs_42 refl one_try stays

rising : Rising 99 (100 ∷ [])
rising = (omega arith, tt)

Watching-Tries_example :
    Tries memory_files tracer whole_seconds (pos 100) hasty paths processes 9 one_pass
Watching-Tries_example =
    Watching-Tries memory_files tracer whole_seconds (pos 100) hasty paths processes 9 1 99
      (100 ∷ []) watch tried (omega arith) refl refl rising (omega arith) one_pass

-- The loop after one pass from its start.
abbrev entered : Watch memory_files
entered =
    watch_of
      (monitor_loop memory_files tracer whole_seconds (pos 100) patient paths processes 1 machine)

monitor_enters :
    monitor_loop memory_files tracer whole_seconds (pos 100) patient paths processes 1 machine
    ≡ watching entered
unfolding str_eq prepare_runtime_paths copied joined formatted monitor_loop read_pid_from_file
    read_text_file atoi process_exists file_exists print_ℤ_onto print_onto dynamic_interval
    runtime_seconds start_ticks split_at_last c_str
monitor_enters = refl

monitor_loop-Supervised_example :
    Supervised memory_files memory_files-IsPosix tracer whole_seconds
      (pos 100)
      patient
      paths
      processes
      processes-IsProcesses
      (omega arith)
      1
      machine
      entered
monitor_loop-Supervised_example =
    monitor_loop-Supervised memory_files memory_files-IsPosix tracer whole_seconds (pos 100) patient
      paths processes processes-IsProcesses (omega arith) 1 machine entered monitor_enters

patient-IsUsable : IsUsable patient
patient-IsUsable = record {
  named = λ e. absurd cc;
  runs = λ e. absurd cc;
  checkpoints = omega arith;
  monitors = omega arith;
  keeps = omega arith;
}

monitor_loop-IsSound_example : IsSound patient entered
monitor_loop-IsSound_example =
    monitor_loop-IsSound memory_files memory_files-IsPosix tracer whole_seconds (pos 100) patient
      paths processes processes-IsProcesses patient-IsUsable 1 machine entered monitor_enters
