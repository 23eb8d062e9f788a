-- ===== src/Command/Examples.antt =====
-- The theorems on the command line, on a machine whose files all are a configuration.
use user_level_checkpoint_re.Base.{
  ◌≡◌, refl, true, false, none, some, [], ◌∷◌, List, Bytes, codes, str_eq,
}
use user_level_checkpoint_re.Base.Int.{pos}
use user_level_checkpoint_re.Files.Memory.{Machine, memory_files, memory_files-IsPosix}
use user_level_checkpoint_re.Manager.Sample.{
  whole_seconds, tracer, processes, processes-IsProcesses,
}
use user_level_checkpoint_re.Command.{main}
use user_level_checkpoint_re.Command.Exits.{EndsWell, main-EndsWell}
use user_level_checkpoint_re.Command.Looks.{EndsIn, IsLooking, main-Keeps}

abbrev config_text : Bytes
config_text = codes "process_name=demo\nworkload_path=./bin/demo\nruntime_root=r\n"

abbrev machine : Machine
machine = record {
  files = λ q. some config_text;
  dirs = λ q. true;
  handles = λ n. none;
  next = 3;
  locked = false;
  faults = [];
}

abbrev argv : Bytes → List Bytes
argv command = codes "ulcr" ∷ command ∷ codes "demo.conf" ∷ []

main-EndsWell_example :
    EndsWell
      (codes "start")
      (main memory_files tracer whole_seconds (pos 100) processes 3 (argv (codes "start")) machine)
main-EndsWell_example =
    main-EndsWell memory_files tracer whole_seconds (pos 100) processes 3 (argv (codes "start"))
      machine

status-IsLooking : IsLooking (codes "status")
unfolding str_eq
status-IsLooking = record {
  not_start = refl;
  not_checkpoint = refl;
  not_monitor = refl;
  not_restore = refl;
  not_fail = refl;
  not_stop = refl;
}

main-Keeps_example :
    EndsIn
      (λ w. w.files (codes "demo.conf") ≡ some config_text)
      (main memory_files tracer whole_seconds (pos 100) processes 3 (argv (codes "status")) machine)
unfolding memory_files-IsPosix
main-Keeps_example =
    main-Keeps memory_files memory_files-IsPosix tracer whole_seconds (pos 100) processes
      processes-IsProcesses 3 (codes "demo.conf") (codes "ulcr") (codes "status")
      (codes "demo.conf") machine status-IsLooking
