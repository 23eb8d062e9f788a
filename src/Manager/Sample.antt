-- ===== src/Manager/Sample.antt =====
-- A configuration, a process that is traced and whole seconds for the `double`s, for the tests of
-- src/manager.c, and a system that starts the process 42 and whose clock stands at 100.
use user_level_checkpoint_re.Base.{
  ℕ, ◌≡◌, refl, true, false, none, some, [], ◌∷◌, codes, Bytes, done, ◌-◌, ◌/◌, leb, Option, ap,
  ◌≤◌, length, arith, str_eq, false,
}
use user_level_checkpoint_re.Base.Int.{ℤ, pos, ◌≤ℤ◌}
use user_level_checkpoint_re.Binary.Arrays.{word}
use user_level_checkpoint_re.Config.{Config}
use user_level_checkpoint_re.Cstring.Number.RoundTrip.{IsInt}
use user_level_checkpoint_re.Doubles.{Doubles}
use user_level_checkpoint_re.Files.Memory.{memory_files, memory_files-IsPosix}
use user_level_checkpoint_re.Paths.{prepare_runtime_paths}
use user_level_checkpoint_re.Common.{max_path, copied, joined, formatted}
use user_level_checkpoint_re.Slots.{slot_a, slot_b, slot_directory_for_name, checked_copy}
use user_level_checkpoint_re.Processes.{Processes, IsProcesses}
use user_level_checkpoint_re.Procfs.Descriptors.{Proc}
use user_level_checkpoint_re.Tracer.{Tracer, IsTracer, bytes_at}

abbrev pub whole_seconds : Doubles
whole_seconds = record {
  Double = ℕ;
  zero_double = 0;
  of_ull = λ n. n;
  minus = λ a b. a - b;
  over = λ a b. a / b;
  is_negative = λ a. false;
  at_least = λ a k. leb k a;
  scan_double = λ s. some 400;
  print_2f = λ a. codes "400.00";
}

abbrev pub proc : Proc
proc = record {
  contents = λ p. some (codes "00400000-00401000 rw-p 00000000 08:01 42 /bin/a\n");
  entries = λ p. some (codes "3" ∷ []);
  link = λ p. some (codes "/tmp/log");
}

abbrev pub tracer : Tracer memory_files
tracer = record {
  Regs = ℕ;
  regs = word 8;
  rip = λ r. r;
  rsp = λ r. r;
  attach = λ pid w. (done, w);
  wait_stopped = λ pid w. (some true, w);
  detach = λ pid w. w;
  get_regs = λ pid w. (some 99, w);
  proc = λ w. proc;
  read_memory = λ pid address size w. (some [], w);
}

no_bytes :
    (address : ℕ) (b : Bytes)
    → ◌≡◌ {A = Option Bytes} (some []) (some b)
    → b ≡ bytes_at (λ a. 0) address (length b)
no_bytes address b e = let q : b ≡ [] = cc in rw q refl

nothing : (size : ℕ) (b : Bytes) → ◌≡◌ {A = Option Bytes} (some []) (some b) → length b ≤ size
nothing size b e = let q : b ≡ [] = cc in omega (arith, ap length q)

pub tracer-IsTracer : IsTracer memory_files memory_files-IsPosix tracer
tracer-IsTracer = record {
  attach-file = λ pid w q. refl;
  wait-file = λ pid w q. refl;
  detach-file = λ pid w q. refl;
  regs-file = λ pid w q. refl;
  regs-fits = λ pid w r e. ground arith;
  memory-file = λ pid address size w q. refl;
  memory-target = λ pid address size w fd. refl;
  stopped = λ pid w. true;
  memory = λ pid w address. 0;
  wait-stops = λ pid w e. refl;
  memory-bytes = λ pid address size w b h e. no_bytes address b e;
  regs-frozen = λ pid w h. (refl, refl);
  open-frozen = λ pid m p w h. (refl, refl);
  write-frozen = λ pid fd bytes w h. (refl, refl);
  lseek-frozen = λ pid fd w h. (refl, refl);
  memory-frozen = λ pid address size w h. (refl, refl);
  memory-length = λ pid address size w b e. nothing size b e;
}

abbrev pub config : Config
config = record {
  process_name = codes "demo";
  workload_path = codes "./bin/demo";
  workload_args = [];
  runtime_root = codes "r";
  checkpoint_interval_sec = pos 15;
  monitor_interval_sec = pos 3;
  max_checkpoints = pos 5;
  auto_restore = pos 1;
}

abbrev pub processes : Processes memory_files
processes = record {
  fork = λ w. (some (pos 42), w);
  kill = λ pid signal w. (done, w);
  time = λ w. (pos 100, w);
  timer_create = λ w. (some 9, w);
  timer_set = λ fd seconds w. (done, w);
  timer_read = λ fd w. (done, w);
  stream = λ path w. (w.files path, w);
  setsid = λ w. w;
  set_snapshot = λ value w. w;
  execv = λ path argv w. (true, w);
}

forked_pid : (pid : ℤ) → ◌≡◌ {A = Option ℤ} (some (pos 42)) (some pid) → (pos 1 ≤ℤ pid) × IsInt pid
forked_pid pid e = let q : pid ≡ pos 42 = cc in rw q (omega arith, omega arith)

pub processes-IsProcesses : IsProcesses memory_files memory_files-IsPosix processes
processes-IsProcesses = record {
  fork-file = λ w q. refl;
  fork-pid = λ w. forked_pid;
  kill-file = λ pid signal w q. refl;
  time-file = λ w q. refl;
  timer_create-file = λ w q. refl;
  timer_set-file = λ fd seconds w q. refl;
  timer_read-file = λ fd w q. refl;
  stream-file = λ path w q. refl;
}

abbrev pub slot_b_dir : Bytes
slot_b_dir = codes "r/checkpoints/demo/slot_B"

pub dir_b : slot_directory_for_name (prepare_runtime_paths config) slot_b max_path ≡ some slot_b_dir
unfolding str_eq prepare_runtime_paths copied joined formatted slot_directory_for_name checked_copy
dir_b = refl

abbrev pub slot_a_dir : Bytes
slot_a_dir = codes "r/checkpoints/demo/slot_A"

pub dir_a : slot_directory_for_name (prepare_runtime_paths config) slot_a max_path ≡ some slot_a_dir
unfolding str_eq prepare_runtime_paths copied joined formatted slot_directory_for_name checked_copy
dir_a = refl

pub no_other_dir :
    (slot : Bytes)
    → str_eq slot slot_a ≡ false
    → str_eq slot slot_b ≡ false
    → slot_directory_for_name (prepare_runtime_paths config) slot max_path ≡ none
unfolding slot_directory_for_name
no_other_dir slot a b = rw a (rw b refl)
