-- ===== src/Monitor/SlotExamples.antt =====
-- The theorem on a slot's snapshot.bin, on a monitored process whose slots are
-- empty.
use user_level_checkpoint_re.Base.{
  ◌≡◌, ◌⊎◌, refl, true, false, none, some, [], ◌∷◌, Bytes, codes, str_eq, str_eq_iff, if◌then◌else◌,
  Bool-cases, inl, inr,
}
use user_level_checkpoint_re.Base.Int.{pos}
use user_level_checkpoint_re.Capture.{bin_path}
use user_level_checkpoint_re.Capture.Others.{IsOther}
use user_level_checkpoint_re.Common.{max_path, copied, joined, formatted}
use user_level_checkpoint_re.Control.Keeps.{IsApart}
use user_level_checkpoint_re.Files.Memory.{Machine, memory_files, memory_files-IsPosix}
use user_level_checkpoint_re.Manager.Ready.{IsSlotDir}
use user_level_checkpoint_re.Manager.Sample.{
  whole_seconds, tracer, tracer-IsTracer, config, processes, processes-IsProcesses, slot_a_dir,
  slot_b_dir, dir_a, dir_b, no_other_dir,
}
use user_level_checkpoint_re.Paths.{RuntimePaths, prepare_runtime_paths}
use user_level_checkpoint_re.Slots.{slot_a, slot_b, slot_directory_for_name}
use user_level_checkpoint_re.Monitor.{monitor_loop}
use user_level_checkpoint_re.Monitor.Ready.{LoopReady, monitor_loop-Ready}

abbrev paths : RuntimePaths
paths = prepare_runtime_paths config

abbrev bin : Bytes
bin = bin_path memory_files tracer slot_a_dir

slot_b_dir-IsOther : IsOther memory_files memory_files-IsPosix tracer tracer-IsTracer slot_b_dir bin
unfolding str_eq joined formatted
slot_b_dir-IsOther = record { bin = refl; bin_tmp = refl; manifest = refl; manifest_tmp = refl }

either_slot :
    (slot other : Bytes)
    → slot_directory_for_name paths slot max_path ≡ some other
    → (other ≡ slot_a_dir)
      ⊎ IsOther memory_files memory_files-IsPosix tracer tracer-IsTracer other bin
either_slot slot other e = elim (Bool-cases (str_eq slot slot_a)) [
  | inl a ↦
      let s : slot ≡ slot_a = (str_eq_iff slot slot_a).0 a in
      let d : other ≡ slot_a_dir = cc (e, dir_a, s) in inl d
  | inr not_a ↦ elim (Bool-cases (str_eq slot slot_b)) [
    | inl b ↦
        let s : slot ≡ slot_b = (str_eq_iff slot slot_b).0 b in
        let d : other ≡ slot_b_dir = cc (e, dir_b, s) in inr (rw d slot_b_dir-IsOther)
    | inr not_b ↦ absurd (cc (no_other_dir slot not_a not_b, e))
  ]
]

slot_a_dir-IsSlotDir :
    IsSlotDir memory_files memory_files-IsPosix tracer tracer-IsTracer paths slot_a_dir
unfolding str_eq prepare_runtime_paths copied joined formatted
slot_a_dir-IsSlotDir = record {
  distinct = record { bin_tmp = refl; manifest = refl; manifest_tmp = refl };
  untouched = record {
    aside = record {
      state = refl;
      state_tmp = refl;
      status = refl;
      status_tmp = refl;
      lock = refl;
    };
    meta = refl;
    meta_tmp = refl;
  };
  slots = either_slot;
}

bin-IsApart : IsApart paths bin
unfolding str_eq prepare_runtime_paths copied joined formatted
bin-IsApart = record {
  aside = record { state = refl; state_tmp = refl; status = refl; status_tmp = refl; lock = refl };
  pid = refl;
  log = refl;
}

-- The process runs, its checkpoint is due, and some calls to come fail.
abbrev machine : Machine
machine = record {
  files = λ q.
      if str_eq q (codes "r/processes/demo/pid")
      then some (codes "42\n")
      else if str_eq q (codes "/proc/42")
      then some []
      else none;
  dirs = λ q. false;
  handles = λ n. none;
  next = 3;
  locked = false;
  faults = false ∷ false ∷ false ∷ false ∷ true ∷ [];
}

monitor_loop-Ready_example :
    LoopReady memory_files memory_files-IsPosix tracer tracer-IsTracer whole_seconds
      (pos 100)
      config
      paths
      processes
      processes-IsProcesses
      slot_a_dir
      slot_a_dir-IsSlotDir
      bin-IsApart
      (monitor_loop memory_files tracer whole_seconds (pos 100) config paths processes 2 machine)
unfolding memory_files-IsPosix str_eq joined formatted
monitor_loop-Ready_example =
    monitor_loop-Ready memory_files memory_files-IsPosix tracer tracer-IsTracer whole_seconds
      (pos 100) config paths processes processes-IsProcesses slot_a_dir slot_a_dir-IsSlotDir
      bin-IsApart 2 machine (inl refl)
