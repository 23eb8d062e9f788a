-- ===== src/Capture/Examples.antt =====
-- The theorems on a capture, on a machine in memory with a traced process.
use user_level_checkpoint_re.Base.{
  ℕ, ◌+◌, ◌≡◌, refl, true, false, none, some, [], ◌∷◌, codes, Bytes, str_eq, if◌then◌else◌,
}
use user_level_checkpoint_re.Base.Int.{pos}
use user_level_checkpoint_re.Common.{joined, formatted}
use user_level_checkpoint_re.Files.Memory.{Machine, memory_files, memory_files-IsPosix}
use user_level_checkpoint_re.Procfs.{Region}
use user_level_checkpoint_re.Procfs.Descriptors.{Proc}
use user_level_checkpoint_re.Tracer.{Tracer, IsTracer}
use user_level_checkpoint_re.Capture.Sample.{tracer_of, tracer_of-IsTracer}
use user_level_checkpoint_re.Capture.Snapshots.{
  IsDistinct, waited_for, OldOrSnapshot, capture_snapshot-OldOrSnapshot,
}
use user_level_checkpoint_re.Capture.{
  bin_path, capture_snapshot, span, dump_from, dump_region_bytes,
}
use user_level_checkpoint_re.Capture.Dump.{dump_region_bytes_lem}
use user_level_checkpoint_re.Capture.Others.{capture_snapshot-others}

abbrev proc : Proc
proc = record {
  contents = λ p. some (codes "00400000-00401000 rw-p 00000000 08:01 42 /bin/a\n");
  entries = λ p. some (codes "3" ∷ []);
  link = λ p. some (codes "/tmp/log");
}

abbrev tracer : Tracer memory_files
tracer = tracer_of proc

tracer-IsTracer : IsTracer memory_files memory_files-IsPosix tracer
tracer-IsTracer = tracer_of-IsTracer proc

abbrev meta : Bytes
meta = codes "r/active.meta"

abbrev machine : Machine
machine = record {
  files = λ q. if str_eq q meta then some (codes "active_slot=A\n") else none;
  dirs = λ q. true;
  handles = λ n. none;
  next = 3;
  locked = false;
  faults = [];
}

abbrev page : Region
page = record {
  start = 8192;
  end = 12288;
  offset = 0;
  prot = 3;
  flags = 2;
  is_anonymous = true;
  include = true;
  name = [];
}

capture_snapshot-others_example :
    (capture_snapshot memory_files tracer (pos 7) (codes "demo") (codes "r/slot_B") machine).1.files
      meta
    ≡ machine.files meta
unfolding memory_files-IsPosix str_eq joined formatted
capture_snapshot-others_example =
    capture_snapshot-others memory_files memory_files-IsPosix tracer tracer-IsTracer (pos 7)
      (codes "demo") (codes "r/slot_B") meta machine
      (record { bin = refl; bin_tmp = refl; manifest = refl; manifest_tmp = refl })

dump_region_bytes_lem_example :
    ((more : ℕ)
      → dump_from memory_files tracer (more + span page) (pos 7) 3 page.start (span page) 0 machine
        ≡ dump_region_bytes memory_files tracer (pos 7) page 3 machine)
    × ((n : ℕ)
        → (dump_region_bytes memory_files tracer (pos 7) page 3 machine).0 ≡ some n
        → n ≡ span page)
dump_region_bytes_lem_example =
    dump_region_bytes_lem memory_files memory_files-IsPosix tracer tracer-IsTracer 3 (pos 7) page
      machine

slot_b-IsDistinct :
    IsDistinct memory_files memory_files-IsPosix tracer tracer-IsTracer (codes "r/slot_B")
unfolding str_eq joined formatted
slot_b-IsDistinct = record { bin_tmp = refl; manifest = refl; manifest_tmp = refl }

capture_snapshot-OldOrSnapshot_example :
    OldOrSnapshot memory_files memory_files-IsPosix tracer tracer-IsTracer
      (pos 7)
      (codes "demo")
      (waited_for memory_files memory_files-IsPosix tracer tracer-IsTracer
        (pos 7)
        (codes "demo")
        (codes "r/slot_B")
        slot_b-IsDistinct
        machine)
      none
      ((capture_snapshot memory_files tracer
          (pos 7)
          (codes "demo")
          (codes "r/slot_B")
          machine).1.files
        (bin_path memory_files tracer (codes "r/slot_B")))
      (capture_snapshot memory_files tracer (pos 7) (codes "demo") (codes "r/slot_B") machine).0
unfolding memory_files-IsPosix str_eq joined formatted
capture_snapshot-OldOrSnapshot_example =
    capture_snapshot-OldOrSnapshot memory_files memory_files-IsPosix tracer tracer-IsTracer (pos 7)
      (codes "demo") (codes "r/slot_B") slot_b-IsDistinct machine
