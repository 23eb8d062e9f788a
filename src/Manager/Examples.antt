-- ===== src/Manager/Examples.antt =====
-- The theorems on a checkpoint, on a machine in memory whose active slot is A.
use user_level_checkpoint_re.Base.{
  ◌≡◌, refl, true, false, none, some, [], Bool-cases, inl, inr, str_eq_iff, codes, Bytes, str_eq,
  if◌then◌else◌,
}
use user_level_checkpoint_re.Base.Int.{pos}
use user_level_checkpoint_re.Capture.Others.{IsOther}
use user_level_checkpoint_re.Common.{max_path, copied, joined, formatted}
use user_level_checkpoint_re.Cstring.{c_str, after_first, strip_prefix, cut_line}
use user_level_checkpoint_re.Files.Memory.{Machine, memory_files, memory_files-IsPosix}
use user_level_checkpoint_re.Paths.{prepare_runtime_paths}
use user_level_checkpoint_re.Slots.{
  slot_a, slot_b, slot_directory_for_name, choose_next_slot, slot_size, read_active_slot,
  slot_of_text, next_slot, checked_copy,
}
use user_level_checkpoint_re.Storage.{read_text_file, file_exists}
use user_level_checkpoint_re.Cstring.Number.{print_ℤ_onto, print_onto}
use user_level_checkpoint_re.Manager.{
  checkpoint_latest, checkpoint_locked, process_exists, lock_try_acquire,
}
use user_level_checkpoint_re.Manager.Aside.{IsAside}
use user_level_checkpoint_re.Manager.Commit.{
  Changes, SlotsApart, IsCheckpoint, checkpoint_locked-commits,
}
use user_level_checkpoint_re.Manager.Sample.{
  whole_seconds, tracer, tracer-IsTracer, config, slot_a_dir, slot_b_dir, dir_a, dir_b,
  no_other_dir,
}
use user_level_checkpoint_re.Manager.Keeps.{IsUntouched, choosing, checkpoint_latest-keeps}

abbrev snapshot_a : Bytes
snapshot_a = codes "r/checkpoints/demo/slot_A/snapshot.bin"

abbrev machine : Machine
machine = record {
  files = λ q.
      if str_eq q (codes "r/checkpoints/demo/active.meta")
      then some (codes "active_slot=A\n")
      else if str_eq q snapshot_a
      then some (codes "saved")
      else if str_eq q (codes "/proc/7")
      then some []
      else none;
  dirs = λ q. true;
  handles = λ n. none;
  next = 3;
  locked = false;
  faults = [];
}

far : IsUntouched (prepare_runtime_paths config) snapshot_a
unfolding str_eq prepare_runtime_paths copied joined formatted
far = record {
  aside = record { state = refl; state_tmp = refl; status = refl; status_tmp = refl; lock = refl };
  meta = refl;
  meta_tmp = refl;
}

chosen_b :
    (choose_next_slot memory_files (prepare_runtime_paths config) slot_size (
      choosing memory_files memory_files-IsPosix tracer tracer-IsTracer whole_seconds
        (pos 100)
        config
        (prepare_runtime_paths config)
        snapshot_a
        far
        (pos 7)
        machine)).0
    ≡ some slot_b
unfolding str_eq prepare_runtime_paths copied joined formatted choose_next_slot read_active_slot
    read_text_file file_exists process_exists lock_try_acquire slot_of_text next_slot checked_copy
    c_str after_first strip_prefix cut_line print_ℤ_onto print_onto
chosen_b = refl

slot_b_dir-IsOther :
    IsOther memory_files memory_files-IsPosix tracer tracer-IsTracer slot_b_dir snapshot_a
unfolding str_eq joined formatted
slot_b_dir-IsOther = record { bin = refl; bin_tmp = refl; manifest = refl; manifest_tmp = refl }

chosen :
    (slot dir : Bytes)
    → (choose_next_slot memory_files (prepare_runtime_paths config) slot_size (
        choosing memory_files memory_files-IsPosix tracer tracer-IsTracer whole_seconds
          (pos 100)
          config
          (prepare_runtime_paths config)
          snapshot_a
          far
          (pos 7)
          machine)).0
      ≡ some slot
    → slot_directory_for_name (prepare_runtime_paths config) slot max_path ≡ some dir
    → IsOther memory_files memory_files-IsPosix tracer tracer-IsTracer dir snapshot_a
chosen slot dir e f =
    let s : slot ≡ slot_b = cc (e, chosen_b) in
    let d : dir ≡ slot_b_dir = cc (f, dir_b, s) in rw d slot_b_dir-IsOther

checkpoint_latest-keeps_example :
    (checkpoint_latest memory_files tracer whole_seconds
        (pos 100)
        config
        (prepare_runtime_paths config)
        (pos 7)
        machine).1.files
      snapshot_a
    ≡ some (codes "saved")
unfolding memory_files-IsPosix str_eq
checkpoint_latest-keeps_example =
    checkpoint_latest-keeps memory_files memory_files-IsPosix tracer tracer-IsTracer whole_seconds
      (pos 100) config (prepare_runtime_paths config) snapshot_a far (pos 7) machine chosen

meta_aside :
    IsAside (prepare_runtime_paths config) (prepare_runtime_paths config).checkpoint_meta_file
unfolding str_eq prepare_runtime_paths copied joined formatted
meta_aside = record {
  state = refl;
  state_tmp = refl;
  status = refl;
  status_tmp = refl;
  lock = refl;
}

abbrev meta : Bytes
meta = codes "r/checkpoints/demo/active.meta"

slot_a_dir-IsOther-meta :
    IsOther memory_files memory_files-IsPosix tracer tracer-IsTracer slot_a_dir
      (prepare_runtime_paths config).checkpoint_meta_file
unfolding str_eq prepare_runtime_paths copied joined formatted
slot_a_dir-IsOther-meta = record {
  bin = refl;
  bin_tmp = refl;
  manifest = refl;
  manifest_tmp = refl;
}

slot_b_dir-IsOther-meta :
    IsOther memory_files memory_files-IsPosix tracer tracer-IsTracer slot_b_dir
      (prepare_runtime_paths config).checkpoint_meta_file
unfolding str_eq prepare_runtime_paths copied joined formatted
slot_b_dir-IsOther-meta = record {
  bin = refl;
  bin_tmp = refl;
  manifest = refl;
  manifest_tmp = refl;
}

apart :
    SlotsApart memory_files memory_files-IsPosix tracer tracer-IsTracer whole_seconds
      (pos 100)
      config
      (prepare_runtime_paths config)
      meta_aside
apart slot dir e = elim (Bool-cases (str_eq slot slot_a)) [
  | inl a ↦
      let s : slot ≡ slot_a = (str_eq_iff slot slot_a).0 a in
      let d : dir ≡ slot_a_dir = cc (e, dir_a, s) in rw d slot_a_dir-IsOther-meta
  | inr not_a ↦ elim (Bool-cases (str_eq slot slot_b)) [
    | inl b ↦
        let s : slot ≡ slot_b = (str_eq_iff slot slot_b).0 b in
        let d : dir ≡ slot_b_dir = cc (e, dir_b, s) in rw d slot_b_dir-IsOther-meta
    | inr not_b ↦ absurd (cc (no_other_dir slot not_a not_b, e))
  ]
]

checkpoint_locked-commits_example :
    Changes
      (machine.files meta)
      ((checkpoint_locked memory_files tracer whole_seconds
          (pos 100)
          config
          (prepare_runtime_paths config)
          (pos 7)
          (some 3)
          machine).1.files
        meta)
      (IsCheckpoint memory_files memory_files-IsPosix tracer tracer-IsTracer whole_seconds
        (pos 100)
        config
        (prepare_runtime_paths config)
        meta_aside
        (pos 7)
        machine
        ((checkpoint_locked memory_files tracer whole_seconds
            (pos 100)
            config
            (prepare_runtime_paths config)
            (pos 7)
            (some 3)
            machine).1.files
          meta))
      (checkpoint_locked memory_files tracer whole_seconds
        (pos 100)
        config
        (prepare_runtime_paths config)
        (pos 7)
        (some 3)
        machine).0
unfolding memory_files-IsPosix prepare_runtime_paths copied joined formatted
checkpoint_locked-commits_example =
    checkpoint_locked-commits memory_files memory_files-IsPosix tracer tracer-IsTracer whole_seconds
      (pos 100) config (prepare_runtime_paths config) meta_aside (pos 7) (some 3) machine apart
