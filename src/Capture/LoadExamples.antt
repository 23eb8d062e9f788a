-- ===== src/Capture/LoadExamples.antt =====
-- A capture that succeeds, of a process with one region of two bytes, and a load of what it left.
use user_level_checkpoint_re.Base.{
  ◌≡◌, refl, true, false, none, some, [], codes, Bytes, str_eq, done, arith,
}
use user_level_checkpoint_re.Base.Int.{pos}
use user_level_checkpoint_re.Binary.Arrays.{put_array}
use user_level_checkpoint_re.Binary.Words.{put_word, bits_of_int, bits_of_long}
use user_level_checkpoint_re.Common.{formatted, copied, joined, is_numeric}
use user_level_checkpoint_re.Cstring.{
  split_at_last, c_str, after_first, strip_prefix, fgets_lines, snprintf, is_digit,
}
use user_level_checkpoint_re.Cstring.Number.{
  digit_char, char_digit, print_onto, print_ℤ_onto, scan_digits, is_space, skip_space, scan_sign,
  clamp_long, strtol, atoi,
}
use user_level_checkpoint_re.Files.Calm.{HasNoFaults, memory_files-IsCalm}
use user_level_checkpoint_re.Files.Memory.{Machine, memory_files, memory_files-IsPosix}
use user_level_checkpoint_re.Manifest.{move_file, manifest_text, fill_manifest, write_manifest}
use user_level_checkpoint_re.Procfs.Descriptors.{
  Proc, link_text, fdinfo_from, read_fdinfo_line, read_fdinfo_lines, read_fdinfo, collect_fdinfo,
  describe_target, describe_fd, collect_names, collect_fds, collect_link_path, collect_proc_layout,
}
use user_level_checkpoint_re.Procfs.Regions.{
  prot_of, is_included, parse_maps_line, add_region, collect_lines, collect_regions,
}
use user_level_checkpoint_re.Procfs.Stat.{to_ull, scan_number}
use user_level_checkpoint_re.Storage.{ensure_directory, fsync_path_directory}
use user_level_checkpoint_re.Tracer.{Tracer, IsTracer}
use user_level_checkpoint_re.Capture.Sample.{tracer_of, tracer_of-IsTracer}
use user_level_checkpoint_re.Capture.Loads.{LoadsSnapshot, capture_snapshot-LoadsSnapshot}
use user_level_checkpoint_re.Capture.Snapshots.{IsDistinct, waited_for}
use user_level_checkpoint_re.Capture.{
  bin_path, first_image, dump_chunk, dump_from, dump_region_bytes, saved, save_at, save_region,
  with_region, save_rest, save_regions, written, rewrite_image, write_image, publish_image,
  fill_file, capture_file, detached, report, capture_regs, capture_layout, capture_stopped,
  capture_attached, capture_snapshot,
}

abbrev proc : Proc
proc = record {
  contents = λ p. some (codes "00400000-00400002 rw-p 00000000 08:01 42 /bin/a\n");
  entries = λ p. some [];
  link = λ p. some (codes "/tmp/log");
}

abbrev tracer : Tracer memory_files
tracer = tracer_of proc

tracer-IsTracer : IsTracer memory_files memory_files-IsPosix tracer
tracer-IsTracer = tracer_of-IsTracer proc

abbrev machine : Machine
machine = record {
  files = λ q. none;
  dirs = λ q. true;
  handles = λ n. none;
  next = 3;
  locked = false;
  faults = [];
}

abbrev dir : Bytes
dir = codes "s"

abbrev after : Machine
after = (capture_snapshot memory_files tracer (pos 7) (codes "demo") dir machine).1

dir-IsDistinct : IsDistinct memory_files memory_files-IsPosix tracer tracer-IsTracer dir
unfolding str_eq joined formatted
dir-IsDistinct = record { bin_tmp = refl; manifest = refl; manifest_tmp = refl }

captured : (capture_snapshot memory_files tracer (pos 7) (codes "demo") dir machine).0 ≡ done
unfolding split_at_last first_image dump_chunk dump_from dump_region_bytes saved save_at save_region
    with_region save_rest save_regions written rewrite_image write_image publish_image fill_file
    capture_file detached report capture_regs capture_layout capture_stopped capture_attached
    capture_snapshot link_text fdinfo_from read_fdinfo_line read_fdinfo_lines read_fdinfo
    collect_fdinfo describe_target describe_fd collect_names collect_fds collect_link_path
    collect_proc_layout move_file manifest_text fill_manifest write_manifest prot_of is_included
    parse_maps_line add_region collect_lines collect_regions ensure_directory fsync_path_directory
    digit_char char_digit print_onto print_ℤ_onto scan_digits is_space skip_space scan_sign
    clamp_long strtol atoi c_str after_first strip_prefix fgets_lines snprintf is_digit formatted
    copied joined is_numeric put_word bits_of_int bits_of_long put_array str_eq to_ull scan_number
captured = refl

name_text : c_str (codes "demo") ≡ codes "demo"
unfolding c_str
name_text = refl

no_faults : HasNoFaults after
unfolding split_at_last first_image dump_chunk dump_from dump_region_bytes saved save_at save_region
    with_region save_rest save_regions written rewrite_image write_image publish_image fill_file
    capture_file detached report capture_regs capture_layout capture_stopped capture_attached
    capture_snapshot link_text fdinfo_from read_fdinfo_line read_fdinfo_lines read_fdinfo
    collect_fdinfo describe_target describe_fd collect_names collect_fds collect_link_path
    collect_proc_layout move_file manifest_text fill_manifest write_manifest prot_of is_included
    parse_maps_line add_region collect_lines collect_regions ensure_directory fsync_path_directory
    digit_char char_digit print_onto print_ℤ_onto scan_digits is_space skip_space scan_sign
    clamp_long strtol atoi c_str after_first strip_prefix fgets_lines snprintf is_digit formatted
    copied joined is_numeric put_word bits_of_int bits_of_long put_array str_eq to_ull scan_number
no_faults = refl

capture_snapshot-LoadsSnapshot_example :
    LoadsSnapshot memory_files memory_files-IsPosix tracer tracer-IsTracer
      (pos 7)
      (codes "demo")
      (omega arith)
      name_text
      dir
      (waited_for memory_files memory_files-IsPosix tracer tracer-IsTracer
        (pos 7)
        (codes "demo")
        dir
        dir-IsDistinct
        machine)
      (after.files (bin_path memory_files tracer dir))
      after
unfolding memory_files-IsPosix
capture_snapshot-LoadsSnapshot_example =
    capture_snapshot-LoadsSnapshot memory_files memory_files-IsPosix tracer tracer-IsTracer (pos 7)
      (codes "demo") (omega arith) name_text dir HasNoFaults memory_files-IsCalm machine after
      dir-IsDistinct captured refl no_faults
