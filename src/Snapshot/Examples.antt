-- ===== src/Snapshot/Examples.antt =====
-- The theorems on the snapshot file, with one register of eight bytes.
use user_level_checkpoint_re.Base.{
  ℕ, ◌≡◌, refl, true, false, none, some, List, [], ◌∷◌, ◌++◌, codes, Bytes, str_eq, str_eq_refl,
  if◌then◌else◌, arith,
}
use user_level_checkpoint_re.Base.Int.{pos}
use user_level_checkpoint_re.Binary.{Codec}
use user_level_checkpoint_re.Binary.Arrays.{word}
use user_level_checkpoint_re.Cstring.{c_str, strip_prefix, fgets_lines}
use user_level_checkpoint_re.Cstring.Number.{print_ℤ_onto, print_onto, strtol, atoi}
use user_level_checkpoint_re.Common.{max_path, joined, copied, is_numeric}
use user_level_checkpoint_re.Files.{read_only}
use user_level_checkpoint_re.Files.Memory.{Machine, memory_files, memory_files-IsPosix}
use user_level_checkpoint_re.Files.Calm.{HasNoFaults, memory_files-IsCalm}
use user_level_checkpoint_re.Procfs.{FdEntry}
use user_level_checkpoint_re.Procfs.Descriptors.{
  Proc, collect_fds, describe_fd, collect_fdinfo, read_fdinfo_line, link_text, collect_names,
}
use user_level_checkpoint_re.Snapshot.{
  magic_number, version_number, SnapshotRegion, Image, image_bytes, load_snapshot,
}
use user_level_checkpoint_re.Snapshot.Load.{IsBounded, load_snapshot-IsBounded}
use user_level_checkpoint_re.Snapshot.RoundTrip.{IsStorable, load_snapshot-image_bytes}

abbrev one_register : Codec ℕ
one_register = word 8

abbrev heap : SnapshotRegion
heap = record {
  meta = record {
    start = 4096;
    end = 8192;
    offset = 0;
    prot = 3;
    flags = 2;
    is_anonymous = true;
    include = true;
    name = codes "[heap]";
  };
  file_offset = 5000;
  data_size = 4096;
}

abbrev log_file : FdEntry
log_file = record {
  fd = pos 3;
  flags = pos 1;
  position = pos 120;
  supported = true;
  target = codes "/tmp/log";
}

abbrev image : Image ℕ
image = record {
  header = record {
    magic = magic_number;
    version = version_number;
    pid = pos 7;
    region_count = 1;
    fd_count = 1;
    regs = 99;
    process_name = codes "counter-demo";
    exe_path = codes "/bin/counter_demo";
    cwd = codes "/";
  };
  regions = heap ∷ [];
  fds = log_file ∷ [];
}

image-IsStorable : IsStorable one_register image
unfolding c_str
image-IsStorable = record {
  bounded = record {
    magic_right = refl;
    version_right = refl;
    regions_counted = refl;
    fds_counted = refl;
    regions_bounded = omega arith;
    fds_bounded = omega arith;
  };
  header_fits = (
    omega arith,
    (
      omega arith,
      (
        omega arith,
        (
          omega arith,
          (
            omega arith,
            (tt, (omega arith, ((omega arith, refl), ((omega arith, refl), (omega arith, refl))))),
          ),
        ),
      ),
    ),
  );
  regions_fit = (
    (
      (
        omega arith,
        (omega arith, (omega arith, (omega arith, (omega arith, (tt, (tt, (omega arith, refl))))))),
      ),
      (omega arith, omega arith),
    ),
    tt,
  );
  fds_fit = ((omega arith, (omega arith, (omega arith, (tt, ((omega arith, refl), tt))))), tt);
}

abbrev dir : Bytes
dir = codes "runtime/checkpoints/slot_a"

abbrev path : Bytes
path = joined max_path dir (codes "snapshot.bin")

abbrev machine : Machine
machine = record {
  files =
      λ q. if str_eq q path then some (image_bytes one_register image ++ codes "heap") else none;
  dirs = λ q. true;
  handles = λ n. none;
  next = 3;
  locked = false;
  faults = [];
}

stored :
    memory_files-IsPosix.file machine path ≡ some (image_bytes one_register image ++ codes "heap")
unfolding memory_files-IsPosix
stored = rw (str_eq_refl path)

load_snapshot-image_bytes_example :
    (fd : ℕ) × (((memory_files.open_file read_only path machine).0 ≡ some fd)
      × ((load_snapshot one_register memory_files dir machine).0 ≡ some (image, fd)))
load_snapshot-image_bytes_example =
    load_snapshot-image_bytes one_register memory_files memory_files-IsPosix HasNoFaults
      memory_files-IsCalm image dir (codes "heap") machine image-IsStorable refl stored

load_snapshot-IsBounded_example : IsBounded image
load_snapshot-IsBounded_example =
    load_snapshot-IsBounded one_register memory_files dir machine image loaded.0 loaded.1
  where
    loaded : (fd : ℕ) × ((load_snapshot one_register memory_files dir machine).0 ≡ some (image, fd))
    loaded =
        let (fd, (opened, e)) =
          load_snapshot-image_bytes one_register memory_files memory_files-IsPosix HasNoFaults
            memory_files-IsCalm image dir (codes "heap") machine image-IsStorable refl stored in
        (fd, e)

abbrev proc : Proc
proc = record {
  contents = λ p. some (codes "pos:\t120\nflags:\t01\n");
  entries = λ p. some (codes "." ∷ codes "3" ∷ []);
  link = λ p. some (codes "/tmp/log");
}

abbrev collected : List FdEntry
collected = log_file ∷ []

run : collect_fds proc (pos 7) ≡ some collected
unfolding collect_fds describe_fd collect_fdinfo read_fdinfo_line link_text collect_names copied
    joined print_ℤ_onto print_onto is_numeric strtol atoi c_str strip_prefix fgets_lines
run = refl
