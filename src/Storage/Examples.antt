-- ===== src/Storage/Examples.antt =====
-- The theorems on the file functions, on a machine whose third call fails and on one without faults.
use user_level_checkpoint_re.Base.{
  true, false, some, none, [], ◌∷◌, codes, Bytes, str_eq, if◌then◌else◌, ◌≡◌, refl, arith,
}
use user_level_checkpoint_re.Files.Memory.{Machine, memory_files, memory_files-IsPosix}
use user_level_checkpoint_re.Files.Calm.{HasNoFaults, memory_files-IsCalm}
use user_level_checkpoint_re.Cstring.{c_str, split_at_last}
use user_level_checkpoint_re.Common.{formatted}
use user_level_checkpoint_re.Storage.{atomic_write_text_file, read_text_file, fsync_path_directory}
use user_level_checkpoint_re.Storage.Reading.{read-atomic_write}
use user_level_checkpoint_re.Storage.Atomic.{Replaced, atomic_write_text_file-Replaced}

abbrev path : Bytes
path = codes "runtime/active.meta"

abbrev machine : Machine
machine = record {
  files = λ q. if str_eq q path then some (codes "old") else none;
  dirs = λ q. true;
  handles = λ n. none;
  next = 3;
  locked = false;
  faults = false ∷ false ∷ true ∷ [];
}

atomic_write_text_file-Replaced_example :
    Replaced machine.files
      (atomic_write_text_file memory_files path (codes "new") machine).1.files
      path
      (codes "new")
      (atomic_write_text_file memory_files path (codes "new") machine).0
unfolding memory_files-IsPosix
atomic_write_text_file-Replaced_example =
    atomic_write_text_file-Replaced memory_files memory_files-IsPosix path (codes "new") machine

abbrev sound_machine : Machine
sound_machine = record machine { faults = [] }

read-atomic_write_example :
    ((read_text_file memory_files path 256
        (atomic_write_text_file memory_files path (codes "new") sound_machine).1).0
      ≡ some (codes "new"))
    × ((q : Bytes)
        → (read_text_file memory_files path 256
              (atomic_write_text_file memory_files path (codes "new") sound_machine).1).1.files
            q
          ≡ (atomic_write_text_file memory_files path (codes "new") sound_machine).1.files q)
unfolding memory_files-IsPosix atomic_write_text_file fsync_path_directory formatted c_str str_eq
    split_at_last
read-atomic_write_example =
    read-atomic_write memory_files memory_files-IsPosix HasNoFaults memory_files-IsCalm path
      (codes "new") 256 sound_machine (omega arith) refl refl refl
