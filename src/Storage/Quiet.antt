-- ===== src/Storage/Quiet.antt =====
-- The functions of src/common.c that write a file, on a machine in memory without faults to come.
use user_level_checkpoint_re.Base.{
  ℕ, Option, none, some, ◌++◌, Bytes, codes, length, arith, Status-cases, Bool-cases, inl, inr,
}
use user_level_checkpoint_re.Common.{max_path, formatted}
use user_level_checkpoint_re.Cstring.{split_at_last}
use user_level_checkpoint_re.Files.{OpenMode, directory, write_truncate}
use user_level_checkpoint_re.Files.Calm.{HasNoFaults}
use user_level_checkpoint_re.Files.Memory.{Machine, memory_files}
use user_level_checkpoint_re.Storage.{
  is_short, sync_opened, sync_parent, parent_of, fsync_path_directory, publish, seal,
  replace_opened, write_text_file, atomic_write_text_file,
}

open-quiet :
    (m : OpenMode) (p : Bytes) (w : Machine)
    → HasNoFaults w
    → HasNoFaults (memory_files.open_file m p w).1
open-quiet m p w h = ground arith

write-quiet :
    (fd : ℕ) (b : Bytes) (w : Machine) → HasNoFaults w → HasNoFaults (memory_files.write fd b w).1
write-quiet fd b w h = ground arith

fsync-quiet : (fd : ℕ) (w : Machine) → HasNoFaults w → HasNoFaults (memory_files.fsync fd w).1
fsync-quiet fd w h = ground arith

rename-quiet :
    (a b : Bytes) (w : Machine) → HasNoFaults w → HasNoFaults (memory_files.rename a b w).1
rename-quiet a b w h = ground arith

pub close-quiet :
    (fd : ℕ) (w : Machine) → HasNoFaults w → HasNoFaults (memory_files.close_file fd w)
close-quiet fd w h = ground arith

unlink-quiet : (a : Bytes) (w : Machine) → HasNoFaults w → HasNoFaults (memory_files.unlink a w)
unlink-quiet a w h = ground arith

pub write_text_file-quiet :
    (p v : Bytes) (w : Machine) → HasNoFaults w → HasNoFaults (write_text_file memory_files p v w).1
unfolding write_text_file
write_text_file-quiet p v w h = ground (arith, open-quiet write_truncate p w h)

sync_parent-quiet :
    (o : Option (Bytes × Bytes)) (w : Machine)
    → HasNoFaults w
    → HasNoFaults (sync_parent memory_files o w).1
unfolding sync_parent sync_opened
sync_parent-quiet none w h = h
sync_parent-quiet (some (a, b)) w h = ground (arith, open-quiet directory (parent_of a) w h)

fsync_path_directory-quiet :
    (p : Bytes) (w : Machine)
    → HasNoFaults w
    → HasNoFaults (fsync_path_directory memory_files p w).1
unfolding fsync_path_directory
fsync_path_directory-quiet p w h = elim (Status-cases (formatted max_path p).1) [
  | inl d ↦ rw d (sync_parent-quiet (split_at_last b'/' (formatted max_path p).0) w h)
  | inr f ↦ rw f h
]

publish-quiet :
    (tmp p : Bytes) (w : Machine) → HasNoFaults w → HasNoFaults (publish memory_files tmp p w).1
unfolding publish
publish-quiet tmp p w h =
    let r = memory_files.rename tmp p w in
    let h1 = rename-quiet tmp p w h in
    elim (Status-cases r.0) [
      | inl d ↦ rw d (fsync_path_directory-quiet p r.1 h1)
      | inr f ↦ rw f (unlink-quiet tmp r.1 h1)
    ]

seal-quiet :
    (tmp p : Bytes) (fd len : ℕ) (count : Option ℕ) (w : Machine)
    → HasNoFaults w
    → HasNoFaults (seal memory_files tmp p fd len count w).1
unfolding seal
seal-quiet tmp p fd len count w h = elim (Bool-cases (is_short count len)) [
  | inl short ↦ rw short (unlink-quiet tmp (memory_files.close_file fd w) (close-quiet fd w h))
  | inr whole ↦
      let r = memory_files.fsync fd w in
      let h1 = fsync-quiet fd w h in
      rw whole (elim (Status-cases r.0) [
        | inl d ↦
            rw d (publish-quiet tmp p (memory_files.close_file fd r.1) (close-quiet fd r.1 h1))
        | inr f ↦ rw f (unlink-quiet tmp (memory_files.close_file fd r.1) (close-quiet fd r.1 h1))
      ])
]

replace_opened-quiet :
    (tmp p v : Bytes) (o : Option ℕ) (w : Machine)
    → HasNoFaults w
    → HasNoFaults (replace_opened memory_files tmp p v o w).1
unfolding replace_opened
replace_opened-quiet tmp p v none w h = h
replace_opened-quiet tmp p v (some fd) w h =
    let r = memory_files.write fd v w in
    seal-quiet tmp p fd (length v) r.0 r.1 (write-quiet fd v w h)

pub atomic_write_text_file-quiet :
    (p v : Bytes) (w : Machine)
    → HasNoFaults w
    → HasNoFaults (atomic_write_text_file memory_files p v w).1
unfolding atomic_write_text_file
atomic_write_text_file-quiet p v w h =
    elim (Status-cases (formatted max_path (p ++ codes ".tmp")).1) [
      | inl d ↦
          let tmp = (formatted max_path (p ++ codes ".tmp")).0 in
          let r = memory_files.open_file write_truncate tmp w in
          rw d (replace_opened-quiet tmp p v r.0 r.1 (open-quiet write_truncate tmp w h))
      | inr f ↦ rw f h
    ]
