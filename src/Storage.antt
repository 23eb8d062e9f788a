-- ===== src/Storage.antt =====
-- The functions of src/common.c that reach the file system, and `fsync_parent_directory` of
-- src/snapshot.c, which has the text of `ulcr_fsync_path_directory`.
pub mod Atomic
pub mod Reading
pub mod Plain
pub mod Quiet
pub mod Directory
mod Examples
use user_level_checkpoint_re.Base.{
  ℕ, zero, suc, ◌-◌, Bool, true, false, Option, none, some, [], ◌∷◌, ◌++◌, ◌==◌, if◌then◌else◌,
  Bytes, codes, length, leb, Status, done, failed, is_failed,
}
use user_level_checkpoint_re.Cstring.{c_str, split_at_last}
use user_level_checkpoint_re.Common.{max_path, formatted}
use user_level_checkpoint_re.Files.{
  read_only, directory, write_truncate, MkdirResult, created, exists, refused, Files, ◌>>=◌, ◌>>◌,
  pure,
}

-- The text of the directory that a path stands in: up to the last '/', which stays if it is first.
parent_of : Bytes → Bytes
parent_of [] = b'/' ∷ []
parent_of (c ∷ cs) = c ∷ cs

-- `write(fd, value, len) != (ssize_t) len`
abbrev pub is_short : Option ℕ → ℕ → Bool
is_short none len = true
is_short (some n) len = if n == len then false else true

module _ (fs : Files) where
  open fs use {World, open_file, close_file, write, read, fsync, rename, unlink, mkdir, access}

  sync_opened : Option ℕ → World → Status × World
  sync_opened none = pure failed
  sync_opened (some fd) = do
    synced ← fsync fd
    close_file fd
    pure (if is_failed synced then failed else done)

  sync_parent : Option (Bytes × Bytes) → World → Status × World
  sync_parent none = pure failed
  sync_parent (some (before, behind)) = do
    fd ← open_file directory (parent_of before)
    sync_opened fd

  -- `ulcr_fsync_path_directory`
  unfoldable pub fsync_path_directory : Bytes → World → Status × World
  unfolding sync_opened sync_parent parent_of
  fsync_path_directory path =
      let (dir_path, status) = formatted max_path path in
      if is_failed status then pure failed else sync_parent (split_at_last b'/' dir_path)

  write_opened : Bytes → Option ℕ → World → Status × World
  write_opened value none = pure failed
  write_opened value (some fd) = do
    count ← write fd value
    close_file fd
    pure (if is_short count (length value) then failed else done)

  -- `ulcr_write_text_file`
  unfoldable pub write_text_file : Bytes → Bytes → World → Status × World
  unfolding write_opened
  write_text_file path value = do fd ← open_file write_truncate path; write_opened value fd

  text_of : Option Bytes → Option Bytes
  text_of none = none
  text_of (some bytes) = some (c_str bytes)

  read_opened : ℕ → Option ℕ → World → Option Bytes × World
  read_opened size none = pure none
  read_opened size (some fd) = do bytes ← read fd (size - 1); close_file fd; pure (text_of bytes)

  -- `ulcr_read_text_file`: the C string in the buffer, or `none` for -1.
  unfoldable pub read_text_file : Bytes → ℕ → World → Option Bytes × World
  unfolding read_opened text_of
  read_text_file path size = do fd ← open_file read_only path; read_opened size fd

  -- From `rename` on.
  publish : Bytes → Bytes → World → Status × World
  publish tmp_path path = do
    moved ← rename tmp_path path
    if is_failed moved then (do unlink tmp_path; pure failed) else (do
      synced ← fsync_path_directory path
      pure (if is_failed synced then failed else done))

  -- From the test of the written length on.
  seal : Bytes → Bytes → ℕ → ℕ → Option ℕ → World → Status × World
  unfolding publish
  seal tmp_path path fd len count =
      if is_short count len then (do close_file fd; unlink tmp_path; pure failed) else (do
        synced ← fsync fd
        if is_failed synced
            then (do close_file fd; unlink tmp_path; pure failed)
            else (do close_file fd; publish tmp_path path))

  replace_opened : Bytes → Bytes → Bytes → Option ℕ → World → Status × World
  unfolding seal
  replace_opened tmp_path path value none = pure failed
  replace_opened tmp_path path value (some fd) = do
    count ← write fd value
    seal tmp_path path fd (length value) count

  -- `ulcr_atomic_write_text_file`
  unfoldable pub atomic_write_text_file : Bytes → Bytes → World → Status × World
  unfolding replace_opened
  atomic_write_text_file path value =
      let (tmp_path, status) = formatted max_path (path ++ codes ".tmp") in
      if is_failed status
      then pure failed
      else (do fd ← open_file write_truncate tmp_path; replace_opened tmp_path path value fd)

  made : MkdirResult → Bool
  made created = true
  made exists = true
  made refused = false

  -- The loop over `cursor`: `before` is the text in front of it.
  ensure_from : Bytes → Bytes → World → Status × World
  unfolding made
  ensure_from before [] = do result ← mkdir before; pure (if made result then done else failed)
  ensure_from before (c ∷ cs) =
      let rest : World → Status × World = ensure_from (before ++ c ∷ []) cs in
      if c == b'/'
      then (do result ← mkdir before; if made result then rest else pure failed)
      else rest

  ensure_copied : Bytes → World → Status × World
  unfolding ensure_from
  ensure_copied [] = ensure_from [] []
  ensure_copied (c ∷ cs) = ensure_from (c ∷ []) cs

  -- `ulcr_ensure_directory`. On an empty path the C code starts the loop behind the end of the
  -- string, in bytes that are not set; the model goes to the last `mkdir`.
  unfoldable pub ensure_directory : Bytes → World → Status × World
  unfolding ensure_copied
  ensure_directory path =
      let (tmp, status) = formatted max_path path in
      if is_failed status then pure failed else ensure_copied tmp

  -- `ulcr_file_exists`
  unfoldable pub file_exists : Bytes → World → Bool × World
  file_exists = access
