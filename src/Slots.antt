-- ===== src/Slots.antt =====
-- The two checkpoint slots of src/manager.c and the file that names the active one.
pub mod Meta
pub mod Rotation
pub mod Kept
mod Examples
use user_level_checkpoint_re.Base.{
  ℕ, ◌+◌, Bool, true, false, Option, none, some, [], ◌∷◌, ◌++◌, if◌then◌else◌, Bytes, codes, str_eq,
  Status, done, failed,
}
use user_level_checkpoint_re.Base.Int.{ℤ}
use user_level_checkpoint_re.Cstring.{after_first, cut_line}
use user_level_checkpoint_re.Cstring.Number.{print_ℤ_onto}
use user_level_checkpoint_re.Common.{max_path, formatted, copied, joined}
use user_level_checkpoint_re.Files.{Files, ◌>>=◌, pure}
use user_level_checkpoint_re.Paths.{RuntimePaths}
use user_level_checkpoint_re.Storage.{read_text_file, atomic_write_text_file, file_exists}

-- `ULCR_SLOT_A` and `ULCR_SLOT_B`
abbrev pub slot_a : Bytes
slot_a = codes "A"

abbrev pub slot_b : Bytes
slot_b = codes "B"

-- `sizeof(slot_name)` in every caller
abbrev pub slot_size : ℕ
slot_size = 8

-- The buffer after `ulcr_copy_string`, or `none` for -1.
unfoldable pub checked_copy : ℕ → Bytes → Option Bytes
checked_copy size text = elim (formatted size text).1 [
  | done ↦ some (formatted size text).0
  | failed ↦ none
]

cut_slot : ℕ → Option Bytes → Option Bytes
cut_slot size none = none
cut_slot size (some line) = checked_copy size (cut_line line)

-- `read_active_slot` from `strstr` on, on the text of the file.
unfoldable pub slot_of_text : ℕ → Bytes → Option Bytes
unfolding cut_slot
slot_of_text size text = cut_slot size (after_first (codes "active_slot=") text)

-- The text that `write_active_metadata` formats; the last argument is the text of "%.2f".
unfoldable pub metadata_text : Bytes → Bytes → ℤ → Bytes → Bytes
metadata_text slot_name timestamp interval_seconds runtime_text =
    codes "active_slot="
    ++ (slot_name
        ++ (codes "\nupdated_at="
            ++ (timestamp
                ++ (codes "\ncheckpoint_interval_sec="
                    ++ print_ℤ_onto interval_seconds
                        (codes "\nruntime_seconds=" ++ (runtime_text ++ b'\n' ∷ []))))))

-- `slot_directory_for_name`
unfoldable pub slot_directory_for_name : RuntimePaths → Bytes → ℕ → Option Bytes
slot_directory_for_name paths slot_name size =
    if str_eq slot_name slot_a
    then checked_copy size paths.checkpoint_slot_a_dir
    else if str_eq slot_name slot_b
    then checked_copy size paths.checkpoint_slot_b_dir
    else none

-- What `choose_next_slot` does with the result of `read_active_slot`.
unfoldable pub next_slot : ℕ → Option Bytes → Option Bytes
next_slot size none = checked_copy size slot_a
next_slot size (some active) =
    if str_eq active slot_a then checked_copy size slot_b else checked_copy size slot_a

-- The name of a snapshot in its slot, in a buffer of `max_path` bytes.
abbrev pub snapshot_in : Bytes → Bytes
snapshot_in dir = joined max_path dir (codes "snapshot.bin")

module _ (fs : Files) (paths : RuntimePaths) where
  open fs use {World}

  unfoldable pub parse_text : ℕ → Option Bytes → Option Bytes
  parse_text size none = none
  parse_text size (some text) = slot_of_text size text

  -- `read_active_slot`: the slot's name, or `none` for -1.
  unfoldable pub read_active_slot : ℕ → World → Option Bytes × World
  unfolding parse_text
  read_active_slot size = do
    there ← file_exists fs paths.checkpoint_meta_file
    if there
        then (do
          text ← read_text_file fs paths.checkpoint_meta_file 256
          pure (parse_text size text))
        else pure none

  -- `choose_next_slot`
  unfoldable pub choose_next_slot : ℕ → World → Option Bytes × World
  choose_next_slot size = do active ← read_active_slot slot_size; pure (next_slot size active)

  unfoldable pub write_stamped : Bytes → ℤ → Bytes → Option Bytes → World → Status × World
  write_stamped slot_name interval_seconds runtime_text none = pure failed
  write_stamped slot_name interval_seconds runtime_text (some timestamp) =
      atomic_write_text_file fs paths.checkpoint_meta_file
        (copied 512 (metadata_text slot_name timestamp interval_seconds runtime_text))

  -- `write_active_metadata`
  unfoldable pub write_active_metadata : Bytes → ℤ → Bytes → World → Status × World
  unfolding write_stamped
  write_active_metadata slot_name interval_seconds runtime_text = do
    timestamp ← fs.now_text
    write_stamped slot_name interval_seconds runtime_text timestamp

  one_if : Bool → ℕ
  one_if true = 1
  one_if false = 0

  -- `count_available_slots`
  unfoldable pub count_available_slots : World → ℕ × World
  unfolding one_if
  count_available_slots = do
    a ← file_exists fs (snapshot_in paths.checkpoint_slot_a_dir)
    b ← file_exists fs (snapshot_in paths.checkpoint_slot_b_dir)
    pure (one_if a + one_if b)

  -- The directory and the slot's name, where both copies are made.
  found : Bytes → Option Bytes → Option (Bytes × Bytes)
  found name none = none
  found name (some dir) = some (dir, name)

  search_b : ℕ → ℕ → World → Option (Bytes × Bytes) × World
  search_b size name_size = do
    there ← file_exists fs (snapshot_in paths.checkpoint_slot_b_dir)
    pure (
        if there
        then found (copied name_size slot_b) (checked_copy size paths.checkpoint_slot_b_dir)
        else none)

  search_both : ℕ → ℕ → World → Option (Bytes × Bytes) × World
  search_both size name_size = do
    slot_there ← file_exists fs paths.checkpoint_slot_a_dir
    if slot_there
        then (do
          there ← file_exists fs (snapshot_in paths.checkpoint_slot_a_dir)
          if there
              then pure
                  (found (copied name_size slot_a) (checked_copy size paths.checkpoint_slot_a_dir))
              else search_b size name_size)
        else search_b size name_size

  pick : ℕ → ℕ → Option Bytes → World → Option (Bytes × Bytes) × World
  pick size name_size none = search_both size name_size
  pick size name_size (some active) =
      pure (found (copied name_size active) (slot_directory_for_name paths active size))

  -- `active_checkpoint_dir` with a `slot_name` that is not NULL, as every caller has it: the
  -- directory and the name, or `none` for -1.
  unfoldable pub active_checkpoint_dir : ℕ → ℕ → World → Option (Bytes × Bytes) × World
  unfolding pick search_both search_b found
  active_checkpoint_dir size name_size = do
    active ← read_active_slot slot_size
    pick size name_size active
