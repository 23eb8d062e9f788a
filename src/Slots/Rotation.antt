-- ===== src/Slots/Rotation.antt =====
-- Writing active.meta, and the choice of the next slot, in src/manager.c.
use user_level_checkpoint_re.Base.{
  ◌<◌, ◌≡◌, ◌≢◌, refl, ◌∙◌, ap, true, Option, none, some, ◌⊎◌, inl, inr, Bytes, length, all, str_eq,
  str_ne, if◌then◌else◌, done, Bool-cases, arith,
}
use user_level_checkpoint_re.Base.Int.{ℤ}
use user_level_checkpoint_re.Cstring.Search.{is_plain}
use user_level_checkpoint_re.Common.{max_path, copied}
use user_level_checkpoint_re.Files.{Files}
use user_level_checkpoint_re.Common.Buffers.{copied_fits}
use user_level_checkpoint_re.Files.Calm.{IsCalm}
use user_level_checkpoint_re.Files.Posix.{IsPosix}
use user_level_checkpoint_re.Paths.{RuntimePaths}
use user_level_checkpoint_re.Slots.{
  slot_directory_for_name, active_checkpoint_dir, pick, found, slot_a, slot_b, slot_size,
  metadata_text, next_slot, parse_text, read_active_slot, choose_next_slot, write_stamped,
  write_active_metadata,
}
use user_level_checkpoint_re.Slots.Meta.{checked_copy_fits, slot_of_text-metadata}
use user_level_checkpoint_re.Storage.{file_exists}
use user_level_checkpoint_re.Storage.Atomic.{atomic_write_text_file-Replaced}
use user_level_checkpoint_re.Storage.Reading.{read_text_file_calm}

abbrev pub IsSlot : Bytes → Type 0
IsSlot s = (s ≡ slot_a) ⊎ (s ≡ slot_b)

-- The slot that is not this one.
abbrev pub other_slot : Bytes → Bytes
other_slot s = if str_eq s slot_a then slot_b else slot_a

IsSlot-plain : (s : Bytes) → IsSlot s → all is_plain s ≡ true
IsSlot-plain s (inl e) = ap (all is_plain) e
IsSlot-plain s (inr e) = ap (all is_plain) e

IsSlot-short : (s : Bytes) → IsSlot s → length s < slot_size
IsSlot-short s (inl e) = omega (arith, ap length e)
IsSlot-short s (inr e) = omega (arith, ap length e)

other_slot-ne : (s : Bytes) → IsSlot s → other_slot s ≢ s
unfolding str_eq
other_slot-ne s (inl a) = rw a (str_ne slot_b slot_a refl)
other_slot-ne s (inr b) = rw b (str_ne slot_a slot_b refl)

-- An active slot is never the one that is written next.
pub next_slot-other : (s : Bytes) → next_slot slot_size (some s) ≡ some (other_slot s)
unfolding next_slot
next_slot-other s = elim (Bool-cases (str_eq s slot_a)) [
  | inl a ↦ rw a (checked_copy_fits slot_size slot_b (omega arith))
  | inr b ↦ rw b (checked_copy_fits slot_size slot_a (omega arith))
]

module _ (fs : Files) (px : IsPosix fs) (paths : RuntimePaths) where
  open px use {file}

  abbrev meta : Bytes
  meta = paths.checkpoint_meta_file

  -- The text of a record of the slot.
  abbrev pub Names : Bytes → ℤ → Bytes → Option Bytes → Type 0
  Names slot interval runtime_text o =
      (timestamp : Bytes) × (o
        ≡ some (copied 512 (metadata_text slot timestamp interval runtime_text)))

  write_stamped-lem :
      (slot : Bytes) (interval : ℤ) (runtime_text : Bytes) (timestamp : Option Bytes) (w : fs.World)
      → ((file (write_stamped fs paths slot interval runtime_text timestamp w).1 meta ≡ file w meta)
          ⊎ Names slot interval runtime_text
              (file (write_stamped fs paths slot interval runtime_text timestamp w).1 meta))
        × ((write_stamped fs paths slot interval runtime_text timestamp w).0 ≡ done
            → Names slot interval runtime_text
                (file (write_stamped fs paths slot interval runtime_text timestamp w).1 meta))
  unfolding write_stamped
  write_stamped-lem slot interval runtime_text none w = (inl refl, λ e. cc)
  write_stamped-lem slot interval runtime_text (some timestamp) w =
      let text = copied 512 (metadata_text slot timestamp interval runtime_text) in
      let r = atomic_write_text_file-Replaced fs px meta text w in
      (either r.old_or_new, λ e. (timestamp, r.new_if_done e))
    where
      either :
          {o before : Option Bytes}
          → (o ≡ before)
            ⊎ (o ≡ some (copied 512 (metadata_text slot timestamp interval runtime_text)))
          → (o ≡ before) ⊎ Names slot interval runtime_text o
      either (inl e) = inl e
      either (inr e) = inr (timestamp, e)

  -- Whatever calls fail in `write_active_metadata`, active.meta is as before or is the whole record
  -- of the slot; on success it is that record.
  pub write_active_metadata_lem :
      (slot : Bytes) (interval : ℤ) (runtime_text : Bytes) (w : fs.World)
      → ((file (write_active_metadata fs paths slot interval runtime_text w).1 meta ≡ file w meta)
          ⊎ Names slot interval runtime_text
              (file (write_active_metadata fs paths slot interval runtime_text w).1 meta))
        × ((write_active_metadata fs paths slot interval runtime_text w).0 ≡ done
            → Names slot interval runtime_text
                (file (write_active_metadata fs paths slot interval runtime_text w).1 meta))
  unfolding write_active_metadata
  write_active_metadata_lem slot interval runtime_text w =
      let l = write_stamped-lem slot interval runtime_text (fs.now_text w).0 (fs.now_text w).1 in
      (rw (← px.now-file w meta) l.0, l.1)

module _ (fs : Files) (px : IsPosix fs) (Calm : fs.World → Type 0) (cm : IsCalm fs px Calm)
    (paths : RuntimePaths) where
  open px use {file}

  -- The slot that is read is the slot that the file names.
  read_active_slot-Names :
      (slot : Bytes) (interval : ℤ) (runtime_text : Bytes) (w : fs.World)
      → IsSlot slot
      → Calm w
      → Names fs px paths slot interval runtime_text (file w paths.checkpoint_meta_file)
      → (read_active_slot fs paths slot_size w).0 ≡ some slot
  unfolding read_active_slot parse_text file_exists
  read_active_slot-Names slot interval runtime_text w h calm (timestamp, here) =
      let contents = copied 512 (metadata_text slot timestamp interval runtime_text) in
      let meta = paths.checkpoint_meta_file in
      let w1 = (fs.access meta w).1 in
      let read =
        read_text_file_calm fs px Calm cm meta 256 w1 contents (cm.access-calm meta w calm)
          (px.access-file meta w meta ∙ here) in
      rw (px.access_there meta w contents here) (
        ap (parse_text fs paths slot_size) read
        ∙ slot_of_text-metadata slot timestamp interval runtime_text (IsSlot-plain slot h)
            (IsSlot-short slot h))

  -- After the metadata of a slot has been written with success, and if no call fails from then on,
  -- this slot is the one that is read, and `choose_next_slot` takes the other one: the next
  -- checkpoint does not overwrite the active one.
  pub choose_next_slot-write :
      (slot : Bytes) (interval : ℤ) (runtime_text : Bytes) (w : fs.World)
      → IsSlot slot
      → (write_active_metadata fs paths slot interval runtime_text w).0 ≡ done
      → Calm (write_active_metadata fs paths slot interval runtime_text w).1
      → ((read_active_slot fs paths slot_size
            (write_active_metadata fs paths slot interval runtime_text w).1).0
          ≡ some slot)
        × ((choose_next_slot fs paths slot_size
              (write_active_metadata fs paths slot interval runtime_text w).1).0
            ≡ some (other_slot slot))
        × (other_slot slot ≢ slot)
  unfolding choose_next_slot
  choose_next_slot-write slot interval runtime_text w h written calm =
      let w' = (write_active_metadata fs paths slot interval runtime_text w).1 in
      let named = (write_active_metadata_lem fs px paths slot interval runtime_text w).1 written in
      let active = read_active_slot-Names slot interval runtime_text w' h calm named in
      (active, ap (next_slot slot_size) active ∙ next_slot-other slot, other_slot-ne slot h)

  -- After the metadata of a slot has been written with success, and if no call fails from then on, a
  -- restart finds the directory of this slot and its name, if the directory's path fits its buffer.
  pub active_checkpoint_dir-write :
      (slot dir : Bytes) (interval : ℤ) (runtime_text : Bytes) (w : fs.World)
      → IsSlot slot
      → slot_directory_for_name paths slot max_path ≡ some dir
      → (write_active_metadata fs paths slot interval runtime_text w).0 ≡ done
      → Calm (write_active_metadata fs paths slot interval runtime_text w).1
      → (active_checkpoint_dir fs paths max_path slot_size
          (write_active_metadata fs paths slot interval runtime_text w).1).0
        ≡ some (dir, slot)
  unfolding active_checkpoint_dir pick found
  active_checkpoint_dir-write slot dir interval runtime_text w h d written calm =
      let w' = (write_active_metadata fs paths slot interval runtime_text w).1 in
      let named = (write_active_metadata_lem fs px paths slot interval runtime_text w).1 written in
      let active = read_active_slot-Names slot interval runtime_text w' h calm named in
      ap (λ o. (pick fs paths max_path slot_size o (read_active_slot fs paths slot_size w').1).0)
        active
      ∙ ap (found fs paths (copied slot_size slot)) d
      ∙ ap (λ n. some (dir, n)) (copied_fits slot_size slot (IsSlot-short slot h))
