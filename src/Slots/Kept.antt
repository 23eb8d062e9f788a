-- ===== src/Slots/Kept.antt =====
-- The functions of src/manager.c that look for a slot, and the files.
use user_level_checkpoint_re.Base.{
  ℕ, ◌≡◌, refl, ◌∙◌, Option, none, some, Bytes, Bool-cases, inl, inr,
}
use user_level_checkpoint_re.Files.{Files}
use user_level_checkpoint_re.Files.Posix.{IsPosix}
use user_level_checkpoint_re.Paths.{RuntimePaths}
use user_level_checkpoint_re.Slots.{
  slot_size, snapshot_in, read_active_slot, search_b, search_both, pick, active_checkpoint_dir,
  count_available_slots,
}
use user_level_checkpoint_re.Storage.{file_exists}
use user_level_checkpoint_re.Storage.Reading.{read_text_file-file}

module _ (fs : Files) (px : IsPosix fs) (paths : RuntimePaths) (q : Bytes) where
  open px use {file}

  pub read_active_slot-file :
      (size : ℕ) (w : fs.World) → file (read_active_slot fs paths size w).1 q ≡ file w q
  unfolding read_active_slot file_exists
  read_active_slot-file size w =
      let meta = paths.checkpoint_meta_file in
      elim (Bool-cases (fs.access meta w).0) [
        | inl there ↦
            rw there
              (read_text_file-file fs px meta 256 (fs.access meta w).1 q ∙ px.access-file meta w q)
        | inr missing ↦ rw missing (px.access-file meta w q)
      ]

  search_both-file :
      (size name_size : ℕ) (w : fs.World)
      → file (search_both fs paths size name_size w).1 q ≡ file w q
  unfolding search_both search_b file_exists
  search_both-file size name_size w =
      let dir = paths.checkpoint_slot_a_dir in
      let a = snapshot_in paths.checkpoint_slot_a_dir in
      let b = snapshot_in paths.checkpoint_slot_b_dir in
      let w1 = (fs.access dir w).1 in
      let w2 = (fs.access a w1).1 in
      elim (Bool-cases (fs.access dir w).0) [
        | inl there ↦ rw there (elim (Bool-cases (fs.access a w1).0) [
          | inl saved ↦ rw saved (px.access-file a w1 q ∙ px.access-file dir w q)
          | inr empty ↦
              rw empty (px.access-file b w2 q ∙ px.access-file a w1 q ∙ px.access-file dir w q)
        ])
        | inr missing ↦ rw missing (px.access-file b w1 q ∙ px.access-file dir w q)
      ]

  pick-file :
      (size name_size : ℕ) (active : Option Bytes) (w : fs.World)
      → file (pick fs paths size name_size active w).1 q ≡ file w q
  unfolding pick
  pick-file size name_size none w = search_both-file size name_size w
  pick-file size name_size (some active) w = refl

  -- Looking for the active slot changes no file.
  pub active_checkpoint_dir-file :
      (size name_size : ℕ) (w : fs.World)
      → file (active_checkpoint_dir fs paths size name_size w).1 q ≡ file w q
  unfolding active_checkpoint_dir
  active_checkpoint_dir-file size name_size w =
      let r = read_active_slot fs paths slot_size w in
      pick-file size name_size r.0 r.1 ∙ read_active_slot-file slot_size w

  pub count_available_slots-file :
      (w : fs.World) → file (count_available_slots fs paths w).1 q ≡ file w q
  unfolding count_available_slots file_exists
  count_available_slots-file w =
      let a = snapshot_in paths.checkpoint_slot_a_dir in
      let b = snapshot_in paths.checkpoint_slot_b_dir in
      px.access-file b (fs.access a w).1 q ∙ px.access-file a w q
