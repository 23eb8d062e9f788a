-- ===== src/Manager/Aside.antt =====
-- The parts of `ulcr_checkpoint_latest` that reach only the lock, the state file and the status file.
use user_level_checkpoint_re.Base.{
  ℕ, ◌≡◌, refl, ◌∙◌, false, Option, none, some, [], ◌∷◌, ◌++◌, Bytes, codes, str_eq, Bool-cases,
  Status-cases, inl, inr, arith,
}
use user_level_checkpoint_re.Base.Int.{ℤ}
use user_level_checkpoint_re.Common.{copied}
use user_level_checkpoint_re.Config.{Config}
use user_level_checkpoint_re.Cstring.Number.{print_ℤ_onto}
use user_level_checkpoint_re.Doubles.{Doubles}
use user_level_checkpoint_re.Files.{Files, write_create}
use user_level_checkpoint_re.Files.Posix.{IsPosix}
use user_level_checkpoint_re.Paths.{RuntimePaths}
use user_level_checkpoint_re.Slots.{slot_size, read_active_slot, choose_next_slot}
use user_level_checkpoint_re.Storage.{file_exists}
use user_level_checkpoint_re.Storage.Atomic.{tmp_of, atomic_write_text_file-Replaced}
use user_level_checkpoint_re.Storage.Reading.{read_text_file-file}
use user_level_checkpoint_re.Tracer.{Tracer}
use user_level_checkpoint_re.Manager.{
  write_status_file, write_state_line, lock_opened, lock_try_acquire, note_checkpoint,
}

-- None of the files that a checkpoint writes beside active.meta and the snapshot.
pub record IsAside (paths : RuntimePaths) (q : Bytes) : Type 0 where
  pub state : str_eq q paths.state_file ≡ false
  pub state_tmp : str_eq q (tmp_of paths.state_file) ≡ false
  pub status : str_eq q paths.status_file ≡ false
  pub status_tmp : str_eq q (tmp_of paths.status_file) ≡ false
  pub lock : str_eq q paths.checkpoint_lock_file ≡ false

module _ (fs : Files) (px : IsPosix fs) (tr : Tracer fs) (fl : Doubles) (per_second : ℤ)
    (config : Config) (paths : RuntimePaths) (q : Bytes) (aside : IsAside paths q) where
  open px use {file}

  lock_opened-other :
      (o : Option ℕ) (w : fs.World)
      → file (lock_opened fs tr fl per_second config paths o w).1 q ≡ file w q
  unfolding lock_opened
  lock_opened-other none w = refl
  lock_opened-other (some fd) w = elim (Status-cases (fs.flock fd w).0) [
    | inl locked ↦ rw locked (px.flock-file fd w q)
    | inr busy ↦ rw busy (px.close-file fd (fs.flock fd w).1 q ∙ px.flock-file fd w q)
  ]

  pub lock-other :
      (w : fs.World) → file (lock_try_acquire fs tr fl per_second config paths w).1 q ≡ file w q
  unfolding lock_try_acquire
  lock-other w =
      let path = paths.checkpoint_lock_file in
      lock_opened-other (fs.open_file write_create path w).0 (fs.open_file write_create path w).1
      ∙ ground (arith, px.open-file write_create path w q, aside.lock)

  read_active_slot-other :
      (w : fs.World) → file (read_active_slot fs paths slot_size w).1 q ≡ file w q
  unfolding read_active_slot file_exists
  read_active_slot-other w =
      let meta = paths.checkpoint_meta_file in
      elim (Bool-cases (fs.access meta w).0) [
        | inl there ↦
            rw there
              (read_text_file-file fs px meta 256 (fs.access meta w).1 q ∙ px.access-file meta w q)
        | inr missing ↦ rw missing (px.access-file meta w q)
      ]

  pub choose_next_slot-other :
      (w : fs.World) → file (choose_next_slot fs paths slot_size w).1 q ≡ file w q
  unfolding choose_next_slot
  choose_next_slot-other w = read_active_slot-other w

  pub state-other :
      (key value : Bytes) (w : fs.World)
      → file (write_state_line fs tr fl per_second config paths key value w).1 q ≡ file w q
  unfolding write_state_line
  state-other key value w =
      let r =
        atomic_write_text_file-Replaced fs px paths.state_file
          (copied 1024 (key ++ b'=' ∷ (value ++ b'\n' ∷ []))) w in
      r.others q aside.state aside.state_tmp

  pub status-other :
      (value : Bytes) (w : fs.World)
      → file (write_status_file fs tr fl per_second config paths value w).1 q ≡ file w q
  unfolding write_status_file
  status-other value w =
      let r = atomic_write_text_file-Replaced fs px paths.status_file value w in
      r.others q aside.status aside.status_tmp

  -- The three writes behind the commit.
  pub note_checkpoint-other :
      (slot : Bytes) (interval : ℤ) (w : fs.World)
      → file (note_checkpoint fs tr fl per_second config paths slot interval w) q ≡ file w q
  unfolding note_checkpoint
  note_checkpoint-other slot interval w =
      let w1 =
        (write_state_line fs tr fl per_second config paths (codes "checkpoint_slot") slot w).1 in
      let w2 = (write_status_file fs tr fl per_second config paths (codes "checkpointed\n") w1).1 in
      state-other (codes "checkpoint_interval_sec") (copied 64 (print_ℤ_onto interval [])) w2
      ∙ status-other (codes "checkpointed\n") w1
      ∙ state-other (codes "checkpoint_slot") slot w
