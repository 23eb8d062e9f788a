-- ===== src/Manager/Commit.antt =====
-- `ulcr_checkpoint_latest` of src/manager.c and active.meta.
use user_level_checkpoint_re.Base.{
  ℕ, ◌≡◌, refl, sym, subst, ◌∙◌, ap, Option, none, some, Bytes, Status, done, failed, Status-cases,
  ◌⊎◌, inl, inr,
}
use user_level_checkpoint_re.Base.Int.{ℤ}
use user_level_checkpoint_re.Capture.{capture_snapshot}
use user_level_checkpoint_re.Capture.Others.{IsOther, capture_snapshot-others}
use user_level_checkpoint_re.Common.{max_path}
use user_level_checkpoint_re.Config.{Config}
use user_level_checkpoint_re.Doubles.{Doubles}
use user_level_checkpoint_re.Files.{Files}
use user_level_checkpoint_re.Files.Posix.{IsPosix}
use user_level_checkpoint_re.Interval.{dynamic_interval}
use user_level_checkpoint_re.Paths.{RuntimePaths}
use user_level_checkpoint_re.Procfs.Uptime.{runtime_seconds}
use user_level_checkpoint_re.Slots.{
  slot_size, slot_directory_for_name, choose_next_slot, write_active_metadata,
}
use user_level_checkpoint_re.Slots.Rotation.{Names, write_active_metadata_lem}
use user_level_checkpoint_re.Tracer.{Tracer, IsTracer}
use user_level_checkpoint_re.Manager.{
  or_zero, lock_release, noted, commit, capture_into, checkpoint_slot, checkpoint_locked,
}
use user_level_checkpoint_re.Manager.Aside.{IsAside, choose_next_slot-other, note_checkpoint-other}

-- Something stays as it was or has become new, and has become new if the status is success.
pub record Changes {A : Type 0} (before after : A) (New : Type 0) (status : Status) : Type 0 where
  pub old_or_new : (after ≡ before) ⊎ New
  pub new_if_done : status ≡ done → New

Changes-to :
    {A : Type 0}
    → (N : A → Type 0) (before after last : A) (status : Status) → after ≡ last
    → Changes before after (N after) status
    → Changes before last (N last) status
Changes-to N before after last status e c = subst (λ o. Changes before o (N o) status) e c

module _ {A : Type 0} {New : Type 0} where
  Changes-not :
      (before after : A) (status : Status)
      → status ≡ failed
      → after ≡ before
      → Changes before after New status
  Changes-not before after status f e = record { old_or_new = inl e; new_if_done = λ d. cc }

  Changes-from :
      (first before after : A) (status : Status)
      → before ≡ first
      → Changes before after New status
      → Changes first after New status
  Changes-from first before after status e c = record {
    old_or_new = move c.old_or_new;
    new_if_done = c.new_if_done;
  }
    where
      move : (after ≡ before) ⊎ New → (after ≡ first) ⊎ New
      move (inl k) = inl (k ∙ e)
      move (inr n) = inr n

  Changes-map :
      {Newer : Type 0} (before after : A) (status : Status)
      → (New → Newer)
      → Changes before after New status
      → Changes before after Newer status
  Changes-map {Newer} before after status f c = record {
    old_or_new = move c.old_or_new;
    new_if_done = λ d. f (c.new_if_done d);
  }
    where
      move : (after ≡ before) ⊎ New → (after ≡ before) ⊎ Newer
      move (inl k) = inl k
      move (inr n) = inr (f n)

module _ (fs : Files) (px : IsPosix fs) (tr : Tracer fs) (tl : IsTracer fs px tr) (fl : Doubles)
    (per_second : ℤ) (config : Config) (paths : RuntimePaths)
    (aside : IsAside paths paths.checkpoint_meta_file) where
  open px use {file}

  abbrev meta : Bytes
  meta = paths.checkpoint_meta_file

  -- The contents are a record of the slot.
  abbrev pub IsRecordOf : Bytes → Option Bytes → Type 0
  IsRecordOf slot o = (interval : ℤ) × (text : Bytes) × Names fs px paths slot interval text o

  commit-meta :
      (pid : ℤ) (slot : Bytes) (w : fs.World)
      → Changes
          (file w meta)
          (file (commit fs tr fl per_second config paths pid slot w).1 meta)
          (IsRecordOf slot (file (commit fs tr fl per_second config paths pid slot w).1 meta))
          (commit fs tr fl per_second config paths pid slot w).0
  unfolding commit
  commit-meta pid slot w =
      let runtime = runtime_seconds fl per_second (tr.proc w) pid in
      let interval = dynamic_interval fl config.checkpoint_interval_sec runtime in
      let text = fl.print_2f (or_zero fl runtime) in
      let r = write_active_metadata fs paths slot interval text w in
      let l = write_active_metadata_lem fs px paths slot interval text w in
      go slot interval text r.0 r.1 (file w meta) l.0 l.1
    where
      go :
          (s : Bytes) (i : ℤ) (t : Bytes) (status : Status) (v : fs.World) (before : Option Bytes)
          → (file v meta ≡ before) ⊎ Names fs px paths s i t (file v meta)
          → (status ≡ done → Names fs px paths s i t (file v meta))
          → Changes before
              (file (noted fs tr fl per_second config paths s i status v).1 meta)
              (IsRecordOf s (file (noted fs tr fl per_second config paths s i status v).1 meta))
              (noted fs tr fl per_second config paths s i status v).0
      go s i t done v before either sure =
          let k = note_checkpoint-other fs px tr fl per_second config paths meta aside s i v in
          let (stamp, e) = sure refl in
          record {
            old_or_new = inr (i, t, (stamp, k ∙ e));
            new_if_done = λ d. (i, t, (stamp, k ∙ e));
          }
      go s i t failed v before (inl e) sure = record { old_or_new = inl e; new_if_done = λ d. cc }
      go s i t failed v before (inr n) sure = record {
        old_or_new = inr (i, t, n);
        new_if_done = λ d. cc;
      }

  -- A capture into `dir` has succeeded, and active.meta is a record of the slot.
  abbrev pub IsCommitted : ℤ → Bytes → Bytes → fs.World → Option Bytes → Type 0
  IsCommitted pid slot dir w o =
      ((capture_snapshot fs tr pid config.process_name dir w).0 ≡ done) × IsRecordOf slot o

  capture_into-meta :
      (pid : ℤ) (slot dir : Bytes) (w : fs.World)
      → IsOther fs px tr tl dir meta
      → Changes
          (file w meta)
          (file (capture_into fs tr fl per_second config paths pid slot (some dir) w).1 meta)
          (IsCommitted pid slot dir w
            (file (capture_into fs tr fl per_second config paths pid slot (some dir) w).1 meta))
          (capture_into fs tr fl per_second config paths pid slot (some dir) w).0
  unfolding capture_into
  capture_into-meta pid slot dir w other =
      let r = capture_snapshot fs tr pid config.process_name dir w in
      let kept = capture_snapshot-others fs px tr tl pid config.process_name dir meta w other in
      let o = file (commit fs tr fl per_second config paths pid slot r.1).1 meta in
      let status = (commit fs tr fl per_second config paths pid slot r.1).0 in
      elim (Status-cases r.0) [
        | inl captured ↦ rw captured (
            Changes-from (file w meta) (file r.1 meta) o status kept
              (Changes-map (file r.1 meta) o status (λ n. (refl, n)) (commit-meta pid slot r.1)))
        | inr lost ↦ rw lost (Changes-not (file w meta) (file r.1 meta) failed refl kept)
      ]

  -- The slot of a committed checkpoint is the one that was chosen, in the state `w`.
  abbrev pub IsCheckpoint : ℤ → fs.World → Option Bytes → Type 0
  IsCheckpoint pid w o =
      (slot : Bytes) × (dir : Bytes) × ((choose_next_slot fs paths slot_size w).0 ≡ some slot)
      × (slot_directory_for_name paths slot max_path ≡ some dir)
      × IsCommitted pid slot dir (choose_next_slot fs paths slot_size w).1 o

  -- The files of the slots are not active.meta.
  abbrev pub SlotsApart : Type 0
  SlotsApart =
      (slot dir : Bytes)
      → slot_directory_for_name paths slot max_path ≡ some dir
      → IsOther fs px tr tl dir meta

  checkpoint_slot-meta :
      (pid : ℤ) (chosen : Option Bytes) (w v : fs.World)
      → SlotsApart
      → choose_next_slot fs paths slot_size w ≡ (chosen, v)
      → Changes
          (file v meta)
          (file (checkpoint_slot fs tr fl per_second config paths pid chosen v).1 meta)
          (IsCheckpoint pid w
            (file (checkpoint_slot fs tr fl per_second config paths pid chosen v).1 meta))
          (checkpoint_slot fs tr fl per_second config paths pid chosen v).0
  unfolding checkpoint_slot
  checkpoint_slot-meta pid none w v apart e =
      Changes-not (file v meta) (file v meta) failed refl refl
  checkpoint_slot-meta pid (some slot) w v apart e =
      go (slot_directory_for_name paths slot max_path) refl
    where
      go :
          (o : Option Bytes)
          → slot_directory_for_name paths slot max_path ≡ o
          → Changes
              (file v meta)
              (file (capture_into fs tr fl per_second config paths pid slot o v).1 meta)
              (IsCheckpoint pid w
                (file (capture_into fs tr fl per_second config paths pid slot o v).1 meta))
              (capture_into fs tr fl per_second config paths pid slot o v).0
      go none d = unfold capture_into in Changes-not (file v meta) (file v meta) failed refl refl
      go (some dir) d =
          let r = capture_into fs tr fl per_second config paths pid slot (some dir) v in
          Changes-map (file v meta) (file r.1 meta) r.0
            (λ c. (slot, dir, ap (λ x. x.0) e, d, rw (ap (λ x. x.1) e) c))
            (capture_into-meta pid slot dir v (apart slot dir d))

  checkpoint_locked-meta :
      (pid : ℤ) (fd : ℕ) (w : fs.World)
      → SlotsApart
      → Changes
          (file w meta)
          (file (checkpoint_locked fs tr fl per_second config paths pid (some fd) w).1 meta)
          (IsCheckpoint pid w
            (file (checkpoint_locked fs tr fl per_second config paths pid (some fd) w).1 meta))
          (checkpoint_locked fs tr fl per_second config paths pid (some fd) w).0
  unfolding checkpoint_locked lock_release
  checkpoint_locked-meta pid fd w apart =
      let r = choose_next_slot fs paths slot_size w in
      let s = checkpoint_slot fs tr fl per_second config paths pid r.0 r.1 in
      let same = choose_next_slot-other fs px tr fl per_second config paths meta aside w in
      let released = px.close-file fd (fs.funlock fd s.1) meta ∙ px.funlock-file fd s.1 meta in
      Changes-to (IsCheckpoint pid w) (file w meta) (file s.1 meta)
        (file (fs.close_file fd (fs.funlock fd s.1)) meta) s.0 (sym released)
        (Changes-from (file w meta) (file r.1 meta) (file s.1 meta) s.0 same
          (checkpoint_slot-meta pid r.0 w r.1 apart refl))

  -- Whichever calls of `ulcr_checkpoint_latest` fail behind the lock, active.meta is as before, or
  -- it is a record of the slot that was chosen and the capture into this slot's directory has
  -- succeeded; on success it is that record. The paths are such that active.meta is none of the
  -- other files that a checkpoint writes.
  pub checkpoint_locked-commits :
      (pid : ℤ) (lock_fd : Option ℕ) (w : fs.World)
      → SlotsApart
      → Changes
          (file w meta)
          (file (checkpoint_locked fs tr fl per_second config paths pid lock_fd w).1 meta)
          (IsCheckpoint pid w
            (file (checkpoint_locked fs tr fl per_second config paths pid lock_fd w).1 meta))
          (checkpoint_locked fs tr fl per_second config paths pid lock_fd w).0
  checkpoint_locked-commits pid none w apart =
      unfold checkpoint_locked in Changes-not (file w meta) (file w meta) failed refl refl
  checkpoint_locked-commits pid (some fd) w apart = checkpoint_locked-meta pid fd w apart
