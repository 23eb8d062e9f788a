-- ===== src/Manager/Ready.antt =====
-- A slot's snapshot.bin over `ulcr_checkpoint_latest` of src/manager.c.
use user_level_checkpoint_re.Base.{
  ℕ, ◌≡◌, refl, ◌∙◌, Option, none, some, [], ◌++◌, ◌⊎◌, inl, inr, Bytes, codes, Status, Bool-cases,
  Status-cases,
}
use user_level_checkpoint_re.Base.Int.{ℤ}
use user_level_checkpoint_re.Capture.{bin_path, capture_snapshot}
use user_level_checkpoint_re.Capture.Others.{IsOther, capture_snapshot-others}
use user_level_checkpoint_re.Capture.Snapshots.{
  IsSnapshot, IsDistinct, OldOrSnapshot, capture_snapshot-OldOrSnapshot,
}
use user_level_checkpoint_re.Common.{max_path, copied}
use user_level_checkpoint_re.Config.{Config}
use user_level_checkpoint_re.Cstring.Number.{print_ℤ_onto}
use user_level_checkpoint_re.Doubles.{Doubles}
use user_level_checkpoint_re.Files.{Files}
use user_level_checkpoint_re.Files.Posix.{IsPosix}
use user_level_checkpoint_re.Paths.{RuntimePaths}
use user_level_checkpoint_re.Slots.{slot_size, slot_directory_for_name, choose_next_slot}
use user_level_checkpoint_re.Storage.{file_exists}
use user_level_checkpoint_re.Tracer.{Tracer, IsTracer}
use user_level_checkpoint_re.Manager.Aside.{lock-other, choose_next_slot-other}
use user_level_checkpoint_re.Manager.Keeps.{IsUntouched, commit-other}
use user_level_checkpoint_re.Manager.{
  lock_try_acquire, lock_release, process_exists, capture_into, checkpoint_slot, checkpoint_locked,
  checkpoint_latest,
}

module _ (fs : Files) (px : IsPosix fs) (tr : Tracer fs) (tl : IsTracer fs px tr) where
  -- A file that is absent or the whole snapshot of a process as it was in some state.
  abbrev pub IsReady : Option Bytes → Type 0
  IsReady o =
      (o ≡ none)
      ⊎ ((pid : ℤ) × (name : Bytes) × (v : fs.World) × IsSnapshot fs px tr tl pid name v o)

  -- Where the snapshot.bin of a slot's directory lies: its own three neighbours have other names, no
  -- other file of the checkpoint command has its name, and a directory that the command captures
  -- into is this one or has other files.
  pub record IsSlotDir (paths : RuntimePaths) (dir : Bytes) : Type 0 where
    pub distinct : IsDistinct fs px tr tl dir
    pub untouched : IsUntouched paths (bin_path fs tr dir)
    pub slots :
        (slot other : Bytes)
        → slot_directory_for_name paths slot max_path ≡ some other
        → (other ≡ dir) ⊎ IsOther fs px tr tl other (bin_path fs tr dir)

  pub IsReady-same : {o o' : Option Bytes} → o' ≡ o → IsReady o → IsReady o'
  IsReady-same e r = rw e r

  OldOrSnapshot-IsReady :
      {pid : ℤ} {name : Bytes} {v : fs.World} {before after : Option Bytes} {status : Status}
      → IsReady before
      → OldOrSnapshot fs px tr tl pid name v before after status
      → IsReady after
  OldOrSnapshot-IsReady {pid} {name} {v} {before} {after} ready h = go h.old_or_snapshot
    where
      go : (after ≡ before) ⊎ IsSnapshot fs px tr tl pid name v after → IsReady after
      go (inl e) = IsReady-same e ready
      go (inr s) = inr (pid, name, v, s)

  module _ (fl : Doubles) (per_second : ℤ) (config : Config) (paths : RuntimePaths) (dir : Bytes)
      (here : IsSlotDir paths dir) where
    open px use {file}

    abbrev bin : Bytes
    bin = bin_path fs tr dir

    captured :
        (pid : ℤ) (name other : Bytes) (w : fs.World)
        → ((other ≡ dir) ⊎ IsOther fs px tr tl other bin)
        → IsReady (file w bin)
        → IsReady (file (capture_snapshot fs tr pid name other w).1 bin)
    captured pid name other w (inl e) ready = rw e (
        OldOrSnapshot-IsReady ready
          (capture_snapshot-OldOrSnapshot fs px tr tl pid name dir here.distinct w))
    captured pid name other w (inr o) ready =
        IsReady-same (capture_snapshot-others fs px tr tl pid name other bin w o) ready

    capture_into-IsReady :
        (pid : ℤ) (slot : Bytes) (o : Option Bytes) (w : fs.World)
        → ((other : Bytes) → o ≡ some other → (other ≡ dir) ⊎ IsOther fs px tr tl other bin)
        → IsReady (file w bin)
        → IsReady (file (capture_into fs tr fl per_second config paths pid slot o w).1 bin)
    unfolding capture_into
    capture_into-IsReady pid slot none w h ready = ready
    capture_into-IsReady pid slot (some other) w h ready =
        let r = capture_snapshot fs tr pid config.process_name other w in
        let now = captured pid config.process_name other w (h other refl) ready in
        elim (Status-cases r.0) [
          | inl saved ↦ rw saved (
              IsReady-same
                (commit-other fs px tr tl fl per_second config paths bin here.untouched pid slot
                  r.1)
                now)
          | inr lost ↦ rw lost now
        ]

    checkpoint_slot-IsReady :
        (pid : ℤ) (o : Option Bytes) (w : fs.World)
        → IsReady (file w bin)
        → IsReady (file (checkpoint_slot fs tr fl per_second config paths pid o w).1 bin)
    unfolding checkpoint_slot
    checkpoint_slot-IsReady pid none w ready = ready
    checkpoint_slot-IsReady pid (some slot) w ready =
        capture_into-IsReady pid slot (slot_directory_for_name paths slot max_path) w
          (here.slots slot) ready

    checkpoint_locked-IsReady :
        (pid : ℤ) (o : Option ℕ) (w : fs.World)
        → IsReady (file w bin)
        → IsReady (file (checkpoint_locked fs tr fl per_second config paths pid o w).1 bin)
    unfolding checkpoint_locked lock_release
    checkpoint_locked-IsReady pid none w ready = ready
    checkpoint_locked-IsReady pid (some fd) w ready =
        let r = choose_next_slot fs paths slot_size w in
        let w2 = (checkpoint_slot fs tr fl per_second config paths pid r.0 r.1).1 in
        IsReady-same (px.close-file fd (fs.funlock fd w2) bin ∙ px.funlock-file fd w2 bin) (
          checkpoint_slot-IsReady pid r.0 r.1 (
            IsReady-same
              (choose_next_slot-other fs px tr fl per_second config paths bin here.untouched.aside
                w)
              ready))

    -- A slot whose snapshot.bin is absent or whole stays such over `ulcr_checkpoint_latest`,
    -- whichever calls fail.
    pub checkpoint_latest-IsReady :
        (pid : ℤ) (w : fs.World)
        → IsReady (file w bin)
        → IsReady (file (checkpoint_latest fs tr fl per_second config paths pid w).1 bin)
    unfolding checkpoint_latest process_exists file_exists
    checkpoint_latest-IsReady pid w ready =
        let path = copied 64 (codes "/proc/" ++ print_ℤ_onto pid []) in
        let w1 = (fs.access path w).1 in
        let kept = px.access-file path w bin in
        let r = lock_try_acquire fs tr fl per_second config paths w1 in
        elim (Bool-cases (fs.access path w).0) [
          | inl running ↦ rw running (
              checkpoint_locked-IsReady pid r.0 r.1 (
                IsReady-same
                  (lock-other fs px tr fl per_second config paths bin here.untouched.aside w1
                    ∙ kept)
                  ready))
          | inr gone ↦ rw gone (IsReady-same kept ready)
        ]
