-- ===== src/Control/Records.antt =====
-- The pid file after `ulcr_start_process` and `ulcr_restore_latest` of src/manager.c.
use user_level_checkpoint_re.Base.{
  ℕ, ◌≡◌, refl, ◌∙◌, false, Option, none, some, List, ◌⊎◌, inl, inr, Bytes, codes, str_eq, take,
  done, Bool-cases, arith,
}
use user_level_checkpoint_re.Base.Int.{ℤ}
use user_level_checkpoint_re.Argv.{build_workload_argv}
use user_level_checkpoint_re.Common.{max_path}
use user_level_checkpoint_re.Config.{Config}
use user_level_checkpoint_re.Doubles.{Doubles}
use user_level_checkpoint_re.Files.{Files, write_append}
use user_level_checkpoint_re.Files.Calm.{IsCalm}
use user_level_checkpoint_re.Files.Posix.{IsPosix}
use user_level_checkpoint_re.Manager.{write_state_line}
use user_level_checkpoint_re.Manager.Aside.{IsAside, state-other, status-other}
use user_level_checkpoint_re.Paths.{RuntimePaths}
use user_level_checkpoint_re.Processes.{Processes, IsProcesses}
use user_level_checkpoint_re.Restore.{max_args, restore_managed_process}
use user_level_checkpoint_re.Slots.{slot_size, active_checkpoint_dir}
use user_level_checkpoint_re.Slots.Kept.{active_checkpoint_dir-file}
use user_level_checkpoint_re.Storage.{file_exists, write_text_file}
use user_level_checkpoint_re.Storage.Plain.{write_text_file-Written}
use user_level_checkpoint_re.Tracer.{Tracer}
use user_level_checkpoint_re.Control.{
  pid_text, read_pid_from_file, note_started, start_forked, start_logged, start_built,
  recorded_runs, start_process, note_restored, restore_forked, restore_found, restore_latest,
}
use user_level_checkpoint_re.Control.Keeps.{recorded_runs-file, restore_managed_process-file}
use user_level_checkpoint_re.Control.Pids.{IsPid, restore_latest-IsPid}
use user_level_checkpoint_re.Control.PidText.{read_pid_from_file-pid_text}

-- A pid file that is left as it was, or holds the first bytes of the text of a pid.
abbrev pub Recorded : Option Bytes → Option Bytes → ℤ → Type 0
Recorded before after pid = (after ≡ before) ⊎ ((n : ℕ) × (after ≡ some (take n (pid_text pid))))

Recorded-between :
    {before first second after : Option Bytes} (pid : ℤ)
    → first ≡ before
    → after ≡ second
    → Recorded first second pid
    → Recorded before after pid
Recorded-between pid e f (inl h) = inl (f ∙ h ∙ e)
Recorded-between pid e f (inr (n, h)) = inr (n, f ∙ h)

module _ (fs : Files) (px : IsPosix fs) (tr : Tracer fs) (fl : Doubles) (per_second : ℤ)
    (config : Config) (paths : RuntimePaths) (ps : Processes fs) (pl : IsProcesses fs px ps)
    (aside : IsAside paths paths.pid_file) where
  abbrev held : fs.World → Option Bytes
  held w = px.file w paths.pid_file

  state_line-held :
      (key value : Bytes) (w : fs.World)
      → held (write_state_line fs tr fl per_second config paths key value w).1 ≡ held w
  state_line-held key value w =
      state-other fs px tr fl per_second config paths paths.pid_file aside key value w

  note_started-Recorded :
      (pid : ℤ) (w : fs.World)
      → Recorded (held w) (held (note_started fs tr fl per_second config paths ps pid w)) pid
  unfolding note_started
  note_started-Recorded pid w =
      let w1 = (write_text_file fs paths.pid_file (pid_text pid) w).1 in
      let w2 =
        (write_state_line fs tr fl per_second config paths (codes "status") (codes "running")
          w1).1 in
      Recorded-between pid refl
        (status-other fs px tr fl per_second config paths paths.pid_file aside (codes "running\n")
            w2
          ∙ state_line-held (codes "status") (codes "running") w1)
        (write_text_file-Written fs px paths.pid_file (pid_text pid) w).old_or_part

  note_restored-Recorded :
      (pid : ℤ) (slot : Bytes) (w : fs.World)
      → Recorded (held w) (held (note_restored fs tr fl per_second config paths ps pid slot w)) pid
  unfolding note_restored
  note_restored-Recorded pid slot w =
      let w1 = (write_text_file fs paths.pid_file (pid_text pid) w).1 in
      let w2 =
        (write_state_line fs tr fl per_second config paths (codes "status") (codes "restored")
          w1).1 in
      let w3 =
        (write_state_line fs tr fl per_second config paths (codes "checkpoint_slot") slot w2).1 in
      Recorded-between pid refl
        (status-other fs px tr fl per_second config paths paths.pid_file aside (codes "restored\n")
            w3
          ∙ state_line-held (codes "checkpoint_slot") slot w2
          ∙ state_line-held (codes "status") (codes "restored") w1)
        (write_text_file-Written fs px paths.pid_file (pid_text pid) w).old_or_part

  start_logged-Recorded :
      (o : Option ℕ) (w : fs.World) (pid : ℤ)
      → (start_logged fs tr fl per_second config paths ps o w).0 ≡ some pid
      → IsPid pid
        × Recorded (held w) (held (start_logged fs tr fl per_second config paths ps o w).1) pid
  unfolding start_logged start_forked
  start_logged-Recorded none w pid e = absurd cc
  start_logged-Recorded (some fd) w pid e = go (ps.fork w).0 refl e
    where
      go :
          (child : Option ℤ)
          → (ps.fork w).0 ≡ child
          → (start_forked fs tr fl per_second config paths ps child
              (fs.close_file fd (ps.fork w).1)).0
            ≡ some pid
          → IsPid pid
            × Recorded
                (held w)
                (held
                  (start_forked fs tr fl per_second config paths ps child
                    (fs.close_file fd (ps.fork w).1)).1)
                pid
      go none k h = absurd cc
      go (some child) k h =
          let q : pid ≡ child = cc in
          rw q (
            pl.fork-pid w child k,
            Recorded-between child
                (px.close-file fd (ps.fork w).1 paths.pid_file ∙ pl.fork-file w paths.pid_file) refl
                (note_started-Recorded child (fs.close_file fd (ps.fork w).1)),
          )

  start_built-Recorded :
      (argv : Option (List Bytes)) (w : fs.World) (pid : ℤ)
      → str_eq paths.pid_file paths.process_log ≡ false
      → (start_built fs tr fl per_second config paths ps argv w).0 ≡ some pid
      → IsPid pid
        × Recorded (held w) (held (start_built fs tr fl per_second config paths ps argv w).1) pid
  unfolding start_built
  start_built-Recorded none w pid log e = absurd cc
  start_built-Recorded (some argv) w pid log e =
      let r = fs.open_file write_append paths.process_log w in
      let same : held r.1 ≡ held w =
        ground (arith, px.open-file write_append paths.process_log w paths.pid_file, log) in
      let (number, recorded) = start_logged-Recorded r.0 r.1 pid e in
      (number, Recorded-between pid same refl recorded)

  -- If `ulcr_start_process` gives a pid, it is one of a child, and the pid file is as before or
  -- holds the first bytes of this pid's text.
  pub start_process-Recorded :
      (w : fs.World) (pid : ℤ)
      → str_eq paths.pid_file paths.process_log ≡ false
      → (start_process fs tr fl per_second config paths ps w).0 ≡ some pid
      → IsPid pid
        × Recorded (held w) (held (start_process fs tr fl per_second config paths ps w).1) pid
  unfolding start_process file_exists
  start_process-Recorded w pid log e =
      let r = fs.access paths.pid_file w in
      let s = recorded_runs fs tr fl per_second config paths ps r.0 r.1 in
      let kept =
        recorded_runs-file fs px tr fl per_second config paths ps pl paths.pid_file r.0 r.1
        ∙ px.access-file paths.pid_file w paths.pid_file in
      let argv = build_workload_argv config.workload_path config.workload_args max_args in
      elim (Bool-cases s.0) [
        | inl running ↦ absurd (cc (rw running at e))
        | inr gone ↦ rw gone (
            let (number, recorded) = start_built-Recorded argv s.1 pid log (rw gone at e) in
            (number, Recorded-between pid kept refl recorded))
      ]

  restore_forked-Recorded :
      (slot : Bytes) (o : Option ℤ) (w : fs.World) (pid : ℤ)
      → (restore_forked fs tr fl per_second config paths ps slot o w).0 ≡ some pid
      → Recorded (held w) (held (restore_forked fs tr fl per_second config paths ps slot o w).1) pid
  unfolding restore_forked
  restore_forked-Recorded slot none w pid e = absurd cc
  restore_forked-Recorded slot (some child) w pid e =
      let q : pid ≡ child = cc in rw q (note_restored-Recorded child slot w)

  restore_found-Recorded :
      (active : Option (Bytes × Bytes)) (w : fs.World) (pid : ℤ)
      → (restore_found fs tr fl per_second config paths ps active w).0 ≡ some pid
      → Recorded (held w) (held (restore_found fs tr fl per_second config paths ps active w).1) pid
  unfolding restore_found
  restore_found-Recorded none w pid e = absurd cc
  restore_found-Recorded (some (dir, slot)) w pid e =
      let r = restore_managed_process fs ps tr.regs dir w in
      Recorded-between pid
        (restore_managed_process-file fs px tr fl per_second config paths ps pl paths.pid_file dir
          w)
        refl (restore_forked-Recorded slot r.0 r.1 pid e)

  -- The same of `ulcr_restore_latest`.
  pub restore_latest-Recorded :
      (w : fs.World) (pid : ℤ)
      → (restore_latest fs tr fl per_second config paths ps w).0 ≡ some pid
      → IsPid pid
        × Recorded (held w) (held (restore_latest fs tr fl per_second config paths ps w).1) pid
  unfolding restore_latest
  restore_latest-Recorded w pid e =
      let r = active_checkpoint_dir fs paths max_path slot_size w in
      (
        restore_latest-IsPid fs px tr fl per_second config paths ps pl w pid e,
        Recorded-between pid
            (active_checkpoint_dir-file fs px paths paths.pid_file max_path slot_size w) refl
            (restore_found-Recorded r.0 r.1 pid e),
      )

  module _ (Calm : fs.World → Type 0) (cm : IsCalm fs px Calm) where
    -- If `ulcr_start_process` gives a pid, this is an `int` above 0, and the pid file is as before or
    -- holds the first bytes of the pid's text. If it holds all of them, and no call fails from then
    -- on, `read_pid_from_file` gives the pid.
    pub start_process-read :
        (w : fs.World) (pid old : ℤ)
        → str_eq paths.pid_file paths.process_log ≡ false
        → (start_process fs tr fl per_second config paths ps w).0 ≡ some pid
        → Calm (start_process fs tr fl per_second config paths ps w).1
        → IsPid pid
          × Recorded (held w) (held (start_process fs tr fl per_second config paths ps w).1) pid
          × (held (start_process fs tr fl per_second config paths ps w).1 ≡ some (pid_text pid)
              → (read_pid_from_file fs paths.pid_file old
                  (start_process fs tr fl per_second config paths ps w).1).0
                ≡ (pid, done))
    start_process-read w pid old log e calm =
        let (number, recorded) = start_process-Recorded w pid log e in
        let w' = (start_process fs tr fl per_second config paths ps w).1 in
        (
          number,
          recorded,
          read_pid_from_file-pid_text fs px Calm cm paths.pid_file old pid w' number calm,
        )
