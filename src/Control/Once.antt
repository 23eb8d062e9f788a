-- ===== src/Control/Once.antt =====
-- `ulcr_start_process` of src/manager.c where the recorded process still runs.
use user_level_checkpoint_re.Base.{
  ◌≡◌, refl, ◌∙◌, true, none, some, ◌++◌, [], Bytes, codes, Status, done,
}
use user_level_checkpoint_re.Base.Int.{ℤ, pos}
use user_level_checkpoint_re.Common.{copied}
use user_level_checkpoint_re.Config.{Config}
use user_level_checkpoint_re.Cstring.Number.{print_ℤ_onto}
use user_level_checkpoint_re.Doubles.{Doubles}
use user_level_checkpoint_re.Files.{Files}
use user_level_checkpoint_re.Files.Calm.{IsCalm}
use user_level_checkpoint_re.Files.Posix.{IsPosix}
use user_level_checkpoint_re.Manager.{process_exists}
use user_level_checkpoint_re.Paths.{RuntimePaths}
use user_level_checkpoint_re.Processes.{Processes, IsProcesses}
use user_level_checkpoint_re.Storage.{file_exists}
use user_level_checkpoint_re.Tracer.{Tracer}
use user_level_checkpoint_re.Control.{
  pid_text, read_pid_from_file, still_runs, recorded_runs, start_process,
}
use user_level_checkpoint_re.Control.Keeps.{read_pid_from_file-file, recorded_runs-file}
use user_level_checkpoint_re.Control.Pids.{IsPid}
use user_level_checkpoint_re.Control.PidText.{read_pid_from_file-pid_text}

-- `/proc/<pid>`
abbrev pub proc_dir : ℤ → Bytes
proc_dir pid = copied 64 (codes "/proc/" ++ print_ℤ_onto pid [])

module _ (fs : Files) (px : IsPosix fs) (Calm : fs.World → Type 0) (cm : IsCalm fs px Calm)
    (tr : Tracer fs) (fl : Doubles) (per_second : ℤ) (config : Config) (paths : RuntimePaths)
    (ps : Processes fs) (pl : IsProcesses fs px ps) where
  open px use {file}

  still_runs_there :
      (r : ℤ × Status) (pid : ℤ) (w : fs.World) (c : Bytes)
      → r ≡ (pid, done)
      → file w (proc_dir pid) ≡ some c
      → (still_runs fs tr fl per_second config paths ps r w).0 ≡ true
  unfolding still_runs process_exists file_exists
  still_runs_there r pid w c e there = rw e (px.access_there (proc_dir pid) w c there)

  recorded_runs_there :
      (pid : ℤ) (w : fs.World) (c : Bytes)
      → IsPid pid
      → Calm w
      → file w paths.pid_file ≡ some (pid_text pid)
      → file w (proc_dir pid) ≡ some c
      → (recorded_runs fs tr fl per_second config paths ps true w).0 ≡ true
  unfolding recorded_runs
  recorded_runs_there pid w c h calm here there =
      let r = read_pid_from_file fs paths.pid_file (pos 0) w in
      still_runs_there r.0 pid r.1 c
        (read_pid_from_file-pid_text fs px Calm cm paths.pid_file (pos 0) pid w h calm here)
        (read_pid_from_file-file fs px paths.pid_file (pos 0) w (proc_dir pid) ∙ there)

  -- Where the pid file holds the text of a child's pid whose directory is under /proc, and no call
  -- fails, `ulcr_start_process` starts nothing: it returns -1 and changes no file.
  pub start_process-refuses :
      (pid : ℤ) (w : fs.World) (c : Bytes)
      → IsPid pid
      → Calm w
      → file w paths.pid_file ≡ some (pid_text pid)
      → file w (proc_dir pid) ≡ some c
      → ((start_process fs tr fl per_second config paths ps w).0 ≡ none)
        × ((q : Bytes) → file (start_process fs tr fl per_second config paths ps w).1 q ≡ file w q)
  unfolding start_process file_exists
  start_process-refuses pid w c h calm here there =
      let r = fs.access paths.pid_file w in
      let found = px.access_there paths.pid_file w (pid_text pid) here in
      let runs =
        recorded_runs_there pid r.1 c h (cm.access-calm paths.pid_file w calm)
          (px.access-file paths.pid_file w paths.pid_file ∙ here)
          (px.access-file paths.pid_file w (proc_dir pid) ∙ there) in
      rw (found, runs)
        (
          refl,
          λ q.
              recorded_runs-file fs px tr fl per_second config paths ps pl q true r.1
              ∙ px.access-file paths.pid_file w q,
        )
