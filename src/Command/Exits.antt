-- ===== src/Command/Exits.antt =====
-- How the runs of src/main.c end.
use user_level_checkpoint_re.Base.{
  ℕ, ◌≤◌, ◌≡◌, refl, true, Option, none, some, List, [], ◌∷◌, Bytes, codes, str_eq, str_eq_iff,
  if◌then◌else◌, Status, done, failed, Bool-cases, inl, inr, arith,
}
use user_level_checkpoint_re.Base.Int.{ℤ}
use user_level_checkpoint_re.Config.{Config, load_config}
use user_level_checkpoint_re.Control.{
  init_runtime, start_process, restore_latest, fail_process, stop_process,
}
use user_level_checkpoint_re.Control.Report.{print_status}
use user_level_checkpoint_re.Cstring.Number.{atoi}
use user_level_checkpoint_re.Doubles.{Doubles}
use user_level_checkpoint_re.Files.{Files}
use user_level_checkpoint_re.Manager.{checkpoint_latest}
use user_level_checkpoint_re.Monitor.{Loop, watching, returned, monitor_loop}
use user_level_checkpoint_re.Paths.{RuntimePaths, prepare_runtime_paths}
use user_level_checkpoint_re.Processes.{Processes}
use user_level_checkpoint_re.Storage.{read_text_file}
use user_level_checkpoint_re.Tracer.{Tracer}
use user_level_checkpoint_re.Command.{
  Outcome, exited, monitoring, zero_if_done, tell_pid, tell_checkpoint, tell_loop, checkpoint_read,
  checkpoint_command, start_command, restore_command, monitor_command, status_command, fail_command,
  stop_command, dispatch, initialized, initialize, configured, main,
}

-- A run that has ended has the exit code 0 and nothing on the standard error, or the exit code 1 and
-- nothing on the standard output; one that has not is the monitor's.
abbrev pub EndsWell : {fs : Files} → Bytes → Outcome fs → Type 0
EndsWell command (exited code out err w) =
    (code ≤ 1) × (code ≡ 0 → err ≡ []) × (code ≡ 1 → out ≡ [])
EndsWell command (monitoring s) = command ≡ codes "monitor"

module _ (fs : Files) (command : Bytes) where
  tell_pid-EndsWell :
      (text error : Bytes) (o : Option ℤ) (w : fs.World)
      → EndsWell command (tell_pid fs text error o w)
  unfolding tell_pid
  tell_pid-EndsWell text error none w = (omega arith, λ e. absurd (omega arith), λ e. refl)
  tell_pid-EndsWell text error (some pid) w = (omega arith, λ e. refl, λ e. absurd (omega arith))

  tell_checkpoint-EndsWell :
      (status : Status) (w : fs.World) → EndsWell command (tell_checkpoint fs status w)
  unfolding tell_checkpoint
  tell_checkpoint-EndsWell failed w = (omega arith, λ e. absurd (omega arith), λ e. refl)
  tell_checkpoint-EndsWell done w = (omega arith, λ e. refl, λ e. absurd (omega arith))

  silent-EndsWell :
      (status : Status) (w : fs.World)
      → EndsWell {fs = fs} command (exited (zero_if_done status) [] [] w)
  silent-EndsWell failed w = (omega arith, λ e. refl, λ e. refl)
  silent-EndsWell done w = (omega arith, λ e. refl, λ e. refl)

  refused-EndsWell : (text : Bytes) (w : fs.World) → EndsWell {fs = fs} command (exited 1 [] text w)
  refused-EndsWell text w = (omega arith, λ e. absurd (omega arith), λ e. refl)

  told-EndsWell : (text : Bytes) (w : fs.World) → EndsWell {fs = fs} command (exited 0 text [] w)
  told-EndsWell text w = (omega arith, λ e. refl, λ e. absurd (omega arith))

  split :
      (name : Bytes) (a b : Outcome fs)
      → (str_eq command name ≡ true → EndsWell command a)
      → EndsWell command b
      → EndsWell command (if str_eq command name then a else b)
  split name a b f g = elim (Bool-cases (str_eq command name)) [
    | inl e ↦ rw e (f e)
    | inr e ↦ rw e g
  ]

  tell_loop-EndsWell :
      (l : Loop fs) → str_eq command (codes "monitor") ≡ true → EndsWell command (tell_loop fs l)
  unfolding tell_loop
  tell_loop-EndsWell (watching s) e = (str_eq_iff command (codes "monitor")).0 e
  tell_loop-EndsWell (returned status w) e = silent-EndsWell status w

module _ (fs : Files) (tr : Tracer fs) (fl : Doubles) (per_second : ℤ) (ps : Processes fs)
    (passes : ℕ) where
  module _ (config : Config) (paths : RuntimePaths) (command : Bytes) where
    checkpoint_read-EndsWell :
        (o : Option Bytes) (w : fs.World)
        → EndsWell command (checkpoint_read fs tr fl per_second ps passes config paths o w)
    unfolding checkpoint_read
    checkpoint_read-EndsWell none w = refused-EndsWell fs command _ w
    checkpoint_read-EndsWell (some b) w =
        let r = checkpoint_latest fs tr fl per_second config paths (atoi b) w in
        tell_checkpoint-EndsWell fs command r.0 r.1

    dispatch-EndsWell :
        (argv0 : Bytes) (w : fs.World)
        → EndsWell command (dispatch fs tr fl per_second ps passes config paths argv0 command w)
    unfolding dispatch checkpoint_command start_command restore_command monitor_command
        status_command fail_command stop_command
    dispatch-EndsWell argv0 w =
        let started = start_process fs tr fl per_second config paths ps w in
        let restored = restore_latest fs tr fl per_second config paths ps w in
        let loop = monitor_loop fs tr fl per_second config paths ps passes w in
        let pid = read_text_file fs paths.pid_file 64 w in
        let ended = fail_process fs tr fl per_second config paths ps w in
        let shown = print_status fs tr fl per_second config paths w in
        let stopped = stop_process fs tr fl per_second config paths ps w in
        split fs command (codes "init") _ _ (λ e. told-EndsWell fs command _ w)
          (split fs command (codes "start") _ _
            (λ e. tell_pid-EndsWell fs command (codes "started pid=") _ started.0 started.1)
            (split fs command (codes "checkpoint") _ _ (λ e. checkpoint_read-EndsWell pid.0 pid.1)
              (split fs command (codes "monitor") _ _ (λ e. tell_loop-EndsWell fs command loop e)
                (split fs command (codes "restore") _ _
                  (λ e.
                    tell_pid-EndsWell fs command (codes "restored pid=") _ restored.0 restored.1)
                  (split fs command (codes "status") _ _ (λ e. told-EndsWell fs command _ shown.1)
                    (split fs command (codes "fail") _ _
                      (λ e. silent-EndsWell fs command ended.0 ended.1)
                      (split fs command (codes "stop") _ _
                        (λ e. silent-EndsWell fs command stopped.0 stopped.1)
                        (refused-EndsWell fs command _ w))))))))

    initialized-EndsWell :
        (argv0 : Bytes) (status : Status) (w : fs.World)
        → EndsWell command
            (initialized fs tr fl per_second ps passes config paths argv0 command status w)
    unfolding initialized
    initialized-EndsWell argv0 failed w = refused-EndsWell fs command _ w
    initialized-EndsWell argv0 done w = dispatch-EndsWell argv0 w

  configured-EndsWell :
      (argv0 command path : Bytes) (loaded : Config × Status) (w : fs.World)
      → EndsWell command (configured fs tr fl per_second ps passes argv0 command path loaded w)
  unfolding configured initialize
  configured-EndsWell argv0 command path (config, failed) w = refused-EndsWell fs command _ w
  configured-EndsWell argv0 command path (config, done) w =
      let paths = prepare_runtime_paths config in
      let r = init_runtime fs paths w in initialized-EndsWell config paths command argv0 r.0 r.1

  -- The command of a run, if it has one.
  abbrev pub command_of : List Bytes → Bytes
  command_of (argv0 ∷ command ∷ _) = command
  command_of _ = []

  -- On every argument vector, whatever fails, `main` ends with the exit code 0 and nothing on the
  -- standard error, or with the exit code 1 and nothing on the standard output; only the command
  -- `monitor` may go on after the passes that are given to its loop.
  pub main-EndsWell :
      (argv : List Bytes) (w : fs.World)
      → EndsWell (command_of argv) (main fs tr fl per_second ps passes argv w)
  unfolding main
  main-EndsWell [] w = refused-EndsWell fs [] _ w
  main-EndsWell (argv0 ∷ []) w = refused-EndsWell fs [] _ w
  main-EndsWell (argv0 ∷ command ∷ []) w = refused-EndsWell fs command _ w
  main-EndsWell (argv0 ∷ command ∷ path ∷ []) w =
      let r = ps.stream path w in configured-EndsWell argv0 command path (load_config r.0) r.1
  main-EndsWell (argv0 ∷ command ∷ path ∷ more ∷ rest) w = refused-EndsWell fs command _ w
