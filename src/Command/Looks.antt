-- ===== src/Command/Looks.antt =====
-- The runs of src/main.c that only look at the files.
use user_level_checkpoint_re.Base.{
  ℕ, ◌≡◌, refl, ◌∙◌, false, [], ◌∷◌, Bytes, codes, str_eq, Status, done, failed, Bool-cases, inl,
  inr,
}
use user_level_checkpoint_re.Base.Int.{ℤ}
use user_level_checkpoint_re.Config.{Config, load_config}
use user_level_checkpoint_re.Control.{init_runtime}
use user_level_checkpoint_re.Control.Looks.{init_runtime-file, print_status-file}
use user_level_checkpoint_re.Doubles.{Doubles}
use user_level_checkpoint_re.Files.{Files}
use user_level_checkpoint_re.Files.Posix.{IsPosix}
use user_level_checkpoint_re.Paths.{RuntimePaths, prepare_runtime_paths}
use user_level_checkpoint_re.Processes.{Processes, IsProcesses}
use user_level_checkpoint_re.Tracer.{Tracer}
use user_level_checkpoint_re.Command.{
  Outcome, exited, monitoring, status_command, dispatch, initialized, initialize, configured, main,
}

-- Where a run has ended, it has left the machine in a state.
abbrev pub EndsIn : {fs : Files} → (fs.World → Type 0) → Outcome fs → Type 0
EndsIn Good (exited code out err w) = Good w
EndsIn Good (monitoring s) = ⊥

-- Not one of the six commands that write.
pub record IsLooking (command : Bytes) : Type 0 where
  pub not_start : str_eq command (codes "start") ≡ false
  pub not_checkpoint : str_eq command (codes "checkpoint") ≡ false
  pub not_monitor : str_eq command (codes "monitor") ≡ false
  pub not_restore : str_eq command (codes "restore") ≡ false
  pub not_fail : str_eq command (codes "fail") ≡ false
  pub not_stop : str_eq command (codes "stop") ≡ false

module _ (fs : Files) (px : IsPosix fs) (tr : Tracer fs) (fl : Doubles) (per_second : ℤ)
    (ps : Processes fs) (pl : IsProcesses fs px ps) (passes : ℕ) (q : Bytes) where
  open px use {file}

  -- The file at `q` is as in `w`.
  abbrev pub Keeps : fs.World → fs.World → Type 0
  Keeps w w' = file w' q ≡ file w q

  dispatch-Keeps :
      (config : Config) (paths : RuntimePaths) (argv0 command : Bytes) (w : fs.World)
      → IsLooking command
      → EndsIn (Keeps w) (dispatch fs tr fl per_second ps passes config paths argv0 command w)
  unfolding dispatch status_command
  dispatch-Keeps config paths argv0 command w l =
      let kept = print_status-file fs px tr fl per_second config paths ps pl q w in
      rw (l.not_start, l.not_checkpoint, l.not_monitor, l.not_restore, l.not_fail, l.not_stop)
        (elim (Bool-cases (str_eq command (codes "init"))) [
          | inl e ↦ rw e refl
          | inr n ↦ rw n (elim (Bool-cases (str_eq command (codes "status"))) [
            | inl e ↦ rw e kept
            | inr o ↦ rw o refl
          ])
        ])

  EndsIn-from :
      (o : Outcome fs) (w w' : fs.World) → Keeps w w' → EndsIn (Keeps w') o → EndsIn (Keeps w) o
  EndsIn-from (exited code out err u) w w' k e = e ∙ k
  EndsIn-from (monitoring s) w w' k e = e

  initialized-Keeps :
      (config : Config) (paths : RuntimePaths) (argv0 command : Bytes) (status : Status)
      (w : fs.World)
      → IsLooking command
      → EndsIn
          (Keeps w)
          (initialized fs tr fl per_second ps passes config paths argv0 command status w)
  unfolding initialized
  initialized-Keeps config paths argv0 command failed w l = refl
  initialized-Keeps config paths argv0 command done w l =
      dispatch-Keeps config paths argv0 command w l

  configured-Keeps :
      (argv0 command path : Bytes) (loaded : Config × Status) (w : fs.World)
      → IsLooking command
      → EndsIn (Keeps w) (configured fs tr fl per_second ps passes argv0 command path loaded w)
  unfolding configured initialize
  configured-Keeps argv0 command path (config, failed) w l = refl
  configured-Keeps argv0 command path (config, done) w l =
      let paths = prepare_runtime_paths config in
      let r = init_runtime fs paths w in
      let kept = init_runtime-file fs px tr fl per_second config paths ps pl q w in
      EndsIn-from _ w r.1 kept (initialized-Keeps config paths argv0 command r.0 r.1 l)

  -- The commands `init` and `status`, and each text that is no command, change no file, whichever
  -- calls fail and whatever the configuration is; each of these runs ends.
  pub main-Keeps :
      (argv0 command path : Bytes) (w : fs.World)
      → IsLooking command
      → EndsIn (Keeps w) (main fs tr fl per_second ps passes (argv0 ∷ command ∷ path ∷ []) w)
  unfolding main
  main-Keeps argv0 command path w l =
      let r = ps.stream path w in
      EndsIn-from _ w r.1 (pl.stream-file path w q)
        (configured-Keeps argv0 command path (load_config r.0) r.1 l)
