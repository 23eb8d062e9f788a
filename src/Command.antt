-- ===== src/Command.antt =====
-- The command line of src/main.c.
pub mod Exits
pub mod Looks
mod Examples
use user_level_checkpoint_re.Base.{
  ℕ, Bool, true, false, Option, none, some, List, [], ◌∷◌, ◌++◌, if◌then◌else◌, Bytes, codes,
  str_eq, Status, done, failed, is_failed,
}
use user_level_checkpoint_re.Base.Int.{ℤ}
use user_level_checkpoint_re.Config.{Config, load_config}
use user_level_checkpoint_re.Control.{
  init_runtime, start_process, restore_latest, fail_process, stop_process,
}
use user_level_checkpoint_re.Control.Report.{print_status}
use user_level_checkpoint_re.Cstring.Number.{print_ℤ_onto, atoi}
use user_level_checkpoint_re.Doubles.{Doubles}
use user_level_checkpoint_re.Files.{Files}
use user_level_checkpoint_re.Manager.{checkpoint_latest}
use user_level_checkpoint_re.Monitor.{Watch, Loop, watching, returned, monitor_loop}
use user_level_checkpoint_re.Paths.{RuntimePaths, prepare_runtime_paths}
use user_level_checkpoint_re.Processes.{Processes}
use user_level_checkpoint_re.Storage.{read_text_file}
use user_level_checkpoint_re.Tracer.{Tracer}

-- How a run ends: with its exit code and what it has written to the standard output and to the
-- standard error, or in the monitor's loop.
pub data Outcome (fs : Files) : Type 0 where
  exited : ℕ → Bytes → Bytes → fs.World → Outcome fs
  monitoring : Watch fs → Outcome fs

abbrev pub zero_if_done : Status → ℕ
zero_if_done done = 0
zero_if_done failed = 1

-- `usage`
abbrev pub usage_text : Bytes → Bytes
usage_text argv0 =
    codes "Usage: "
    ++ (argv0 ++ codes " <init|start|checkpoint|monitor|restore|status|fail|stop> <config>\n")

abbrev pub pid_line : Bytes → ℤ → Bytes
pid_line text pid = text ++ print_ℤ_onto pid (b'\n' ∷ [])

module _ (fs : Files) where
  open fs use {World}

  -- `fprintf(stderr, …); return 1`
  abbrev pub refuses : Bytes → World → Outcome fs
  refuses text w = exited 1 [] text w

  -- `started pid=%d` and `restored pid=%d`
  unfoldable pub tell_pid : Bytes → Bytes → Option ℤ → World → Outcome fs
  tell_pid text error none w = refuses error w
  tell_pid text error (some pid) w = exited 0 (pid_line text pid) [] w

  unfoldable pub tell_checkpoint : Status → World → Outcome fs
  tell_checkpoint failed w = refuses (codes "checkpoint failed\n") w
  tell_checkpoint done w = exited 0 (codes "checkpoint created\n") [] w

  unfoldable pub tell_loop : Loop fs → Outcome fs
  tell_loop (watching s) = monitoring s
  tell_loop (returned status w) = exited (zero_if_done status) [] [] w

module _ (fs : Files) (tr : Tracer fs) (fl : Doubles) (per_second : ℤ) (ps : Processes fs)
    (passes : ℕ) where
  open fs use {World}

  module _ (config : Config) (paths : RuntimePaths) where
    unfoldable pub checkpoint_read : Option Bytes → World → Outcome fs
    unfolding tell_checkpoint
    checkpoint_read none w = refuses fs (codes "missing pid file\n") w
    checkpoint_read (some buffer) w =
        let (status, w') = checkpoint_latest fs tr fl per_second config paths (atoi buffer) w in
        tell_checkpoint fs status w'

    -- The command `checkpoint`.
    unfoldable pub checkpoint_command : World → Outcome fs
    unfolding checkpoint_read
    checkpoint_command w =
        let (buffer, w') = read_text_file fs paths.pid_file 64 w in checkpoint_read buffer w'

    unfoldable pub start_command : World → Outcome fs
    unfolding tell_pid
    start_command w =
        let (pid, w') = start_process fs tr fl per_second config paths ps w in
        tell_pid fs (codes "started pid=") (codes "failed to start managed process\n") pid w'

    unfoldable pub restore_command : World → Outcome fs
    unfolding tell_pid
    restore_command w =
        let (pid, w') = restore_latest fs tr fl per_second config paths ps w in
        tell_pid fs (codes "restored pid=") (codes "restore failed\n") pid w'

    unfoldable pub monitor_command : World → Outcome fs
    unfolding tell_loop
    monitor_command w = tell_loop fs (monitor_loop fs tr fl per_second config paths ps passes w)

    unfoldable pub status_command : World → Outcome fs
    status_command w =
        let (text, w') = print_status fs tr fl per_second config paths w in exited 0 text [] w'

    unfoldable pub fail_command : World → Outcome fs
    fail_command w =
        let (status, w') = fail_process fs tr fl per_second config paths ps w in
        exited (zero_if_done status) [] [] w'

    unfoldable pub stop_command : World → Outcome fs
    stop_command w =
        let (status, w') = stop_process fs tr fl per_second config paths ps w in
        exited (zero_if_done status) [] [] w'

    -- The comparisons of `argv[1]`.
    unfoldable pub dispatch : Bytes → Bytes → World → Outcome fs
    unfolding checkpoint_command start_command restore_command monitor_command status_command
        fail_command stop_command
    dispatch argv0 command w =
        if str_eq command (codes "init")
        then exited 0 (codes "runtime initialized at " ++ (paths.runtime_dir ++ b'\n' ∷ [])) [] w
        else if str_eq command (codes "start")
        then start_command w
        else if str_eq command (codes "checkpoint")
        then checkpoint_command w
        else if str_eq command (codes "monitor")
        then monitor_command w
        else if str_eq command (codes "restore")
        then restore_command w
        else if str_eq command (codes "status")
        then status_command w
        else if str_eq command (codes "fail")
        then fail_command w
        else if str_eq command (codes "stop")
        then stop_command w
        else refuses fs (usage_text argv0) w

    unfoldable pub initialized : Bytes → Bytes → Status → World → Outcome fs
    unfolding dispatch
    initialized argv0 command failed w =
        refuses fs (codes "failed to initialize runtime layout\n") w
    initialized argv0 command done w = dispatch argv0 command w

    -- From `ulcr_init_runtime` on.
    unfoldable pub initialize : Bytes → Bytes → World → Outcome fs
    unfolding initialized
    initialize argv0 command w =
        let (status, w') = init_runtime fs paths w in initialized argv0 command status w'

  unfoldable pub configured : Bytes → Bytes → Bytes → Config × Status → World → Outcome fs
  unfolding initialize
  configured argv0 command path (config, failed) w =
      refuses fs (codes "failed to load config: " ++ (path ++ b'\n' ∷ [])) w
  configured argv0 command path (config, done) w =
      initialize config (prepare_runtime_paths config) argv0 command w

  abbrev pub name_of : List Bytes → Bytes
  name_of [] = codes "(null)"
  name_of (argv0 ∷ _) = argv0

  -- `main`, with the passes that the monitor's loop makes at most. Without any argument `argv[0]` is
  -- NULL, which glibc prints as "(null)".
  unfoldable pub main : List Bytes → World → Outcome fs
  unfolding configured
  main (argv0 ∷ command ∷ path ∷ []) w =
      let (contents, w') = ps.stream path w in
      configured argv0 command path (load_config contents) w'
  main argv w = refuses fs (usage_text (name_of argv)) w
