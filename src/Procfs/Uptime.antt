-- ===== src/Procfs/Uptime.antt =====
-- `ulcr_get_process_runtime_seconds` of src/procfs.c.
use user_level_checkpoint_re.Base.{ℕ, if◌then◌else◌, Option, none, some, codes, take}
use user_level_checkpoint_re.Base.Options.{◌>>=◌}
use user_level_checkpoint_re.Base.Int.{ℤ, pos, pos_part, ltb_ℤ}
use user_level_checkpoint_re.Cstring.{c_str}
use user_level_checkpoint_re.Doubles.{Doubles}
use user_level_checkpoint_re.Procfs.Stat.{start_ticks}
use user_level_checkpoint_re.Procfs.Descriptors.{Proc, proc_path}

-- From the uptime, the ticks at the start and `sysconf(_SC_CLK_TCK)`, which is above 0.
unfoldable pub seconds_since : (fl : Doubles) → fl.Double → ℕ → ℕ → fl.Double
seconds_since fl uptime ticks per_second =
    let seconds = fl.minus uptime (fl.over (fl.of_ull ticks) (fl.of_ull per_second)) in
    if fl.is_negative seconds then fl.zero_double else seconds

-- The seconds, or `none` for -1.
unfoldable pub runtime_seconds : (fl : Doubles) → ℤ → Proc → ℤ → Option fl.Double
unfolding seconds_since
runtime_seconds fl per_second proc pid = do
  stat ← proc.contents (proc_path pid (codes "/stat"))
  ticks ← start_ticks (c_str (take 4095 stat))
  uptime_text ← proc.contents (codes "/proc/uptime")
  uptime ← fl.scan_double uptime_text
  if ltb_ℤ (pos 0) per_second
      then some (seconds_since fl uptime ticks (pos_part per_second))
      else none
