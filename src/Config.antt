-- ===== src/Config.antt =====
-- src/config.c: the configuration file and the paths that follow from it. The file's bytes are an
-- argument, `none` where `fopen` fails.
pub mod Trim
pub mod Valid
mod Examples
pub mod Written
pub mod RoundTrip
use user_level_checkpoint_re.Base.{
  ℕ, zero, Bool, true, false, ◌||◌, Option, none, some, List, [], ◌∷◌, ◌++◌, ◌==◌, if◌then◌else◌,
  Bytes, codes, map, reverse, is_empty, str_eq, Status, done, failed,
}
use user_level_checkpoint_re.Base.Int.{ℤ, pos, ltb_ℤ}
use user_level_checkpoint_re.Cstring.{c_str, split_at, cut_line, fgets_lines}
use user_level_checkpoint_re.Cstring.Number.{skip_space, atoi}
use user_level_checkpoint_re.Common.{max_path, copied}

-- `ulcr_config_t`
pub record Config : Type 0 where
  pub process_name : Bytes
  pub workload_path : Bytes
  pub workload_args : Bytes
  pub runtime_root : Bytes
  pub checkpoint_interval_sec : ℤ
  pub monitor_interval_sec : ℤ
  pub max_checkpoints : ℤ
  pub auto_restore : ℤ

-- The eight assignments before the file is opened, `memset` included.
abbrev pub defaults : Config
defaults = record {
  process_name = [];
  workload_path = [];
  workload_args = [];
  runtime_root = codes "./runtime";
  checkpoint_interval_sec = pos 15;
  monitor_interval_sec = pos 3;
  max_checkpoints = pos 5;
  auto_restore = pos 1;
}

-- `trim`: what is left of a string without the white space at both ends.
unfoldable pub trim : Bytes → Bytes
trim value = reverse (skip_space (reverse (skip_space value)))

-- The keys, in the order of the tests.
pub data Key : Type 0 where
  process_name workload_path workload_args runtime_root : Key
  checkpoint_interval_sec monitor_interval_sec max_checkpoints auto_restore : Key

abbrev pub key_name : Key → Bytes
key_name Key.process_name = codes "process_name"
key_name Key.workload_path = codes "workload_path"
key_name Key.workload_args = codes "workload_args"
key_name Key.runtime_root = codes "runtime_root"
key_name Key.checkpoint_interval_sec = codes "checkpoint_interval_sec"
key_name Key.monitor_interval_sec = codes "monitor_interval_sec"
key_name Key.max_checkpoints = codes "max_checkpoints"
key_name Key.auto_restore = codes "auto_restore"

-- The chain of `strcmp` tests.
unfoldable pub key_of : Bytes → Option Key
key_of key =
    if str_eq key (key_name Key.process_name)
    then some Key.process_name
    else if str_eq key (key_name Key.workload_path)
    then some Key.workload_path
    else if str_eq key (key_name Key.workload_args)
    then some Key.workload_args
    else if str_eq key (key_name Key.runtime_root)
    then some Key.runtime_root
    else if str_eq key (key_name Key.checkpoint_interval_sec)
    then some Key.checkpoint_interval_sec
    else if str_eq key (key_name Key.monitor_interval_sec)
    then some Key.monitor_interval_sec
    else if str_eq key (key_name Key.max_checkpoints)
    then some Key.max_checkpoints
    else if str_eq key (key_name Key.auto_restore)
    then some Key.auto_restore
    else none

-- The branches of the chain.
unfoldable pub assign : Config → Key → Bytes → Config
assign c Key.process_name value = record c { process_name = copied 64 value }
assign c Key.workload_path value = record c { workload_path = copied max_path value }
assign c Key.workload_args value = record c { workload_args = copied 256 value }
assign c Key.runtime_root value = record c { runtime_root = copied max_path value }
assign c Key.checkpoint_interval_sec value = record c { checkpoint_interval_sec = atoi value }
assign c Key.monitor_interval_sec value = record c { monitor_interval_sec = atoi value }
assign c Key.max_checkpoints value = record c { max_checkpoints = atoi value }
assign c Key.auto_restore value = record c { auto_restore = atoi value }

assign_if : Config → Option Key → Bytes → Config
assign_if c none value = c
assign_if c (some key) value = assign c key value

-- `line[0] == '#' || line[0] == '\n'`
unfoldable pub is_skipped : Bytes → Bool
is_skipped [] = false
is_skipped (c ∷ cs) = c == b'#' || c == b'\n'

set_pair : Config → Option (Bytes × Bytes) → Config
unfolding assign_if
set_pair c none = c
set_pair c (some (left, right)) = assign_if c (key_of (trim left)) (cut_line (trim right))

-- The body of the loop, on one line as a C string.
unfoldable pub read_line : Config → Bytes → Config
unfolding set_pair assign_if
read_line c line = if is_skipped line then c else set_pair c (split_at b'=' line)

unfoldable pub read_lines : Config → List Bytes → Config
read_lines c [] = c
read_lines c (line ∷ lines) = read_lines (read_line c (c_str line)) lines

-- The two tests behind the loop.
unfoldable pub validate : Config → Status
validate c =
    if is_empty c.process_name || is_empty c.workload_path
    then failed
    else if ltb_ℤ c.checkpoint_interval_sec (pos 1)
        || ltb_ℤ c.monitor_interval_sec (pos 1)
        || ltb_ℤ c.max_checkpoints (pos 1)
    then failed
    else done

-- `ulcr_load_config`: the configuration that is left in `*config`, and the status.
unfoldable pub load_config : Option Bytes → Config × Status
unfolding read_lines validate
load_config none = (defaults, failed)
load_config (some contents) =
    let c = read_lines defaults (fgets_lines 1024 contents) in (c, validate c)
