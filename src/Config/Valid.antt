-- ===== src/Config/Valid.antt =====
-- What is known of a configuration that src/config.c has loaded.
use user_level_checkpoint_re.Base.{
  ◌<◌, ◌≡◌, ◌≢◌, refl, Option, none, some, List, [], ◌∷◌, Bytes, length, arith, done, Bool-cases,
  inl, inr,
}
use user_level_checkpoint_re.Base.Int.{pos, ◌≤ℤ◌}
use user_level_checkpoint_re.Cstring.{c_str, fgets_lines, cut_line, split_at}
use user_level_checkpoint_re.Common.{max_path}
use user_level_checkpoint_re.Common.Buffers.{length-copied}
use user_level_checkpoint_re.Config.{
  Config, defaults, trim, Key, key_of, assign, assign_if, is_skipped, set_pair, read_line,
  read_lines, validate, load_config,
}

-- Each text is shorter than its array, so its terminating 0 is inside.
pub record InBounds (c : Config) : Type 0 where
  pub process_name : length c.process_name < 64
  pub workload_path : length c.workload_path < max_path
  pub workload_args : length c.workload_args < 256
  pub runtime_root : length c.runtime_root < max_path

-- What the program goes on with.
pub record IsUsable (c : Config) : Type 0 where
  pub named : c.process_name ≢ []
  pub runs : c.workload_path ≢ []
  pub checkpoints : pos 1 ≤ℤ c.checkpoint_interval_sec
  pub monitors : pos 1 ≤ℤ c.monitor_interval_sec
  pub keeps : pos 1 ≤ℤ c.max_checkpoints

assign-InBounds :
    (c : Config) (key : Key) (value : Bytes) → InBounds c → InBounds (assign c key value)
unfolding assign
assign-InBounds c Key.process_name v h = ground (arith, length-copied 64 v)
assign-InBounds c Key.workload_path v h = ground (arith, length-copied 512 v)
assign-InBounds c Key.workload_args v h = ground (arith, length-copied 256 v)
assign-InBounds c Key.runtime_root v h = ground (arith, length-copied 512 v)
assign-InBounds c _ v h = ground arith

assign_if-InBounds :
    (c : Config) (key : Option Key) (value : Bytes) → InBounds c → InBounds (assign_if c key value)
unfolding assign_if
assign_if-InBounds c none v h = h
assign_if-InBounds c (some key) v h = assign-InBounds c key v h

set_pair-InBounds :
    (c : Config) (pair : Option (Bytes × Bytes)) → InBounds c → InBounds (set_pair c pair)
unfolding set_pair
set_pair-InBounds c none h = h
set_pair-InBounds c (some (l, r)) h = assign_if-InBounds c (key_of (trim l)) (cut_line (trim r)) h

read_line-InBounds : (c : Config) (line : Bytes) → InBounds c → InBounds (read_line c line)
unfolding read_line
read_line-InBounds c line h = elim (Bool-cases (is_skipped line)) [
  | inl skipped ↦ rw skipped h
  | inr read ↦ rw read (set_pair-InBounds c (split_at b'=' line) h)
]

read_lines-InBounds : (c : Config) (lines : List Bytes) → InBounds c → InBounds (read_lines c lines)
unfolding read_lines
read_lines-InBounds c [] h = h
read_lines-InBounds c (line ∷ lines) h =
    read_lines-InBounds (read_line c (c_str line)) lines (read_line-InBounds c (c_str line) h)

pub validate_iff :
    (c : Config) → (validate c ≡ done → IsUsable c) × (IsUsable c → validate c ≡ done)
unfolding validate
validate_iff c = (λ h. ground arith, λ u. ground arith)

-- Whatever bytes the file holds, the loaded texts fit their arrays, and the status is success
-- exactly when the file could be opened and the result is usable: a process name and a workload
-- are given, and the two intervals and the number of checkpoints are at least 1.
pub load_config_lem :
    (file : Option Bytes)
    → InBounds (load_config file).0
      × ((load_config file).1 ≡ done → IsUsable (load_config file).0 × (file ≢ none))
      × (file ≢ none → IsUsable (load_config file).0 → (load_config file).1 ≡ done)
unfolding load_config
load_config_lem none = (omega arith, λ h. cc, λ f. absurd (f refl))
load_config_lem (some contents) =
    let c = read_lines defaults (fgets_lines 1024 contents) in
    (
      read_lines-InBounds defaults (fgets_lines 1024 contents) (omega arith),
      λ h. ((validate_iff c).0 h, λ e. cc),
      λ f u. (validate_iff c).1 u,
    )
