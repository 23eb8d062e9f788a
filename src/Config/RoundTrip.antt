-- ===== src/Config/RoundTrip.antt =====
-- A configuration of src/config.c written in the format of configs/demo.conf.
use user_level_checkpoint_re.Base.{
  ◌+◌, ◌≤◌, ◌<◌, ◌≡◌, refl, sym, ◌∙◌, ap, true, false, not, some, List, [], ◌∷◌, ◌++◌, ◌==◌, Bytes,
  all, all-append, length, length-append, reverse, append_assoc, str_eq, arith,
}
use user_level_checkpoint_re.Base.Int.{ℤ}
use user_level_checkpoint_re.Cstring.{c_str, cut_line, fgets_lines}
use user_level_checkpoint_re.Cstring.Lines.{fgets_lines-line}
use user_level_checkpoint_re.Cstring.Number.{is_space, skip_space, print_ℤ_onto}
use user_level_checkpoint_re.Cstring.Number.RoundTrip.{IsInt}
use user_level_checkpoint_re.Cstring.Number.Shape.{
  is_numeral, print_ℤ_onto-is_numeral, length-print_ℤ_onto,
}
use user_level_checkpoint_re.Cstring.Search.{
  is_plain, c_str-append, cut_line_plain, split_at-append,
}
use user_level_checkpoint_re.Common.{max_path}
use user_level_checkpoint_re.Config.{
  Config, trim, Key, key_name, key_of, assign, assign_if, is_skipped, set_pair, read_line,
  read_lines,
}
use user_level_checkpoint_re.Config.Trim.{starts_blank, IsTrimmed, trim-append, all-reverse}
use user_level_checkpoint_re.Config.Valid.{InBounds}

-- A value that a line of the file can carry.
pub record IsValue (v : Bytes) : Type 0 where
  pub plain : all is_plain v ≡ true
  pub trimmed : IsTrimmed v
  pub short : length v < max_path

-- One line of the file.
abbrev pub setting : Key → Bytes → Bytes → Bytes
setting key v rest = key_name key ++ b'=' ∷ (v ++ b'\n' ∷ rest)

-- The value that each key has in a configuration, as text.
abbrev pub value_of : Config → Key → Bytes
value_of c Key.process_name = c.process_name
value_of c Key.workload_path = c.workload_path
value_of c Key.workload_args = c.workload_args
value_of c Key.runtime_root = c.runtime_root
value_of c Key.checkpoint_interval_sec = print_ℤ_onto c.checkpoint_interval_sec []
value_of c Key.monitor_interval_sec = print_ℤ_onto c.monitor_interval_sec []
value_of c Key.max_checkpoints = print_ℤ_onto c.max_checkpoints []
value_of c Key.auto_restore = print_ℤ_onto c.auto_restore []

-- The file that sets the given keys.
unfoldable pub render : Config → List Key → Bytes
render c [] = []
render c (key ∷ keys) = setting key (value_of c key) (render c keys)

key_of-key_name : (key : Key) → key_of (trim (key_name key)) ≡ some key
unfolding key_of trim skip_space is_space str_eq
key_of-key_name Key.process_name = refl
key_of-key_name _ = refl

key_name-facts :
    (key : Key)
    → (all is_plain (key_name key) ≡ true)
      × (all (λ x. not (x == b'=')) (key_name key) ≡ true)
      × (length (key_name key) ≤ 24)
      × ((t : Bytes) → is_skipped (key_name key ++ t) ≡ false)
unfolding is_skipped
key_name-facts Key.process_name = (refl, refl, omega arith, λ t. refl)
key_name-facts _ = (refl, refl, omega arith, λ t. refl)

read_line-setting :
    (c : Config) (key : Key) (v : Bytes)
    → IsValue v
    → read_line c (key_name key ++ b'=' ∷ (v ++ b'\n' ∷ [])) ≡ assign c key v
unfolding read_line set_pair assign_if
read_line-setting c key v h =
    let f = key_name-facts key in
    rw (f.3 (b'=' ∷ (v ++ b'\n' ∷ []))) (
      rw (split_at-append b'=' (key_name key) (v ++ b'\n' ∷ []) f.1) (
        rw (key_of-key_name key) (
          ap (λ t. assign c key (cut_line t))
            (trim-append v (b'\n' ∷ []) h.trimmed (unfold is_space in refl))
          ∙ ap (assign c key) (cut_line_plain v h.plain))))

c_str-line : (s : Bytes) → all is_plain s ≡ true → c_str (s ++ b'\n' ∷ []) ≡ s ++ b'\n' ∷ []
c_str-line s h = c_str-append s (b'\n' ∷ []) h ∙ unfold c_str in refl

setting-line :
    (key : Key) (v rest : Bytes) → setting key v rest ≡ (key_name key ++ b'=' ∷ v) ++ b'\n' ∷ rest
setting-line key v rest = sym (append_assoc (key_name key) (b'=' ∷ v) (b'\n' ∷ rest))

line_plain : (key : Key) (v : Bytes) → IsValue v → all is_plain (key_name key ++ b'=' ∷ v) ≡ true
line_plain key v h = all-append is_plain (key_name key) (b'=' ∷ v) (key_name-facts key).0 h.plain

line_short : (key : Key) (v : Bytes) → IsValue v → length (key_name key ++ b'=' ∷ v) + 1 < 1024
line_short key v h =
    omega (arith, length-append (key_name key) (b'=' ∷ v), (key_name-facts key).2, h.short)

-- Loading a line that sets a key is one assignment.
pub read_lines-setting :
    (c : Config) (key : Key) (v rest : Bytes)
    → IsValue v
    → read_lines c (fgets_lines 1024 (setting key v rest))
      ≡ read_lines (assign c key v) (fgets_lines 1024 rest)
unfolding read_lines
read_lines-setting c key v rest h =
    let line = key_name key ++ b'=' ∷ v in
    ap (λ t. read_lines c (fgets_lines 1024 t)) (setting-line key v rest)
    ∙ ap (read_lines c) (fgets_lines-line 1024 line rest (line_plain key v h) (line_short key v h))
    ∙ ap (λ t. read_lines (read_line c t) (fgets_lines 1024 rest))
        (c_str-line line (line_plain key v h) ∙ append_assoc (key_name key) (b'=' ∷ v) (b'\n' ∷ []))
    ∙ ap (λ d. read_lines d (fgets_lines 1024 rest)) (read_line-setting c key v h)

-- A configuration whose values can be written: texts in their bounds with no line ends and no
-- white space at either end, and numbers in the range of `int`.
pub record IsWritable (c : Config) : Type 0 where
  pub bounds : InBounds c
  pub process_name : IsValue c.process_name
  pub workload_path : IsValue c.workload_path
  pub workload_args : IsValue c.workload_args
  pub runtime_root : IsValue c.runtime_root
  pub checkpoint_interval_sec : IsInt c.checkpoint_interval_sec
  pub monitor_interval_sec : IsInt c.monitor_interval_sec
  pub max_checkpoints : IsInt c.max_checkpoints
  pub auto_restore : IsInt c.auto_restore

is_numeral_plain : (s : Bytes) → all is_numeral s ≡ true → all is_plain s ≡ true
is_numeral_plain [] h = refl
is_numeral_plain (c ∷ cs) h = ground (arith, is_numeral_plain cs)

is_numeral_solid : (s : Bytes) → all is_numeral s ≡ true → starts_blank s ≡ false
is_numeral_solid [] h = refl
is_numeral_solid (c ∷ cs) h = unfold is_space in ground arith

number-IsValue : (z : ℤ) → IsInt z → IsValue (print_ℤ_onto z [])
number-IsValue z h =
    let digits = print_ℤ_onto z [] in
    let numeral = print_ℤ_onto-is_numeral z in
    record {
      plain = is_numeral_plain digits numeral;
      trimmed = record {
        front = is_numeral_solid digits numeral;
        back = is_numeral_solid (reverse digits) (all-reverse is_numeral digits numeral);
      };
      short = omega (arith, length-print_ℤ_onto z h);
    }

pub value_of-IsValue : (c : Config) (key : Key) → IsWritable c → IsValue (value_of c key)
value_of-IsValue c Key.process_name w = w.process_name
value_of-IsValue c Key.workload_path w = w.workload_path
value_of-IsValue c Key.workload_args w = w.workload_args
value_of-IsValue c Key.runtime_root w = w.runtime_root
value_of-IsValue c Key.checkpoint_interval_sec w = number-IsValue _ w.checkpoint_interval_sec
value_of-IsValue c Key.monitor_interval_sec w = number-IsValue _ w.monitor_interval_sec
value_of-IsValue c Key.max_checkpoints w = number-IsValue _ w.max_checkpoints
value_of-IsValue c Key.auto_restore w = number-IsValue _ w.auto_restore
