-- ===== src/Config/Written.antt =====
-- Files that set every key of the configuration of src/config.c.
use user_level_checkpoint_re.Base.{
  ◌≡◌, ◌∙◌, ap, some, List, [], ◌∷◌, ◌⊎◌, inl, inr, done, sym, subst,
}
use user_level_checkpoint_re.Cstring.{fgets_lines}
use user_level_checkpoint_re.Cstring.Number.RoundTrip.{atoi-print_ℤ_onto}
use user_level_checkpoint_re.Common.Buffers.{copied_fits}
use user_level_checkpoint_re.Config.{
  Config, defaults, Key, assign, read_lines, validate, load_config,
}
use user_level_checkpoint_re.Config.RoundTrip.{
  value_of, render, read_lines-setting, IsWritable, value_of-IsValue,
}
use user_level_checkpoint_re.Config.Valid.{IsUsable, validate_iff}

abbrev pub Has : Key → List Key → Type 0
Has k [] = ⊥
Has k (x ∷ xs) = (k ≡ x) ⊎ Has k xs

-- `d` has the value of `c` at a key.
abbrev Agrees : Config → Config → Key → Type 0
Agrees d c Key.process_name = d.process_name ≡ c.process_name
Agrees d c Key.workload_path = d.workload_path ≡ c.workload_path
Agrees d c Key.workload_args = d.workload_args ≡ c.workload_args
Agrees d c Key.runtime_root = d.runtime_root ≡ c.runtime_root
Agrees d c Key.checkpoint_interval_sec = d.checkpoint_interval_sec ≡ c.checkpoint_interval_sec
Agrees d c Key.monitor_interval_sec = d.monitor_interval_sec ≡ c.monitor_interval_sec
Agrees d c Key.max_checkpoints = d.max_checkpoints ≡ c.max_checkpoints
Agrees d c Key.auto_restore = d.auto_restore ≡ c.auto_restore

module _ (c : Config) (w : IsWritable c) where
  assign-Agrees_self : (d : Config) (key : Key) → Agrees (assign d key (value_of c key)) c key
  unfolding assign
  assign-Agrees_self d Key.process_name = copied_fits 64 c.process_name w.bounds.process_name
  assign-Agrees_self d Key.workload_path = copied_fits 512 c.workload_path w.bounds.workload_path
  assign-Agrees_self d Key.workload_args = copied_fits 256 c.workload_args w.bounds.workload_args
  assign-Agrees_self d Key.runtime_root = copied_fits 512 c.runtime_root w.bounds.runtime_root
  assign-Agrees_self d Key.checkpoint_interval_sec =
      atoi-print_ℤ_onto _ [] w.checkpoint_interval_sec tt
  assign-Agrees_self d Key.monitor_interval_sec = atoi-print_ℤ_onto _ [] w.monitor_interval_sec tt
  assign-Agrees_self d Key.max_checkpoints = atoi-print_ℤ_onto _ [] w.max_checkpoints tt
  assign-Agrees_self d Key.auto_restore = atoi-print_ℤ_onto _ [] w.auto_restore tt

  assign-Agrees :
      (d : Config) (key k : Key) → Agrees d c k → Agrees (assign d key (value_of c key)) c k
  unfolding assign
  assign-Agrees d Key.process_name Key.process_name a = assign-Agrees_self d Key.process_name
  assign-Agrees d Key.process_name _ a = a
  assign-Agrees d Key.workload_path Key.workload_path a = assign-Agrees_self d Key.workload_path
  assign-Agrees d Key.workload_path _ a = a
  assign-Agrees d Key.workload_args Key.workload_args a = assign-Agrees_self d Key.workload_args
  assign-Agrees d Key.workload_args _ a = a
  assign-Agrees d Key.runtime_root Key.runtime_root a = assign-Agrees_self d Key.runtime_root
  assign-Agrees d Key.runtime_root _ a = a
  assign-Agrees d Key.checkpoint_interval_sec Key.checkpoint_interval_sec a =
      assign-Agrees_self d Key.checkpoint_interval_sec
  assign-Agrees d Key.checkpoint_interval_sec _ a = a
  assign-Agrees d Key.monitor_interval_sec Key.monitor_interval_sec a =
      assign-Agrees_self d Key.monitor_interval_sec
  assign-Agrees d Key.monitor_interval_sec _ a = a
  assign-Agrees d Key.max_checkpoints Key.max_checkpoints a =
      assign-Agrees_self d Key.max_checkpoints
  assign-Agrees d Key.max_checkpoints _ a = a
  assign-Agrees d Key.auto_restore Key.auto_restore a = assign-Agrees_self d Key.auto_restore
  assign-Agrees d Key.auto_restore _ a = a

  -- What the file leaves of `d`.
  loaded : Config → List Key → Config
  loaded d keys = read_lines d (fgets_lines 1024 (render c keys))

  loaded-Agrees :
      (d : Config) (keys : List Key) (k : Key)
      → Has k keys ⊎ Agrees d c k
      → Agrees (loaded d keys) c k
  unfolding loaded render
  loaded-Agrees d [] k (inr a) = unfold read_lines fgets_lines in a
  loaded-Agrees d [] k (inl h) = absurd h
  loaded-Agrees d (key ∷ keys) k h =
      subst (λ e. Agrees e c k)
        (sym (read_lines-setting d key (value_of c key) (render c keys) (value_of-IsValue c key w)))
        (loaded-Agrees (assign d key (value_of c key)) keys k (step h))
    where
      step :
          Has k (key ∷ keys) ⊎ Agrees d c k
          → Has k keys ⊎ Agrees (assign d key (value_of c key)) c k
      step (inl (inl e)) = inr (
          subst (λ x. Agrees (assign d key (value_of c key)) c x) (sym e)
            (assign-Agrees_self d key))
      step (inl (inr m)) = inl m
      step (inr a) = inr (assign-Agrees d key k a)

  Agrees-eq : (d : Config) → ((k : Key) → Agrees d c k) → d ≡ c
  Agrees-eq d a = λ i. record {
    process_name = a Key.process_name i;
    workload_path = a Key.workload_path i;
    workload_args = a Key.workload_args i;
    runtime_root = a Key.runtime_root i;
    checkpoint_interval_sec = a Key.checkpoint_interval_sec i;
    monitor_interval_sec = a Key.monitor_interval_sec i;
    max_checkpoints = a Key.max_checkpoints i;
    auto_restore = a Key.auto_restore i;
  }

-- A file of settings `key=value`, one to a line, that sets every key to its value in a usable and
-- writable configuration, in any order, loads as that configuration with success.
pub load_config-render :
    (c : Config) (keys : List Key)
    → IsWritable c
    → IsUsable c
    → ((k : Key) → Has k keys)
    → load_config (some (render c keys)) ≡ (c, done)
unfolding load_config loaded
load_config-render c keys w u every =
    let e =
      Agrees-eq c w (loaded c w defaults keys)
        (λ k. loaded-Agrees c w defaults keys k (inl (every k))) in
    ap (λ d. (d, validate d)) e ∙ ap (λ s. (c, s)) ((validate_iff c).1 u)
