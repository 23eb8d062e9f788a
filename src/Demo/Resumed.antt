-- ===== src/Demo/Resumed.antt =====
-- What the workload demo/counter_demo.c counts, in one run and over a restore.
use user_level_checkpoint_re.Base.{
  ℕ, ◌+◌, ◌%◌, ◌^◌, ◌<◌, ◌≡◌, ◌≢◌, ◌↔◌, refl, sym, ◌∙◌, ap, Bool, true, false, Option, none, some,
  List, [], ◌∷◌, ◌++◌, Bytes, length, length-append, codes, arith,
}
use user_level_checkpoint_re.Base.Int.{ℤ}
use user_level_checkpoint_re.Common.{copied}
use user_level_checkpoint_re.Runtime.{Boot}
use user_level_checkpoint_re.Demo.{
  DemoState, zeroed, Ended, faulted, ended, map_demo_state, initialize, count_restore, count,
  counting, run_mapped, run_new, run_demo,
}

-- The state that a run leaves in memory.
abbrev pub left_by : Ended → Option DemoState
left_by faulted = none
left_by (ended code text state) = state

-- The state after `n` passes of the loop.
abbrev pub counted : ℕ → DemoState → DemoState
counted n state = record state { counter = (state.counter + n) % 2 ^ 64 }

-- The state of a new run, in front of the loop.
abbrev pub new_state : DemoState
new_state = record zeroed {
  initialized = 1;
  note = copied 128 (codes "demo state mapped at fixed address");
}

-- The same state, restored once.
abbrev pub restored_once : Option DemoState → Option DemoState
restored_once none = none
restored_once (some state) = some (record state { restored_runs = 1 })

module _ (pid : ℤ) where
  counting-counted :
      (ts : List Bytes) (state : DemoState)
      → state.counter < 2 ^ 64
      → (counting pid ts state).1 ≡ counted (length ts) state
  unfolding counting count
  counting-counted [] state h = ap (λ c. record state { counter = c }) (omega arith)
  counting-counted (t ∷ ts) state h =
      counting-counted ts (count state) (omega arith)
      ∙ ap (λ c. record state { counter = c }) (omega arith)

  pub run_demo-fresh :
      (mapped : Option DemoState) (ts : List Bytes)
      → left_by (run_demo pid Boot.fresh mapped true ts) ≡ some (counted (length ts) new_state)
  unfolding run_demo run_new run_mapped map_demo_state count_restore initialize
  run_demo-fresh mapped ts = ap some (counting-counted ts new_state (omega arith))

  run_demo-restored :
      (n : ℕ) (can_map : Bool) (ts : List Bytes)
      → left_by (run_demo pid Boot.restored (some (counted n new_state)) can_map ts)
        ≡ restored_once (some (counted (length ts) (counted n new_state)))
  unfolding run_demo run_mapped count_restore initialize
  run_demo-restored n can_map ts =
      ap some
        (counting-counted ts (record (counted n new_state) { restored_runs = 1 }) (omega arith))

-- A run that is stopped after the passes `ts` and restored with its state, and then makes the passes
-- `us`, leaves the state that one run of all these passes leaves, except that it counts one restore.
pub run_demo-resumes :
    (pid pid' pid'' : ℤ) (mapped mapped' : Option DemoState) (can_map : Bool) (ts us : List Bytes)
    → left_by
        (run_demo pid' Boot.restored (left_by (run_demo pid Boot.fresh mapped true ts)) can_map us)
      ≡ restored_once (left_by (run_demo pid'' Boot.fresh mapped' true (ts ++ us)))
run_demo-resumes pid pid' pid'' mapped mapped' can_map ts us =
    ap (λ o. left_by (run_demo pid' Boot.restored o can_map us)) (run_demo-fresh pid mapped ts)
    ∙ run_demo-restored pid' (length ts) can_map us
    ∙ ap (λ n. restored_once (some (record new_state { counter = n })))
        (omega (arith, length-append ts us))
    ∙ ap restored_once (sym (run_demo-fresh pid'' mapped' (ts ++ us)))

-- The workload is killed at its state's address exactly where the restore runtime has answered that
-- it restores, or that it has failed, and nothing is mapped there.
pub run_demo-faulted :
    (pid : ℤ) (boot : Boot) (mapped : Option DemoState) (can_map : Bool) (ts : List Bytes)
    → (run_demo pid boot mapped can_map ts ≡ faulted) ↔ ((boot ≢ Boot.fresh) × (mapped ≡ none))
unfolding run_demo run_new run_mapped map_demo_state
run_demo-faulted pid Boot.fresh mapped true ts = (λ e. absurd cc, λ h. absurd (h.0 refl))
run_demo-faulted pid Boot.fresh mapped false ts = (λ e. absurd cc, λ h. absurd (h.0 refl))
run_demo-faulted pid Boot.restored none can_map ts = (λ e. (λ k. cc, refl), λ h. refl)
run_demo-faulted pid Boot.restored (some s) can_map ts = (λ e. absurd cc, λ h. cc)
run_demo-faulted pid Boot.broken none can_map ts = (λ e. (λ k. cc, refl), λ h. refl)
run_demo-faulted pid Boot.broken (some s) can_map ts = (λ e. absurd cc, λ h. cc)
