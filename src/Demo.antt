-- ===== src/Demo.antt =====
-- The workload demo/counter_demo.c, whose state lies at a fixed address that the restore runtime
-- maps again.
pub mod Resumed
mod Examples
use user_level_checkpoint_re.Base.{
  ℕ, ◌+◌, ◌%◌, ◌^◌, Bool, true, false, Option, none, some, List, [], ◌∷◌, ◌++◌, ◌==◌, if◌then◌else◌,
  Bytes, codes,
}
use user_level_checkpoint_re.Base.Int.{ℤ}
use user_level_checkpoint_re.Common.{copied}
use user_level_checkpoint_re.Cstring.Number.{print_onto, print_ℤ_onto}
use user_level_checkpoint_re.Runtime.{Boot, fresh, restored, broken}

-- `demo_state_t`
pub record DemoState : Type 0 where
  pub initialized : ℕ
  pub counter : ℕ
  pub restored_runs : ℕ
  pub note : Bytes

-- The bytes of a new anonymous mapping, and of `memset(state, 0, sizeof(*state))`.
abbrev pub zeroed : DemoState
zeroed = record { initialized = 0; counter = 0; restored_runs = 0; note = [] }

-- How the program ends: killed at an address that is not mapped, or with an exit code, its output
-- and the state that it leaves in memory.
pub data Ended : Type 0 where
  faulted : Ended
  ended : ℕ → Bytes → Option DemoState → Ended

-- `map_demo_state`: whether `mmap` has succeeded.
unfoldable pub map_demo_state : Bool → Option DemoState
map_demo_state true = some zeroed
map_demo_state false = none

-- `if (!state->initialized)`
unfoldable pub initialize : DemoState → DemoState
initialize state =
    if state.initialized == 0
    then record zeroed {
      initialized = 1;
      note = copied 128 (codes "demo state mapped at fixed address");
    }
    else state

-- `if (restored > 0)`
unfoldable pub count_restore : Boot → DemoState → DemoState
count_restore Boot.restored state = record state {
  restored_runs = (state.restored_runs + 1) % 2 ^ 64;
}
count_restore boot state = state

-- `state->counter += 1`
unfoldable pub count : DemoState → DemoState
count state = record state { counter = (state.counter + 1) % 2 ^ 64 }

module _ (pid : ℤ) where
  unfoldable pub count_line : DemoState → Bytes → Bytes
  count_line state timestamp =
      codes "[counter-demo] pid="
      ++ print_ℤ_onto pid (
          codes " counter="
          ++ print_onto 10 state.counter (
              codes " restored_runs="
              ++ print_onto 10 state.restored_runs (
                  codes " at="
                  ++ (timestamp ++ (codes " note=\"" ++ (state.note ++ codes "\"\n"))))))

  unfoldable pub last_line : DemoState → Bytes
  last_line state =
      codes "[counter-demo] graceful shutdown pid="
      ++ print_ℤ_onto pid (codes " counter=" ++ print_onto 10 state.counter (b'\n' ∷ []))

  -- The loop: one timestamp for each pass that it makes before a signal clears `keep_running`.
  unfoldable pub counting : List Bytes → DemoState → Bytes × DemoState
  unfolding count count_line
  counting [] state = ([], state)
  counting (timestamp ∷ timestamps) state =
      let (text, last) = counting timestamps (count state) in
      (count_line (count state) timestamp ++ text, last)

  -- From `if (!state->initialized)` on, with what is mapped at the state's address.
  unfoldable pub run_mapped : Boot → List Bytes → Option DemoState → Ended
  unfolding initialize count_restore counting last_line
  run_mapped boot timestamps none = faulted
  run_mapped boot timestamps (some state) =
      let (text, last) = counting timestamps (count_restore boot (initialize state)) in
      ended 0 (text ++ last_line last) (some last)

  unfoldable pub run_new : List Bytes → Option DemoState → Ended
  unfolding run_mapped
  run_new timestamps none = ended 1 [] none
  run_new timestamps (some state) = run_mapped Boot.fresh timestamps (some state)

  -- `main`, behind `ulcr_runtime_bootstrap`: its result, what it has mapped at the state's address,
  -- and whether an `mmap` there would succeed.
  unfoldable pub run_demo : Boot → Option DemoState → Bool → List Bytes → Ended
  unfolding run_new run_mapped map_demo_state
  run_demo Boot.fresh mapped can_map timestamps = run_new timestamps (map_demo_state can_map)
  run_demo boot mapped can_map timestamps = run_mapped boot timestamps mapped
