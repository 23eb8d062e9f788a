-- ===== src/Interval.antt =====
-- `compute_dynamic_checkpoint_interval` of src/manager.c, on what the runtime query has answered.
pub mod Bounds
mod Examples
use user_level_checkpoint_re.Base.{Bool, ◌&&◌, Option, none, some, if◌then◌else◌}
use user_level_checkpoint_re.Base.Int.{ℤ, pos, ltb_ℤ, quot_ℤ}
use user_level_checkpoint_re.Doubles.{Doubles}

-- The branch from 300 seconds on, and the one from 60 seconds on.
unfoldable pub third_of : ℤ → ℤ
third_of base =
    if ltb_ℤ (pos 3) base
    then (if ltb_ℤ (pos 0) (quot_ℤ base 3) then quot_ℤ base 3 else pos 1)
    else base

unfoldable pub half_of : ℤ → ℤ
half_of base = if ltb_ℤ (pos 2) base then quot_ℤ base 2 else pos 1

-- The runtime is `none` where `ulcr_get_process_runtime_seconds` has failed.
unfoldable pub dynamic_interval : (fl : Doubles) → ℤ → Option fl.Double → ℤ
unfolding third_of half_of
dynamic_interval fl base none = base
dynamic_interval fl base (some seconds) =
    if fl.at_least seconds 300
    then third_of base
    else if fl.at_least seconds 60
    then half_of base
    else base
