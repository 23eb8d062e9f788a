-- ===== src/Interval/Bounds.antt =====
-- The checkpoint interval of src/manager.c, its bounds and its course as the runtime grows.
use user_level_checkpoint_re.Base.{ℕ, ◌≤◌, ◌≡◌, true, Option, none, some, arith, ◌⊎◌}
use user_level_checkpoint_re.Base.Int.{ℤ, pos, negsuc, ◌≤ℤ◌}
use user_level_checkpoint_re.Doubles.{Doubles}
use user_level_checkpoint_re.Interval.{dynamic_interval}

-- For a configured interval of at least 1 second the interval in use is at least 1 second and at
-- most the configured one, on every branch.
pub dynamic_interval_bounds :
    (fl : Doubles) (base : ℤ) (runtime : Option fl.Double)
    → pos 1 ≤ℤ base
    → (pos 1 ≤ℤ dynamic_interval fl base runtime) × (dynamic_interval fl base runtime ≤ℤ base)
unfolding dynamic_interval
dynamic_interval_bounds fl (pos n) none h = (h, omega arith)
dynamic_interval_bounds fl (pos n) (some s) h = ground arith
dynamic_interval_bounds fl (negsuc n) r h = absurd (omega arith)

-- One runtime is below another.
abbrev pub Shorter : (fl : Doubles) → fl.Double → fl.Double → Type 0
Shorter fl s t = (k : ℕ) → fl.at_least s k ≡ true → fl.at_least t k ≡ true

-- With a configured interval of 1 second, or of 4 or more, the interval never grows as the process
-- runs longer.
pub dynamic_interval_antitone :
    (fl : Doubles) (n : ℕ) (s t : fl.Double)
    → Shorter fl s t
    → (n ≡ 1) ⊎ (4 ≤ n)
    → dynamic_interval fl (pos n) (some t) ≤ℤ dynamic_interval fl (pos n) (some s)
unfolding dynamic_interval
dynamic_interval_antitone fl n s t le h = ground (arith, le 60, le 300)
