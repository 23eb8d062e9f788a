-- ===== src/Interval/Examples.antt =====
-- The theorems on the interval, with whole seconds for the runtime.
use user_level_checkpoint_re.Base.{ℕ, ◌-◌, ◌/◌, false, some, none, [], inr, leb, arith}
use user_level_checkpoint_re.Base.Int.{pos, ◌≤ℤ◌}
use user_level_checkpoint_re.Doubles.{Doubles}
use user_level_checkpoint_re.Interval.{dynamic_interval}
use user_level_checkpoint_re.Interval.Bounds.{dynamic_interval_bounds, dynamic_interval_antitone}

abbrev whole_seconds : Doubles
whole_seconds = record {
  Double = ℕ;
  zero_double = 0;
  of_ull = λ n. n;
  minus = λ a b. a - b;
  over = λ a b. a / b;
  is_negative = λ a. false;
  at_least = λ a k. leb k a;
  scan_double = λ s. none;
  print_2f = λ a. [];
}

dynamic_interval_bounds_example :
    (pos 1 ≤ℤ dynamic_interval whole_seconds (pos 15) (some 90))
    × (dynamic_interval whole_seconds (pos 15) (some 90) ≤ℤ pos 15)
dynamic_interval_bounds_example =
    dynamic_interval_bounds whole_seconds (pos 15) (some 90) (omega arith)

dynamic_interval_antitone_example :
    dynamic_interval whole_seconds (pos 15) (some 400)
    ≤ℤ dynamic_interval whole_seconds (pos 15) (some 90)
dynamic_interval_antitone_example =
    dynamic_interval_antitone whole_seconds 15 90 400 (λ k h. ground arith) (inr (omega arith))
