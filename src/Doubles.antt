-- ===== src/Doubles.antt =====
-- The `double` arithmetic of src/procfs.c and src/manager.c, as an interface: the values are not
-- modelled.
use user_level_checkpoint_re.Base.{ℕ, Bool, Option, Bytes}

pub record Doubles : Type 1 where
  pub Double : Type 0
  -- `0.0`, the conversions of `unsigned long long` and of `long`, and the operators
  pub zero_double : Double
  pub of_ull : ℕ → Double
  pub minus : Double → Double → Double
  pub over : Double → Double → Double
  -- `x < 0.0` and `x >= k.0`
  pub is_negative : Double → Bool
  pub at_least : Double → ℕ → Bool
  -- `fscanf(fp, "%lf", …)` on the text of the stream, and `%.2f`
  pub scan_double : Bytes → Option Double
  pub print_2f : Double → Bytes
