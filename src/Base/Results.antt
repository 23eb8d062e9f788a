-- ===== src/Base/Results.antt =====
-- What holds of a result wherever there is one.
use user_level_checkpoint_re.Base.{Option, none, some}
use user_level_checkpoint_re.Base.Options.{◌>>=◌}

abbrev pub Holds : {A : Type 0} → (A → Type 0) → Option A → Type 0
Holds P none = Unit
Holds P (some a) = P a

pub bind-Holds :
    {A B : Type 0}
    → (P : A → Type 0) (Q : B → Type 0) (o : Option A) (f : A → Option B) → Holds P o
    → ((a : A) → P a → Holds Q (f a))
    → Holds Q (o >>= f)
bind-Holds P Q none f h k = tt
bind-Holds P Q (some a) f h k = k a h
