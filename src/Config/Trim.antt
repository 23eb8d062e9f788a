-- ===== src/Config/Trim.antt =====
-- What `trim` of src/config.c leaves of a string.
use mathlib.Core.List.{reverse-append, reverse-reverse}
use user_level_checkpoint_re.Base.{
  ℕ, ◌≡◌, refl, ◌∙◌, ap, sym, Bool, true, false, inl, inr, [], ◌∷◌, ◌++◌, if◌then◌else◌, Bytes, all,
  all-append, reverse, arith, Bool-cases,
}
use user_level_checkpoint_re.Cstring.Number.{is_space, skip_space}
use user_level_checkpoint_re.Config.{trim}

abbrev pub starts_blank : Bytes → Bool
starts_blank [] = false
starts_blank (c ∷ cs) = is_space c

-- No white space at either end.
pub record IsTrimmed (s : Bytes) : Type 0 where
  pub front : starts_blank s ≡ false
  pub back : starts_blank (reverse s) ≡ false

-- `core` with white space in front and behind is `s`.
pub record Padded (s core : Bytes) : Type 0 where
  pub before : Bytes
  pub behind : Bytes
  pub before_blank : all is_space before ≡ true
  pub behind_blank : all is_space behind ≡ true
  pub splits : s ≡ before ++ (core ++ behind)
  pub trimmed : IsTrimmed core

skip_space-front : (s : Bytes) → starts_blank (skip_space s) ≡ false
unfolding skip_space
skip_space-front [] = refl
skip_space-front (c ∷ cs) = ground (arith, skip_space-front cs)

-- The white space that `skip_space` drops.
blanks : Bytes → Bytes
blanks [] = []
blanks (c ∷ cs) = if is_space c then c ∷ blanks cs else []

blanks-IsBlank : (s : Bytes) → all is_space (blanks s) ≡ true
unfolding blanks
blanks-IsBlank [] = refl
blanks-IsBlank (c ∷ cs) = ground (arith, blanks-IsBlank cs)

blanks-skip_space : (s : Bytes) → blanks s ++ skip_space s ≡ s
unfolding blanks skip_space
blanks-skip_space [] = refl
blanks-skip_space (c ∷ cs) = elim (Bool-cases (is_space c)) [
  | inl blank ↦ rw blank (ap (◌∷◌ c) (blanks-skip_space cs))
  | inr solid ↦ rw solid
]

-- Nothing is dropped from a string that does not start with white space.
pub skip_space-solid : (s : Bytes) → starts_blank s ≡ false → skip_space s ≡ s
unfolding skip_space
skip_space-solid [] h = refl
skip_space-solid (c ∷ cs) h = rw h

pub skip_space-blanks :
    (a s : Bytes) → all is_space a ≡ true → starts_blank s ≡ false → skip_space (a ++ s) ≡ s
unfolding skip_space
skip_space-blanks [] s h k = skip_space-solid s k
skip_space-blanks (c ∷ cs) s h k = ground (arith, skip_space-blanks cs s)

pub all-reverse : (p : ℕ → Bool) (s : Bytes) → all p s ≡ true → all p (reverse s) ≡ true
all-reverse p [] h = refl
all-reverse p (c ∷ cs) h =
    rw (reverse-append (c ∷ []) cs)
      (all-append p (reverse cs) (c ∷ []) (all-reverse p cs (ground arith)) (ground arith))

starts_blank-prefix : (s t : Bytes) → starts_blank (s ++ t) ≡ false → starts_blank s ≡ false
starts_blank-prefix [] t h = refl
starts_blank-prefix (c ∷ cs) t h = h

-- Reversed, the string behind the leading white space splits into its blanks and the rest.
back_split : (u : Bytes) → u ≡ reverse (skip_space (reverse u)) ++ reverse (blanks (reverse u))
back_split u =
    sym (reverse-reverse u)
    ∙ ap reverse (sym (blanks-skip_space (reverse u)))
    ∙ reverse-append (blanks (reverse u)) (skip_space (reverse u))

-- `trim` removes white space at both ends, all of it, and nothing else.
pub trim-Padded : (s : Bytes) → Padded s (trim s)
unfolding trim
trim-Padded s =
    let u = skip_space s in
    let r = skip_space (reverse u) in
    record {
      before = blanks s;
      behind = reverse (blanks (reverse u));
      before_blank = blanks-IsBlank s;
      behind_blank = all-reverse is_space _ (blanks-IsBlank (reverse u));
      splits = sym (blanks-skip_space s) ∙ ap (λ t. blanks s ++ t) (back_split u);
      trimmed = record {
        front =
            starts_blank-prefix (reverse r) _
              (ap starts_blank (sym (back_split u)) ∙ skip_space-front s);
        back = ap starts_blank (reverse-reverse r) ∙ skip_space-front (reverse u);
      };
    }

blank-skip_space : (b : Bytes) → all is_space b ≡ true → skip_space b ≡ []
unfolding skip_space
blank-skip_space [] h = refl
blank-skip_space (c ∷ cs) h = ground (arith, blank-skip_space cs)

-- Padding of white space behind a trimmed string comes off.
pub trim-append : (s : Bytes) (b : Bytes) → IsTrimmed s → all is_space b ≡ true → trim (s ++ b) ≡ s
unfolding trim
trim-append [] b t h =
    ap (λ v. reverse (skip_space (reverse v))) (blank-skip_space b h) ∙ unfold skip_space in refl
trim-append (c ∷ cs) b t h =
    ap (λ v. reverse (skip_space (reverse v))) (skip_space-solid (c ∷ (cs ++ b)) t.front)
    ∙ ap (λ v. reverse (skip_space v)) (reverse-append (c ∷ cs) b)
    ∙ ap reverse (skip_space-blanks (reverse b) _ (all-reverse is_space b h) t.back)
    ∙ reverse-reverse (c ∷ cs)
