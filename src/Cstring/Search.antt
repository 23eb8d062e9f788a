-- ===== src/Cstring/Search.antt =====
-- Searching and cutting strings whose parts are known.
use user_level_checkpoint_re.Base.{
  ℕ, ◌≡◌, refl, Bool, true, not, ◌||◌, some, [], ◌∷◌, ◌++◌, ◌==◌, Bytes, all, arith, zero, suc, ap,
  take, Bool-cases, inl, inr,
}
use user_level_checkpoint_re.Cstring.{c_str, split_at, cut_line, strip_prefix, after_first}

-- Not the end of a string, nor of a line.
abbrev pub is_plain : ℕ → Bool
is_plain c = not (c == 0 || (c == b'\r' || c == b'\n'))

pub c_str-append : (s t : Bytes) → all is_plain s ≡ true → c_str (s ++ t) ≡ s ++ c_str t
unfolding c_str
c_str-append [] t h = refl
c_str-append (c ∷ cs) t h = ground (arith, c_str-append cs t)

pub c_str_plain : (s : Bytes) → all is_plain s ≡ true → c_str s ≡ s
unfolding c_str
c_str_plain [] h = refl
c_str_plain (c ∷ cs) h = ground (arith, c_str_plain cs)

pub cut_line_plain : (s : Bytes) → all is_plain s ≡ true → cut_line s ≡ s
unfolding cut_line
cut_line_plain [] h = refl
cut_line_plain (c ∷ cs) h = ground (arith, cut_line_plain cs)

pub cut_line-append : (s t : Bytes) → all is_plain s ≡ true → cut_line (s ++ b'\n' ∷ t) ≡ s
unfolding cut_line
cut_line-append [] t h = refl
cut_line-append (c ∷ cs) t h = ground (arith, cut_line-append cs t)

pub split_at-append :
    (c : ℕ) (s t : Bytes) → all (λ x. not (x == c)) s ≡ true → split_at c (s ++ c ∷ t) ≡ some (s, t)
unfolding split_at
split_at-append c [] t h = ground arith
split_at-append c (x ∷ xs) t h = ground (arith, split_at-append c xs t)

pub strip_prefix-append : (p t : Bytes) → strip_prefix p (p ++ t) ≡ some t
unfolding strip_prefix
strip_prefix-append [] t = refl
strip_prefix-append (c ∷ cs) t = ground (arith, strip_prefix-append cs t)

pub after_first-append : (p t : Bytes) → after_first p (p ++ t) ≡ some t
unfolding after_first
after_first-append [] [] = unfold strip_prefix in refl
after_first-append [] (c ∷ t) = unfold strip_prefix in refl
after_first-append (c ∷ cs) t = rw (strip_prefix-append (c ∷ cs) t, after_first)

pub c_str-c_str : (s : Bytes) → c_str (c_str s) ≡ c_str s
unfolding c_str
c_str-c_str [] = refl
c_str-c_str (c ∷ cs) = elim (Bool-cases (c == 0)) [
  | inl z ↦ rw z refl
  | inr n ↦ rw n (rw n (ap (◌∷◌ c) (c_str-c_str cs)))
]

pub c_str-take : (n : ℕ) (s : Bytes) → c_str s ≡ s → c_str (take n s) ≡ take n s
unfolding c_str
c_str-take zero s h = refl
c_str-take (suc n) [] h = refl
c_str-take (suc n) (c ∷ cs) h = elim (Bool-cases (c == 0)) [
  | inl z ↦ absurd (cc (rw z at h))
  | inr k ↦ rw k (ap (◌∷◌ c) (c_str-take n cs (cc (rw k at h))))
]
