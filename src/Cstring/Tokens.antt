-- ===== src/Cstring/Tokens.antt =====
-- `strtok` at blanks.
use mathlib.Core.List.{reverse-append, reverse-reverse}
use user_level_checkpoint_re.Base.{
  ℕ, ◌≡◌, refl, ◌∙◌, ap, sym, Bool, true, false, not, List, [], ◌∷◌, ◌++◌, ◌==◌, if◌then◌else◌,
  Bytes, all, all-append, reverse, append-nil, append_assoc, arith, inl, inr, Bool-cases, ◌≢◌,
}
use user_level_checkpoint_re.Cstring.{flush, tokens_onto, strtok}

abbrev pub is_inside : ℕ → Bool
is_inside c = not (c == b' ')

-- A maximal run of bytes that are no blanks.
abbrev pub IsToken : Bytes → Type 0
IsToken t = (t ≢ []) × (all is_inside t ≡ true)

abbrev pub AllTokens : List Bytes → Type 0
AllTokens [] = Unit
AllTokens (t ∷ ts) = IsToken t × AllTokens ts

-- The bytes of a list of tokens, blanks left out.
abbrev pub squeeze : Bytes → Bytes
squeeze [] = []
squeeze (c ∷ cs) = if c == b' ' then squeeze cs else c ∷ squeeze cs

abbrev pub joined_tokens : List Bytes → Bytes
joined_tokens [] = []
joined_tokens (t ∷ ts) = t ++ joined_tokens ts

-- A command line that separates the tokens by one blank each.
abbrev pub spaced : List Bytes → Bytes
spaced [] = []
spaced (t ∷ ts) = t ++ b' ' ∷ spaced ts

reverse-IsToken : (c : ℕ) (cs : Bytes) → all is_inside (c ∷ cs) ≡ true → IsToken (reverse (c ∷ cs))
reverse-IsToken c cs h = (nonempty, turned (c ∷ cs) h)
  where
    nonempty : reverse (c ∷ cs) ≢ []
    nonempty e = cc (reverse-reverse (c ∷ cs), ap reverse e)

    turned : (s : Bytes) → all is_inside s ≡ true → all is_inside (reverse s) ≡ true
    turned [] k = refl
    turned (x ∷ xs) k =
        rw (reverse-append (x ∷ []) xs)
          (all-append is_inside (reverse xs) (x ∷ []) (turned xs (ground arith)) (ground arith))

flush-AllTokens :
    (run : Bytes) (ts : List Bytes)
    → all is_inside run ≡ true
    → AllTokens ts
    → AllTokens (flush run ++ ts)
unfolding flush
flush-AllTokens [] ts h k = k
flush-AllTokens (c ∷ cs) ts h k = (reverse-IsToken c cs h, k)

joined-flush :
    (run : Bytes) (ts : List Bytes)
    → joined_tokens (flush run ++ ts) ≡ reverse run ++ joined_tokens ts
unfolding flush
joined-flush [] ts = refl
joined-flush (c ∷ cs) ts = refl

tokens_onto-AllTokens : (run s : Bytes) → all is_inside run ≡ true → AllTokens (tokens_onto run s)
unfolding tokens_onto
tokens_onto-AllTokens run [] h = rw (← append-nil (flush run)) (flush-AllTokens run [] h tt)
tokens_onto-AllTokens run (c ∷ cs) h = elim (Bool-cases (c == b' ')) [
  | inl blank ↦
      rw (blank, tokens_onto)
        (flush-AllTokens run (tokens_onto [] cs) h (tokens_onto-AllTokens [] cs refl))
  | inr inside ↦ rw (inside, tokens_onto) (tokens_onto-AllTokens (c ∷ run) cs (ground arith))
]

joined-tokens_onto : (run s : Bytes) → joined_tokens (tokens_onto run s) ≡ reverse run ++ squeeze s
unfolding tokens_onto
joined-tokens_onto run [] = rw (← append-nil (flush run)) (joined-flush run [])
joined-tokens_onto run (c ∷ cs) = elim (Bool-cases (c == b' ')) [
  | inl blank ↦
      rw (blank, tokens_onto)
        (joined-flush run (tokens_onto [] cs)
          ∙ ap (λ t. reverse run ++ t) (joined-tokens_onto [] cs ∙ ground arith))
  | inr inside ↦
      rw (inside, tokens_onto)
        (joined-tokens_onto (c ∷ run) cs
          ∙ ap (λ t. t ++ squeeze cs) (reverse-append (c ∷ []) run)
          ∙ append_assoc (reverse run) (c ∷ []) (squeeze cs)
          ∙ ap (λ t. reverse run ++ t) (ground arith))
]

-- The tokens are not empty and hold no blank, and together they are the string without its blanks.
pub strtok_lem : (s : Bytes) → AllTokens (strtok s) × (joined_tokens (strtok s) ≡ squeeze s)
unfolding strtok
strtok_lem s = (tokens_onto-AllTokens [] s refl, joined-tokens_onto [] s)

tokens_onto-token :
    (run t s : Bytes)
    → all is_inside t ≡ true
    → tokens_onto run (t ++ b' ' ∷ s) ≡ flush (reverse t ++ run) ++ tokens_onto [] s
unfolding tokens_onto
tokens_onto-token run [] s h = refl
tokens_onto-token run (c ∷ cs) s h =
    let inside : (c == b' ') ≡ false = ground arith in
    rw (inside, tokens_onto)
      (tokens_onto-token (c ∷ run) cs s (ground arith)
        ∙ ap (λ r. flush r ++ tokens_onto [] s)
            (sym (append_assoc (reverse cs) (c ∷ []) run)
              ∙ ap (λ r. r ++ run) (sym (reverse-append (c ∷ []) cs))))

flush_nonempty : (r : Bytes) → r ≢ [] → flush r ≡ reverse r ∷ []
unfolding flush
flush_nonempty [] h = absurd (h refl)
flush_nonempty (c ∷ cs) h = refl

flush-reverse : (t : Bytes) → t ≢ [] → flush (reverse t ++ []) ≡ t ∷ []
flush-reverse t h =
    ap flush (append-nil (reverse t))
    ∙ flush_nonempty (reverse t) (λ e. h (sym (reverse-reverse t) ∙ ap reverse e))
    ∙ ap (λ s. s ∷ []) (reverse-reverse t)

-- Tokens that are written with blanks between them are read back.
pub strtok-spaced : (ts : List Bytes) → AllTokens ts → strtok (spaced ts) ≡ ts
unfolding strtok
strtok-spaced [] h = unfold tokens_onto flush in refl
strtok-spaced (t ∷ ts) h =
    tokens_onto-token [] t (spaced ts) h.0.1
    ∙ ap (λ l. l ++ tokens_onto [] (spaced ts)) (flush-reverse t h.0.0)
    ∙ ap (◌∷◌ t) (strtok-spaced ts h.1)
