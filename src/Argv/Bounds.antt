-- ===== src/Argv/Bounds.antt =====
-- What the argument vectors hold.
use user_level_checkpoint_re.Base.{
  ℕ, zero, suc, ◌+◌, ◌-◌, ◌≤◌, ◌<◌, ◌≡◌, refl, ◌∙◌, ap, true, false, none, some, List, [], ◌∷◌, ltb,
  Bytes, length, take, take_all, length-take, arith, Bool-cases, inl, inr,
}
use user_level_checkpoint_re.Cstring.{strtok}
use user_level_checkpoint_re.Cstring.Tokens.{AllTokens, spaced, strtok-spaced}
use user_level_checkpoint_re.Common.{copied}
use user_level_checkpoint_re.Common.Buffers.{copied_fits}
use user_level_checkpoint_re.Argv.{store_tokens, build_workload_argv, build_exec_argv}

-- The loop stores as many tokens as leave room for the NULL.
store_tokens-take :
    (max_args argc : ℕ) (tokens : List Bytes)
    → store_tokens max_args argc tokens ≡ take (max_args - 1 - argc) tokens
unfolding store_tokens
store_tokens-take max_args argc [] = go (max_args - 1 - argc)
  where
    go : (n : ℕ) → [] ≡ take {A = Bytes} n []
    go zero = refl
    go (suc n) = refl
store_tokens-take max_args argc (token ∷ tokens) = elim (Bool-cases (ltb (argc + 1) max_args)) [
  | inl room ↦ rw room (
      ap (◌∷◌ token) (store_tokens-take max_args (argc + 1) tokens)
      ∙ ap (λ k. take k (token ∷ tokens)) (room_for_one room))
  | inr full ↦ rw full (ap (λ k. take k (token ∷ tokens)) (none_left full))
]
  where
    room_for_one :
        ltb (argc + 1) max_args ≡ true → suc (max_args - 1 - (argc + 1)) ≡ max_args - 1 - argc
    room_for_one h = ground arith

    none_left : ltb (argc + 1) max_args ≡ false → 0 ≡ max_args - 1 - argc
    none_left h = ground arith

-- For a vector with room for the program and the NULL, both functions store the program's path and
-- then the tokens of the arguments as far as there is room, so that the NULL stays in the array;
-- they give the same vector. A smaller vector is refused.
pub build_argv_lem :
    (path args : Bytes) (max_args : ℕ)
    → (2 ≤ max_args
        → (argv : List Bytes) × (build_workload_argv path args max_args ≡ some argv)
          × (argv ≡ path ∷ take (max_args - 2) (strtok (copied 256 args)))
          × (length argv + 1 ≤ max_args))
      × (build_exec_argv path (some args) max_args ≡ build_workload_argv path args max_args)
      × (max_args < 2 → build_workload_argv path args max_args ≡ none)
unfolding build_workload_argv build_exec_argv
build_argv_lem path args max_args = (
  λ h. (
    path ∷ store_tokens max_args 1 tokens,
    ground arith,
    ap (◌∷◌ path) (stored h),
    omega (arith, ap length (stored h), length-take (max_args - 2) tokens),
  ),
  refl,
  λ h. ground arith,
)
  where
    tokens : List Bytes
    tokens = strtok (copied 256 args)

    stored : 2 ≤ max_args → store_tokens max_args 1 tokens ≡ take (max_args - 2) tokens
    stored h =
        let e : max_args - 1 - 1 ≡ max_args - 2 = omega arith in
        store_tokens-take max_args 1 tokens ∙ ap (λ k. take k tokens) e

-- Arguments written with blanks between them, in 255 bytes and at most 30 of them, reach the program
-- as they are.
pub build_argv-spaced :
    (path : Bytes) (args : List Bytes)
    → AllTokens args
    → length (spaced args) < 256
    → length args ≤ 30
    → build_exec_argv path (some (spaced args)) 32 ≡ some (path ∷ args)
unfolding build_exec_argv
build_argv-spaced path args h short few =
    ap (λ ts. some (path ∷ ts))
      (store_tokens-take 32 1 (strtok (copied 256 (spaced args)))
        ∙ ap (λ s. take 30 (strtok s)) (copied_fits 256 (spaced args) short)
        ∙ ap (take 30) (strtok-spaced args h)
        ∙ take_all 30 args few)
