-- ===== src/Procfs/Descriptors/Limit.antt =====
-- Which descriptors `collect_fds` of src/procfs.c stores.
use user_level_checkpoint_re.Base.{
  ℕ, zero, suc, ◌-◌, ◌≤◌, ◌≡◌, refl, sym, ◌∙◌, ap, some, List, [], ◌∷◌, ◌++◌, ltb, if◌then◌else◌,
  Bytes, codes, length, length-append, take, length-take, append-nil, append_assoc, arith,
  Bool-cases, inl, inr,
}
use user_level_checkpoint_re.Base.Int.{ℤ}
use user_level_checkpoint_re.Common.{is_numeric}
use user_level_checkpoint_re.Procfs.{FdEntry, max_fds}
use user_level_checkpoint_re.Procfs.Descriptors.{
  Proc, proc_path, describe_fd, collect_names, collect_fds,
}

-- The entries of the names that are numbers, with no limit.
unfoldable pub described : Proc → ℤ → List Bytes → List FdEntry
described proc pid [] = []
described proc pid (name ∷ names) =
    let rest = described proc pid names in
    if is_numeric (some name) then describe_fd proc pid name ∷ rest else rest

take-nil : {A : Type 0} (n : ℕ) → take {A = A} n [] ≡ []
take-nil zero = refl
take-nil (suc n) = refl

collect_names-take :
    (proc : Proc) (pid : ℤ) (fds : List FdEntry) (names : List Bytes)
    → length fds ≤ max_fds
    → collect_names proc pid fds names
      ≡ fds ++ take (max_fds - length fds) (described proc pid names)
unfolding collect_names described
collect_names-take proc pid fds [] h =
    sym (ap (λ l. fds ++ l) (take-nil (max_fds - length fds)) ∙ append-nil fds)
collect_names-take proc pid fds (name ∷ names) h = elim (Bool-cases (is_numeric (some name))) [
  | inr other ↦ rw other (collect_names-take proc pid fds names h)
  | inl number ↦ rw number (elim (Bool-cases (ltb (length fds) max_fds)) [
    | inl room ↦
        let more = fds ++ describe_fd proc pid name ∷ [] in
        let e : max_fds - length fds ≡ suc (max_fds - length more) =
          ground (arith, length-append fds (describe_fd proc pid name ∷ [])) in
        rw room (
          collect_names-take proc pid more names
            (ground (arith, length-append fds (describe_fd proc pid name ∷ [])))
          ∙ append_assoc fds (describe_fd proc pid name ∷ [])
              (take (max_fds - length more) (described proc pid names))
          ∙ ap (λ k. fds ++ take k (describe_fd proc pid name ∷ described proc pid names)) (sym e))
    | inr full ↦
        let e : max_fds - length fds ≡ 0 = ground arith in
        rw full (
          sym (
            ap (λ k. fds ++ take k (describe_fd proc pid name ∷ described proc pid names)) e
            ∙ append-nil fds))
  ])
]

-- Where the directory can be read, `collect_fds` stores the entries of the names that are numbers,
-- in the order of the directory, up to the 128 that the array holds.
pub collect_fds_lem :
    (proc : Proc) (pid : ℤ) (names : List Bytes)
    → proc.entries (proc_path pid (codes "/fd")) ≡ some names
    → (fds : List FdEntry) × (collect_fds proc pid ≡ some fds)
      × (fds ≡ take max_fds (described proc pid names))
      × (length fds ≤ max_fds)
unfolding collect_fds
collect_fds_lem proc pid names here =
    let e = collect_names-take proc pid [] names (omega arith) in
    (
      collect_names proc pid [] names,
      rw (collect_fds, here) refl,
      e,
      omega (arith, ap length e, length-take max_fds (described proc pid names)),
    )
