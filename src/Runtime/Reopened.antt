-- ===== src/Runtime/Reopened.antt =====
-- Where the descriptors lead after `restore_supported_fds` of src/runtime.c.
use user_level_checkpoint_re.Base.{
  ℕ, ◌≡◌, ◌≢◌, refl, sym, ◌∙◌, ap, true, ◌==◌, Option, none, some, List, [], ◌∷◌, Bytes, done,
  Bool-cases, inl, inr, arith,
}
use user_level_checkpoint_re.Base.Int.{pos, ltb_ℤ}
use user_level_checkpoint_re.Files.{Files}
use user_level_checkpoint_re.Kernel.{Kernel, IsKernel}
use user_level_checkpoint_re.Procfs.{FdEntry}
use user_level_checkpoint_re.Runtime.{
  is_reopened, number_of, sought, place_fd, restore_fd, restore_supported_fds,
}

module _ (fs : Files) (k : Kernel fs) where
  -- No entry that is opened again has this number.
  abbrev pub NoneHas : ℕ → List FdEntry → Type 0
  NoneHas c [] = Unit
  NoneHas c (e ∷ es) = (is_reopened e ≡ true → c ≢ number_of fs k e) × NoneHas c es

  -- No two entries that are opened again have one number.
  abbrev pub Distinct : List FdEntry → Type 0
  Distinct [] = Unit
  Distinct (e ∷ es) = (is_reopened e ≡ true → NoneHas (number_of fs k e) es) × Distinct es

module _ (fs : Files) (k : Kernel fs) (kn : IsKernel fs k) where
  open kn use {leads}

  sought-leads :
      (e : FdEntry) (fd : ℕ) (w : fs.World) (c : ℕ) → leads (sought fs k e fd w) c ≡ leads w c
  unfolding sought
  sought-leads e fd w c = elim (Bool-cases (ltb_ℤ (pos 0) e.position)) [
    | inl moved ↦ rw moved (kn.seek-leads fd e.position w c)
    | inr same ↦ rw same refl
  ]

  place_fd-others :
      (e : FdEntry) (fd : ℕ) (w : fs.World) (c : ℕ)
      → c ≢ fd
      → c ≢ number_of fs k e
      → leads (place_fd fs k e (some fd) w) c ≡ leads w c
  unfolding place_fd
  place_fd-others e fd w c h n = elim (Bool-cases (fd == number_of fs k e)) [
    | inl same ↦ rw same (sought-leads e fd w c)
    | inr other ↦ rw other (
        kn.close-others fd (k.dup2 fd (number_of fs k e) (sought fs k e fd w)).1 c h
        ∙ kn.dup2-others fd (number_of fs k e) (sought fs k e fd w) c n
        ∙ sought-leads e fd w c)
  ]

  place_opened-others :
      (e : FdEntry) (w : fs.World) (c : ℕ) (p : Bytes) (o : Option ℕ)
      → (k.open_as e.target e.flags w).0 ≡ o
      → c ≢ number_of fs k e
      → leads w c ≡ some p
      → leads (place_fd fs k e o (k.open_as e.target e.flags w).1) c ≡ some p
  unfolding place_fd
  place_opened-others e w c p none closed n h =
      kn.open-others e.target e.flags w c (λ q. cc (closed, q)) ∙ h
  place_opened-others e w c p (some fd) opened n h =
      let new = kn.open-new e.target e.flags w fd opened in
      let c_ne : c ≢ fd = λ q. cc (h, new.0, ap (leads w) q) in
      place_fd-others e fd (k.open_as e.target e.flags w).1 c c_ne n
      ∙ kn.open-others e.target e.flags w c (λ q. c_ne (cc (q, opened)))
      ∙ h

  restore_fd-others :
      (e : FdEntry) (w : fs.World) (c : ℕ) (p : Bytes)
      → (is_reopened e ≡ true → c ≢ number_of fs k e)
      → leads w c ≡ some p
      → leads (restore_fd fs k e w) c ≡ some p
  unfolding restore_fd
  restore_fd-others e w c p n h = elim (Bool-cases (is_reopened e)) [
    | inr skipped ↦ rw skipped h
    | inl again ↦
        rw again (place_opened-others e w c p (k.open_as e.target e.flags w).0 refl (n again) h)
  ]

  -- A descriptor that is open, and whose number no entry that is opened again has, leads where it
  -- did, whichever calls of `restore_supported_fds` fail.
  pub restore_supported_fds-others :
      (es : List FdEntry) (w : fs.World) (c : ℕ) (p : Bytes)
      → NoneHas fs k c es
      → leads w c ≡ some p
      → leads (restore_supported_fds fs k es w) c ≡ some p
  unfolding restore_supported_fds
  restore_supported_fds-others [] w c p n h = h
  restore_supported_fds-others (e ∷ es) w c p n h =
      restore_supported_fds-others es (restore_fd fs k e w) c p n.1
        (restore_fd-others e w c p n.0 h)

  -- The path of an entry can be opened and its number can be taken.
  abbrev pub CanReopen : FdEntry → Type 0
  CanReopen e =
      ((w : fs.World) → (k.open_as e.target e.flags w).0 ≢ none)
      × ((fd : ℕ) (w : fs.World)
          → leads w fd ≡ some e.target
          → (k.dup2 fd (number_of fs k e) w).0 ≡ done)

  abbrev pub AllCanReopen : List FdEntry → Type 0
  AllCanReopen [] = Unit
  AllCanReopen (e ∷ es) = (is_reopened e ≡ true → CanReopen e) × AllCanReopen es

  -- Each entry that is opened again leads to its path under its number.
  abbrev pub AllLead : List FdEntry → fs.World → Type 0
  AllLead [] w = Unit
  AllLead (e ∷ es) w =
      (is_reopened e ≡ true → leads w (number_of fs k e) ≡ some e.target) × AllLead es w

  place_opened-leads :
      (e : FdEntry) (w : fs.World) (o : Option ℕ)
      → (k.open_as e.target e.flags w).0 ≡ o
      → CanReopen e
      → leads (place_fd fs k e o (k.open_as e.target e.flags w).1) (number_of fs k e)
        ≡ some e.target
  unfolding place_fd
  place_opened-leads e w none closed can = absurd (can.0 w closed)
  place_opened-leads e w (some fd) opened can =
      let w1 = (k.open_as e.target e.flags w).1 in
      let n = number_of fs k e in
      let w2 = sought fs k e fd w1 in
      let here : leads w2 fd ≡ some e.target =
        sought-leads e fd w1 fd ∙ (kn.open-new e.target e.flags w fd opened).1 in
      elim (Bool-cases (fd == n)) [
        | inl same ↦ let q : fd ≡ n = ground arith in rw same (ap (leads w2) (sym q) ∙ here)
        | inr other ↦
            let q : n ≢ fd = ground arith in
            rw other (
              kn.close-others fd (k.dup2 fd n w2).1 n q
              ∙ kn.dup2-done fd n w2 (can.1 fd w2 here)
              ∙ here)
      ]

  restore_fd-leads :
      (e : FdEntry) (w : fs.World)
      → is_reopened e ≡ true
      → CanReopen e
      → leads (restore_fd fs k e w) (number_of fs k e) ≡ some e.target
  unfolding restore_fd
  restore_fd-leads e w again can =
      rw again (place_opened-leads e w (k.open_as e.target e.flags w).0 refl can)

  -- If the entries that are opened again have different numbers, their paths can be opened and
  -- their numbers taken, each of them leads to its path under its number afterwards. The
  -- descriptor of the snapshot is no exception: an entry with its number takes its place.
  pub restore_supported_fds-AllLead :
      (es : List FdEntry) (w : fs.World)
      → Distinct fs k es
      → AllCanReopen es
      → AllLead es (restore_supported_fds fs k es w)
  unfolding restore_supported_fds
  restore_supported_fds-AllLead [] w d can = tt
  restore_supported_fds-AllLead (e ∷ es) w d can = (
    λ again.
        restore_supported_fds-others es (restore_fd fs k e w) (number_of fs k e) e.target
          (d.0 again) (restore_fd-leads e w again (can.0 again)),
    restore_supported_fds-AllLead es (restore_fd fs k e w) d.1 can.1,
  )
