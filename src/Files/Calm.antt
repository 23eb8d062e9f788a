-- ===== src/Files/Calm.antt =====
-- A stretch of a run in which no call fails, for the theorems that say that a routine succeeds.
use user_level_checkpoint_re.Base.{
  ℕ, ◌+◌, ◌≡◌, refl, sym, ◌∙◌, ap, true, some, [], ◌++◌, Bytes, length, take, drop,
  take-append-length, drop-drop, drop-append, arith,
}
use user_level_checkpoint_re.Files.{read_only, Files}
use user_level_checkpoint_re.Files.Posix.{is_some, IsPosix}
use user_level_checkpoint_re.Files.Memory.{Machine, memory_files, memory_files-IsPosix}

-- In a calm state a file that is there can be opened and a read is short only at its end.
pub record IsCalm (fs : Files) (px : IsPosix fs) (Calm : fs.World → Type 0) : Type 0 where
  pub open-calm :
      (p : Bytes) (w : fs.World) (c : Bytes)
      → Calm w
      → px.file w p ≡ some c
      → (is_some (fs.open_file read_only p w).0 ≡ true) × Calm (fs.open_file read_only p w).1
  pub read-calm :
      (fd size : ℕ) (w : fs.World) (p : Bytes) (offset : ℕ) (c : Bytes)
      → Calm w
      → px.target w fd ≡ some (p, offset)
      → px.file w p ≡ some c
      → ((fs.read fd size w).0 ≡ some (take size (drop offset c))) × Calm (fs.read fd size w).1
  pub access-calm : (p : Bytes) (w : fs.World) → Calm w → Calm (fs.access p w).1

-- A machine without faults to come is calm.
abbrev pub HasNoFaults : Machine → Type 0
HasNoFaults w = w.faults ≡ []

pub memory_files-IsCalm : IsCalm memory_files memory_files-IsPosix HasNoFaults
unfolding memory_files-IsPosix
memory_files-IsCalm = record {
  open-calm = λ p w c calm here. ground arith;
  read-calm = λ fd size w p offset c calm at here. ground arith;
  access-calm = λ p w calm. ground arith;
}

module _ (fs : Files) (px : IsPosix fs) (Calm : fs.World → Type 0) (cm : IsCalm fs px Calm) where
  -- Where a descriptor stands: in `p`, whose contents from there on are `rest`.
  pub record StandsAt (w : fs.World) (fd : ℕ) (p : Bytes) (c rest : Bytes) : Type 0 where
    pub offset : ℕ
    pub calm : Calm w
    pub at : px.target w fd ≡ some (p, offset)
    pub here : px.file w p ≡ some c
    pub left : drop offset c ≡ rest

  -- Reading the next part.
  pub read-part :
      (w : fs.World) (fd : ℕ) (p c part rest : Bytes) (size : ℕ)
      → length part ≡ size
      → StandsAt w fd p c (part ++ rest)
      → ((fs.read fd size w).0 ≡ some part) × StandsAt (fs.read fd size w).1 fd p c rest
  read-part w fd p c part rest size e s =
      let r = cm.read-calm fd size w p s.offset c s.calm s.at s.here in
      let taken : take size (drop s.offset c) ≡ part =
        ap (take size) s.left
        ∙ ap (λ n. take n (part ++ rest)) (sym e)
        ∙ take-append-length part rest in
      (
        r.0 ∙ ap some taken,
        record {
          offset = s.offset + length part;
          calm = r.1;
          at = px.read-target fd size w p s.offset part s.at (r.0 ∙ ap some taken);
          here = px.read-file fd size w p ∙ s.here;
          left =
              drop-drop s.offset (length part) c
              ∙ ap (drop (length part)) s.left
              ∙ drop-append part rest (length part) refl;
        },
      )
