-- ===== src/Storage/Reading.antt =====
-- Reading a text file of src/common.c back.
use user_level_checkpoint_re.Base.{
  ℕ, ◌-◌, ◌<◌, ◌≡◌, refl, ◌∙◌, ap, Option, none, some, inl, inr, Bytes, length, take, take_all,
  str_eq_iff, done, Option-cases, arith,
}
use user_level_checkpoint_re.Cstring.{c_str}
use user_level_checkpoint_re.Files.{read_only, Files}
use user_level_checkpoint_re.Files.Posix.{IsPosix}
use user_level_checkpoint_re.Files.Calm.{IsCalm}
use user_level_checkpoint_re.Storage.{text_of, read_opened, read_text_file, atomic_write_text_file}
use user_level_checkpoint_re.Storage.Atomic.{atomic_write_text_file-Replaced}

module _ (fs : Files) (px : IsPosix fs) where
  open px use {file, target}

  pub open_read-file :
      (p : Bytes) (w : fs.World) (q : Bytes) → file (fs.open_file read_only p w).1 q ≡ file w q
  open_read-file p w q = ground (arith, px.open-file read_only p w q, str_eq_iff q p)

  read_opened-file :
      (size : ℕ) (fd : Option ℕ) (w : fs.World) (q : Bytes)
      → file (read_opened fs size fd w).1 q ≡ file w q
  unfolding read_opened
  read_opened-file size none w q = refl
  read_opened-file size (some fd) w q =
      px.close-file fd (fs.read fd (size - 1) w).1 q ∙ px.read-file fd (size - 1) w q

  -- Reading a file changes none.
  pub read_text_file-file :
      (path : Bytes) (size : ℕ) (w : fs.World) (q : Bytes)
      → file (read_text_file fs path size w).1 q ≡ file w q
  unfolding read_text_file
  read_text_file-file path size w q =
      read_opened-file size (fs.open_file read_only path w).0 (fs.open_file read_only path w).1 q
      ∙ open_read-file path w q

  read_opened-text :
      (path : Bytes) (size : ℕ) (fd : Option ℕ) (w : fs.World) (c b : Bytes)
      → ((n : ℕ) → fd ≡ some n → target w n ≡ some (path, 0))
      → file w path ≡ some c
      → (read_opened fs size fd w).0 ≡ some b
      → b ≡ c_str (take (size - 1) c)
  unfolding read_opened text_of
  read_opened-text path size none w c b at here e = cc
  read_opened-text path size (some fd) w c b at here e = go (fs.read fd (size - 1) w).0 refl e
    where
      go :
          (r : Option Bytes)
          → (fs.read fd (size - 1) w).0 ≡ r
          → text_of fs r ≡ some b
          → b ≡ c_str (take (size - 1) c)
      go none k h = cc
      go (some t) k h = cc (ap c_str (px.read-bytes fd (size - 1) w path 0 c t (at fd refl) here k))

  -- What is read of a file is its text, as far as the buffer has room.
  pub read_text_file-text :
      (path : Bytes) (size : ℕ) (w : fs.World) (c b : Bytes)
      → file w path ≡ some c
      → (read_text_file fs path size w).0 ≡ some b
      → b ≡ c_str (take (size - 1) c)
  unfolding read_text_file
  read_text_file-text path size w c b here =
      read_opened-text path size (fs.open_file read_only path w).0 (fs.open_file read_only path w).1
        c b (px.open-target read_only path w) (open_read-file path w path ∙ here)

module _ (fs : Files) (px : IsPosix fs) (Calm : fs.World → Type 0) (cm : IsCalm fs px Calm) where
  open px use {file, target}

  read_opened_calm :
      (path : Bytes) (size : ℕ) (o : Option ℕ) (fd : ℕ) (w : fs.World) (c : Bytes)
      → o ≡ some fd
      → Calm w
      → target w fd ≡ some (path, 0)
      → file w path ≡ some c
      → (read_opened fs size o w).0 ≡ some (c_str (take (size - 1) c))
  unfolding read_opened text_of
  read_opened_calm path size o fd w c e calm at here =
      ap (λ r. (read_opened fs size r w).0) e
      ∙ ap (text_of fs) (cm.read-calm fd (size - 1) w path 0 c calm at here).0

  -- Reading a file that is there.
  pub read_text_file_calm :
      (path : Bytes) (size : ℕ) (w : fs.World) (c : Bytes)
      → Calm w
      → file w path ≡ some c
      → (read_text_file fs path size w).0 ≡ some (c_str (take (size - 1) c))
  unfolding read_text_file
  read_text_file_calm path size w c calm here =
      let w' = (fs.open_file read_only path w).1 in
      let opening = cm.open-calm path w c calm here in
      elim (Option-cases (fs.open_file read_only path w).0) [
        | inl closed ↦ absurd (cc (rw closed at opening.0))
        | inr (fd, e) ↦
            read_opened_calm path size (fs.open_file read_only path w).0 fd w' c e opening.1
              (px.open-target read_only path w fd e) (open_read-file fs px path w path ∙ here)
      ]

  -- A text that was written with success is what is read, if no call fails from then on, the text
  -- fits the reader's buffer and holds no 0 byte; and reading changes no file.
  pub read-atomic_write :
      (path value : Bytes) (size : ℕ) (w : fs.World)
      → length value < size
      → c_str value ≡ value
      → (atomic_write_text_file fs path value w).0 ≡ done
      → Calm (atomic_write_text_file fs path value w).1
      → ((read_text_file fs path size (atomic_write_text_file fs path value w).1).0 ≡ some value)
        × ((q : Bytes)
            → file (read_text_file fs path size (atomic_write_text_file fs path value w).1).1 q
              ≡ file (atomic_write_text_file fs path value w).1 q)
  read-atomic_write path value size w short text written calm =
      let r = atomic_write_text_file-Replaced fs px path value w in
      let w' = (atomic_write_text_file fs path value w).1 in
      (
        read_text_file_calm path size w' value calm (r.new_if_done written)
            ∙ ap (λ v. some (c_str v)) (take_all (size - 1) value (omega arith))
            ∙ ap some text,
        read_text_file-file fs px path size w',
      )
