-- ===== src/Files/Posix.antt =====
-- What the sources rely on in the file calls. The views `file` and `target` are not calls of the
-- program: they are what a path leads to and what a descriptor writes to. A path is its text, so
-- these laws are about a tree in which no two texts in use name one file. Every call may fail, and
-- a call that fails changes no file; a write may be short.
use user_level_checkpoint_re.Base.{
  ℕ, ◌+◌, ◌≤◌, ◌<◌, ◌^◌, ◌≡◌, Bool, true, false, ◌&&◌, Option, none, some, [], ◌++◌, Bytes, length,
  take, drop, str_eq, if◌then◌else◌, done, failed,
}
use user_level_checkpoint_re.Files.{OpenMode, read_only, directory, write_truncate, Files}

abbrev pub is_some {ℓ} : {A : Type ℓ} → Option A → Bool
is_some none = false
is_some (some a) = true

-- The contents of a file that has been opened.
abbrev pub opened : OpenMode → Option Bytes → Option Bytes
opened read_only c = c
opened directory c = c
opened write_truncate c = some []
opened _ none = some []
opened _ (some c) = some c

-- The number of bytes that a call has written.
abbrev pub count_of : Option ℕ → ℕ
count_of none = 0
count_of (some n) = n

-- `bytes` over the contents from `offset` on.
abbrev pub splice : ℕ → Bytes → Bytes → Bytes
splice offset bytes c = take offset c ++ (bytes ++ drop (offset + length bytes) c)

abbrev pub spliced : ℕ → Bytes → Option Bytes → Option Bytes
spliced offset bytes none = none
spliced offset bytes (some c) = some (splice offset bytes c)

-- What `rename` makes of the file at `q`, and `unlink`.
abbrev pub renamed : (Bytes → Option Bytes) → Bytes → Bytes → Bytes → Option Bytes
renamed file old new q = if str_eq q new then file old else if str_eq q old then none else file q

pub record IsPosix (fs : Files) : Type 0 where
  pub file : fs.World → Bytes → Option Bytes
  pub target : fs.World → ℕ → Option (Bytes × ℕ)
  pub open-file :
      (m : OpenMode) (p : Bytes) (w : fs.World) (q : Bytes)
      → file (fs.open_file m p w).1 q
        ≡ (if is_some (fs.open_file m p w).0 && str_eq q p then opened m (file w p) else file w q)
  pub open-target :
      (m : OpenMode) (p : Bytes) (w : fs.World) (fd : ℕ)
      → (fs.open_file m p w).0 ≡ some fd
      → target (fs.open_file m p w).1 fd ≡ some (p, 0)
  pub close-file : (fd : ℕ) (w : fs.World) (q : Bytes) → file (fs.close_file fd w) q ≡ file w q
  pub write-file :
      (fd : ℕ) (bytes : Bytes) (w : fs.World) (p : Bytes) (offset : ℕ) (q : Bytes)
      → target w fd ≡ some (p, offset)
      → file (fs.write fd bytes w).1 q ≡ (
          if str_eq q p
          then spliced offset (take (count_of (fs.write fd bytes w).0) bytes) (file w p)
          else file w q)
  pub write-count :
      (fd : ℕ) (bytes : Bytes) (w : fs.World) → count_of (fs.write fd bytes w).0 ≤ length bytes
  pub write-target :
      (fd : ℕ) (bytes : Bytes) (w : fs.World) (p : Bytes) (offset : ℕ)
      → target w fd ≡ some (p, offset)
      → target (fs.write fd bytes w).1 fd ≡ some (p, offset + count_of (fs.write fd bytes w).0)
  pub pwrite-file :
      (fd : ℕ) (bytes : Bytes) (at : ℕ) (w : fs.World) (p : Bytes) (offset : ℕ) (q : Bytes)
      → target w fd ≡ some (p, offset)
      → file (fs.pwrite fd bytes at w).1 q ≡ (
          if str_eq q p
          then spliced at (take (count_of (fs.pwrite fd bytes at w).0) bytes) (file w p)
          else file w q)
  pub pwrite-target :
      (fd : ℕ) (bytes : Bytes) (at : ℕ) (w : fs.World)
      → target (fs.pwrite fd bytes at w).1 fd ≡ target w fd
  pub read-bytes :
      (fd size : ℕ) (w : fs.World) (p : Bytes) (offset : ℕ) (c b : Bytes)
      → target w fd ≡ some (p, offset)
      → file w p ≡ some c
      → (fs.read fd size w).0 ≡ some b
      → b ≡ take size (drop offset c)
  pub read-target :
      (fd size : ℕ) (w : fs.World) (p : Bytes) (offset : ℕ) (b : Bytes)
      → target w fd ≡ some (p, offset)
      → (fs.read fd size w).0 ≡ some b
      → target (fs.read fd size w).1 fd ≡ some (p, offset + length b)
  pub read-file : (fd size : ℕ) (w : fs.World) (q : Bytes) → file (fs.read fd size w).1 q ≡ file w q
  pub lseek-file : (fd : ℕ) (w : fs.World) (q : Bytes) → file (fs.lseek_current fd w).1 q ≡ file w q
  pub lseek-target : (fd : ℕ) (w : fs.World) → target (fs.lseek_current fd w).1 fd ≡ target w fd
  -- The offset is an `off_t`.
  pub lseek-offset :
      (fd : ℕ) (w : fs.World) (n : ℕ) → (fs.lseek_current fd w).0 ≡ some n → n < 2 ^ 63
  pub lseek-tells :
      (fd : ℕ) (w : fs.World) (p : Bytes) (offset n : ℕ)
      → target w fd ≡ some (p, offset)
      → (fs.lseek_current fd w).0 ≡ some n
      → n ≡ offset
  pub fsync-file : (fd : ℕ) (w : fs.World) (q : Bytes) → file (fs.fsync fd w).1 q ≡ file w q
  pub rename-done :
      (old new : Bytes) (w : fs.World) (q : Bytes)
      → (fs.rename old new w).0 ≡ done
      → file (fs.rename old new w).1 q ≡ renamed (file w) old new q
  pub rename-failed :
      (old new : Bytes) (w : fs.World) (q : Bytes)
      → (fs.rename old new w).0 ≡ failed
      → file (fs.rename old new w).1 q ≡ file w q
  -- `unlink` removes the file or leaves it.
  pub unlink-file :
      (p : Bytes) (w : fs.World) (q : Bytes)
      → str_eq q p ≡ false
      → file (fs.unlink p w) q ≡ file w q
  pub mkdir-file : (p : Bytes) (w : fs.World) (q : Bytes) → file (fs.mkdir p w).1 q ≡ file w q
  pub access-file : (p : Bytes) (w : fs.World) (q : Bytes) → file (fs.access p w).1 q ≡ file w q
  pub access_there :
      (p : Bytes) (w : fs.World) (c : Bytes) → file w p ≡ some c → (fs.access p w).0 ≡ true
  pub flock-file : (fd : ℕ) (w : fs.World) (q : Bytes) → file (fs.flock fd w).1 q ≡ file w q
  pub funlock-file : (fd : ℕ) (w : fs.World) (q : Bytes) → file (fs.funlock fd w) q ≡ file w q
  pub now-file : (w : fs.World) (q : Bytes) → file (fs.now_text w).1 q ≡ file w q
