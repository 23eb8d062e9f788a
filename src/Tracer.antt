-- ===== src/Tracer.antt =====
-- The calls with which src/snapshot.c stops a process and reads it, over the state of the file
-- calls, and the laws that are relied on.
use user_level_checkpoint_re.Base.{
  ℕ, zero, suc, ◌≤◌, ◌≡◌, refl, ap, Bool, true, Option, some, [], ◌∷◌, Bytes, length, Status,
}
use user_level_checkpoint_re.Base.Int.{ℤ}
use user_level_checkpoint_re.Binary.{Codec}
use user_level_checkpoint_re.Files.{OpenMode, Files}
use user_level_checkpoint_re.Files.Posix.{IsPosix}
use user_level_checkpoint_re.Procfs.Descriptors.{Proc}

pub record Tracer (fs : Files) : Type 1 where
  -- `struct user_regs_struct`, its bytes and two of its fields
  pub Regs : Type 0
  pub regs : Codec Regs
  pub rip : Regs → ℕ
  pub rsp : Regs → ℕ
  -- PTRACE_ATTACH, and `waitpid`: whether the process is stopped, `none` for -1
  pub attach : ℤ → fs.World → Status × fs.World
  pub wait_stopped : ℤ → fs.World → Option Bool × fs.World
  pub detach : ℤ → fs.World → fs.World
  pub get_regs : ℤ → fs.World → Option Regs × fs.World
  -- What is under /proc.
  pub proc : fs.World → Proc
  -- `process_vm_readv` of a size at an address
  pub read_memory : ℤ → ℕ → ℕ → fs.World → Option Bytes × fs.World

-- So many bytes of a memory, from an address on.
abbrev pub bytes_at : (ℕ → ℕ) → ℕ → ℕ → Bytes
bytes_at m address zero = []
bytes_at m address (suc n) = m address ∷ bytes_at m (suc address) n

pub length-bytes_at : (m : ℕ → ℕ) (address n : ℕ) → length (bytes_at m address n) ≡ n
length-bytes_at m address zero = refl
length-bytes_at m address (suc n) = ap suc (length-bytes_at m (suc address) n)

-- The views `stopped` and `memory` are not calls of the program: whether a process is stopped by the
-- tracer, and the bytes of its memory by their addresses. The memory of a stopped process stands
-- still while the tracer reads it and writes to a file.
pub record IsTracer (fs : Files) (px : IsPosix fs) (tr : Tracer fs) : Type 0 where
  pub attach-file :
      (pid : ℤ) (w : fs.World) (q : Bytes) → px.file (tr.attach pid w).1 q ≡ px.file w q
  pub wait-file :
      (pid : ℤ) (w : fs.World) (q : Bytes) → px.file (tr.wait_stopped pid w).1 q ≡ px.file w q
  pub detach-file : (pid : ℤ) (w : fs.World) (q : Bytes) → px.file (tr.detach pid w) q ≡ px.file w q
  pub regs-file :
      (pid : ℤ) (w : fs.World) (q : Bytes) → px.file (tr.get_regs pid w).1 q ≡ px.file w q
  -- The registers of a process are a value of their C type.
  pub regs-fits :
      (pid : ℤ) (w : fs.World) (r : tr.Regs) → (tr.get_regs pid w).0 ≡ some r → tr.regs.Fits r
  pub memory-file :
      (pid : ℤ) (address size : ℕ) (w : fs.World) (q : Bytes)
      → px.file (tr.read_memory pid address size w).1 q ≡ px.file w q
  pub memory-target :
      (pid : ℤ) (address size : ℕ) (w : fs.World) (fd : ℕ)
      → px.target (tr.read_memory pid address size w).1 fd ≡ px.target w fd
  pub stopped : ℤ → fs.World → Bool
  pub memory : ℤ → fs.World → ℕ → ℕ
  pub wait-stops :
      (pid : ℤ) (w : fs.World)
      → (tr.wait_stopped pid w).0 ≡ some true
      → stopped pid (tr.wait_stopped pid w).1 ≡ true
  pub memory-bytes :
      (pid : ℤ) (address size : ℕ) (w : fs.World) (b : Bytes)
      → stopped pid w ≡ true
      → (tr.read_memory pid address size w).0 ≡ some b
      → b ≡ bytes_at (memory pid w) address (length b)
  pub regs-frozen :
      (pid : ℤ) (w : fs.World)
      → stopped pid w ≡ true
      → (stopped pid (tr.get_regs pid w).1 ≡ true)
        × (memory pid (tr.get_regs pid w).1 ≡ memory pid w)
  pub open-frozen :
      (pid : ℤ) (m : OpenMode) (p : Bytes) (w : fs.World)
      → stopped pid w ≡ true
      → (stopped pid (fs.open_file m p w).1 ≡ true)
        × (memory pid (fs.open_file m p w).1 ≡ memory pid w)
  pub write-frozen :
      (pid : ℤ) (fd : ℕ) (bytes : Bytes) (w : fs.World)
      → stopped pid w ≡ true
      → (stopped pid (fs.write fd bytes w).1 ≡ true)
        × (memory pid (fs.write fd bytes w).1 ≡ memory pid w)
  pub lseek-frozen :
      (pid : ℤ) (fd : ℕ) (w : fs.World)
      → stopped pid w ≡ true
      → (stopped pid (fs.lseek_current fd w).1 ≡ true)
        × (memory pid (fs.lseek_current fd w).1 ≡ memory pid w)
  pub memory-frozen :
      (pid : ℤ) (address size : ℕ) (w : fs.World)
      → stopped pid w ≡ true
      → (stopped pid (tr.read_memory pid address size w).1 ≡ true)
        × (memory pid (tr.read_memory pid address size w).1 ≡ memory pid w)
  pub memory-length :
      (pid : ℤ) (address size : ℕ) (w : fs.World) (b : Bytes)
      → (tr.read_memory pid address size w).0 ≡ some b
      → length b ≤ size
