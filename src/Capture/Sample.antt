-- ===== src/Capture/Sample.antt =====
-- A traced process whose memory can be read at every address, for the examples of a capture.
use user_level_checkpoint_re.Base.{
  ℕ, ◌%◌, ◌≡◌, ◌≤◌, refl, sym, ◌∙◌, ap, Option, true, some, Bytes, length, done, arith,
}
use user_level_checkpoint_re.Binary.Arrays.{word}
use user_level_checkpoint_re.Files.Memory.{memory_files, memory_files-IsPosix}
use user_level_checkpoint_re.Procfs.Descriptors.{Proc}
use user_level_checkpoint_re.Tracer.{Tracer, IsTracer, bytes_at, length-bytes_at}

-- What stands at an address of the process.
abbrev pub remembered : ℕ → ℕ
remembered address = address % 256

abbrev pub tracer_of : Proc → Tracer memory_files
tracer_of proc = record {
  Regs = ℕ;
  regs = word 8;
  rip = λ r. r;
  rsp = λ r. r;
  attach = λ pid w. (done, w);
  wait_stopped = λ pid w. (some true, w);
  detach = λ pid w. w;
  get_regs = λ pid w. (some 99, w);
  proc = λ w. proc;
  read_memory = λ pid address size w. (some (bytes_at remembered address size), w);
}

short :
    (address size : ℕ) (b : Bytes)
    → ◌≡◌ {A = Option Bytes} (some (bytes_at remembered address size)) (some b)
    → length b ≤ size
short address size b e =
    let q : b ≡ bytes_at remembered address size = cc in
    omega (arith, ap length q, length-bytes_at remembered address size)

remembered_here :
    (address size : ℕ) (b : Bytes)
    → ◌≡◌ {A = Option Bytes} (some (bytes_at remembered address size)) (some b)
    → b ≡ bytes_at remembered address (length b)
remembered_here address size b e =
    let q : b ≡ bytes_at remembered address size = cc in
    let k : size ≡ length b = sym (ap length q ∙ length-bytes_at remembered address size) in
    q ∙ ap (bytes_at remembered address) k

pub tracer_of-IsTracer : (proc : Proc) → IsTracer memory_files memory_files-IsPosix (tracer_of proc)
tracer_of-IsTracer proc = record {
  attach-file = λ pid w q. refl;
  wait-file = λ pid w q. refl;
  detach-file = λ pid w q. refl;
  regs-file = λ pid w q. refl;
  regs-fits = λ pid w r e. ground arith;
  memory-file = λ pid address size w q. refl;
  memory-target = λ pid address size w fd. refl;
  stopped = λ pid w. true;
  memory = λ pid w address. remembered address;
  wait-stops = λ pid w e. refl;
  memory-bytes = λ pid address size w b h e. remembered_here address size b e;
  regs-frozen = λ pid w h. (refl, refl);
  open-frozen = λ pid m p w h. (refl, refl);
  write-frozen = λ pid fd bytes w h. (refl, refl);
  lseek-frozen = λ pid fd w h. (refl, refl);
  memory-frozen = λ pid address size w h. (refl, refl);
  memory-length = λ pid address size w b e. short address size b e;
}
