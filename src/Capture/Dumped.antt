-- ===== src/Capture/Dumped.antt =====
-- The bytes that `dump_region_bytes` of src/snapshot.c appends to the open file, against the memory of
-- the stopped process.
use user_level_checkpoint_re.Base.{
  ℕ, zero, suc, ◌+◌, ◌-◌, ◌≤◌, ◌≡◌, refl, sym, ◌∙◌, ap, ap₂, subst, min, true, false, ◌==◌, Option,
  none, some, [], ◌∷◌, ◌++◌, Bytes, length, append_assoc, append-nil, take, Bool-cases, inl, inr,
  arith,
}
use user_level_checkpoint_re.Base.Int.{ℤ}
use user_level_checkpoint_re.Files.{Files}
use user_level_checkpoint_re.Files.Posix.{IsPosix, count_of}
use user_level_checkpoint_re.Procfs.{Region}
use user_level_checkpoint_re.Storage.{is_short}
use user_level_checkpoint_re.Tracer.{Tracer, IsTracer, bytes_at}
use user_level_checkpoint_re.Capture.Contents.{Holds, write-Holds, write_whole-Holds}
use user_level_checkpoint_re.Capture.{span, dump_chunk, dump_from, dump_region_bytes}

bytes_at-append :
    (m : ℕ → ℕ) (a j k : ℕ) → bytes_at m a (j + k) ≡ bytes_at m a j ++ bytes_at m (a + j) k
bytes_at-append m a zero k =
    let p : a ≡ a + zero = omega arith in
    let q : zero + k ≡ k = omega arith in ap (bytes_at m a) q ∙ ap (λ b. bytes_at m b k) p
bytes_at-append m a (suc j) k =
    let p : suc j + k ≡ suc (j + k) = omega arith in
    let q : suc a + j ≡ a + suc j = omega arith in
    ap (bytes_at m a) p
    ∙ ap (λ t. m a ∷ t)
        (bytes_at-append m (suc a) j k ∙ ap (λ b. bytes_at m (suc a) j ++ bytes_at m b k) q)

module _ (fs : Files) (px : IsPosix fs) (tr : Tracer fs) (tl : IsTracer fs px tr) (tmp : Bytes)
    (fd : ℕ) (pid : ℤ) (m : ℕ → ℕ) where
  -- The file holds `c` and the descriptor stands at its end; the process is stopped with memory `m`.
  pub record IsOpen (w : fs.World) (c : Bytes) : Type 0 where
    pub holds : Holds fs px tr tl tmp fd w c
    pub stopped : tl.stopped pid w ≡ true
    pub memory : tl.memory pid w ≡ m

  write-IsOpen :
      (bytes c : Bytes) (w : fs.World)
      → IsOpen w c
      → IsOpen (fs.write fd bytes w).1 (c ++ take (count_of (fs.write fd bytes w).0) bytes)
  write-IsOpen bytes c w h =
      let (stopped, same) = tl.write-frozen pid fd bytes w h.stopped in
      record {
        holds = write-Holds fs px tr tl tmp fd bytes c w h.holds;
        stopped = stopped;
        memory = same ∙ h.memory;
      }

  pub write_whole-IsOpen :
      (bytes c : Bytes) (size : ℕ) (w : fs.World)
      → length bytes ≡ size
      → is_short (fs.write fd bytes w).0 size ≡ false
      → IsOpen w c
      → IsOpen (fs.write fd bytes w).1 (c ++ bytes)
  write_whole-IsOpen bytes c size w e whole h =
      let (stopped, same) = tl.write-frozen pid fd bytes w h.stopped in
      record {
        holds = write_whole-Holds fs px tr tl tmp fd bytes c size w e whole h.holds;
        stopped = stopped;
        memory = same ∙ h.memory;
      }

  pub lseek-IsOpen : (c : Bytes) (w : fs.World) → IsOpen w c → IsOpen (fs.lseek_current fd w).1 c
  lseek-IsOpen c w h =
      let (stopped, same) = tl.lseek-frozen pid fd w h.stopped in
      record {
        holds = record {
          at = px.lseek-target fd w ∙ h.holds.at;
          here = px.lseek-file fd w tmp ∙ h.holds.here;
        };
        stopped = stopped;
        memory = same ∙ h.memory;
      }

  memory-IsOpen :
      (address size : ℕ) (c : Bytes) (w : fs.World)
      → IsOpen w c
      → IsOpen (tr.read_memory pid address size w).1 c
  memory-IsOpen address size c w h =
      let (stopped, same) = tl.memory-frozen pid address size w h.stopped in
      record {
        holds = record {
          at = tl.memory-target pid address size w fd ∙ h.holds.at;
          here = tl.memory-file pid address size w tmp ∙ h.holds.here;
        };
        stopped = stopped;
        memory = same ∙ h.memory;
      }

  -- What a dump appends to `c`, whether it succeeds or not: on success, the memory from `address` on.
  pub record IsDumped (w : fs.World) (c : Bytes) (o : Option ℕ) (address size : ℕ) : Type 0 where
    pub part : Bytes
    pub now : IsOpen w (c ++ part)
    pub whole : (n : ℕ) → o ≡ some n → part ≡ bytes_at m address size

  gave_up :
      (w : fs.World) (c : Bytes) (address size : ℕ) → IsOpen w c → IsDumped w c none address size
  gave_up w c address size h = record {
    part = [];
    now = subst (IsOpen w) (sym (append-nil c)) h;
    whole = λ n e. absurd cc;
  }

  nothing_left :
      (w : fs.World) (c : Bytes) (o : Option ℕ) (address size : ℕ)
      → size ≡ 0
      → IsOpen w c
      → IsDumped w c o address size
  nothing_left w c o address size z h = record {
    part = [];
    now = subst (IsOpen w) (sym (append-nil c)) h;
    whole = λ n e. ap (bytes_at m address) (sym z);
  }

  -- A chunk in front of what the next rounds append.
  chunk_first :
      (w : fs.World) (c b : Bytes) (o : Option ℕ) (address size : ℕ)
      → b ≡ bytes_at m address (length b)
      → length b ≤ size
      → IsDumped w (c ++ b) o (address + length b) (size - length b)
      → IsDumped w c o address size
  chunk_first w c b o address size here few h = record {
    part = b ++ h.part;
    now = subst (IsOpen w) (append_assoc c b h.part) h.now;
    whole = λ n e.
        ap₂ (λ s t. s ++ t) here (h.whole n e)
        ∙ sym (bytes_at-append m address (length b) (size - length b))
        ∙ ap (bytes_at m address) (omega arith);
  }

  dump_chunk-IsDumped :
      (rest : ℕ → ℕ → ℕ → fs.World → Option ℕ × fs.World) (c : Bytes) (address remaining total : ℕ)
      (o : Option Bytes) (w : fs.World)
      → ((d : Bytes) (a r t : ℕ) (v : fs.World)
          → IsOpen v d
          → IsDumped (rest a r t v).1 d (rest a r t v).0 a r)
      → ((b : Bytes) → o ≡ some b → (b ≡ bytes_at m address (length b)) × (length b ≤ remaining))
      → IsOpen w c
      → IsDumped
          (dump_chunk fs tr rest fd address remaining total o w).1
          c
          (dump_chunk fs tr rest fd address remaining total o w).0
          address
          remaining
  unfolding dump_chunk
  dump_chunk-IsDumped rest c address remaining total none w goes read h =
      gave_up w c address remaining h
  dump_chunk-IsDumped rest c address remaining total (some []) w goes read h =
      gave_up w c address remaining h
  dump_chunk-IsDumped rest c address remaining total (some (b ∷ bs)) w goes read h =
      let (here, few) = read (b ∷ bs) refl in
      let w' = (fs.write fd (b ∷ bs) w).1 in
      let n = length (b ∷ bs) in
      elim (Bool-cases (is_short (fs.write fd (b ∷ bs) w).0 n)) [
        | inl short ↦ rw short (record {
          part = take (count_of (fs.write fd (b ∷ bs) w).0) (b ∷ bs);
          now = write-IsOpen (b ∷ bs) c w h;
          whole = λ k e. absurd cc;
        })
        | inr whole ↦ rw whole (
            chunk_first (rest (address + n) (remaining - n) (total + n) w').1 c (b ∷ bs)
              (rest (address + n) (remaining - n) (total + n) w').0 address remaining here few
              (goes (c ++ b ∷ bs) (address + n) (remaining - n) (total + n) w'
                (write_whole-IsOpen (b ∷ bs) c n w refl whole h)))
      ]

  dump_from-IsDumped :
      (fuel : ℕ) (c : Bytes) (address remaining total : ℕ) (w : fs.World)
      → IsOpen w c
      → IsDumped
          (dump_from fs tr fuel pid fd address remaining total w).1
          c
          (dump_from fs tr fuel pid fd address remaining total w).0
          address
          remaining
  unfolding dump_from
  dump_from-IsDumped zero c address remaining total w h = elim (Bool-cases (remaining == 0)) [
    | inl end_reached ↦
        rw end_reached (nothing_left w c (some total) address remaining (ground arith) h)
    | inr more ↦ rw more (gave_up w c address remaining h)
  ]
  dump_from-IsDumped (suc fuel) c address remaining total w h =
      let size = min remaining 65536 in
      let r = tr.read_memory pid address size w in
      elim (Bool-cases (remaining == 0)) [
        | inl end_reached ↦
            rw end_reached (nothing_left w c (some total) address remaining (ground arith) h)
        | inr more ↦ rw more (
            dump_chunk-IsDumped (dump_from fs tr fuel pid fd) c address remaining total r.0 r.1
              (dump_from-IsDumped fuel)
              (λ b e. (
                tl.memory-bytes pid address size w b h.stopped e
                    ∙ ap (λ f. bytes_at f address (length b)) h.memory,
                omega (arith, tl.memory-length pid address size w b e),
              ))
              (memory-IsOpen address size c w h))
      ]

  pub dump_region_bytes-IsDumped :
      (c : Bytes) (region : Region) (w : fs.World)
      → IsOpen w c
      → IsDumped
          (dump_region_bytes fs tr pid region fd w).1
          c
          (dump_region_bytes fs tr pid region fd w).0
          region.start
          (span region)
  unfolding dump_region_bytes
  dump_region_bytes-IsDumped c region w h =
      dump_from-IsDumped (span region) c region.start (span region) 0 w h
