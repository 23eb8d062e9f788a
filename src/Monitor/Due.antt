-- ===== src/Monitor/Due.antt =====
-- How long `ulcr_monitor_loop` of src/manager.c waits with a checkpoint.
use user_level_checkpoint_re.Base.{
  refl, sym, ℕ, suc, ◌+◌, ◌<◌, ◌≤◌, ◌≡◌, ◌∙◌, ap, subst, Bool, true, false, List, [], ◌∷◌, length,
  Status, done, failed, ◌⊎◌, inl, inr, Bool-cases, arith,
}
use user_level_checkpoint_re.Base.Int.{ℤ, pos, negsuc, leb_ℤ, minus_ℤ, ◌≤ℤ◌}
use user_level_checkpoint_re.Config.{Config}
use user_level_checkpoint_re.Doubles.{Doubles}
use user_level_checkpoint_re.Files.{Files}
use user_level_checkpoint_re.Interval.Bounds.{dynamic_interval_bounds}
use user_level_checkpoint_re.Manager.{process_exists, checkpoint_latest}
use user_level_checkpoint_re.Paths.{RuntimePaths}
use user_level_checkpoint_re.Processes.{Processes}
use user_level_checkpoint_re.Procfs.Uptime.{runtime_seconds}
use user_level_checkpoint_re.Tracer.{Tracer}
use user_level_checkpoint_re.Monitor.{
  Watch, watching, interval_for, checkpointed, on_running, pass, expired, turn,
}

-- Each time is later than the one before it.
abbrev pub Rising : ℕ → List ℕ → Type 0
Rising floor [] = Unit
Rising floor (t ∷ ts) = (floor < t) × Rising t ts

early_time :
    (interval : ℤ) (last now base : ℕ)
    → interval ≤ℤ pos base
    → leb_ℤ interval (minus_ℤ (pos now) (pos last)) ≡ false
    → now < last + base
early_time (pos n) last now base h e = ground arith
early_time (negsuc n) last now base h e = ground arith

settle :
    {A B : Type 0} (now floor n limit : ℕ)
    → floor < now
    → B ⊎ (now + n < limit)
    → (A ⊎ B) ⊎ (floor + suc n < limit)
settle now floor n limit later (inl b) = inl (inr b)
settle now floor n limit later (inr few) = inr (omega arith)

-- The first pass tries or is early, and the rest goes on from its time.
combine :
    {A B P : Type 0} {early : Type 0} (now floor n limit : ℕ)
    → floor < now
    → A ⊎ (early × P)
    → (early → P → B ⊎ (now + n < limit))
    → (A ⊎ B) ⊎ (floor + suc n < limit)
combine now floor n limit later (inl a) rest = inl (inl a)
combine now floor n limit later (inr (e, p)) rest = settle now floor n limit later (rest e p)

module _ (fs : Files) (tr : Tracer fs) (fl : Doubles) (per_second : ℤ) (config : Config)
    (paths : RuntimePaths) (ps : Processes fs) where
  module _ (timer_fd : ℕ) where
    -- The state behind the timer and the test of the process.
    abbrev pub looked : Watch fs → Bool × fs.World
    looked s =
        process_exists fs tr fl per_second config paths s.pid (ps.timer_read timer_fd s.world).1

    -- The passes of a loop that find the process running, at these times.
    pub data Watching : Watch fs → List ℕ → Watch fs → Type 0 where
      stays : {s : Watch fs} → Watching s [] s
      passes :
          {s t u : Watch fs} {now : ℕ} {ts : List ℕ}
          → (looked s).0 ≡ true
          → (ps.time (looked s).1).0 ≡ pos now
          → turn fs tr fl per_second config paths ps timer_fd s ≡ watching t
          → Watching t ts u
          → Watching s (now ∷ ts) u

    -- `ulcr_checkpoint_latest` where a pass calls it.
    abbrev pub checkpoint_in : Watch fs → Status × fs.World
    checkpoint_in s =
        checkpoint_latest fs tr fl per_second config paths s.pid (ps.time (looked s).1).1

    -- What a pass that tries to make a checkpoint makes of the state: `ulcr_checkpoint_latest` has
    -- run; if it has failed, the time of the last checkpoint is as before, and if not, it is what the
    -- clock then says.
    abbrev pub IsTried : Watch fs → Watch fs → Type 0
    IsTried s t =
        (t.pid ≡ s.pid)
        × ((((checkpoint_in s).0 ≡ failed)
              × (t.last_checkpoint ≡ s.last_checkpoint)
              × (t.world ≡ (checkpoint_in s).1))
            ⊎ (((checkpoint_in s).0 ≡ done)
                × (t.last_checkpoint ≡ (ps.time (checkpoint_in s).1).0)
                × (t.world ≡ (ps.time (checkpoint_in s).1).1)))

    checkpointed-IsTried :
        (s : Watch fs) (interval : ℤ) (status : Status) (w : fs.World)
        → let t =
            checkpointed fs tr fl per_second config paths ps
              (record s { current_interval = interval })
              status
              w in
          (t.pid ≡ s.pid)
          × (((status ≡ failed) × (t.last_checkpoint ≡ s.last_checkpoint) × (t.world ≡ w))
              ⊎ ((status ≡ done) × (t.last_checkpoint ≡ (ps.time w).0) × (t.world ≡ (ps.time w).1)))
    unfolding checkpointed
    checkpointed-IsTried s interval failed w = (refl, inl (refl, refl, refl))
    checkpointed-IsTried s interval done w = (refl, inr (refl, refl, refl))

    -- One of the passes tries.
    abbrev pub Tries : {s u : Watch fs} {ts : List ℕ} → Watching s ts u → Type 0
    Tries stays = ⊥
    Tries (passes {s} {t} _ _ _ rest) = IsTried s t ⊎ Tries rest

    interval_short :
        (pid : ℤ) (w : fs.World) (base : ℕ)
        → 1 ≤ base
        → config.checkpoint_interval_sec ≡ pos base
        → interval_for fs tr fl per_second config paths ps pid w ≤ℤ pos base
    interval_short pid w base b c =
        let runtime = runtime_seconds fl per_second (tr.proc w) pid in
        let usable : pos 1 ≤ℤ config.checkpoint_interval_sec = rw c (omega arith) in
        subst (λ b'. interval_for fs tr fl per_second config paths ps pid w ≤ℤ b') c
          (dynamic_interval_bounds fl config.checkpoint_interval_sec runtime usable).1

    expired-pass :
        (s t : Watch fs) (status : Status) (w : fs.World)
        → expired fs tr fl per_second config paths ps timer_fd s status w ≡ watching t
        → t ≡ pass fs tr fl per_second config paths ps s w
    unfolding expired
    expired-pass s t failed w e = absurd cc
    expired-pass s t done w e = cc

    -- A pass that finds the process running tries to make a checkpoint, or is early.
    turn-cases :
        (s t : Watch fs) (now last base : ℕ)
        → 1 ≤ base
        → config.checkpoint_interval_sec ≡ pos base
        → s.last_checkpoint ≡ pos last
        → (looked s).0 ≡ true
        → (ps.time (looked s).1).0 ≡ pos now
        → turn fs tr fl per_second config paths ps timer_fd s ≡ watching t
        → IsTried s t ⊎ ((now < last + base) × (t.last_checkpoint ≡ pos last))
    unfolding turn pass on_running
    turn-cases s t now last base b c l running time e =
        let read = ps.timer_read timer_fd s.world in
        let w1 = (looked s).1 in
        let interval = interval_for fs tr fl per_second config paths ps s.pid w1 in
        let q = expired-pass s t read.0 read.1 e in
        elim (Bool-cases (leb_ℤ interval (minus_ℤ (ps.time w1).0 s.last_checkpoint))) [
          | inl due ↦
              let c = checkpoint_in s in
              let q' : t
                  ≡ checkpointed fs tr fl per_second config paths ps
                      (record s { current_interval = interval }) c.0 c.1 =
                rw (running, due) at q in
              inl (subst (IsTried s) (sym q') (checkpointed-IsTried s interval c.0 c.1))
          | inr early ↦
              let q' : t ≡ record s { current_interval = interval; world = (ps.time w1).1 } =
                rw (running, early) at q in
              inr (
                early_time interval last now base (interval_short s.pid w1 base b c)
                    (rw (time, l) at early),
                ap (λ (x : Watch fs). x.last_checkpoint) q' ∙ l,
              )
        ]

    Watching-Rising :
        (base last floor : ℕ) {ts : List ℕ} {s u : Watch fs}
        → 1 ≤ base
        → config.checkpoint_interval_sec ≡ pos base
        → s.last_checkpoint ≡ pos last
        → floor < last + base
        → (run : Watching s ts u) → Rising floor ts
        → Tries run ⊎ (floor + length ts < last + base)
    Watching-Rising base last floor b c l h stays r = inr (omega arith)
    Watching-Rising base last floor b c l h
          (passes {s} {t} {now = now} {ts = ts} running time e rest) (later, r) =
        combine now floor (length ts) (last + base) later
          (turn-cases s t now last base b c l running time e)
          (λ early l'. Watching-Rising base last now b c l' early rest r)

    -- With a checkpoint interval of `base` seconds, at least 1, in the configuration, and a clock that
    -- has a later time in each pass, the first one later than the last checkpoint, one of `base`
    -- passes in a row that find the process running tries to make a checkpoint: it has called
    -- `ulcr_checkpoint_latest`, and the time of the last checkpoint is as before where that has failed
    -- and the clock's time behind it where not.
    pub Watching-Tries :
        (base last : ℕ) (ts : List ℕ) (s u : Watch fs)
        → 1 ≤ base
        → config.checkpoint_interval_sec ≡ pos base
        → s.last_checkpoint ≡ pos last
        → Rising last ts
        → base ≤ length ts
        → (run : Watching s ts u) → Tries run
    Watching-Tries base last ts s u b c l r enough run =
        decide (Watching-Rising base last last b c l (omega arith) run r)
      where
        decide : Tries run ⊎ (last + length ts < last + base) → Tries run
        decide (inl tried) = tried
        decide (inr few) = absurd (omega arith)
