-- ===== src/Sched/Run/Clocked.antt =====
-- How far the clock goes on over a run of mm_halow_sched.c.
use mm_halow_driver.Base.{
  ℕ, zero, suc, ◌+◌, ◌*◌, ◌/◌, ◌≤◌, ◌<◌, ◌≡◌, refl, ◌∙◌, Bool, true, false, Option, none, some,
  arith, inl, inr, if◌then◌else◌, Bool-cases, ◌||◌,
}
use mm_halow_driver.Sched.{is_ready, task_at, max_tasks, wake_at_reset, pass_expired}
use mm_halow_driver.Sched.Run.{
  Machine, tick, on_sched, now, give_turn, run_pass, one_pass, run_passes, run, max_passes, start,
  next_of, first_of_list, is_some,
}

-- The readings of the tick counter: the one after `n` others is at the instant `time n`, `rate`
-- instants are a millisecond, and the instants grow. A reading takes at most `most` milliseconds.
pub record Clock (clock : ℕ → ℕ) (time : ℕ → ℕ) (rate most : ℕ) : Type 0 where
  pub positive : 0 < rate
  pub shows : (n : ℕ) → clock n ≡ time n / rate
  pub grows : (n : ℕ) → time n < time (n + 1)
  pub steps : (n : ℕ) → time (n + 1) / rate ≤ time n / rate + most

module _ {E : Type 0} (clock0 : ℕ → ℕ) (time : ℕ → ℕ) (rate : ℕ) where
  -- From the reading `n` on to the machine `m`, over the same clock, at most `most` milliseconds go by.
  pub record Moved (most n : ℕ) (m : Machine E) : Type 0 where
    pub same : m.clock ≡ clock0
    pub on : time n ≤ time m.reads
    pub few : time m.reads / rate ≤ time n / rate + most

  -- The operation `f` takes at most `most` milliseconds.
  abbrev pub Moves : ℕ → (Machine E → Machine E) → Type 0
  Moves most f = (m : Machine E) → m.clock ≡ clock0 → Moved most m.reads (f m)

  pub Moved-trans :
      {a b n : ℕ} (m m' : Machine E) → Moved a n m → Moved b m.reads m' → Moved (a + b) n m'
  Moved-trans m m' v w = record {
    same = w.same;
    on = omega (arith, v.on, w.on);
    few = omega (arith, v.few, w.few);
  }

  pub stays : (m : Machine E) → m.clock ≡ clock0 → Moved 0 m.reads m
  stays m e = record { same = e; on = omega arith; few = omega arith }

  pub within : {a b n : ℕ} (m : Machine E) → a ≤ b → Moved a n m → Moved b n m
  within m le v = record { same = v.same; on = v.on; few = omega (arith, v.few, le) }

  pub alike :
      {a n : ℕ} (m m' : Machine E)
      → m'.clock ≡ m.clock
      → m'.reads ≡ m.reads
      → Moved a n m
      → Moved a n m'
  alike m m' c r v = record { same = c ∙ v.same; on = rw r v.on; few = rw r v.few }

  pub either :
      {a n : ℕ} (b : Bool) (m m' : Machine E)
      → Moved a n m
      → Moved a n m'
      → Moved a n (if b then m else m')
  either true m m' v w = v
  either false m m' v w = w

  module _ (read_max turn_max : ℕ) (tells : Clock clock0 time rate read_max)
      (turn : ℕ → Machine E → Machine E) (turns : (i : ℕ) → Moves turn_max (turn i)) where
    pub ticked : Moves read_max tick
    ticked m e = record {
      same = e;
      on = omega (arith, tells.grows m.reads);
      few = tells.steps m.reads;
    }

    give_turn-Moved : (i : ℕ) → Moves turn_max (give_turn turn i)
    unfolding give_turn
    give_turn-Moved i m e = elim (Bool-cases (is_ready (task_at m.sched i))) [
      | inl r ↦ rw r (
          let m1 = on_sched (λ s. record s { cur = some i }) m in
          alike (turn i m1) (on_sched (λ s. record s { cur = none }) (turn i m1)) refl refl
            (turns i m1 e))
      | inr r ↦ rw r (within m (omega arith) (stays m e))
    ]

    run_pass-Moved :
        (f : ℕ) (i : Option ℕ) (m : Machine E)
        → m.clock ≡ clock0
        → Moved (f * turn_max) m.reads (run_pass turn f i m)
    unfolding run_pass
    run_pass-Moved zero i m e = within m (omega arith) (stays m e)
    run_pass-Moved (suc f) none m e = within m (omega arith) (stays m e)
    run_pass-Moved (suc f) (some i) m e =
        let m1 = give_turn turn i m in
        let m2 = run_pass turn f (next_of i m1.sched.queue) m1 in
        let v = give_turn-Moved i m e in
        within m2 (omega arith)
          (Moved-trans m1 m2 v (run_pass-Moved f (next_of i m1.sched.queue) m1 v.same))

    pub one_pass-Moved :
        (m : Machine E)
        → m.clock ≡ clock0
        → Moved (read_max + max_tasks * turn_max) m.reads (one_pass turn m)
    unfolding one_pass
    one_pass-Moved m e =
        let m1 = on_sched (λ s. wake_at_reset (now m) (record s { woken = false })) (tick m) in
        within (one_pass turn m) (omega arith) (
          Moved-trans m1 (one_pass turn m) (alike (tick m) m1 refl refl (ticked m e))
            (run_pass-Moved max_tasks (first_of_list m1.sched.queue) m1 e))

    run_passes-Moved :
        (k : ℕ) (m : Machine E)
        → m.clock ≡ clock0
        → Moved (k * (2 * read_max + max_tasks * turn_max) + read_max) m.reads (run_passes turn k m)
    unfolding run_passes
    run_passes-Moved zero m e = within m (omega arith) (stays m e)
    run_passes-Moved (suc k) m e = elim (Bool-cases (pass_expired (now m) m.sched)) [
      | inl late ↦ rw (late, run_passes) (within (tick m) (omega arith) (ticked m e))
      | inr early ↦
          let m1 = one_pass turn (tick m) in
          let v = Moved-trans (tick m) m1 (ticked m e) (one_pass-Moved (tick m) e) in
          let w = run_passes-Moved k m1 v.same in
          rw (early, run_passes)
            (either m1.sched.woken (run_passes turn k m1) m1
              (within (run_passes turn k m1) (omega arith)
                (Moved-trans m1 (run_passes turn k m1) v w))
              (within m1 (omega arith) v))
    ]

    pub run-Moved :
        (m : Machine E)
        → m.clock ≡ clock0
        → Moved (10 * read_max + 16 * turn_max) m.reads (run turn m)
    unfolding run
    run-Moved m e = elim (Bool-cases (m.sched.running || is_some m.sched.cur)) [
      | inl busy ↦ rw busy (within m (omega arith) (stays m e))
      | inr idle ↦
          let m1 = run_passes turn max_passes (start m) in
          let v =
            Moved-trans (start m) m1 (alike (tick m) (start m) refl refl (ticked m e))
              (run_passes-Moved max_passes (start m) e) in
          rw idle (record { same = v.same; on = v.on; few = omega (arith, v.few) })
    ]
