-- ===== src/Sched/Run/Budget.antt =====
-- The wall-clock budget of mm_halow_sched_run.
use native.Mathlib.Nat.{le-div_iff_mul-le}
use mm_halow_driver.Base.{
  ℕ, zero, suc, ◌+◌, ◌*◌, ◌/◌, ◌%◌, ◌^◌, ◌≤◌, ◌<◌, ◌≡◌, refl, ◌∙◌, Bool, true, false, Option, none,
  some, arith, inl, inr, if◌then◌else◌, Bool-cases, ◌||◌,
}
use mm_halow_driver.Sched.{Sched, max_tasks, wake_at_reset, pass_expired}
use mm_halow_driver.Sched.Run.{
  Machine, tick, on_sched, now, give_turn, run_pass, one_pass, run_passes, run, max_passes, start,
  budget_ms, next_of, first_of_list, is_some,
}
use mm_halow_driver.Sched.Run.Clocked.{
  Clock, Moved, Moves, Moved-trans, within, ticked, one_pass-Moved,
}

-- The variables that a run sets for itself stay as they are.
abbrev pub SameRun : Sched → Sched → Type 0
SameRun s s' = (s'.running ≡ s.running) × (s'.deadline ≡ s.deadline)

least :
    {E : Type 0} (time : ℕ → ℕ) (rate end : ℕ) (b : Bool) (m m' : Machine E)
    → time m.reads / rate ≤ end
    → time m'.reads / rate ≤ end
    → time (if b then m else m').reads / rate ≤ end
least time rate end true m m' v w = v
least time rate end false m m' v w = w

module _ {E : Type 0} (turn : ℕ → Machine E → Machine E)
    (keeps : (i : ℕ) (m : Machine E) → SameRun m.sched (turn i m).sched) where
  give_turn-SameRun : (i : ℕ) (m : Machine E) → SameRun m.sched (give_turn turn i m).sched
  unfolding give_turn
  give_turn-SameRun i m = ground (arith, keeps i (on_sched (λ s. record s { cur = some i }) m))

  run_pass-SameRun :
      (f : ℕ) (i : Option ℕ) (m : Machine E) → SameRun m.sched (run_pass turn f i m).sched
  unfolding run_pass
  run_pass-SameRun zero i m = (refl, refl)
  run_pass-SameRun (suc f) none m = (refl, refl)
  run_pass-SameRun (suc f) (some i) m =
      let (r, d) = give_turn-SameRun i m in
      let m1 = give_turn turn i m in
      let (r', d') = run_pass-SameRun f (next_of i m1.sched.queue) m1 in (r' ∙ r, d' ∙ d)

  one_pass-SameRun : (m : Machine E) → SameRun m.sched (one_pass turn m).sched
  unfolding one_pass wake_at_reset
  one_pass-SameRun m =
      let m1 = on_sched (λ s. wake_at_reset (now m) (record s { woken = false })) (tick m) in
      run_pass-SameRun max_tasks (first_of_list m1.sched.queue) m1

  module _ (clock0 : ℕ → ℕ) (time : ℕ → ℕ) (rate read_max turn_max : ℕ)
      (tells : Clock clock0 time rate read_max)
      (turns : (i : ℕ) → Moves clock0 time rate turn_max (turn i))
      (brief : 10 * read_max + 16 * turn_max ≤ 2 ^ 30) where
    -- In a run that set its deadline at the time `t0`, where a pass may start.
    record Running (t0 : ℕ) (m : Machine E) : Type 0 where
      same : m.clock ≡ clock0
      running : m.sched.running ≡ true
      deadline : m.sched.deadline ≡ (t0 + budget_ms) % 2 ^ 32
      low : t0 ≤ time m.reads / rate
      few : time m.reads / rate ≤ t0 + budget_ms + 2 * read_max + max_tasks * turn_max

    before_deadline :
        (t0 : ℕ) (m : Machine E)
        → Running t0 m
        → pass_expired (now m) m.sched ≡ false
        → time m.reads / rate < t0 + budget_ms
    unfolding pass_expired
    before_deadline t0 m v early =
        let reading : now m ≡ time m.reads / rate % 2 ^ 32 =
          rw (v.same, tells.shows m.reads) refl in
        ground (arith, early, reading, v.running, v.deadline, v.low, v.few, brief)

    later : (t0 n n' : ℕ) → t0 ≤ time n / rate → time n ≤ time n' → t0 ≤ time n' / rate
    later t0 n n' low le =
        (le-div_iff_mul-le tells.positive).1
          (omega (arith, (le-div_iff_mul-le tells.positive).0 low, le))

    pass-Moved :
        (m : Machine E)
        → m.clock ≡ clock0
        → Moved clock0 time rate
            (2 * read_max + max_tasks * turn_max)
            m.reads
            (one_pass turn (tick m))
    pass-Moved m e =
        let m1 = one_pass turn (tick m) in
        within clock0 time rate m1 (omega arith) (
          Moved-trans clock0 time rate (tick m) m1
            (ticked clock0 time rate read_max turn_max tells turn turns m e)
            (one_pass-Moved clock0 time rate read_max turn_max tells turn turns (tick m) e))

    pass-Running :
        (t0 : ℕ) (m : Machine E)
        → Running t0 m
        → pass_expired (now m) m.sched ≡ false
        → Running t0 (one_pass turn (tick m))
    pass-Running t0 m v early =
        let (r, d) = one_pass-SameRun (tick m) in
        let w = pass-Moved m v.same in
        record {
          same = w.same;
          running = r ∙ v.running;
          deadline = d ∙ v.deadline;
          low = later t0 m.reads (one_pass turn (tick m)).reads v.low w.on;
          few = omega (arith, w.few, before_deadline t0 m v early);
        }

    run_passes-budget :
        (k t0 : ℕ) (m : Machine E)
        → Running t0 m
        → time (run_passes turn k m).reads / rate
          ≤ t0 + budget_ms + 3 * read_max + max_tasks * turn_max
    unfolding run_passes
    run_passes-budget zero t0 m v = omega (arith, v.few)
    run_passes-budget (suc k) t0 m v = elim (Bool-cases (pass_expired (now m) m.sched)) [
      | inl late ↦
          rw (late, run_passes)
            (omega (
              arith,
              v.few,
              (ticked clock0 time rate read_max turn_max tells turn turns m v.same).few,
            ))
      | inr early ↦
          let m1 = one_pass turn (tick m) in
          let w = pass-Running t0 m v early in
          rw (early, run_passes)
            (least time rate (t0 + budget_ms + 3 * read_max + max_tasks * turn_max) m1.sched.woken
              (run_passes turn k m1) m1 (run_passes-budget k t0 m1 w) (omega (arith, w.few)))
    ]

    -- A run takes no longer than its budget and, behind that, one turn of each task and three
    -- readings of the clock, if the tick counter goes on, the tasks leave the run's own variables
    -- alone, and all the turns and readings of a run together could take at most 2^30 ms.
    pub run-budget_ms :
        (m : Machine E)
        → m.clock ≡ clock0
        → time (run turn m).reads / rate
          ≤ time m.reads / rate + budget_ms + 3 * read_max + max_tasks * turn_max
    unfolding run
    run-budget_ms m e = elim (Bool-cases (m.sched.running || is_some m.sched.cur)) [
      | inl busy ↦ rw busy (omega arith)
      | inr idle ↦
          let v = ticked clock0 time rate read_max turn_max tells turn turns m e in
          let reading : now m ≡ time m.reads / rate % 2 ^ 32 = rw (e, tells.shows m.reads) refl in
          rw idle (
            run_passes-budget max_passes (time m.reads / rate) (start m) (record {
              same = e;
              running = refl;
              deadline = omega (arith, reading);
              low = later (time m.reads / rate) m.reads (m.reads + 1) (omega arith) v.on;
              few = omega (arith, v.few);
            }))
    ]
