-- ===== src/Sched/Run/Effects.antt =====
-- What a run of mm_halow_sched.c does to the rest of the world, by what the turns of its tasks do.
use mm_halow_driver.Base.{
  ℕ, zero, suc, Bool, true, false, ◌||◌, Option, none, some, inl, inr, Bool-cases, if◌then◌else◌,
}
use mm_halow_driver.Sched.{is_ready, task_at, max_tasks, wake_at_reset, pass_expired}
use mm_halow_driver.Sched.Run.{
  Machine, tick, on_sched, now, give_turn, run_pass, one_pass, run_passes, run, max_passes, start,
  next_of, first_of_list, is_some,
}

module _ {E : Type 0} (Rel : E → E → Type 0) (same : (e : E) → Rel e e)
    (trans : (a b c : E) → Rel a b → Rel b c → Rel a c) where
  -- The operation relates the world before it to the world behind it.
  abbrev pub Does : (Machine E → Machine E) → Type 0
  Does f = (m : Machine E) → Rel m.env (f m).env

  either_way :
      (e : E) (b : Bool) (m m' : Machine E)
      → Rel e m.env
      → Rel e m'.env
      → Rel e (if b then m else m').env
  either_way e true m m' v w = v
  either_way e false m m' v w = w

  module _ (turn : ℕ → Machine E → Machine E) (turns : (i : ℕ) → Does (turn i)) where
    give_turn-Does : (i : ℕ) → Does (give_turn turn i)
    unfolding give_turn
    give_turn-Does i m = elim (Bool-cases (is_ready (task_at m.sched i))) [
      | inl r ↦ rw r (turns i (on_sched (λ s. record s { cur = some i }) m))
      | inr r ↦ rw r (same m.env)
    ]

    run_pass-Does : (f : ℕ) (i : Option ℕ) → Does (run_pass turn f i)
    unfolding run_pass
    run_pass-Does zero i m = same m.env
    run_pass-Does (suc f) none m = same m.env
    run_pass-Does (suc f) (some i) m =
        let m1 = give_turn turn i m in
        let o = next_of i m1.sched.queue in
        trans m.env m1.env (run_pass turn f o m1).env (give_turn-Does i m) (run_pass-Does f o m1)

    one_pass-Does : Does (one_pass turn)
    unfolding one_pass wake_at_reset
    one_pass-Does m = run_pass-Does max_tasks (first_of_list m.sched.queue) _

    run_passes-Does : (k : ℕ) → Does (run_passes turn k)
    unfolding run_passes
    run_passes-Does zero m = same m.env
    run_passes-Does (suc k) m = elim (Bool-cases (pass_expired (now m) m.sched)) [
      | inl late ↦ rw (late, run_passes) (same m.env)
      | inr early ↦
          let m1 = one_pass turn (tick m) in
          let v = one_pass-Does (tick m) in
          rw (early, run_passes)
            (either_way m.env m1.sched.woken (run_passes turn k m1) m1
              (trans m.env m1.env (run_passes turn k m1).env v (run_passes-Does k m1)) v)
    ]

    pub run-Does : Does (run turn)
    unfolding run
    run-Does m = elim (Bool-cases (m.sched.running || is_some m.sched.cur)) [
      | inl busy ↦ rw busy (same m.env)
      | inr idle ↦ rw idle (run_passes-Does max_passes (start m))
    ]
