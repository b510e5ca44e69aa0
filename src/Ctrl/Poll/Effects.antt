-- ===== src/Ctrl/Poll/Effects.antt =====
-- What mm_halow_poll_func does to the rest of the world, by what the handlers, the callbacks and the
-- tasks do that it runs.
use mm_halow_driver.Base.{
  ℕ, zero, suc, ◌≡◌, refl, Bool, true, false, not, ◌||◌, Option, none, some, List, [], ◌∷◌, arith,
  inl, inr, Bool-cases, Option-cases, length, if◌then◌else◌,
}
use mm_halow_driver.Sched.Service.{Context, claim, release}
use mm_halow_driver.Sched.Run.{Machine, now, tick, on_sched, run, is_some}
use mm_halow_driver.Sched.Run.Effects.{run-Does}
use mm_halow_driver.Hal.{Lines, Handler, spi, busy, spi_ready, busy_ready}
use mm_halow_driver.Osal.Timers.{
  Timer, TimerWorld, timer_poll, poll_from, fire, find_timer, addr_of_first, is_due, update, rearm,
}
use mm_halow_driver.Ctrl.Poll.{
  Env, on_env, of_timers, to_timers, service_irqs, service_timers, has_work, serve, claimed_pass,
  irq_rearm, poll_func,
}

pub length-update :
    (a : ℕ) (f : Timer → Timer) (ts : List Timer) → length (update a f ts) ≡ length ts
unfolding update
length-update a f [] = refl
length-update a f (t ∷ ts) = ground (arith, length-update a f ts)

-- Nothing but the driver's own flags and the fields of timers differs.
pub record Touched {R : Type 0} (e e' : Env R) : Type 0 where
  pub rest : e'.rest ≡ e.rest
  pub timers : length e'.timers ≡ length e.timers

-- A relation of the worlds before and behind, which the driver's own writes are in.
pub record Account {R : Type 0} (Rel : Env R → Env R → Type 0) : Type 0 where
  pub trans : (a b c : Env R) → Rel a b → Rel b c → Rel a c
  pub touched : (a b : Env R) → Touched a b → Rel a b

module _ {R : Type 0} (Rel : Env R → Env R → Type 0) (account : Account Rel) (lines : R → Lines)
    (handler : Handler → Machine (Env R) → Machine (Env R))
    (callback : Timer → Machine (Env R) → Machine (Env R))
    (turn : ℕ → Machine (Env R) → Machine (Env R)) where
  open account use {trans, touched}

  same : (e : Env R) → Rel e e
  same e = touched e e (record { rest = refl; timers = refl })

  -- What the operation does is in the relation.
  abbrev pub Serves : (Machine (Env R) → Machine (Env R)) → Type 0
  Serves f = (m : Machine (Env R)) → Rel m.env (f m).env

  module _ (handlers : (i : Handler) → Serves (handler i))
      (callbacks : (t : Timer) → Serves (callback t)) (turns : (i : ℕ) → Serves (turn i)) where
    maybe_handler-Serves :
        (b : Bool) (i : Handler) (m : Machine (Env R))
        → Rel m.env (if b then handler i m else m).env
    maybe_handler-Serves true i m = handlers i m
    maybe_handler-Serves false i m = same m.env

    service_irqs-Serves : Serves (service_irqs lines handler callback turn)
    unfolding service_irqs
    service_irqs-Serves m =
        let spi_due = spi_ready m.env.irqs (lines m.env.rest) in
        let m1 = if spi_due then handler spi m else m in
        let busy_due = busy_ready m1.env.irqs (lines m1.env.rest) in
        trans m.env m1.env (if busy_due then handler busy m1 else m1).env
          (maybe_handler-Serves spi_due spi m) (maybe_handler-Serves busy_due busy m1)

    lifted : Timer → TimerWorld (Machine (Env R)) → TimerWorld (Machine (Env R))
    lifted t w = to_timers (callback t (of_timers w))

    fire-Serves :
        (at : ℕ) (t : Timer) (w : TimerWorld (Machine (Env R)))
        → Rel (of_timers w).env (of_timers (fire lifted at t w)).env
    unfolding fire lifted
    fire-Serves at t w =
        let w1 = record w { timers = update t.addr (rearm at) w.timers } in
        trans (of_timers w).env (of_timers w1).env (callback (rearm at t) (of_timers w1)).env
          (touched (of_timers w).env (of_timers w1).env
            (record { rest = refl; timers = length-update t.addr (rearm at) w.timers }))
          (callbacks (rearm at t) (of_timers w1))

    poll_from-Serves :
        (f at : ℕ) (a : Option ℕ) (w : TimerWorld (Machine (Env R)))
        → Rel (of_timers w).env (of_timers (poll_from lifted f at a w)).env
    unfolding poll_from
    poll_from-Serves zero at a w = same (of_timers w).env
    poll_from-Serves (suc f) at none w = same (of_timers w).env
    poll_from-Serves (suc f) at (some a) w = elim (Option-cases (find_timer a w.timers)) [
      | inl gone ↦ rw (gone, poll_from) (same (of_timers w).env)
      | inr ((t, next), found) ↦
          rw (found, poll_from)
            (elim (Bool-cases (is_due at t)) [
              | inl due ↦
                  let w1 = fire lifted at t w in
                  rw due (
                    trans (of_timers w).env (of_timers w1).env
                      (of_timers (poll_from lifted f at next w1)).env (fire-Serves at t w)
                      (poll_from-Serves f at next w1))
              | inr early ↦ rw early (poll_from-Serves f at next w)
            ])
    ]

    service_timers-Serves : Serves (service_timers lines handler callback turn)
    unfolding service_timers timer_poll lifted
    service_timers-Serves m =
        poll_from-Serves (length m.env.timers) (now m) (addr_of_first m.env.timers)
          (to_timers (tick m))

    serve-Serves : Serves (serve lines handler callback turn)
    unfolding serve
    serve-Serves m =
        let m1 = on_env (λ (e : Env R). record e { poll_requested = false }) m in
        let m2 = service_irqs lines handler callback turn m1 in
        let m3 = service_timers lines handler callback turn m2 in
        trans m.env m1.env (run turn m3).env
          (touched m.env m1.env (record { rest = refl; timers = refl }))
          (trans m1.env m2.env (run turn m3).env (service_irqs-Serves m1) (
            trans m2.env m3.env (run turn m3).env (service_timers-Serves m2)
              (run-Does Rel same trans turn turns m3)))

    has_work-Touched :
        (m : Machine (Env R)) → Touched m.env (has_work lines handler callback turn m).1.env
    unfolding has_work
    has_work-Touched m = record { rest = ground arith; timers = ground arith }

    claimed_pass-Serves : Serves (claimed_pass lines handler callback turn)
    unfolding claimed_pass
    claimed_pass-Serves m =
        let r = has_work lines handler callback turn m in
        let v = touched m.env r.1.env (has_work-Touched m) in
        elim (Bool-cases r.0) [
          | inl work ↦
              rw work (
                trans m.env r.1.env (serve lines handler callback turn r.1).env v
                  (serve-Serves r.1))
          | inr idle ↦ rw idle v
        ]

    -- If what the handlers, the callbacks and the turns do is in the relation, so is what a poll does.
    pub poll_func-Serves : (c : Context) → Serves (poll_func lines handler callback turn c)
    unfolding poll_func irq_rearm
    poll_func-Serves c m = elim (Bool-cases (not m.env.initted || is_some m.sched.cur)) [
      | inl idle ↦ rw idle (same m.env)
      | inr free ↦ elim (Bool-cases (claim c m.sched).0) [
        | inr refused ↦ rw (free, refused) (same m.env)
        | inl granted ↦
            let m1 =
              claimed_pass lines handler callback turn (record m { sched = (claim c m.sched).1 }) in
            let m2 = irq_rearm (on_sched release m1) in
            rw (free, granted)
              (trans m.env m1.env m2.env
                (claimed_pass-Serves (record m { sched = (claim c m.sched).1 }))
                (touched m1.env m2.env (record { rest = refl; timers = refl })))
      ]
    ]
