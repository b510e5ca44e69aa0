-- ===== src/Ctrl/Poll/Clocked.antt =====
-- How far the clock goes on over mm_halow_poll_func.
use native.Mathlib.Nat.{mul-le-mul_right}
use mm_halow_driver.Base.{
  ℕ, zero, suc, ◌+◌, ◌*◌, ◌≤◌, ◌≡◌, refl, Bool, true, false, not, ◌||◌, Option, none, some, arith,
  inl, inr, Bool-cases, Option-cases, length, if◌then◌else◌,
}
use mm_halow_driver.Sched.Service.{Context, claim, release}
use mm_halow_driver.Sched.Run.{Machine, now, tick, on_sched, run, is_some}
use mm_halow_driver.Sched.Run.Clocked.{
  Clock, Moved, Moves, Moved-trans, stays, within, alike, ticked, run-Moved,
}
use mm_halow_driver.Hal.{Lines, Handler, spi, busy, spi_ready, busy_ready, irq_pending}
use mm_halow_driver.Osal.Timers.{
  Timer, TimerWorld, timer_poll, timer_pending, poll_from, fire, find_timer, addr_of_first, is_due,
  update, rearm,
}
use mm_halow_driver.Ctrl.Poll.{
  Env, on_env, of_timers, to_timers, service_irqs, service_timers, has_work, serve, claimed_pass,
  irq_rearm, poll_func,
}

module _ {R : Type 0} (clock0 : ℕ → ℕ) (time : ℕ → ℕ) (rate step : ℕ)
    (tells : Clock clock0 time rate step) (lines : R → Lines)
    (handler : Handler → Machine (Env R) → Machine (Env R))
    (callback : Timer → Machine (Env R) → Machine (Env R))
    (turn : ℕ → Machine (Env R) → Machine (Env R))
    (handlers : (i : Handler) → Moves clock0 time rate step (handler i))
    (callbacks : (t : Timer) → Moves clock0 time rate step (callback t))
    (turns : (i : ℕ) → Moves clock0 time rate step (turn i)) where
  -- From `n` on, to the machine, in at most `most` milliseconds.
  abbrev pub Goes : ℕ → ℕ → Machine (Env R) → Type 0
  Goes most n m = Moved clock0 time rate most n m

  read : (m : Machine (Env R)) → m.clock ≡ clock0 → Goes step m.reads (tick m)
  read = ticked clock0 time rate step step tells turn turns

  rests : {most : ℕ} (m : Machine (Env R)) → m.clock ≡ clock0 → Goes most m.reads m
  rests m e = within clock0 time rate m (omega arith) (stays clock0 time rate m e)

  maybe_handler-Moved :
      (b : Bool) (i : Handler) (m : Machine (Env R))
      → m.clock ≡ clock0
      → Goes step m.reads (if b then handler i m else m)
  maybe_handler-Moved true i m e = handlers i m e
  maybe_handler-Moved false i m e = rests m e

  service_irqs-Moved :
      (m : Machine (Env R))
      → m.clock ≡ clock0
      → Goes (step + step) m.reads (service_irqs lines handler callback turn m)
  unfolding service_irqs
  service_irqs-Moved m e =
      let spi_due = spi_ready m.env.irqs (lines m.env.rest) in
      let m1 = if spi_due then handler spi m else m in
      let busy_due = busy_ready m1.env.irqs (lines m1.env.rest) in
      let v = maybe_handler-Moved spi_due spi m e in
      Moved-trans clock0 time rate m1 (if busy_due then handler busy m1 else m1) v
        (maybe_handler-Moved busy_due busy m1 v.same)

  lifted : Timer → TimerWorld (Machine (Env R)) → TimerWorld (Machine (Env R))
  lifted t w = to_timers (callback t (of_timers w))

  fire-Moved :
      (at : ℕ) (t : Timer) (w : TimerWorld (Machine (Env R)))
      → w.env.clock ≡ clock0
      → Goes step w.env.reads (fire lifted at t w).env
  unfolding fire lifted
  fire-Moved at t w e =
      callbacks (rearm at t) (of_timers (record w { timers = update t.addr (rearm at) w.timers })) e

  poll_from-Moved :
      (f at : ℕ) (a : Option ℕ) (w : TimerWorld (Machine (Env R)))
      → w.env.clock ≡ clock0
      → Goes (f * step) w.env.reads (poll_from lifted f at a w).env
  unfolding poll_from
  poll_from-Moved zero at a w e = rests w.env e
  poll_from-Moved (suc f) at none w e = rests w.env e
  poll_from-Moved (suc f) at (some a) w e = elim (Option-cases (find_timer a w.timers)) [
    | inl gone ↦ rw (gone, poll_from) (rests w.env e)
    | inr ((t, next), found) ↦
        rw (found, poll_from)
          (elim (Bool-cases (is_due at t)) [
            | inl due ↦
                let w1 = fire lifted at t w in
                let w2 = poll_from lifted f at next w1 in
                let v = fire-Moved at t w e in
                rw due (
                  within clock0 time rate w2.env (omega arith) (
                    Moved-trans clock0 time rate w1.env w2.env v
                      (poll_from-Moved f at next w1 v.same)))
            | inr early ↦ rw early (
                within clock0 time rate (poll_from lifted f at next w).env (omega arith)
                  (poll_from-Moved f at next w e))
          ])
  ]

  service_timers-Moved :
      (m : Machine (Env R))
      → m.clock ≡ clock0
      → Goes
          (step + length m.env.timers * step)
          m.reads
          (service_timers lines handler callback turn m)
  unfolding service_timers timer_poll lifted
  service_timers-Moved m e =
      let w =
        poll_from lifted (length m.env.timers) (now m) (addr_of_first m.env.timers)
          (to_timers (tick m)) in
      alike clock0 time rate w.env (of_timers w) refl refl (
        Moved-trans clock0 time rate (tick m) w.env (read m e) (
          poll_from-Moved (length m.env.timers) (now m) (addr_of_first m.env.timers)
            (to_timers (tick m)) e))

  serve-Moved :
      (most : ℕ) (m : Machine (Env R))
      → m.clock ≡ clock0
      → length
          (service_irqs lines handler callback turn
            (on_env (λ (e : Env R). record e { poll_requested = false }) m)).env.timers
        ≤ most
      → Goes (29 * step + most * step) m.reads (serve lines handler callback turn m)
  unfolding serve
  serve-Moved most m e few =
      let m1 = on_env (λ (e : Env R). record e { poll_requested = false }) m in
      let m2 = service_irqs lines handler callback turn m1 in
      let m3 = service_timers lines handler callback turn m2 in
      let n = length m2.env.timers in
      let v = service_irqs-Moved m1 e in
      let w = service_timers-Moved m2 v.same in
      let x = run-Moved clock0 time rate step step tells turn turns m3 w.same in
      let le : n * step ≤ most * step = mul-le-mul_right step few in
      within clock0 time rate (run turn m3) (omega (arith, le))
        (Moved-trans clock0 time rate m3 (run turn m3) (Moved-trans clock0 time rate m2 m3 v w) x)

  chosen :
      {n : ℕ} (b : Bool) (r r' : Bool × Machine (Env R))
      → Goes (step + step) n r.1
      → Goes (step + step) n r'.1
      → Goes (step + step) n (if b then r else r').1
  chosen true r r' v w = v
  chosen false r r' v w = w

  has_work-Moved :
      (m : Machine (Env R))
      → m.clock ≡ clock0
      → Goes (step + step) m.reads (has_work lines handler callback turn m).1
  unfolding has_work
  has_work-Moved m e =
      let (raised, irqs) = irq_pending (lines m.env.rest) m.env.irqs in
      let m1 = on_env (λ (e : Env R). record e { irqs = irqs }) m in
      let once = within clock0 time rate (tick m1) (omega arith) (read m1 e) in
      let twice =
        Moved-trans clock0 time rate (tick m1) (tick (tick m1)) (read m1 e) (read (tick m1) e) in
      chosen m.env.poll_requested _ _ (rests m e) (
        chosen raised _ _ (rests m1 e) (
          chosen (timer_pending (now m1) m1.env.timers) _ _ once
            (chosen m1.sched.woken _ _ once twice)))

  module _ (most : ℕ)
      (few : (i : Handler) (m : Machine (Env R))
        → length m.env.timers ≤ most
        → length (handler i m).env.timers ≤ most) where
    maybe_handler-few :
        (b : Bool) (i : Handler) (m : Machine (Env R))
        → length m.env.timers ≤ most
        → length (if b then handler i m else m).env.timers ≤ most
    maybe_handler-few true i m le = few i m le
    maybe_handler-few false i m le = le

    service_irqs-few :
        (m : Machine (Env R))
        → length m.env.timers ≤ most
        → length (service_irqs lines handler callback turn m).env.timers ≤ most
    unfolding service_irqs
    service_irqs-few m le =
        let m1 = if spi_ready m.env.irqs (lines m.env.rest) then handler spi m else m in
        maybe_handler-few (busy_ready m1.env.irqs (lines m1.env.rest)) busy m1
          (maybe_handler-few (spi_ready m.env.irqs (lines m.env.rest)) spi m le)

    has_work-timers :
        (m : Machine (Env R)) → (has_work lines handler callback turn m).1.env.timers ≡ m.env.timers
    unfolding has_work
    has_work-timers m = ground arith

    claimed_pass-Moved :
        (m : Machine (Env R))
        → m.clock ≡ clock0
        → length m.env.timers ≤ most
        → Goes (31 * step + most * step) m.reads (claimed_pass lines handler callback turn m)
    unfolding claimed_pass
    claimed_pass-Moved m e le =
        let r = has_work lines handler callback turn m in
        let v = has_work-Moved m e in
        elim (Bool-cases r.0) [
          | inl work ↦
              let m2 = serve lines handler callback turn r.1 in
              let cleared = on_env (λ (e : Env R). record e { poll_requested = false }) r.1 in
              rw work (
                within clock0 time rate m2 (omega arith) (
                  Moved-trans clock0 time rate r.1 m2 v (
                    serve-Moved most r.1 v.same
                      (service_irqs-few cleared (rw (has_work-timers m) le)))))
          | inr idle ↦ rw idle (within clock0 time rate r.1 (omega arith) v)
        ]

    -- Where a reading of the clock, a handler, a callback and a turn take at most `step` milliseconds
    -- each, and there are at most `most` timers, a poll takes at most `31 + most` times as long.
    pub poll_func-Moved :
        (c : Context) (m : Machine (Env R))
        → m.clock ≡ clock0
        → length m.env.timers ≤ most
        → Goes (31 * step + most * step) m.reads (poll_func lines handler callback turn c m)
    unfolding poll_func irq_rearm
    poll_func-Moved c m e le = elim (Bool-cases (not m.env.initted || is_some m.sched.cur)) [
      | inl idle ↦ rw idle (rests m e)
      | inr free ↦ elim (Bool-cases (claim c m.sched).0) [
        | inr refused ↦ rw (free, refused) (rests m e)
        | inl granted ↦
            let m1 =
              claimed_pass lines handler callback turn (record m { sched = (claim c m.sched).1 }) in
            rw (free, granted)
              (alike clock0 time rate m1 (irq_rearm (on_sched release m1)) refl refl
                (claimed_pass-Moved (record m { sched = (claim c m.sched).1 }) e le))
      ]
    ]
