-- ===== src/Ctrl/Poll/Safety.antt =====
-- What mm_halow_poll_func keeps: the claim on the transceiver, and the wake-up by its interrupt.
use mm_halow_driver.Base.{
  ℕ, zero, suc, ◌≡◌, refl, ◌<◌, true, false, ◌||◌, not, Option, none, some, arith, inl, inr,
  Bool-cases, Option-cases, length, ◌∙◌,
}
use mm_halow_driver.Sched.Service.{Context, claim}
use mm_halow_driver.Sched.Run.{Machine, is_some, now, tick}
use mm_halow_driver.Sched.Run.Claim.{SameClaim, Keeps, IsCounted, release-claim, run-Keeps}
use mm_halow_driver.Hal.{Lines, Handler, spi, busy}
use mm_halow_driver.Osal.Timers.{
  Timer, TimerWorld, timer_poll, poll_from, fire, find_timer, addr_of_first, is_due, update, rearm,
}
use mm_halow_driver.Ctrl.Poll.{
  Env, on_env, request_poll, irq_rearm, port_irq_handler, to_timers, of_timers, service_irqs,
  service_timers, has_work, serve, claimed_pass, poll_func,
}

module _ {R : Type 0} (lines : R → Lines) (handler : Handler → Machine (Env R) → Machine (Env R))
    (callback : Timer → Machine (Env R) → Machine (Env R))
    (turn : ℕ → Machine (Env R) → Machine (Env R)) where
  module _ (handlers : (i : Handler) → Keeps (handler i))
      (callbacks : (t : Timer) → Keeps (callback t)) (turns : (i : ℕ) → Keeps (turn i)) where
    service_irqs-Keeps : Keeps (service_irqs lines handler callback turn)
    unfolding service_irqs
    service_irqs-Keeps m =
        ground (arith, handlers spi m, handlers busy m, handlers busy (handler spi m))

    lifted : Timer → TimerWorld (Machine (Env R)) → TimerWorld (Machine (Env R))
    lifted t w = to_timers (callback t (of_timers w))

    fire-SameClaim :
        (at : ℕ) (t : Timer) (w : TimerWorld (Machine (Env R)))
        → SameClaim w.env.sched (fire lifted at t w).env.sched
    unfolding fire lifted
    fire-SameClaim at t w =
        callbacks (rearm at t) (of_timers (record w { timers = update t.addr (rearm at) w.timers }))

    poll_from-SameClaim :
        (f at : ℕ) (a : Option ℕ) (w : TimerWorld (Machine (Env R)))
        → SameClaim w.env.sched (poll_from lifted f at a w).env.sched
    unfolding poll_from
    poll_from-SameClaim zero at a w = (refl, refl)
    poll_from-SameClaim (suc f) at none w = (refl, refl)
    poll_from-SameClaim (suc f) at (some a) w = elim (Option-cases (find_timer a w.timers)) [
      | inl gone ↦ rw (gone, poll_from) (refl, refl)
      | inr ((t, next), found) ↦
          rw (found, poll_from)
            (elim (Bool-cases (is_due at t)) [
              | inl e ↦
                  let (o, d) = fire-SameClaim at t w in
                  let (o', d') = poll_from-SameClaim f at next (fire lifted at t w) in
                  rw e (o' ∙ o, d' ∙ d)
              | inr e ↦ rw e (poll_from-SameClaim f at next w)
            ])
    ]

    service_timers-Keeps : Keeps (service_timers lines handler callback turn)
    unfolding service_timers timer_poll lifted
    service_timers-Keeps m =
        poll_from-SameClaim (length m.env.timers) (now m) (addr_of_first m.env.timers)
          (to_timers (tick m))

    serve-Keeps : Keeps (serve lines handler callback turn)
    unfolding serve
    serve-Keeps m =
        let m1 = on_env (λ (e : Env R). record e { poll_requested = false }) m in
        let m2 = service_irqs lines handler callback turn m1 in
        let m3 = service_timers lines handler callback turn m2 in
        let (o1, d1) = service_irqs-Keeps m1 in
        let (o2, d2) = service_timers-Keeps m2 in
        let (o3, d3) = run-Keeps turn turns m3 in (o3 ∙ (o2 ∙ o1), d3 ∙ (d2 ∙ d1))

    has_work-same :
        (m : Machine (Env R)) → (has_work lines handler callback turn m).1.sched ≡ m.sched
    unfolding has_work
    has_work-same m = ground arith

    claimed_pass-Keeps : Keeps (claimed_pass lines handler callback turn)
    unfolding claimed_pass
    claimed_pass-Keeps m =
        ground (arith, has_work-same m, serve-Keeps (has_work lines handler callback turn m).1)

    -- Where fewer than 255 claims are held, as the uint8_t depth needs it for one more, and owner and
    -- depth agree on whether there are any: if neither a handler, nor a callback, nor a task's turn
    -- leaves a claim behind, a poll gives its own claim back, so that the owner and the depth are what
    -- they were before.
    pub poll_func-Keeps :
        (c : Context) (m : Machine (Env R))
        → m.sched.depth < 255
        → IsCounted m.sched
        → SameClaim m.sched (poll_func lines handler callback turn c m).sched
    unfolding poll_func irq_rearm
    poll_func-Keeps c m lt v =
        elim (Bool-cases (not m.env.initted || is_some m.sched.cur || not (claim c m.sched).0)) [
          | inl idle ↦ ground (arith, idle)
          | inr granted ↦ ground (
            arith,
            granted,
            release-claim c m.sched
                (claimed_pass lines handler callback turn
                  (record m { sched = (claim c m.sched).1 })).sched
                lt v (ground arith) (claimed_pass-Keeps (record m { sched = (claim c m.sched).1 })),
          )
        ]

  -- The pin interrupt is armed, or a poll is asked for.
  abbrev pub IsArmed : Machine (Env R) → Type 0
  IsArmed m = (m.env.irq_armed || m.env.poll_requested) ≡ true

  -- What happens between two polls: the edge of the pin, a request, and the poll itself, from either
  -- context.
  pub data Step (m : Machine (Env R)) : Machine (Env R) → Type 0 where
    edge : Step m (port_irq_handler m)
    request : Step m (request_poll m)
    poll : (c : Context) → Step m (poll_func lines handler callback turn c m)

  pub data Reach (m : Machine (Env R)) : Machine (Env R) → Type 0 where
    here : Reach m m
    next : {u v : Machine (Env R)} → Reach m u → Step u v → Reach m v

  poll_func-IsArmed :
      (c : Context) (m : Machine (Env R))
      → IsArmed m
      → IsArmed (poll_func lines handler callback turn c m)
  unfolding poll_func irq_rearm
  poll_func-IsArmed c m h = ground (arith, h)

  Step-IsArmed : {u v : Machine (Env R)} → Step u v → IsArmed u → IsArmed v
  unfolding port_irq_handler request_poll
  Step-IsArmed edge h = refl
  Step-IsArmed request h = ground arith
  Step-IsArmed (poll c) h = poll_func-IsArmed c _ h

  -- Over any sequence of interrupts, requests and polls, whatever the handlers and tasks do, the pin
  -- interrupt is armed or the next poll is asked for: no edge is lost.
  pub Reach-IsArmed : {u v : Machine (Env R)} → Reach u v → IsArmed u → IsArmed v
  Reach-IsArmed here h = h
  Reach-IsArmed (next r s) h = Step-IsArmed s (Reach-IsArmed r h)
