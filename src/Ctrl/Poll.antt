-- ===== src/Ctrl/Poll.antt =====
-- mm_halow_poll_func of mm_halow_ctrl.c, over the scheduler, the timers and the interrupt lines. What
-- the interrupt handlers, the timer callbacks and the tasks do is morselib's, and an argument. The pin
-- interrupt is built in, MM_HALOW_ENABLE_PIN_IRQ.
pub mod Safety
pub mod Effects
pub mod Clocked
mod Checks
use mm_halow_driver.Base.{ℕ, Bool, true, false, ◌||◌, not, List, ltb, if◌then◌else◌}
use mm_halow_driver.Sched.{Sched, pending}
use mm_halow_driver.Sched.Service.{Context, claim, release}
use mm_halow_driver.Sched.Run.{Machine, is_some, now, tick, on_sched, run}
use mm_halow_driver.Hal.{Irqs, Lines, Handler, spi, busy, spi_ready, busy_ready, irq_pending}
use mm_halow_driver.Osal.Timers.{Timer, TimerWorld, timer_pending, timer_poll}

-- What the poll uses beside the scheduler: the state of mm_halow_hal.c and of the timers,
-- mm_halow_poll_requested, `initted`, `rx_deferred`, whether mm_halow_port_irq_enable was last called
-- with true, and the rest of the world.
pub record Env (R : Type 0) : Type 0 where
  pub irqs : Irqs
  pub timers : List Timer
  pub poll_requested : Bool
  pub initted : Bool
  pub rx_deferred : Bool
  pub irq_armed : Bool
  pub rest : R

module _ {R : Type 0} where
  abbrev pub on_env : (Env R → Env R) → Machine (Env R) → Machine (Env R)
  on_env f m = record m { env = f m.env }

  -- mm_halow_request_poll; the port may override mm_halow_schedule_poll, which does nothing.
  unfoldable pub request_poll : Machine (Env R) → Machine (Env R)
  request_poll = on_env (λ e. record e { poll_requested = true })

  -- mm_halow_hal_irq_rearm
  pub irq_rearm : Machine (Env R) → Machine (Env R)
  irq_rearm = on_env (λ e. record e { irq_armed = true })

  -- mm_halow_port_irq_handler
  pub port_irq_handler : Machine (Env R) → Machine (Env R)
  unfolding request_poll
  port_irq_handler m = request_poll (on_env (λ e. record e { irq_armed = false }) m)

  -- The timers' view of the machine, and back.
  abbrev pub to_timers : Machine (Env R) → TimerWorld (Machine (Env R))
  to_timers m = record { timers = m.env.timers; woken = m.sched.woken; env = m }

  abbrev pub of_timers : TimerWorld (Machine (Env R)) → Machine (Env R)
  of_timers w =
      on_sched (λ s. record s { woken = w.woken })
        (on_env (λ e. record e { timers = w.timers }) w.env)

  module _ (lines : R → Lines) (handler : Handler → Machine (Env R) → Machine (Env R))
      (callback : Timer → Machine (Env R) → Machine (Env R))
      (turn : ℕ → Machine (Env R) → Machine (Env R)) where
    -- mm_halow_hal_poll_irqs
    pub service_irqs : Machine (Env R) → Machine (Env R)
    service_irqs m =
        let m1 = if spi_ready m.env.irqs (lines m.env.rest) then handler spi m else m in
        if busy_ready m1.env.irqs (lines m1.env.rest) then handler busy m1 else m1

    -- mm_halow_osal_timer_poll
    pub service_timers : Machine (Env R) → Machine (Env R)
    service_timers m =
        of_timers
          (timer_poll (λ t w. to_timers (callback t (of_timers w))) (now m) (to_timers (tick m)))

    -- mm_halow_sched_pending, with its reading of the clock
    abbrev pub tasks_pending : Machine (Env R) → Bool × Machine (Env R)
    tasks_pending m = if m.sched.woken then (true, m) else (pending (now m) m.sched, tick m)

    -- mm_halow_osal_timer_pending, and behind it
    abbrev pub timers_or_tasks : Machine (Env R) → Bool × Machine (Env R)
    timers_or_tasks m =
        if timer_pending (now m) m.env.timers then (true, tick m) else tasks_pending (tick m)

    -- The test for work, in the order in which it is evaluated.
    pub has_work : Machine (Env R) → Bool × Machine (Env R)
    has_work m =
        let (raised, irqs) = irq_pending (lines m.env.rest) m.env.irqs in
        let m1 = on_env (λ e. record e { irqs = irqs }) m in
        if m.env.poll_requested
        then (true, m)
        else if raised
        then (true, m1)
        else timers_or_tasks m1

    -- A full pass
    pub serve : Machine (Env R) → Machine (Env R)
    serve m =
        run turn
          (service_timers (service_irqs (on_env (λ e. record e { poll_requested = false }) m)))

    -- mm_halow_poll_func behind the claim, up to the release
    pub claimed_pass : Machine (Env R) → Machine (Env R)
    claimed_pass m = let (work, m1) = has_work m in if work then serve m1 else m1

    -- mm_halow_poll_func
    pub poll_func : Context → Machine (Env R) → Machine (Env R)
    poll_func c m =
        let (claimed, s) = claim c m.sched in
        if not m.env.initted || is_some m.sched.cur
        then m
        else if not claimed
        then m
        else irq_rearm (on_sched release (claimed_pass (record m { sched = s })))
