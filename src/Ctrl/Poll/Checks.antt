-- ===== src/Ctrl/Poll/Checks.antt =====
-- Polls of a driver whose world is the level of the IRQ line.
use mm_halow_driver.Base.{ℕ, refl, true, false, none, [], ◌∷◌, arith, leb}
use mm_halow_driver.Sched.{Sched, free_slot, nobody}
use mm_halow_driver.Sched.Service.{from_thread, from_irq}
use mm_halow_driver.Sched.Run.{Machine}
use mm_halow_driver.Sched.Run.Claim.{SameClaim, IsCounted}
use mm_halow_driver.Hal.{Lines, Handler}
use mm_halow_driver.Osal.Timers.{Timer}
use mm_halow_driver.Ctrl.Poll.{Env, poll_func, port_irq_handler, on_env}
use mm_halow_driver.Ctrl.Poll.Safety.{
  poll_func-Keeps, IsArmed, here, next, edge, poll, Reach-IsArmed,
}

abbrev idle : Sched
idle = record {
  tasks = free_slot ∷ free_slot ∷ free_slot ∷ free_slot ∷ [];
  queue = [];
  cur = none;
  woken = false;
  wake_at = 100;
  running = false;
  deadline = 0;
  owner = nobody;
  depth = 0;
  wait_depth = 0;
  in_callback = false;
  teardown = false;
}

-- The IRQ line is asserted while the world is not zero; the handler makes it so.
abbrev machine : Machine (Env ℕ)
machine = record {
  sched = idle;
  heap = record { mem = none; blocks = []; bytes = λ a. 0 };
  clock = λ n. n;
  reads = 0;
  env = record {
    irqs = record {
      spi_handler = true;
      busy_handler = false;
      spi_enabled = true;
      busy_enabled = false;
      busy_seen = false;
    };
    timers = [];
    poll_requested = false;
    initted = true;
    rx_deferred = false;
    irq_armed = true;
    rest = 1;
  };
}

abbrev lines : ℕ → Lines
lines r = record { irq_asserted = leb 1 r; busy_asserted = false }

abbrev handle : Handler → Machine (Env ℕ) → Machine (Env ℕ)
handle h = on_env (λ e. record e { rest = 0 })

abbrev no_callback : Timer → Machine (Env ℕ) → Machine (Env ℕ)
no_callback t m = m

abbrev no_turn : ℕ → Machine (Env ℕ) → Machine (Env ℕ)
no_turn i m = m

idle-IsCounted : IsCounted idle
idle-IsCounted = record { unclaimed = λ e. refl; unowned = λ e. refl }

poll_func-Keeps_example :
    SameClaim idle (poll_func lines handle no_callback no_turn from_thread machine).sched
poll_func-Keeps_example =
    poll_func-Keeps lines handle no_callback no_turn (λ h m. (refl, refl)) (λ t m. (refl, refl))
      (λ i m. (refl, refl)) from_thread machine (omega arith) idle-IsCounted

Reach-IsArmed_example :
    IsArmed lines handle no_callback no_turn
      (port_irq_handler (poll_func lines handle no_callback no_turn from_irq machine))
Reach-IsArmed_example =
    Reach-IsArmed lines handle no_callback no_turn (next (next here (poll from_irq)) edge) refl
