-- ===== src/Osal/Calls/Checks.antt =====
-- A wait for a semaphore that the host's events give.
use mm_halow_driver.Base.{ℕ, ◌+◌, ◌/◌, ◌≡◌, ◌≤◌, refl, Bool, true, false, some, min, arith}
use mm_halow_driver.Sched.{pending}
use mm_halow_driver.Sched.Run.{Machine, now}
use mm_halow_driver.Sched.Service.{from_thread}
use mm_halow_driver.Sched.Wait.{wait_max_ms}
use mm_halow_driver.Sched.Yield.Checks.{machine, no_turn, no_switch, event, even-Clock, still}
use mm_halow_driver.Osal.Sync.{Cell, Sem, sem_give}
use mm_halow_driver.Osal.Calls.{Wait, on_sem, perform}
use mm_halow_driver.Osal.Calls.Gives.{give_sem}
use mm_halow_driver.Osal.Calls.Signals.{Signal, to_sem, give, awaited, perform-give}
use mm_halow_driver.Osal.Calls.Returns.{perform_returns}

-- The semaphore's count is the number of the events that nothing took yet.
abbrev events : Cell (Machine ℕ) Sem
events = record {
  get = λ m. record { count = m.env; max_count = 5 };
  put = λ s m. record m { env = s.count };
}

abbrev for_event : Wait ℕ ℕ
for_event = on_sem events

perform_returns_example :
    (b : Bool) × (m' : Machine ℕ) × (perform no_turn no_switch event from_thread for_event 5 3
        machine
      ≡ some (b, m'))
    × (b ≡ false → 0 / 1 + min 3 wait_max_ms ≤ m'.reads / 1)
perform_returns_example =
    perform_returns no_turn no_switch event from_thread (λ n. n) (λ n. n) 1 even-Clock
      (λ i. still (no_turn i) (λ m. refl) (λ m. refl)) (still no_switch (λ m. refl) (λ m. refl))
      (still event (λ m. refl) (λ m. refl)) for_event 5 3 machine
      (record { clock = λ b m. refl; reads = λ b m. refl }) refl (omega arith) (omega arith)

-- The world is one semaphore.
abbrev the_sem : Cell Sem Sem
the_sem = record { get = λ e. e; put = λ s e. s }

abbrev with_sem : Machine Sem
with_sem = record {
  sched = machine.sched;
  heap = machine.heap;
  clock = λ n. n;
  reads = 0;
  env = record { count = 0; max_count = 1 };
}

abbrev one_given : Signal Sem ℕ
one_given = to_sem the_sem

given : (give one_given with_sem).0 ≡ true
unfolding give give_sem sem_give
given = refl

perform-give_example :
    (pending (now with_sem) (give one_given with_sem).1.sched ≡ true)
    × ((m' : Machine Sem) × (perform
            (λ i m. m)
            (λ m. m)
            (λ m. m)
            from_thread
            (awaited one_given)
            1
            0
            (give one_given with_sem).1
          ≡ some (true, m'))
        × (m'.env ≡ with_sem.env))
perform-give_example =
    perform-give (λ i m. m) (λ m. m) (λ m. m) from_thread one_given 0 0 with_sem (λ b e. refl) given
