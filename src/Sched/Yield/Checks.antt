-- ===== src/Sched/Yield/Checks.antt =====
-- A wait of the host over a scheduler with no task.
use mm_halow_driver.Base.{
  ℕ, true, u32_max, ◌+◌, ◌/◌, ◌*◌, ◌≡◌, ◌≤◌, ◌∙◌, some, min, refl, Bool, false, none, [], ◌∷◌,
  arith, leb,
}
use mm_halow_driver.Sched.{Sched, free_slot, nobody, max_tasks}
use mm_halow_driver.Sched.Service.{from_thread}
use mm_halow_driver.Sched.Run.{Machine, run, budget_ms}
use mm_halow_driver.Sched.Run.Claim.{SameClaim, IsCounted}
use mm_halow_driver.Sched.Wait.{wait, wait_max_ms}
use mm_halow_driver.Sched.Wait.Rules.{Outcome}
use mm_halow_driver.Sched.Run.Clocked.{Clock, Moves}
use mm_halow_driver.Sched.Yield.{wait_host, wait-SameClaim}
use mm_halow_driver.Sched.Run.Budget.{run-budget_ms}
use mm_halow_driver.Sched.Yield.Clocked.{step_max, wait_returns, torn_wait_returns}

abbrev pub idle : Sched
idle = record {
  tasks = free_slot ∷ free_slot ∷ free_slot ∷ free_slot ∷ [];
  queue = [];
  cur = none;
  woken = false;
  wake_at = 100;
  running = false;
  deadline = 0;
  owner = nobody;
  depth = 0;
  wait_depth = 0;
  in_callback = false;
  teardown = false;
}

-- The world counts the host's events.
abbrev pub machine : Machine ℕ
machine = record {
  sched = idle;
  heap = record { mem = none; blocks = []; bytes = λ a. 0 };
  clock = λ n. n;
  reads = 0;
  env = 0;
}

abbrev pub no_turn : ℕ → Machine ℕ → Machine ℕ
no_turn i m = m

abbrev pub no_switch : Machine ℕ → Machine ℕ
no_switch m = m

abbrev pub event : Machine ℕ → Machine ℕ
event m = record m { env = m.env + 1 }

abbrev two_events : Machine ℕ → Bool × Machine ℕ
two_events m = (leb 2 m.env, m)

idle-IsCounted : IsCounted idle
idle-IsCounted = record { unclaimed = λ e. refl; unowned = λ e. refl }

wait-SameClaim_example :
    Outcome
      (λ m'. SameClaim idle m'.sched)
      (λ m'. SameClaim idle m'.sched)
      (wait (wait_host no_turn no_switch event from_thread) two_events 5 1000 machine)
wait-SameClaim_example =
    wait-SameClaim no_turn no_switch event (λ i m. (refl, refl)) (λ m. (refl, refl))
      (λ m. (refl, refl)) from_thread two_events (λ m. (refl, refl)) 5 1000 machine idle-IsCounted
      (omega arith)

pub even-Clock : Clock (λ n. n) (λ n. n) 1 step_max
even-Clock = record {
  positive = omega arith;
  shows = λ n. omega arith;
  grows = λ n. omega arith;
  steps = λ n. omega arith;
}

pub still :
    (f : Machine ℕ → Machine ℕ)
    → ((m : Machine ℕ) → (f m).clock ≡ m.clock)
    → ((m : Machine ℕ) → (f m).reads ≡ m.reads)
    → Moves (λ n. n) (λ n. n) 1 step_max f
still f c r m e = record { same = c m ∙ e; on = omega (arith, r m); few = omega (arith, r m) }

wait_returns_example :
    (b : Bool) × (m' : Machine ℕ) × (wait
        (wait_host no_turn no_switch event from_thread)
        two_events
        5
        3
        machine
      ≡ some (b, m'))
    × (b ≡ false → 0 / 1 + min 3 wait_max_ms ≤ m'.reads / 1)
wait_returns_example =
    wait_returns (λ n. n) (λ n. n) 1 even-Clock no_turn no_switch event
      (λ i. still (no_turn i) (λ m. refl) (λ m. refl)) (still no_switch (λ m. refl) (λ m. refl))
      (still event (λ m. refl) (λ m. refl)) from_thread two_events
      (still (λ m. (two_events m).1) (λ m. refl) (λ m. refl)) 5 3 machine refl (omega arith)
      (omega arith)

-- The clock that goes on by one millisecond with each reading.
by_one-Clock : Clock (λ n. n) (λ n. n) 1 1
by_one-Clock = record {
  positive = omega arith;
  shows = λ n. omega arith;
  grows = λ n. omega arith;
  steps = λ n. omega arith;
}

run-budget_ms_example : (run no_turn machine).reads / 1 ≤ 0 / 1 + budget_ms + 3 * 1 + max_tasks * 5
run-budget_ms_example =
    run-budget_ms no_turn (λ i m. (refl, refl)) (λ n. n) (λ n. n) 1 1 5 by_one-Clock
      (λ i m e. record { same = e; on = omega arith; few = omega arith }) (omega arith) machine refl

-- The driver is shut down, and nothing ever happens.
abbrev torn : Machine ℕ
torn = record machine { sched = record idle { teardown = true } }

abbrev never : Machine ℕ → Bool × Machine ℕ
never m = (false, m)

torn_wait_returns_example :
    (b : Bool) × (m' : Machine ℕ) × (wait
        (wait_host no_turn no_switch event from_thread)
        never
        10001
        u32_max
        torn
      ≡ some (b, m'))
    × (b ≡ false → 0 / 1 + wait_max_ms ≤ m'.reads / 1)
torn_wait_returns_example =
    torn_wait_returns (λ n. n) (λ n. n) 1 even-Clock no_turn no_switch event
      (λ i. still (no_turn i) (λ m. refl) (λ m. refl)) (still no_switch (λ m. refl) (λ m. refl))
      (still event (λ m. refl) (λ m. refl)) from_thread never
      (still (λ m. (never m).1) (λ m. refl) (λ m. refl)) 10001 torn (λ n t. t) refl refl
      (omega arith)
