-- ===== src/Osal/Tasks/Checks.antt =====
-- A sleep over a scheduler that only lets time pass, across the wrap of the clock.
use mm_halow_driver.Base.{ℕ, ◌+◌, ◌-◌, ◌/◌, ◌%◌, ◌^◌, ◌≤◌, ◌≡◌, false, some, arith}
use mm_halow_driver.Sched.Wait.{Host}
use mm_halow_driver.Sched.Wait.Total.{Flows}
use mm_halow_driver.Osal.Tasks.{task_sleep}
use mm_halow_driver.Osal.Tasks.Sleep.{still, task_sleep_lasts}

-- The state is the time in milliseconds; giving the turn away takes one.
abbrev host : Host ℕ
host = record {
  ticks = λ s. (s % 2 ^ 32, s);
  park = λ timed at s. s + 1;
  in_task = λ s. false;
  teardown = λ s. false;
  enter = λ s. s;
  leave = λ s. s;
  wake = λ s. s;
}

abbrev host-Flows : Flows host still 1
host-Flows = record {
  instant = λ s. s;
  positive = omega arith;
  reads = λ s. omega arith;
  ticks_on = λ s. omega arith;
  ticks_few = λ s. omega arith;
  cond_on = λ s. omega arith;
  cond_few = λ s. omega arith;
  park_on = λ timed at s. omega arith;
  round_on = λ timed at s. omega arith;
  park_few = λ timed at s. omega arith;
  enter_on = λ s. omega arith;
  enter_few = λ s. omega arith;
  leave_on = λ s. omega arith;
  wake_on = λ s. omega arith;
}

task_sleep_lasts_example :
    (s' : ℕ) × (task_sleep host (λ s. s) 50 20 (2 ^ 32 - 5) ≡ some s')
    × ((2 ^ 32 - 5) / 1 + 20 ≤ s' / 1)
task_sleep_lasts_example =
    task_sleep_lasts host 1 host-Flows (λ s. s) 50 20 (2 ^ 32 - 5) (omega arith) (omega arith)
      (omega arith)
