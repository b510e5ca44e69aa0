-- ===== src/Sched/Run.antt =====
-- mm_halow_sched_run: passes over the task list within a wall-clock budget. What a task does in its
-- turn is morselib's code, so a turn is a parameter. The clock is what mm_halow_ticks_ms() returns
-- at each reading, in order.
pub mod Order
pub mod Idle
pub mod Claim
pub mod Effects
pub mod Clocked
pub mod Budget
use mm_halow_driver.Base.{
  ℕ, zero, suc, ◌+◌, ◌-◌, ◌*◌, ◌%◌, ◌≤◌, ◌<◌, ◌^◌, ◌≡◌, ◌≢◌, refl, Bool, true, false, ◌&&◌, ◌||◌,
  not, Option, none, some, List, [], ◌∷◌, ◌++◌, arith, inl, inr, ltb, ◌==◌, if◌then◌else◌, length,
  count, ap, ◌∙◌, Bool-cases, add32, u32,
}
use mm_halow_driver.Heap.{Heap}
use mm_halow_driver.Sched.{
  Sched, Task, is_ready, task_at, wake_at_reset, pending, pass_expired, note_wake_at, reap,
  max_tasks,
}

-- MM_HALOW_SCHED_PASSES
abbrev pub max_passes : ℕ
max_passes = 4

-- MM_HALOW_SCHED_BUDGET_MS
abbrev pub budget_ms : ℕ
budget_ms = 20

-- The driver with the rest of the world, `env`: `clock` gives the readings of the tick counter and
-- `reads` how many were taken.
pub record Machine (E : Type 0) : Type 0 where
  pub sched : Sched
  pub heap : Heap
  pub clock : ℕ → ℕ
  pub reads : ℕ
  pub env : E

abbrev pub first_of_list : List ℕ → Option ℕ
first_of_list [] = none
first_of_list (i ∷ is) = some i

-- The task behind `i` in the list, `task->next`.
pub next_of : ℕ → List ℕ → Option ℕ
next_of i [] = none
next_of i (j ∷ js) = if i == j then first_of_list js else next_of i js

abbrev pub is_some : Option ℕ → Bool
is_some none = false
is_some (some i) = true

module _ {E : Type 0} where
  -- one reading of mm_halow_ticks_ms()
  abbrev pub now : Machine E → ℕ
  now m = u32 (m.clock m.reads)

  abbrev pub tick : Machine E → Machine E
  tick m = record m { reads = m.reads + 1 }

  abbrev pub on_sched : (Sched → Sched) → Machine E → Machine E
  on_sched f m = record m { sched = f m.sched }

  -- behind the passes: mm_halow_sched_reap and the flag
  abbrev pub finish : Machine E → Machine E
  finish m =
      let (h, s) = reap m.heap m.sched in
      record m { heap = h; sched = record s { running = false } }

  -- in front of the passes
  abbrev pub start : Machine E → Machine E
  start m = on_sched (λ s. record s { running = true; deadline = add32 (now m) budget_ms }) (tick m)

  module _ (turn : ℕ → Machine E → Machine E) where
    -- The body of the inner loop for task `i`: a switch to it and back, unless it is dead.
    pub give_turn : ℕ → Machine E → Machine E
    give_turn i m =
        if is_ready (task_at m.sched i)
        then on_sched (λ s. record s { cur = none })
            (turn i (on_sched (λ s. record s { cur = some i }) m))
        else m

    -- The inner loop from task `i` on. The fuel is the number of slots.
    pub run_pass : ℕ → Option ℕ → Machine E → Machine E
    run_pass zero i m = m
    run_pass (suc f) none m = m
    run_pass (suc f) (some i) m = let m' = give_turn i m in run_pass f (next_of i m'.sched.queue) m'

    -- One round of the outer loop behind its test.
    pub one_pass : Machine E → Machine E
    one_pass m =
        let cleared = on_sched (λ s. wake_at_reset (now m) (record s { woken = false })) (tick m) in
        run_pass max_tasks (first_of_list cleared.sched.queue) cleared

    -- The outer loop with `k` passes left.
    pub run_passes : ℕ → Machine E → Machine E
    run_passes zero m = m
    run_passes (suc k) m = elim (pass_expired (now m) m.sched) [
      | true ↦ tick m
      | false ↦
          let m' = one_pass (tick m) in
          let rest = run_passes k m' in if m'.sched.woken then rest else m'
    ]

    -- mm_halow_sched_run
    pub run : Machine E → Machine E
    run m =
        if m.sched.running || is_some m.sched.cur
        then m
        else finish (run_passes max_passes (start m))
