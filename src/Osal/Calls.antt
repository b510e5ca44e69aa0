-- ===== src/Osal/Calls.antt =====
-- The calls of mm_halow_osal.c on the scheduler of mm_halow_sched.c itself: the entry points that pass a
-- call on, and the waits of the primitives.
pub mod Returns
pub mod Gives
pub mod Signals
mod Checks
use mm_halow_driver.Base.{
  ℕ, ◌+◌, ◌*◌, ◌/◌, ◌≤◌, ◌<◌, ◌≡◌, refl, Bool, true, false, Option, none, some, arith, min, u32_max,
  not, inl, inr, Bool-cases, if◌then◌else◌, ◌∙◌,
}
use mm_halow_driver.Sched
use mm_halow_driver.Sched.{Sched, wake}
use mm_halow_driver.Sched.Service.{Context}
use mm_halow_driver.Sched.Run.{Machine, now, tick, on_sched}
use mm_halow_driver.Sched.Run.Clocked.{Clock, Moved, Moves, stays, within, ticked, alike}
use mm_halow_driver.Sched.Wait.{wait, wait_max_ms}
use mm_halow_driver.Sched.Yield.{yield, wait_host}
use mm_halow_driver.Sched.Yield.Clocked.{wait_returns}
use mm_halow_driver.Osal.Sync.{
  Cell, Mutex, Sem, mutex_acquired, mutex_get, sem_taken, semb_taken, task_notified, task_notify,
}
use mm_halow_driver.Osal.Queue.{Queue, pop, push}
use mm_halow_driver.Osal.Queue.Waits.{
  queue_popped, queue_pushed, queue_pop, queue_push, popped, pushed,
}
use mm_halow_driver.Osal.Tasks.{on_cell, sem_wait, semb_wait, wait_for_notification}

module _ {E : Type 0} where
  -- mmosal_task_create, whose priority is ignored
  pub task_create :
      (trampoline entry arg priority words name : ℕ) → Machine E → Option ℕ × Machine E
  task_create trampoline entry arg priority words name m =
      let (t, h, s) = Sched.task_create trampoline entry arg words name m.heap m.sched in
      (t, record m { heap = h; sched = s })

  -- mmosal_task_delete, up to the switch away from a task that deletes itself
  pub task_delete : Option ℕ → Machine E → Machine E
  task_delete t m = on_sched (Sched.task_delete t) m

  -- mmosal_task_get_active
  pub task_get_active : Machine E → Option ℕ
  task_get_active m = m.sched.cur

  -- mmosal_task_notify_from_isr
  pub task_notify_from_isr : Option ℕ → Machine E → Machine E
  task_notify_from_isr t m = on_sched (task_notify t) m

  -- mmosal_get_time_ms
  pub get_time_ms : Machine E → ℕ × Machine E
  get_time_ms m = (now m, tick m)

  -- mmosal_get_time_ticks
  pub get_time_ticks : Machine E → ℕ × Machine E
  get_time_ticks m = (now m, tick m)

-- mmosal_ticks_per_second
pub ticks_per_second : ℕ
ticks_per_second = 1000

-- The waits of morselib: the primitive and what it stands in. A variable of the machine is a cell.
pub data Wait (E A : Type 0) : Type 1 where
  on_sem : Cell (Machine E) Sem → Wait E A
  on_semb : Cell (Machine E) Bool → Wait E A
  on_mutex : Cell (Machine E) Mutex → Wait E A
  on_notification : ℕ → Wait E A
  on_pop : A → Cell (Machine E) (Queue A) → Cell (Machine E) A → Wait E A
  on_push : Cell (Machine E) (Queue A) → A → Wait E A

-- A write to the variable takes no time.
pub record IsTimeless {E B : Type 0} (c : Cell (Machine E) B) : Type 0 where
  pub clock : (b : B) (m : Machine E) → (c.put b m).clock ≡ m.clock
  pub reads : (b : B) (m : Machine E) → (c.put b m).reads ≡ m.reads

abbrev pub Timeless : {E A : Type 0} → Wait E A → Type 0
Timeless (on_sem c) = IsTimeless c
Timeless (on_semb c) = IsTimeless c
Timeless (on_mutex c) = IsTimeless c
Timeless (on_notification i) = Unit
Timeless (on_pop d c item) = IsTimeless c × IsTimeless item
Timeless (on_push c a) = IsTimeless c

-- The variables of the scheduler, as a cell of the machine.
abbrev pub sched_cell : {E : Type 0} → Cell (Machine E) Sched
sched_cell = record { get = λ m. m.sched; put = λ s m. record m { sched = s } }

module _ {E A : Type 0} (turn : ℕ → Machine E → Machine E) (switch hook : Machine E → Machine E)
    (c : Context) where
  -- The condition that the call hands to mm_halow_sched_wait.
  unfoldable pub condition : Wait E A → Machine E → Bool × Machine E
  condition (on_sem x) = on_cell x sem_taken
  condition (on_semb x) = on_cell x semb_taken
  condition (on_mutex x) = mutex_acquired (wait_host turn switch hook c) x (λ m. m.sched.cur)
  condition (on_notification i) = on_cell sched_cell (task_notified i)
  condition (on_pop d x item) = queue_popped (wait_host turn switch hook c) d (some x) item
  condition (on_push x a) = queue_pushed (wait_host turn switch hook c) (some x) a

  -- The call: mmosal_sem_wait, mmosal_semb_wait, mmosal_mutex_get, mmosal_task_wait_for_notification,
  -- mmosal_queue_pop or mmosal_queue_push
  unfoldable pub perform : Wait E A → ℕ → ℕ → Machine E → Option (Bool × Machine E)
  perform (on_sem x) = sem_wait (wait_host turn switch hook c) (some x)
  perform (on_semb x) = semb_wait (wait_host turn switch hook c) (some x)
  perform (on_mutex x) = mutex_get (wait_host turn switch hook c) (some x) (λ m. m.sched.cur)
  perform (on_notification i) =
      wait_for_notification (wait_host turn switch hook c) sched_cell (some i)
  perform (on_pop d x item) = queue_pop (wait_host turn switch hook c) d (some x) item
  perform (on_push x a) = queue_push (wait_host turn switch hook c) (some x) a
