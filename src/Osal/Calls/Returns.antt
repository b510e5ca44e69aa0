-- ===== src/Osal/Calls/Returns.antt =====
-- Every wait of mm_halow_osal.c comes back from the scheduler.
use mm_halow_driver.Base.{
  ℕ, ◌+◌, ◌*◌, ◌/◌, ◌≤◌, ◌<◌, ◌≡◌, refl, Bool, true, false, Option, none, some, arith, min, u32_max,
  inl, inr, Bool-cases, ◌∙◌,
}
use mm_halow_driver.Sched.{wake}
use mm_halow_driver.Sched.Service.{Context}
use mm_halow_driver.Sched.Run.{Machine, now, tick, on_sched}
use mm_halow_driver.Sched.Run.Clocked.{Clock, Moved, Moves, stays, within, ticked, alike}
use mm_halow_driver.Sched.Wait.{wait, wait_max_ms}
use mm_halow_driver.Sched.Yield.{wait_host}
use mm_halow_driver.Sched.Yield.Clocked.{step_max, wait_returns}
use mm_halow_driver.Osal.Sync.{
  Cell, Mutex, mutex_acquired, mutex_get, get_mutex, sem_taken, semb_taken, task_notified,
}
use mm_halow_driver.Osal.Queue.{Queue, pop, push}
use mm_halow_driver.Osal.Queue.Waits.{
  queue_popped, queue_pushed, queue_pop, queue_push, popped, pushed,
}
use mm_halow_driver.Osal.Tasks.{on_cell, sem_wait, semb_wait, wait_for_notification}
use mm_halow_driver.Osal.Calls.{
  Wait, on_sem, on_semb, on_mutex, on_notification, on_pop, on_push, IsTimeless, Timeless,
  sched_cell, condition, perform,
}

module _ {E : Type 0} (clock0 : ℕ → ℕ) (time : ℕ → ℕ) (rate : ℕ) where
  abbrev Brief : Machine E → Machine E → Type 0
  Brief m m' = Moved clock0 time rate step_max m.reads m'

  unmoved :
      (m m' : Machine E) → m.clock ≡ clock0 → m'.clock ≡ m.clock → m'.reads ≡ m.reads → Brief m m'
  unmoved m m' e k r =
      within clock0 time rate m' (omega arith)
        (alike clock0 time rate m m' k r (stays clock0 time rate m e))

  written :
      {B : Type 0} (x : Cell (Machine E) B) (b : B) (m : Machine E)
      → IsTimeless x
      → m.clock ≡ clock0
      → Brief m (x.put b m)
  written x b m q e = unmoved m (x.put b m) e (q.clock b m) (q.reads b m)

module _ {E : Type 0} (turn : ℕ → Machine E → Machine E) (switch hook : Machine E → Machine E)
    (c : Context) where
  module _ (clock0 : ℕ → ℕ) (time : ℕ → ℕ) (rate : ℕ) (tells : Clock clock0 time rate step_max)
      (turns : (i : ℕ) → Moves clock0 time rate step_max (turn i)) where
    acquired-Brief :
        (x : Cell (Machine E) Mutex) (m : Machine E)
        → IsTimeless x
        → m.clock ≡ clock0
        → Brief clock0 time rate m
            (mutex_acquired (wait_host turn switch hook c) x (λ m. m.sched.cur) m).1
    unfolding mutex_acquired wait_host
    acquired-Brief x m q e = elim (Bool-cases (x.get m).locked) [
      | inl held ↦ rw held (unmoved clock0 time rate m m e refl refl)
      | inr free ↦ rw free (
          let taken : Mutex = record { owner = m.sched.cur; taken_ms = now m; locked = true } in
          alike clock0 time rate (tick m) (x.put taken (tick m)) (q.clock taken (tick m))
            (q.reads taken (tick m))
            (ticked clock0 time rate step_max step_max tells turn turns m e))
    ]

module _ {E A : Type 0} (turn : ℕ → Machine E → Machine E) (switch hook : Machine E → Machine E)
    (c : Context) where
  perform_lem :
      (w : Wait E A) (fuel t : ℕ) (m : Machine E)
      → t < u32_max
      → perform turn switch hook c w fuel t m
        ≡ wait (wait_host turn switch hook c) (condition turn switch hook c w) fuel t m
  unfolding perform condition sem_wait semb_wait mutex_get get_mutex wait_for_notification queue_pop
      queue_push
  perform_lem (on_sem x) fuel t m lt = refl
  perform_lem (on_semb x) fuel t m lt = refl
  perform_lem (on_mutex x) fuel t m lt = ground arith
  perform_lem (on_notification i) fuel t m lt = refl
  perform_lem (on_pop d x item) fuel t m lt = refl
  perform_lem (on_push x a) fuel t m lt = refl

  module _ (clock0 : ℕ → ℕ) (time : ℕ → ℕ) (rate : ℕ) (tells : Clock clock0 time rate step_max)
      (turns : (i : ℕ) → Moves clock0 time rate step_max (turn i)) where
    popped-Brief :
        (d : A) (x : Cell (Machine E) (Queue A)) (item : Cell (Machine E) A) (m : Machine E)
        (r : Option A × Queue A)
        → IsTimeless x
        → IsTimeless item
        → m.clock ≡ clock0
        → Brief clock0 time rate m (popped (wait_host turn switch hook c) x item r m).1
    unfolding wait_host wake
    popped-Brief d x item m (none, q) k l e = unmoved clock0 time rate m m e refl refl
    popped-Brief d x item m (some a, q) k l e =
        unmoved clock0 time rate m (on_sched wake (item.put a (x.put q m))) e
          (l.clock a (x.put q m) ∙ k.clock q m) (l.reads a (x.put q m) ∙ k.reads q m)

    pushed-Brief :
        (x : Cell (Machine E) (Queue A)) (m : Machine E) (r : Bool × Queue A)
        → IsTimeless x
        → m.clock ≡ clock0
        → Brief clock0 time rate m (pushed (wait_host turn switch hook c) x r m).1
    unfolding wait_host wake
    pushed-Brief x m (false, q) k e = unmoved clock0 time rate m m e refl refl
    pushed-Brief x m (true, q) k e =
        unmoved clock0 time rate m (on_sched wake (x.put q m)) e (k.clock q m) (k.reads q m)

    condition-Moves :
        (w : Wait E A)
        → Timeless w
        → Moves clock0 time rate step_max (λ m. (condition turn switch hook c w m).1)
    unfolding condition queue_popped queue_pushed
    condition-Moves (on_sem x) q m e = written clock0 time rate x (sem_taken (x.get m)).1 m q e
    condition-Moves (on_semb x) q m e = written clock0 time rate x (semb_taken (x.get m)).1 m q e
    condition-Moves (on_mutex x) q m e =
        acquired-Brief turn switch hook c clock0 time rate tells turns x m q e
    condition-Moves (on_notification i) q m e =
        unmoved clock0 time rate m (on_cell sched_cell (task_notified i) m).1 e refl refl
    condition-Moves (on_pop d x item) (k, l) m e = popped-Brief d x item m (pop d (x.get m)) k l e
    condition-Moves (on_push x a) q m e = pushed-Brief x m (push a (x.get m)) q e

    -- A wait of morselib for a semaphore, a binary semaphore, a mutex, a notification or a queue that is
    -- not for ever returns from the scheduler, with fuel for its time, if the tick counter goes on,
    -- every task, switch and hook comes back within nine hours, and a write to the variables that it
    -- uses takes no time. It gives up only when its time, at most MM_HALOW_SCHED_WAIT_MAX_MS, is over.
    pub perform_returns :
        (switches : Moves clock0 time rate step_max switch)
        (hooks : Moves clock0 time rate step_max hook) (w : Wait E A) (fuel t : ℕ) (m : Machine E)
        → Timeless w
        → m.clock ≡ clock0
        → t < u32_max
        → min t wait_max_ms * rate < fuel
        → (b : Bool) × (m' : Machine E) × (perform turn switch hook c w fuel t m ≡ some (b, m'))
          × (b ≡ false → time m.reads / rate + min t wait_max_ms ≤ time m'.reads / rate)
    perform_returns switches hooks w fuel t m q e lt enough = rw (perform_lem w fuel t m lt) (
        wait_returns clock0 time rate tells turn switch hook turns switches hooks c
          (condition turn switch hook c w) (condition-Moves w q) fuel t m e lt enough)
