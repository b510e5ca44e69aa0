-- ===== src/Osal/Calls/Gives.antt =====
-- The calls of mm_halow_osal.c that give a primitive, or take from it without a wait, in variables of
-- the world; none is the null pointer.
use mm_halow_driver.Base.{Bool, true, false, Option, none, some, if◌then◌else◌}
use mm_halow_driver.Sched.{wake}
use mm_halow_driver.Sched.Run.{Machine, on_sched}
use mm_halow_driver.Osal.Sync.{Cell, Mutex, release, is_held_by, Sem, sem_give, semb_give}
use mm_halow_driver.Osal.Queue.{Queue, pop, push}

module _ {E : Type 0} where
  -- mm_halow_sched_wake, if the call has done something
  abbrev pub woken : Bool → Machine E → Machine E
  woken ok m = if ok then on_sched wake m else m

  -- mmosal_sem_give
  unfoldable pub give_sem : Option (Cell E Sem) → Machine E → Bool × Machine E
  give_sem none m = (false, m)
  give_sem (some x) m =
      let (given, s) = sem_give (x.get m.env) in
      (given, woken given (record m { env = x.put s m.env }))

  -- mmosal_semb_give
  unfoldable pub give_semb : Option (Cell E Bool) → Machine E → Bool × Machine E
  give_semb none m = (false, m)
  give_semb (some x) m =
      let (given, b) = semb_give (x.get m.env) in
      (given, woken given (record m { env = x.put b m.env }))

  -- mmosal_mutex_release
  unfoldable pub mutex_release : Option (Cell E Mutex) → Machine E → Bool × Machine E
  mutex_release none m = (false, m)
  mutex_release (some x) m =
      (true, woken true (record m { env = x.put (release (x.get m.env)) m.env }))

  -- mmosal_mutex_is_held_by_active_task
  pub is_held_by_active_task : Option (Cell E Mutex) → Machine E → Bool
  is_held_by_active_task none m = false
  is_held_by_active_task (some x) m = is_held_by m.sched.cur (x.get m.env)

  -- mmosal_queue_push_from_isr
  unfoldable pub push_from_isr :
      {A : Type 0} → Option (Cell E (Queue A)) → A → Machine E → Bool × Machine E
  push_from_isr none a m = (false, m)
  push_from_isr (some x) a m =
      let (pushed, q) = push a (x.get m.env) in
      (pushed, woken pushed (record m { env = x.put q m.env }))

  abbrev store_popped :
      {A : Type 0} → Cell E (Queue A) → Cell E A → Option A × Queue A → Machine E → Bool × Machine E
  store_popped x item (none, q) m = (false, m)
  store_popped x item (some a, q) m =
      (true, woken true (record m { env = item.put a (x.put q m.env) }))

  -- mmosal_queue_pop_from_isr, into the buffer `item`
  pub pop_from_isr :
      {A : Type 0} → A → Option (Cell E (Queue A)) → Cell E A → Machine E → Bool × Machine E
  pop_from_isr d none item m = (false, m)
  pop_from_isr d (some x) item m = store_popped x item (pop d (x.get m.env)) m
