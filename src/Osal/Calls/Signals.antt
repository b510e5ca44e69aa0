-- ===== src/Osal/Calls/Signals.antt =====
-- What wakes a wait of mm_halow_osal.c: the calls that give a primitive, with mm_halow_sched_wake.
use mm_halow_driver.Base.{
  ℕ, ap, get_or, suc, ◌≡◌, refl, Bool, true, false, Option, none, some, arith, inl, inr, Bool-cases,
  ◌∙◌, u32_max, ◌==◌, ltb,
}
use mm_halow_driver.Sched.{wake, pending}
use mm_halow_driver.Sched.Service.{Context}
use mm_halow_driver.Sched.Run.{Machine, now, tick, on_sched}
use mm_halow_driver.Sched.Wait.{Host, wait}
use mm_halow_driver.Sched.Wait.Once.{wait-at_once}
use mm_halow_driver.Sched.Yield.{wait_host}
use mm_halow_driver.Osal.Sync.{
  Cell, Mutex, acquire, release, mutex_acquired, mutex_get, get_mutex, get_slow, Sem, sem_give,
  sem_taken, semb_give, semb_taken,
}
use mm_halow_driver.Osal.Queue.{Queue, pop, push}
use mm_halow_driver.Osal.Queue.Waits.{popped, queue_popped, queue_pop}
use mm_halow_driver.Osal.Tasks.{on_cell, sem_wait, semb_wait}
use mm_halow_driver.Osal.Calls.Gives.{give_sem, give_semb, mutex_release, push_from_isr}
use mm_halow_driver.Osal.Calls.{Wait, on_sem, on_semb, on_mutex, on_pop, perform}

-- A variable of the world, as one of the machine.
abbrev pub in_env : {E B : Type 0} → Cell E B → Cell (Machine E) B
in_env x = record { get = λ m. x.get m.env; put = λ b m. record m { env = x.put b m.env } }

-- What is given, and in what it stands; an item goes into a queue, from which `pop_to` takes one.
pub data Signal (E A : Type 0) : Type 1 where
  to_sem : Cell E Sem → Signal E A
  to_semb : Cell E Bool → Signal E A
  to_mutex : Cell E Mutex → Signal E A
  to_queue : A → Cell E (Queue A) → Cell E A → A → Signal E A

module _ {E : Type 0} where
  -- mmosal_sem_give, mmosal_semb_give, mmosal_mutex_release and mmosal_queue_push_from_isr
  unfoldable pub give : {A : Type 0} → Signal E A → Machine E → Bool × Machine E
  give (to_sem x) m = give_sem (some x) m
  give (to_semb x) m = give_semb (some x) m
  give (to_mutex x) m = mutex_release (some x) m
  give (to_queue d x item a) m = push_from_isr (some x) a m

  -- The wait for what was given.
  abbrev pub awaited : {A : Type 0} → Signal E A → Wait E A
  awaited (to_sem x) = on_sem (in_env x)
  awaited (to_semb x) = on_semb (in_env x)
  awaited (to_mutex x) = on_mutex (in_env x)
  awaited (to_queue d x item a) = on_pop d (in_env x) (in_env item)

  abbrev Stored : {B : Type 0} → Cell E B → Type 0
  Stored {B} x = (b : B) (e : E) → x.get (x.put b e) ≡ b

  -- A variable holds what was written to it.
  abbrev pub Holds : {A : Type 0} → Signal E A → Type 0
  Holds (to_sem x) = Stored x
  Holds (to_semb x) = Stored x
  Holds (to_mutex x) = Stored x
  Holds (to_queue d x item a) = Stored x

sem_taken-sem_give :
    (s : Sem)
    → (sem_give s).0 ≡ true
    → ((sem_taken (sem_give s).1).0 ≡ true) × ((sem_taken (sem_give s).1).1 ≡ s)
unfolding sem_give sem_taken
sem_taken-sem_give s ok = elim (Bool-cases (ltb s.count s.max_count)) [
  | inl lt ↦ rw lt (ground arith, ground arith)
  | inr ge ↦ absurd (ground arith)
]

pop-push :
    {A : Type 0} (d a : A) (q : Queue A)
    → (push a q).0 ≡ true
    → (b : A) × ((pop d (push a q).1).0 ≡ some b)
unfolding pop push
pop-push d a q ok = (get_or (push a q).1.items (push a q).1.head d, ground arith)

-- Through a variable that holds what was written to it.
taken_back :
    {E : Type 0} (x : Cell E Sem) (e : E)
    → ((b : Sem) (e : E) → x.get (x.put b e) ≡ b)
    → (sem_give (x.get e)).0 ≡ true
    → (let e1 = x.put (sem_give (x.get e)).1 e in
        ((sem_taken (x.get e1)).0 ≡ true) × (x.get (x.put (sem_taken (x.get e1)).1 e1) ≡ x.get e))
taken_back x e law ok =
    let (taken, back) = sem_taken-sem_give (x.get e) ok in
    rw (law (sem_give (x.get e)).1 e) (taken, law _ _ ∙ back)

popped_some :
    {S A : Type 0} (h : Host S) (c : Cell S (Queue A)) (item : Cell S A) (r : Option A × Queue A)
    (s : S) (b : A)
    → r.0 ≡ some b
    → (popped h c item r s).0 ≡ true
popped_some h c item (none, q) s b e = absurd cc
popped_some h c item (some a, q) s b e = refl

-- If the waits succeed, so does mmosal_mutex_get.
gets :
    {S : Type 0} (h : Host S) (x : Cell S Mutex) (current : S → Option ℕ) (Q : S → Type 0)
    (fuel t : ℕ) (s : S)
    → ((t : ℕ) → (s' : S) × (wait h (mutex_acquired h x current) fuel t s ≡ some (true, s')) × Q s')
    → (s' : S) × (mutex_get h (some x) current fuel t s ≡ some (true, s')) × Q s'
unfolding mutex_get get_mutex get_slow
gets h x current Q fuel t s waits = elim (Bool-cases (t == u32_max)) [
  | inl z ↦ let (s', e, q) = waits 9000 in (s', rw (z, e) refl, q)
  | inr nz ↦ let (s', e, q) = waits t in (s', rw (nz, e) refl, q)
]

module _ {E : Type 0} (turn : ℕ → Machine E → Machine E) (switch hook : Machine E → Machine E)
    (c : Context) where
  -- A mutex that is free is acquired.
  acquired :
      (x : Cell E Mutex) (m : Machine E)
      → ((b : Mutex) (e : E) → x.get (x.put b e) ≡ b)
      → (x.get m.env).locked ≡ false
      → (let r = mutex_acquired (wait_host turn switch hook c) (in_env x) (λ m. m.sched.cur) m in
          (r.0 ≡ true) × (((x.get r.1.env).locked ≡ true) × ((x.get r.1.env).owner ≡ m.sched.cur)))
  unfolding mutex_acquired acquire wait_host
  acquired x m law free = rw free (
    refl,
    (ap (λ (b : Mutex). b.locked) (law _ m.env), ap (λ (b : Mutex). b.owner) (law _ m.env)),
  )

  -- An item that is there is popped.
  item_popped :
      {A : Type 0} (d : A) (x : Cell E (Queue A)) (item : Cell E A) (m : Machine E) (b : A)
      → (pop d (x.get m.env)).0 ≡ some b
      → (queue_popped (wait_host turn switch hook c) d (some (in_env x)) (in_env item) m).0 ≡ true
  unfolding queue_popped
  item_popped d x item m b e =
      popped_some (wait_host turn switch hook c) (in_env x) (in_env item) (pop d (x.get m.env)) m b
        e

module _ {E A : Type 0} (turn : ℕ → Machine E → Machine E) (switch hook : Machine E → Machine E)
    (c : Context) where
  -- What was given is taken: the variable is as it was, or the waiter's.
  abbrev pub Taken : Signal E A → Machine E → Machine E → Type 0
  Taken (to_sem x) m m' = x.get m'.env ≡ x.get m.env
  Taken (to_semb x) m m' = x.get m'.env ≡ false
  Taken (to_mutex x) m m' = ((x.get m'.env).locked ≡ true) × ((x.get m'.env).owner ≡ m.sched.cur)
  Taken (to_queue d x item a) m m' = Unit

  -- No wake-up is lost: when a semaphore, a binary semaphore, a mutex or an item is given, in a
  -- variable that holds what is written to it, the scheduler has work, and a wait for it, however
  -- short, succeeds at once. The semaphore's count is then as it was, the signal is taken back, or
  -- the mutex is held by the waiter.
  pub perform-give :
      (g : Signal E A) (fuel t : ℕ) (m : Machine E)
      → Holds g
      → (give g m).0 ≡ true
      → (pending (now m) (give g m).1.sched ≡ true)
        × ((m' : Machine E) × (perform turn switch hook c (awaited g) (suc fuel) t (give g m).1
              ≡ some (true, m'))
            × Taken g m m')
  unfolding give give_sem give_semb mutex_release push_from_isr perform wait_host release semb_give
      semb_taken sem_wait semb_wait queue_pop wake pending
  perform-give (to_sem x) fuel t m law ok =
      let s1 = (sem_give (x.get m.env)).1 in
      let both = taken_back x m.env law ok in
      (
        rw ok refl,
        rw ok (
            wait-at_once (wait_host turn switch hook c) (on_cell (in_env x) sem_taken)
              (Taken (to_sem x) m) fuel t (on_sched wake (record m { env = x.put s1 m.env })) both
              both),
      )
  perform-give (to_semb x) fuel t m law ok = (
    refl,
    wait-at_once (wait_host turn switch hook c) (on_cell (in_env x) semb_taken)
        (Taken (to_semb x) m) fuel t (on_sched wake (record m { env = x.put true m.env }))
        (law true m.env, law false (x.put true m.env))
        (law true m.env, law false (x.put true m.env)),
  )
  perform-give (to_mutex x) fuel t m law ok =
      let m1 = on_sched wake (record m { env = x.put (release (x.get m.env)) m.env }) in
      let free = ap (λ (b : Mutex). b.locked) (law (release (x.get m.env)) m.env) in
      let at_once = λ (t : ℕ).
        wait-at_once (wait_host turn switch hook c)
          (mutex_acquired (wait_host turn switch hook c) (in_env x) (λ m. m.sched.cur))
          (Taken (to_mutex x) m) fuel t m1 (acquired turn switch hook c x (tick m1) law free)
          (acquired turn switch hook c x ((wait_host turn switch hook c).enter (tick m1)) law
            free) in
      (
        refl,
        gets (wait_host turn switch hook c) (in_env x) (λ m. m.sched.cur) (Taken (to_mutex x) m)
            (suc fuel) t m1 at_once,
      )
  perform-give (to_queue d x item a) fuel t m law ok =
      let (b, got) = pop-push d a (x.get m.env) ok in
      let m1 = on_sched wake (record m { env = x.put (push a (x.get m.env)).1 m.env }) in
      let there : (pop d (x.get m1.env)).0 ≡ some b = rw (law (push a (x.get m.env)).1 m.env) got in
      (
        rw ok refl,
        rw ok (
            wait-at_once (wait_host turn switch hook c)
              (queue_popped (wait_host turn switch hook c) d (some (in_env x)) (in_env item))
              (Taken (to_queue d x item a) m) fuel t m1
              (item_popped turn switch hook c d x item (tick m1) b there, tt)
              (
                item_popped turn switch hook c d x item
                    ((wait_host turn switch hook c).enter (tick m1)) b there,
                tt,
              )),
      )
