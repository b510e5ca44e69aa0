-- ===== src/Osal/Sync/Exclusion.antt =====
-- The mutexes of mm_halow_osal.c exclude each other's holders.
use mm_halow_driver.Base.{
  ℕ, ◌≡◌, ◌⊎◌, inl, inr, refl, Bool, true, false, not, Option, none, some, List, [], ◌∷◌, arith,
  ◌==◌, if◌then◌else◌, u32_max, Bool-cases,
}
use mm_halow_driver.Sched.Wait.{Host}
use mm_halow_driver.Sched.Wait.Rules.{Rule, Outcome, wait-Outcome}
use mm_halow_driver.Osal.Sync.{
  Cell, Mutex, acquire, release, same_task, is_held_by, mutex_acquired, get_slow, get_mutex,
  mutex_get,
}

-- The mutex, and who holds it: a task, or none for the main thread.
pub record World : Type 0 where
  pub mutex : Mutex
  pub holders : List (Option ℕ)

-- Anyone tries to acquire it, at any time. That only a holder releases it is
-- what the callers see to: mmosal_mutex_release does not check it.
pub data Step (w : World) : World → Type 0 where
  acquires :
      (c : Option ℕ) (now : ℕ)
      → Step w (
          let (ok, m) = acquire c now w.mutex in
          record { mutex = m; holders = if ok then c ∷ w.holders else w.holders })
  releases :
      (c : Option ℕ) (rest : List (Option ℕ))
      → w.holders ≡ c ∷ rest
      → Step w (record { mutex = release w.mutex; holders = rest })

pub data Reach (w : World) : World → Type 0 where
  here : Reach w w
  next : {u v : World} → Reach w u → Step u v → Reach w v

-- Nobody holds it and it is free, or it is locked and its owner is the one who holds it.
abbrev pub IsLock : World → Type 0
IsLock w =
    ((w.holders ≡ []) × (w.mutex.locked ≡ false))
    ⊎ ((c : Option ℕ) × (w.holders ≡ c ∷ []) × (w.mutex.locked ≡ true) × (w.mutex.owner ≡ c))

Step-IsLock : {w v : World} → Step w v → IsLock w → IsLock v
unfolding acquire release
Step-IsLock {w} (acquires c now) (inl (e, f)) = rw (e, f) (inr (c, refl, refl, refl))
Step-IsLock {w} (acquires c now) (inr (d, e, l, o)) = rw l (inr (d, e, refl, o))
Step-IsLock {w} (releases c rest e) (inl (z, f)) = absurd cc
Step-IsLock {w} (releases c rest e) (inr (d, z, l, o)) = inl (cc, refl)

-- Over any interleaving of attempts by anyone and of releases by its holder alone (as
-- mmosal_mutex_release does not look at who calls it, that only the holder calls it is a premise on
-- the callers), a mutex has at most one holder, who is the owner it keeps, and it is locked exactly
-- while it has one, if that was so at the start.
pub Reach-IsLock : {w v : World} → Reach w v → IsLock w → IsLock v
Reach-IsLock here x = x
Reach-IsLock (next r st) x = Step-IsLock st (Reach-IsLock r x)

-- What mutex_get relies on: a variable holds what is put in it, nothing of a wait's end touches the
-- mutex, and the current task is the one that called.
pub record Steady {S : Type 0} (h : Host S) (cell : Cell S Mutex) (current : S → Option ℕ)
    : Type 0 where
  pub stored : (m : Mutex) (s : S) → cell.get (cell.put m s) ≡ m
  pub current_put : (m : Mutex) (s : S) → current (cell.put m s) ≡ current s
  pub current_ticks : (s : S) → current (h.ticks s).1 ≡ current s
  pub leave_mutex : (s : S) → cell.get (h.leave s) ≡ cell.get s
  pub leave_current : (s : S) → current (h.leave s) ≡ current s
  pub wake_mutex : (s : S) → cell.get (h.wake s) ≡ cell.get s
  pub wake_current : (s : S) → current (h.wake s) ≡ current s

same_task_self : (c : Option ℕ) → same_task c c ≡ true
same_task_self none = refl
same_task_self (some i) = ground arith

module _ {S : Type 0} (h : Host S) (cell : Cell S Mutex) (current : S → Option ℕ)
    (steady : Steady h cell current) where
  abbrev Held : S → Type 0
  Held s = is_held_by (current s) (cell.get s) ≡ true

  mutex_acquired-Held :
      (s : S)
      → (mutex_acquired h cell current s).0 ≡ true
      → Held (mutex_acquired h cell current s).1
  unfolding mutex_acquired acquire is_held_by
  mutex_acquired-Held s e = elim (Bool-cases (not (cell.get s).locked)) [
    | inr f ↦ absurd (ground arith)
    | inl f ↦
        rw (f, steady.stored, steady.current_put, steady.current_ticks) (same_task_self (current s))
  ]

  acquiring : Rule h (mutex_acquired h cell current) (λ s. Unit) Held
  acquiring = record {
    ticks = λ s i. tt;
    park = λ timed at s i. tt;
    enter = λ s i. tt;
    leave = λ s i. tt;
    fails = λ s i e. tt;
    succeeds = λ s i e. mutex_acquired-Held s e;
    post_leave = λ s p. rw (steady.leave_mutex s, steady.leave_current s) p;
    post_wake = λ s p. rw (steady.wake_mutex s, steady.wake_current s) p;
  }

  get_slow-Outcome :
      (fuel : ℕ) (r : Option (Bool × S))
      → Outcome (λ s. Unit) Held r
      → Outcome (λ s. Unit) Held (get_slow h cell current fuel r)
  unfolding get_slow
  get_slow-Outcome fuel none o = o
  get_slow-Outcome fuel (some (true, s)) o = o
  get_slow-Outcome fuel (some (false, s)) o =
      wait-Outcome h (mutex_acquired h cell current) (λ s. Unit) Held acquiring fuel u32_max
        (h.ticks s).1 tt

  -- When mmosal_mutex_get reports success, by its first wait or its second, with a timeout or for
  -- ever, the mutex is held by the task that called.
  pub mutex_get-Outcome :
      (fuel t : ℕ) (s : S) → Outcome (λ s. Unit) Held (mutex_get h (some cell) current fuel t s)
  unfolding mutex_get get_mutex
  mutex_get-Outcome fuel t s = elim (Bool-cases (t == u32_max)) [
    | inl e ↦ rw e (
        get_slow-Outcome fuel _ (
          wait-Outcome h (mutex_acquired h cell current) (λ s. Unit) Held acquiring fuel 9000 s tt))
    | inr e ↦
        rw e (wait-Outcome h (mutex_acquired h cell current) (λ s. Unit) Held acquiring fuel t s tt)
  ]
