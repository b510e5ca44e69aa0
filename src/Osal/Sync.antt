-- ===== src/Osal/Sync.antt =====
-- Critical sections, notifications, mutexes and semaphores of mm_halow_osal.c. A function of the
-- source that waits is given here by the condition that mm_halow_sched_wait polls.
pub mod Nesting
pub mod Exclusion
pub mod Counts
use mm_halow_driver.Base.{
  ℕ, ◌+◌, ◌-◌, Bool, true, false, ◌&&◌, not, Option, none, some, ltb, ◌==◌, if◌then◌else◌, u32_max,
  add32, set,
}
use mm_halow_driver.Sched.{Sched, Task, task_at, wake}
use mm_halow_driver.Sched.Wait.{Host, wait}

-- A variable of type `A` in the state `S`.
pub record Cell (S A : Type 0) : Type 0 where
  pub get : S → A
  pub put : A → S → S

-- mm_halow_critical_nesting and mm_halow_critical_state, with the processor's interrupt mask that
-- MM_HALOW_BEGIN_ATOMIC_SECTION reads and sets.
pub record Critical : Type 0 where
  pub nesting : ℕ
  pub saved : Bool
  pub masked : Bool

-- mmosal_task_enter_critical
unfoldable pub enter_critical : Critical → Critical
enter_critical c = record {
  nesting = add32 c.nesting 1;
  saved = if c.nesting == 0 then c.masked else c.saved;
  masked = true;
}

-- mm_halow_osal_in_critical
pub in_critical : Critical → Bool
in_critical c = ltb 0 c.nesting

-- mmosal_task_exit_critical
unfoldable pub exit_critical : Critical → Critical
exit_critical c =
    if ltb 0 c.nesting
    then record c {
      nesting = c.nesting - 1;
      masked = if c.nesting - 1 == 0 then c.saved else c.masked;
    }
    else c

-- mmosal_disable_interrupts
pub disable_interrupts : Critical → Critical
unfolding enter_critical
disable_interrupts c = enter_critical c

-- mmosal_enable_interrupts
pub enable_interrupts : Critical → Critical
unfolding exit_critical
enable_interrupts c = exit_critical c

-- struct mmosal_mutex; the owner is a task, or none for the main thread.
pub record Mutex : Type 0 where
  pub owner : Option ℕ
  pub taken_ms : ℕ
  pub locked : Bool

-- As mmosal_mutex_create leaves it; `taken_ms` is not set.
abbrev pub new_mutex : ℕ → Mutex
new_mutex unset = record { owner = none; taken_ms = unset; locked = false }

-- mm_halow_mutex_acquired on the mutex, for the current task `c` at the time `now`
unfoldable pub acquire : Option ℕ → ℕ → Mutex → Bool × Mutex
acquire c now m =
    if not m.locked then (true, record { owner = c; taken_ms = now; locked = true }) else (false, m)

-- mmosal_mutex_release on the mutex, without the wake-up
unfoldable pub release : Mutex → Mutex
release m = record m { owner = none; locked = false }

abbrev pub same_task : Option ℕ → Option ℕ → Bool
same_task none none = true
same_task none (some i) = false
same_task (some i) none = false
same_task (some i) (some j) = i == j

-- mmosal_mutex_is_held_by_active_task
pub is_held_by : Option ℕ → Mutex → Bool
is_held_by c m = m.locked && same_task m.owner c

module _ {S : Type 0} (h : Host S) (cell : Cell S Mutex) (current : S → Option ℕ) where
  -- mm_halow_mutex_acquired: the clock is read only when the mutex is free.
  unfoldable pub mutex_acquired : S → Bool × S
  unfolding acquire
  mutex_acquired s =
      let (now, s1) = h.ticks s in
      let m = (acquire (current s) now (cell.get s)).1 in
      if not (cell.get s).locked then (true, cell.put m s1) else (false, s)

  -- The second wait of mmosal_mutex_get, behind the message, which reads the clock.
  unfoldable pub get_slow : ℕ → Option (Bool × S) → Option (Bool × S)
  get_slow fuel none = none
  get_slow fuel (some (true, s)) = some (true, s)
  get_slow fuel (some (false, s)) = wait h mutex_acquired fuel u32_max (h.ticks s).1

  -- mmosal_mutex_get behind the test of the pointer
  unfoldable pub get_mutex : ℕ → ℕ → S → Option (Bool × S)
  get_mutex fuel t s =
      let slow = get_slow fuel (wait h mutex_acquired fuel 9000 s) in
      let plain = wait h mutex_acquired fuel t s in if t == u32_max then slow else plain

-- mmosal_mutex_get; none is the null pointer.
unfoldable pub mutex_get :
    {S : Type 0} → Host S → Option (Cell S Mutex) → (S → Option ℕ) → ℕ → ℕ → S → Option (Bool × S)
mutex_get h none current fuel t s = some (false, s)
mutex_get h (some cell) current fuel t s = get_mutex h cell current fuel t s

-- struct mmosal_sem
pub record Sem : Type 0 where
  pub count : ℕ
  pub max_count : ℕ

-- mmosal_sem_create, for the counts
abbrev pub new_sem : ℕ → ℕ → Sem
new_sem max_count initial_count = record { count = initial_count; max_count = max_count }

-- mmosal_sem_give on the semaphore, without the wake-up
unfoldable pub sem_give : Sem → Bool × Sem
sem_give s =
    if ltb s.count s.max_count then (true, record s { count = s.count + 1 }) else (false, s)

-- mm_halow_sem_taken
unfoldable pub sem_taken : Sem → Bool × Sem
sem_taken s = if ltb 0 s.count then (true, record s { count = s.count - 1 }) else (false, s)

-- struct mmosal_semb, whose only field is `signalled`: mmosal_semb_give on the
-- semaphore, without the wake-up, and mm_halow_semb_taken
unfoldable pub semb_give : Bool → Bool × Bool
semb_give signalled = (true, true)

unfoldable pub semb_taken : Bool → Bool × Bool
semb_taken signalled = (signalled, false)

-- mmosal_task_notify
unfoldable pub task_notify : Option ℕ → Sched → Sched
task_notify none s = s
task_notify (some i) s = wake (record s {
  tasks = set s.tasks i (record (task_at s i) { notify = add32 (task_at s i).notify 1 });
})

-- mm_halow_task_notified
unfoldable pub task_notified : ℕ → Sched → Bool × Sched
task_notified i s =
    if not ((task_at s i).notify == 0)
    then (
      true,
      record s {
        tasks = set s.tasks i (record (task_at s i) { notify = (task_at s i).notify - 1 });
      },
    )
    else (false, s)
