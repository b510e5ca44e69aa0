-- ===== src/Osal/Tasks.antt =====
-- The task functions of mm_halow_osal.c that wait, the waits of its semaphores, and its record of a
-- failure. The scheduler they wait on is an argument, the `Host` of mm_halow_sched_wait.
pub mod Sleep
mod Checks
use mm_halow_driver.Base.{
  ℕ, Bool, true, false, not, Option, none, some, ◌==◌, if◌then◌else◌, add32, at_or_past, u32_max,
}
use mm_halow_driver.Sched.{Sched, is_ready, task_at}
use mm_halow_driver.Sched.Wait.{Host, wait}
use mm_halow_driver.Osal.Sync.{Cell, Sem, sem_taken, semb_taken, task_notified}

-- An operation on one variable of the state.
abbrev pub on_cell : {S A : Type 0} → Cell S A → (A → Bool × A) → S → Bool × S
on_cell c f s = let (b, a) = f (c.get s) in (b, c.put a s)

module _ {S : Type 0} (h : Host S) where
  -- mm_halow_deadline_passed
  pub deadline_passed : ℕ → S → Bool × S
  deadline_passed deadline s = let (now, s1) = h.ticks s in (at_or_past now deadline, s1)

  abbrev pub state_after : Option (Bool × S) → Option S
  state_after none = none
  state_after (some (b, s)) = some s

  -- mmosal_task_sleep behind its test; `yield` is mm_halow_sched_yield.
  pub sleep_for : ℕ → ℕ → ℕ × S → Option S
  sleep_for fuel duration (now, s) =
      state_after (wait h (deadline_passed (add32 now duration)) fuel duration s)

  -- mmosal_task_sleep
  pub task_sleep : (S → S) → ℕ → ℕ → S → Option S
  task_sleep yield fuel duration s =
      let asleep = sleep_for fuel duration (h.ticks s) in
      if duration == 0 then some (yield s) else asleep

  -- mm_halow_task_is_dead, of the task `i`
  pub task_is_dead : (S → Sched) → ℕ → S → Bool × S
  task_is_dead sched i s = (not (is_ready (task_at (sched s) i)), s)

  -- mmosal_task_join
  pub task_join : (S → Sched) → ℕ → ℕ → S → Option S
  task_join sched i fuel s = state_after (wait h (task_is_dead sched i) fuel u32_max s)

  -- mmosal_task_wait_for_notification, of the current task
  unfoldable pub wait_for_notification : Cell S Sched → Option ℕ → ℕ → ℕ → S → Option (Bool × S)
  wait_for_notification c none fuel t s = some (false, s)
  wait_for_notification c (some i) fuel t s = wait h (on_cell c (task_notified i)) fuel t s

  -- mmosal_sem_wait; none is the null pointer.
  unfoldable pub sem_wait : Option (Cell S Sem) → ℕ → ℕ → S → Option (Bool × S)
  sem_wait none fuel t s = some (false, s)
  sem_wait (some c) fuel t s = wait h (on_cell c sem_taken) fuel t s

  -- mmosal_semb_wait; a binary semaphore is its `signalled`.
  unfoldable pub semb_wait : Option (Cell S Bool) → ℕ → ℕ → S → Option (Bool × S)
  semb_wait none fuel t s = some (false, s)
  semb_wait (some c) fuel t s = wait h (on_cell c semb_taken) fuel t s

-- mmosal_sem_get_count
pub sem_get_count : Option Sem → ℕ
sem_get_count none = 0
sem_get_count (some s) = s.count

-- mmosal_task_name; `main` is the name of no task.
pub task_name : ℕ → Sched → ℕ
task_name main s = elim s.cur [ none ↦ main | some i ↦ (task_at s i).name ]

-- struct mmosal_failure_info, and struct mm_halow_fatal_record
pub record FailureInfo : Type 0 where
  pub pc : ℕ
  pub lr : ℕ
  pub fileid : ℕ
  pub line : ℕ

pub record FatalRecord : Type 0 where
  pub magic : ℕ
  pub info : FailureInfo
  pub ticks_ms : ℕ

-- MM_HALOW_FATAL_MAGIC
abbrev pub fatal_magic : ℕ
fatal_magic = 0x48464154

-- mmosal_log_failure_info, at the clock reading `now`
pub log_failure_info : FailureInfo → ℕ → FatalRecord
log_failure_info info now = record { magic = fatal_magic; info = info; ticks_ms = now }

-- mmosal_extract_failure_info: what it returns, and the count of failures that it stores.
pub extract_failure_info : Bool × ℕ
extract_failure_info = (false, 0)
