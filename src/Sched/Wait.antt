-- ===== src/Sched/Wait.antt =====
-- mm_halow_sched_wait: a loop that tests a condition and gives the turn away in between.
pub mod Total
pub mod Rules
pub mod Map
pub mod Once
use mm_halow_driver.Base.{
  ℕ, zero, suc, ◌+◌, ◌-◌, ◌^◌, Bool, true, false, ◌&&◌, ◌||◌, not, Option, none, some, ltb, leb,
  ◌==◌, if◌then◌else◌, add32, sub32, u32_max,
}

-- MM_HALOW_SCHED_WAIT_MAX_MS
abbrev pub wait_max_ms : ℕ
wait_max_ms = 10000

-- What a wait uses of the scheduler and the world, over a state `S` of both.
pub record Host (S : Type 0) : Type 0 where
  -- mm_halow_ticks_ms()
  pub ticks : S → ℕ × S
  -- mm_halow_sched_park(timed, wake_at), with all that runs until the turn comes back
  pub park : Bool → ℕ → S → S
  -- mm_halow_sched_task_current() != NULL
  pub in_task : S → Bool
  -- mm_halow_sched_teardown
  pub teardown : S → Bool
  -- mm_halow_wait_depth++ and --
  pub enter : S → S
  pub leave : S → S
  -- mm_halow_sched_wake()
  pub wake : S → S

-- The loop's variables.
pub record Vars : Type 0 where
  pub timeout : ℕ
  pub start : ℕ
  pub forever : Bool

-- `timeout_ms` behind the cap
abbrev pub capped : ℕ → Bool → ℕ
capped t tearing = if ltb wait_max_ms t && (not (t == u32_max) || tearing) then wait_max_ms else t

module _ {S : Type 0} (h : Host S) where
  abbrev pub settle : Bool → Bool × S → Bool × S
  settle counted (ok, s) =
      let s' = if counted then h.leave s else s in (ok, if ok then h.wake s' else s')

  abbrev pub settled : Bool → Option (Bool × S) → Option (Bool × S)
  settled counted none = none
  settled counted (some r) = some (settle counted r)

module _ {S : Type 0} (h : Host S) (cond : S → Bool × S) where
  -- The rest of a round once the wait is bounded, with the clock read: the last look at the
  -- condition, or the park, behind which the loop `go` continues.
  pub at_deadline : Vars → ℕ × S → (Vars → S → Option (Bool × S)) → Option (Bool × S)
  at_deadline v (now, s) go =
      let rest = go v (h.park true (add32 v.start v.timeout) s) in
      if leb v.timeout (sub32 now v.start) then some (cond s) else rest

  -- `for (;;)`, with fuel; none when that runs out.
  pub wait_loop : ℕ → Vars → S → Option (Bool × S)
  wait_loop zero v s = none
  wait_loop (suc f) v s =
      let (done, s1) = cond s in
      let idle = wait_loop f v (h.park false 0 s1) in
      let (now, s2) = h.ticks s1 in
      let grace =
        at_deadline (record v { timeout = wait_max_ms; start = now; forever = false }) (h.ticks s2)
          (wait_loop f) in
      let timed = at_deadline v (h.ticks s1) (wait_loop f) in
      if done
      then some (true, s1)
      else if v.timeout == 0
      then some (false, s1)
      else if v.forever
      then (if h.teardown s1 then grace else idle)
      else timed

  -- mm_halow_sched_wait
  pub wait : ℕ → ℕ → S → Option (Bool × S)
  wait fuel t s =
      let (now, s1) = h.ticks s in
      let counted = not (h.in_task s1) in
      let vars : Vars = record {
        timeout = capped t (h.teardown s);
        start = now;
        forever = t == u32_max;
      } in
      settled h counted (wait_loop fuel vars (if counted then h.enter s1 else s1))
