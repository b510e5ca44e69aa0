-- ===== src/Osal/Tasks/Sleep.antt =====
-- mmosal_task_sleep sleeps as long as it was asked to, up to the cap on a wait.
use native.Mathlib.Nat.{le-div_iff_mul-le, div-mul-le_self}
use mm_halow_driver.Base.{
  ℕ, ◌+◌, ◌*◌, ◌/◌, ◌%◌, ◌^◌, ◌≤◌, ◌<◌, ◌≡◌, refl, ap, subst, Bool, true, false, some, arith, add32,
  at_or_past, min,
}
use mm_halow_driver.Sched.Wait.{Host, wait_max_ms}
use mm_halow_driver.Sched.Wait.Total.{Flows, wait_ends}
use mm_halow_driver.Sched.Wait.Rules.{Rule, Outcome, wait-Outcome}
use mm_halow_driver.Osal.Tasks.{deadline_passed, state_after, sleep_for, task_sleep}

-- A condition that does nothing.
abbrev pub still : {S : Type 0} → S → Bool × S
still s = (false, s)

module _ {S : Type 0} (h : Host S) (rate : ℕ) (flow : Flows h still rate) where
  open flow use {instant}

  abbrev ms : S → ℕ
  ms s = instant s / rate

  ms_mono : (s s' : S) → instant s ≤ instant s' → ms s ≤ ms s'
  ms_mono s s' le =
      (le-div_iff_mul-le flow.positive).1 (omega (arith, div-mul-le_self (instant s) rate))

  deadline-Flows : (deadline : ℕ) → Flows h (deadline_passed h deadline) rate
  unfolding deadline_passed
  deadline-Flows deadline = record {
    instant = instant;
    positive = flow.positive;
    reads = flow.reads;
    ticks_on = flow.ticks_on;
    ticks_few = flow.ticks_few;
    cond_on = flow.ticks_on;
    cond_few = flow.ticks_few;
    park_on = flow.park_on;
    round_on = flow.round_on;
    park_few = flow.park_few;
    enter_on = flow.enter_on;
    enter_few = flow.enter_few;
    leave_on = flow.leave_on;
    wake_on = flow.wake_on;
  }

  -- Where the condition holds, the time is over.
  deadline-Rule :
      (t0 d now : ℕ)
      → d ≤ wait_max_ms
      → now ≡ t0 % 2 ^ 32
      → Rule h (deadline_passed h (add32 now d)) (λ s. t0 ≤ ms s) (λ s. t0 + d ≤ ms s)
  unfolding deadline_passed
  deadline-Rule t0 d now le e = record {
    ticks = λ s i. omega (arith, i, ms_mono s (h.ticks s).1 (flow.ticks_on s));
    park =
        λ timed at s i. omega (arith, i, ms_mono s (h.park timed at s) (flow.park_on timed at s));
    enter = λ s i. omega (arith, i, ms_mono s (h.enter s) (flow.enter_on s));
    leave = λ s i. omega (arith, i, ms_mono s (h.leave s) (flow.leave_on s));
    fails = λ s i b. omega (arith, i, ms_mono s (h.ticks s).1 (flow.ticks_on s));
    succeeds = λ s i b. over s i b;
    post_leave = λ s p. omega (arith, p, ms_mono s (h.leave s) (flow.leave_on s));
    post_wake = λ s p. omega (arith, p, ms_mono s (h.wake s) (flow.wake_on s));
  }
    where
      over :
          (s : S)
          → t0 ≤ ms s
          → at_or_past (h.ticks s).0 (add32 now d) ≡ true
          → t0 + d ≤ ms (h.ticks s).1
      over s i b = ground (arith, e, i, b, flow.reads s, ms_mono s (h.ticks s).1 (flow.ticks_on s))

  sleep_for-lasts :
      (fuel d now t0 : ℕ) (s : S)
      → d ≤ wait_max_ms
      → d * rate < fuel
      → now ≡ t0 % 2 ^ 32
      → t0 ≤ ms s
      → (s' : S) × (sleep_for h fuel d (now, s) ≡ some s') × (t0 + d ≤ ms s')
  unfolding sleep_for Outcome deadline-Flows
  sleep_for-lasts fuel d now t0 s le enough e low =
      let cond = deadline_passed h (add32 now d) in
      let (b, s', q, late) =
        wait_ends h cond rate (deadline-Flows (add32 now d)) d fuel s (omega (arith, le))
          (ground (arith, le, enough)) in
      let out = subst (Outcome (λ s. t0 ≤ ms s) (λ s. t0 + d ≤ ms s)) q (
        wait-Outcome h cond (λ s. t0 ≤ ms s) (λ s. t0 + d ≤ ms s) (deadline-Rule t0 d now le e) fuel
          d s low) in
      (s', ap (state_after h) q, over b s' out late)
    where
      over :
          (b : Bool) (s' : S)
          → Outcome (λ s. t0 ≤ ms s) (λ s. t0 + d ≤ ms s) (some (b, s'))
          → (b ≡ false → ms s + min d wait_max_ms ≤ ms s')
          → t0 + d ≤ ms s'
      over true s' out late = out
      over false s' out late = omega (arith, late refl, low, le)

  -- A sleep of at most MM_HALOW_SCHED_WAIT_MAX_MS returns, with fuel for its time, and not before all of
  -- that time is over, also where the clock wraps around meanwhile.
  pub task_sleep_lasts :
      (yield : S → S) (fuel d : ℕ) (s : S)
      → 0 < d
      → d ≤ wait_max_ms
      → d * rate < fuel
      → (s' : S) × (task_sleep h yield fuel d s ≡ some s')
        × (instant s / rate + d ≤ instant s' / rate)
  unfolding task_sleep
  task_sleep_lasts yield fuel d s pos le enough =
      let (s', q, lasts) =
        sleep_for-lasts fuel d (h.ticks s).0 (ms s) (h.ticks s).1 le enough (flow.reads s)
          (ms_mono s (h.ticks s).1 (flow.ticks_on s)) in
      (s', ground (arith, q, pos), lasts)
