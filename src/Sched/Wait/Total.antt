-- ===== src/Sched/Wait/Total.antt =====
-- A wait of mm_halow_sched.c ends, and only gives up once its time is over.
pub mod Teardown
use native.Mathlib.Nat.{div-lt_iff_lt-mul, le-div_iff_mul-le, div-mul-le_self}
use mm_halow_driver.Base.{
  ℕ, zero, suc, ◌+◌, ◌-◌, ◌*◌, ◌/◌, ◌%◌, ◌^◌, ◌≤◌, ◌<◌, ◌≡◌, refl, Bool, true, false, not, Option,
  some, inl, inr, arith, leb, ◌==◌, if◌then◌else◌, add32, sub32, u32_max, Bool-cases, min,
}
use mm_halow_driver.Sched.Wait.{
  Host, Vars, wait_max_ms, at_deadline, wait_loop, capped, settled, wait,
}

-- How time passes: `instant` counts the steps of the world, `rate` of which make a millisecond at
-- least. The clock shows the milliseconds, modulo 2^32. No operation turns time back or takes
-- 2^30 ms, twelve days, by itself, and reading the clock and giving the turn away takes a step.
pub record Flows {S : Type 0} (h : Host S) (cond : S → Bool × S) (rate : ℕ) : Type 0 where
  pub instant : S → ℕ
  pub positive : 0 < rate
  pub reads : (s : S) → (h.ticks s).0 ≡ instant s / rate % 2 ^ 32
  pub ticks_on : (s : S) → instant s ≤ instant (h.ticks s).1
  pub ticks_few : (s : S) → instant (h.ticks s).1 / rate ≤ instant s / rate + 2 ^ 30
  pub cond_on : (s : S) → instant s ≤ instant (cond s).1
  pub cond_few : (s : S) → instant (cond s).1 / rate ≤ instant s / rate + 2 ^ 30
  pub park_on : (timed : Bool) (at : ℕ) (s : S) → instant s ≤ instant (h.park timed at s)
  pub round_on :
      (timed : Bool) (at : ℕ) (s : S) → instant s < instant (h.park timed at (h.ticks s).1)
  pub park_few :
      (timed : Bool) (at : ℕ) (s : S)
      → instant (h.park timed at s) / rate ≤ instant s / rate + 2 ^ 30
  pub enter_on : (s : S) → instant s ≤ instant (h.enter s)
  pub enter_few : (s : S) → instant (h.enter s) / rate ≤ instant s / rate + 2 ^ 30
  pub leave_on : (s : S) → instant s ≤ instant (h.leave s)
  pub wake_on : (s : S) → instant s ≤ instant (h.wake s)

module _ {S : Type 0} (h : Host S) (cond : S → Bool × S) (rate : ℕ) (flow : Flows h cond rate) where
  open flow use {instant}

  abbrev ms : S → ℕ
  ms s = instant s / rate

  -- The loop came to an end, and if without success then not before the time `end`.
  abbrev pub Ends : ℕ → Option (Bool × S) → Type 0
  Ends end r = (b : Bool) × (s : S) × (r ≡ some (b, s)) × (b ≡ false → end ≤ ms s)

  pub ms_mono : (s s' : S) → instant s ≤ instant s' → ms s ≤ ms s'
  ms_mono s s' le =
      (le-div_iff_mul-le flow.positive).1 (omega (arith, div-mul-le_self (instant s) rate))

  -- What is known where a bounded wait reads the clock: it began at the time `t0`.
  pub record Timed (t0 : ℕ) (v : Vars) (s : S) : Type 0 where
    pub start : v.start ≡ t0 % 2 ^ 32
    pub small : v.timeout ≤ wait_max_ms
    pub low : t0 ≤ ms s
    pub high : ms s ≤ t0 + v.timeout + 2 ^ 30 + 2 ^ 30 + 2 ^ 30

  elapsed : {t0 : ℕ} {v : Vars} (s : S) → Timed t0 v s → sub32 (h.ticks s).0 v.start ≡ ms s - t0
  elapsed {t0} {v} s t = rw (flow.reads s) (omega (arith, t.start, t.small, t.low, t.high))

  pub at_deadline-Ends :
      (t0 : ℕ) (v : Vars) (s : S) (go : Vars → S → Option (Bool × S))
      → Timed t0 v s
      → ((s' : S)
          → ms s < t0 + v.timeout
          → instant s < instant s'
          → ms s' ≤ ms s + 2 ^ 30 + 2 ^ 30
          → Ends (t0 + v.timeout) (go v s'))
      → Ends (t0 + v.timeout) (at_deadline h cond v (h.ticks s) go)
  unfolding at_deadline
  at_deadline-Ends t0 v s go t rest =
      elim (Bool-cases (leb v.timeout (sub32 (h.ticks s).0 v.start))) [
        | inl late ↦ (
          (cond s2).0,
          (cond s2).1,
          rw late,
          λ _. omega (arith, over late, ms_mono s (cond s2).1 on, t.low),
        )
        | inr early ↦ rw early (
            rest (h.park true (add32 v.start v.timeout) s2) (before early)
              (flow.round_on true (add32 v.start v.timeout) s)
              (omega (arith, flow.ticks_few s, flow.park_few true (add32 v.start v.timeout) s2)))
      ]
    where
      s2 : S
      s2 = (h.ticks s).1

      on : instant s ≤ instant (cond s2).1
      on = omega (arith, flow.ticks_on s, flow.cond_on s2)

      over : leb v.timeout (sub32 (h.ticks s).0 v.start) ≡ true → v.timeout ≤ ms s - t0
      over late = ground (arith, elapsed s t)

      before : leb v.timeout (sub32 (h.ticks s).0 v.start) ≡ false → ms s < t0 + v.timeout
      before early = ground (arith, elapsed s t, t.low)

  wait_loop-timed :
      (f : ℕ) (v : Vars) (s : S)
      → (cond s).0 ≡ false
      → (v.timeout == 0) ≡ false
      → v.forever ≡ false
      → wait_loop h cond (suc f) v s
        ≡ at_deadline h cond v (h.ticks (cond s).1) (wait_loop h cond f)
  unfolding wait_loop
  wait_loop-timed f v s more nz nf = ground arith

  pub wait_loop-Ends :
      (f : ℕ) (v : Vars) (s : S) (t0 : ℕ)
      → v.forever ≡ false
      → v.start ≡ t0 % 2 ^ 32
      → v.timeout ≤ wait_max_ms
      → t0 ≤ ms s
      → ms s ≤ t0 + v.timeout + 2 ^ 30 + 2 ^ 30
      → 0 < f
      → (t0 + v.timeout) * rate < instant s + f
      → Ends (t0 + v.timeout) (wait_loop h cond f v s)
  unfolding wait_loop
  wait_loop-Ends zero v s t0 nf st small low high pos fuel = absurd (omega arith)
  wait_loop-Ends (suc f) v s t0 nf st small low high pos fuel = elim (Bool-cases (cond s).0) [
    | inl done ↦ (true, s1, rw done, λ e. cc)
    | inr more ↦ elim (Bool-cases (v.timeout == 0)) [
      | inl z ↦ (false, s1, rw (more, z), λ e. ground (arith, ms_mono s s1 (flow.cond_on s)))
      | inr nz ↦ rw (wait_loop-timed f v s more nz nf) (
          at_deadline-Ends t0 v s1 (wait_loop h cond f) timed λ s' b on few.
            wait_loop-Ends f v s' t0 nf st small (later s' on) (omega (arith, few, b))
              (omega (arith, left b, fuel, flow.cond_on s))
              (omega (arith, left b, on, fuel, flow.cond_on s)))
    ]
  ]
    where
      s1 : S
      s1 = (cond s).1

      timed : Timed t0 v s1
      timed = record {
        start = st;
        small = small;
        low = omega (arith, ms_mono s s1 (flow.cond_on s));
        high = omega (arith, flow.cond_few s);
      }

      left : ms s1 < t0 + v.timeout → instant s1 < (t0 + v.timeout) * rate
      left b = (div-lt_iff_lt-mul flow.positive).0 b

      later : (s' : S) → instant s1 < instant s' → t0 ≤ ms s'
      later s' on = omega (arith, ms_mono s1 s' (omega arith), timed.low)

  pub settled-Ends :
      (end : ℕ) (counted : Bool) (r : Option (Bool × S))
      → Ends end r
      → Ends end (settled h counted r)
  settled-Ends end counted r (true, s, e, late) = rw e (true, _, refl, λ e. cc)
  settled-Ends end true r (false, s, e, late) =
      rw e (false, _, refl, λ _. omega (arith, late refl, ms_mono s (h.leave s) (flow.leave_on s)))
  settled-Ends end false r (false, s, e, late) = rw e (false, _, refl, λ _. late refl)

  -- The state that the loop begins in.
  pub begin : S → S
  begin s = let s1 = (h.ticks s).1 in if not (h.in_task s1) then h.enter s1 else s1

  pub begin-Timed :
      (s : S) → (instant s ≤ instant (begin s)) × (ms (begin s) ≤ ms s + 2 ^ 30 + 2 ^ 30)
  unfolding begin
  begin-Timed s = elim (Bool-cases (h.in_task (h.ticks s).1)) [
    | inl e ↦ rw e (flow.ticks_on s, omega (arith, flow.ticks_few s))
    | inr e ↦ rw e (
      omega (arith, flow.ticks_on s, flow.enter_on (h.ticks s).1),
      omega (arith, flow.ticks_few s, flow.enter_few (h.ticks s).1),
    )
  ]

  cap : (t : ℕ) (tearing : Bool) → t < u32_max → capped t tearing ≡ min t wait_max_ms
  cap t tearing lt = ground arith

  cap_teardown : (t : ℕ) → capped t true ≡ min t wait_max_ms
  cap_teardown t = ground arith

  enough_fuel :
      (m fuel : ℕ) (s : S) → m * rate < fuel → (ms s + m) * rate < instant (begin s) + fuel
  enough_fuel m fuel s enough =
      omega (arith, div-mul-le_self (instant s) rate, begin-Timed s, enough)

  -- A wait that is not for ever ends, with fuel for its time: at most MM_HALOW_SCHED_WAIT_MAX_MS,
  -- however long was asked for. It gives up only when that time is over.
  pub wait_ends :
      (t fuel : ℕ) (s : S)
      → t < u32_max
      → min t wait_max_ms * rate < fuel
      → (b : Bool) × (s' : S) × (wait h cond fuel t s ≡ some (b, s'))
        × (b ≡ false → instant s / rate + min t wait_max_ms ≤ instant s' / rate)
  unfolding wait begin
  wait_ends t fuel s bounded enough = rw (cap t (h.teardown s) bounded) (
      settled-Ends (ms s + min t wait_max_ms) (not (h.in_task (h.ticks s).1)) _ (
        wait_loop-Ends fuel
          (record { timeout = min t wait_max_ms; start = (h.ticks s).0; forever = t == u32_max })
          (begin s) (ms s) (ground arith) (flow.reads s) (omega arith)
          (ms_mono s (begin s) (begin-Timed s).0) (omega (arith, begin-Timed s)) (omega arith)
          (enough_fuel (min t wait_max_ms) fuel s enough)))
