-- ===== src/Sched/Wait/Total/Teardown.antt =====
-- A wait for ever in mm_halow_sched_wait, while the driver is torn down.
use native.Mathlib.Nat.{div-mul-le_self}
use mm_halow_driver.Base.{
  ℕ, zero, suc, ◌+◌, ◌*◌, ◌/◌, ◌≤◌, ◌<◌, ◌≡◌, refl, Bool, true, false, not, Option, some, arith,
  inl, inr, Bool-cases, ◌==◌, u32_max,
}
use mm_halow_driver.Sched.Wait.{Host, Vars, wait_max_ms, at_deadline, wait_loop, wait}
use mm_halow_driver.Sched.Wait.Total.{
  Flows, Ends, ms_mono, at_deadline-Ends, wait_loop-Ends, settled-Ends, begin, begin-Timed,
}

module _ {S : Type 0} (h : Host S) (cond : S → Bool × S) (rate : ℕ) (flow : Flows h cond rate) where
  open flow use {instant}

  -- Once begun, teardown lasts for the length of a call.
  pub record Tearing : Type 0 where
    pub ticks : (s : S) → h.teardown s ≡ true → h.teardown (h.ticks s).1 ≡ true
    pub enter : (s : S) → h.teardown s ≡ true → h.teardown (h.enter s) ≡ true
    pub tested : (s : S) → h.teardown s ≡ true → h.teardown (cond s).1 ≡ true

  -- The grace period that begins where teardown is noticed.
  abbrev grace : ℕ → Vars
  grace now = record { timeout = wait_max_ms; start = now; forever = false }

  wait_loop-grace :
      (f : ℕ) (v : Vars) (s : S)
      → (cond s).0 ≡ false
      → (v.timeout == 0) ≡ false
      → v.forever ≡ true
      → h.teardown (cond s).1 ≡ true
      → wait_loop h cond (suc f) v s
        ≡ at_deadline h cond
            (grace (h.ticks (cond s).1).0)
            (h.ticks (h.ticks (cond s).1).1)
            (wait_loop h cond f)
  unfolding wait_loop
  wait_loop-grace f v s more nz ever tear = ground arith

  sooner :
      (a b : ℕ) (r : Option (Bool × S))
      → a ≤ b
      → Ends h cond rate flow b r
      → Ends h cond rate flow a r
  sooner a b r le (d, s, e, late) = (d, s, e, λ f. omega (arith, late f))

  grace-Ends :
      (f : ℕ) (s : S)
      → wait_max_ms * rate < suc f
      → Ends h cond rate flow
          (instant s / rate + wait_max_ms)
          (at_deadline h cond (grace (h.ticks s).0) (h.ticks (h.ticks s).1) (wait_loop h cond f))
  grace-Ends f s fuel =
      let s2 = (h.ticks s).1 in
      let t0 = instant s / rate in
      at_deadline-Ends h cond rate flow t0 (grace (h.ticks s).0) s2 (wait_loop h cond f)
        (record {
          start = flow.reads s;
          small = omega arith;
          low = ms_mono h cond rate flow s s2 (flow.ticks_on s);
          high = omega (arith, flow.ticks_few s);
        })
        λ s' early on few.
          wait_loop-Ends h cond rate flow f (grace (h.ticks s).0) s' t0 refl (flow.reads s)
            (omega arith) (ms_mono h cond rate flow s s' (omega (arith, flow.ticks_on s, on)))
            (omega (arith, few, early)) (omega (arith, fuel, flow.positive))
            (omega (arith, fuel, on, flow.ticks_on s, div-mul-le_self (instant s) rate))

  torn_loop-Ends :
      (f : ℕ) (v : Vars) (s : S)
      → (v.timeout == 0) ≡ false
      → v.forever ≡ true
      → h.teardown (cond s).1 ≡ true
      → wait_max_ms * rate < f
      → Ends h cond rate flow (instant s / rate + wait_max_ms) (wait_loop h cond f v s)
  unfolding wait_loop
  torn_loop-Ends zero v s nz ever tear fuel = absurd (omega arith)
  torn_loop-Ends (suc f) v s nz ever tear fuel = elim (Bool-cases (cond s).0) [
    | inl done ↦ (true, s1, rw done, λ e. cc)
    | inr more ↦ rw (wait_loop-grace f v s more nz ever tear) (
        sooner (instant s / rate + wait_max_ms) (instant s1 / rate + wait_max_ms) _
          (omega (arith, ms_mono h cond rate flow s s1 (flow.cond_on s))) (grace-Ends f s1 fuel))
  ]
    where
      s1 : S
      s1 = (cond s).1

  module _ (tearing : Tearing) where
    begin-torn : (s : S) → h.teardown s ≡ true → h.teardown (begin h cond rate flow s) ≡ true
    unfolding begin
    begin-torn s e = elim (Bool-cases (h.in_task (h.ticks s).1)) [
      | inl i ↦ rw i (tearing.ticks s e)
      | inr i ↦ rw i (tearing.enter (h.ticks s).1 (tearing.ticks s e))
    ]

    -- During teardown a wait for ever ends too, with fuel for MM_HALOW_SCHED_WAIT_MAX_MS, and gives up
    -- only when that time is over.
    pub torn_wait_ends :
        (fuel : ℕ) (s : S)
        → h.teardown s ≡ true
        → wait_max_ms * rate < fuel
        → (b : Bool) × (s' : S) × (wait h cond fuel u32_max s ≡ some (b, s'))
          × (b ≡ false → instant s / rate + wait_max_ms ≤ instant s' / rate)
    unfolding wait begin
    torn_wait_ends fuel s tear enough = rw tear (
        sooner (instant s / rate + wait_max_ms)
          (instant (begin h cond rate flow s) / rate + wait_max_ms) _
          (omega (
            arith,
            ms_mono h cond rate flow s (begin h cond rate flow s)
                (begin-Timed h cond rate flow s).0,
          ))
          (settled-Ends h cond rate flow _ (not (h.in_task (h.ticks s).1)) _ (
            torn_loop-Ends fuel
              (record { timeout = wait_max_ms; start = (h.ticks s).0; forever = true })
              (begin h cond rate flow s) refl refl
              (tearing.tested (begin h cond rate flow s) (begin-torn s tear)) enough)))
