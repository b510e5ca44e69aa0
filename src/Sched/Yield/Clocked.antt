-- ===== src/Sched/Yield/Clocked.antt =====
-- mm_halow_sched_wait on the scheduler itself, over a tick counter that goes on.
use mm_halow_driver.Base.{
  ℕ, true, ◌^◌, ◌+◌, ◌*◌, ◌/◌, ◌≤◌, ◌<◌, ◌≡◌, refl, ◌∙◌, ap, Bool, false, some, arith, inl, inr,
  if◌then◌else◌, Option-cases, u32_max, min,
}
use mm_halow_driver.Sched.{note_wake_at, wake}
use mm_halow_driver.Sched.Service.{Context, from_thread, from_irq, claim, release}
use mm_halow_driver.Sched.Run.{Machine, tick, on_sched, run}
use mm_halow_driver.Sched.Run.Clocked.{
  Clock, Moved, Moves, Moved-trans, stays, within, alike, either, ticked, run-Moved,
}
use mm_halow_driver.Sched.Wait.{Host, wait, wait_max_ms}
use mm_halow_driver.Sched.Wait.Map.{Follows, mapped, wait-map}
use mm_halow_driver.Sched.Wait.Total.{Flows, wait_ends}
use mm_halow_driver.Sched.Wait.Total.Teardown.{Tearing, torn_wait_ends}
use mm_halow_driver.Sched.Yield.{yield_host, yield, park, wait_host}

-- The most milliseconds, nine hours, that one reading of the clock, one turn of a task, one switch
-- and one run of the host's hook may each take.
abbrev pub step_max : ℕ
step_max = 2 ^ 25

module _ {E : Type 0} (clock0 : ℕ → ℕ) (time : ℕ → ℕ) (rate : ℕ)
    (tells : Clock clock0 time rate step_max) (turn : ℕ → Machine E → Machine E)
    (switch hook : Machine E → Machine E)
    (turns : (i : ℕ) → Moves clock0 time rate step_max (turn i))
    (switches : Moves clock0 time rate step_max switch)
    (hooks : Moves clock0 time rate step_max hook) where
  abbrev Goes : ℕ → ℕ → Machine E → Type 0
  Goes = Moved clock0 time rate

  yield_host-Moved :
      (c : Context) (m : Machine E)
      → m.clock ≡ clock0
      → Goes (27 * step_max) m.reads (yield_host turn switch hook c m)
  unfolding yield_host
  yield_host-Moved c m e = hooked c
    where
      m0 : Machine E
      m0 = record m { sched = (claim c m.sched).1 }

      m1 : Machine E
      m1 = if (claim c m.sched).0 then on_sched release (run turn m0) else m

      v : Goes (26 * step_max) m.reads m1
      v =
          either clock0 time rate (claim c m.sched).0 (on_sched release (run turn m0)) m
            (alike clock0 time rate (run turn m0) (on_sched release (run turn m0)) refl refl (
              within clock0 time rate (run turn m0) (omega arith)
                (run-Moved clock0 time rate step_max step_max tells turn turns m0 e)))
            (within clock0 time rate m (omega arith) (stays clock0 time rate m e))

      hooked :
          (c : Context)
          → Goes (27 * step_max) m.reads (elim c [ from_irq ↦ m1 | from_thread ↦ hook m1 ])
      hooked from_irq = within clock0 time rate m1 (omega arith) v
      hooked from_thread = Moved-trans clock0 time rate m1 (hook m1) v (hooks m1 v.same)

  park-Moved :
      (c : Context) (timed : Bool) (at : ℕ) (m : Machine E)
      → m.clock ≡ clock0
      → Goes (27 * step_max) m.reads (park turn switch hook c timed at m)
  unfolding park yield
  park-Moved c timed at m e = elim (Option-cases m.sched.cur) [
    | inl n ↦ rw (n, park) (rw (n, yield) (yield_host-Moved c m e))
    | inr (i, n) ↦
        let m1 = on_sched (note_wake_at timed at) m in
        rw (n, park) (within clock0 time rate (switch m1) (omega arith) (switches m1 e))
  ]

  module _ (c : Context) (cond : Machine E → Bool × Machine E)
      (conds : Moves clock0 time rate step_max (λ m. (cond m).1)) where
    -- The machine over the clock that it began with.
    abbrev over : Machine E → Machine E
    over m = record m { clock = clock0 }

    same_over : (m : Machine E) → m.clock ≡ clock0 → m ≡ over m
    same_over m e = ap (λ k. record m { clock = k }) e

    abbrev host : Host (Machine E)
    host = wait_host turn switch hook c

    abbrev below : Host (Machine E)
    below = record {
      ticks = λ m. host.ticks (over m);
      park = λ timed at m. host.park timed at (over m);
      in_task = λ m. host.in_task m;
      teardown = λ m. host.teardown m;
      enter = λ m. host.enter m;
      leave = λ m. host.leave m;
      wake = λ m. host.wake m;
    }

    abbrev cond_below : Machine E → Bool × Machine E
    cond_below m = cond (over m)

    follows : Follows below host cond_below cond over
    unfolding wait_host wake
    follows = record {
      ticks = λ m. refl;
      park = λ timed at m. same_over _ (park-Moved c timed at (over m) refl).same;
      in_task = λ m. refl;
      teardown = λ m. refl;
      enter = λ m. refl;
      leave = λ m. refl;
      wake = λ m. refl;
      tests = λ m. ap (λ s. ((cond (over m)).0, s)) (same_over _ (conds (over m) refl).same);
    }

    flows : Flows below cond_below rate
    unfolding wait_host wake
    flows = record {
      instant = λ m. time m.reads;
      positive = tells.positive;
      reads = λ m. rw (tells.shows m.reads) refl;
      ticks_on = λ m. (ticked clock0 time rate step_max step_max tells turn turns (over m) refl).on;
      ticks_few = λ m.
          omega
            (arith, (ticked clock0 time rate step_max step_max tells turn turns (over m) refl).few);
      cond_on = λ m. (conds (over m) refl).on;
      cond_few = λ m. omega (arith, (conds (over m) refl).few);
      park_on = λ timed at m. (park-Moved c timed at (over m) refl).on;
      round_on = λ timed at m.
          omega (arith, tells.grows m.reads, (park-Moved c timed at (over (tick m)) refl).on);
      park_few = λ timed at m. omega (arith, (park-Moved c timed at (over m) refl).few);
      enter_on = λ m. omega arith;
      enter_few = λ m. omega arith;
      leave_on = λ m. omega arith;
      wake_on = λ m. omega arith;
    }

    -- A wait of a task or of the host that is not for ever returns, with fuel for its time, on the
    -- scheduler with all that it runs meanwhile, if the tick counter goes on and every task, switch, hook
    -- and test of the condition comes back within nine hours. It gives up only when its time, at most
    -- MM_HALOW_SCHED_WAIT_MAX_MS, is over.
    pub wait_returns :
        (fuel t : ℕ) (m : Machine E)
        → m.clock ≡ clock0
        → t < u32_max
        → min t wait_max_ms * rate < fuel
        → (b : Bool) × (m' : Machine E) × (wait host cond fuel t m ≡ some (b, m'))
          × (b ≡ false → time m.reads / rate + min t wait_max_ms ≤ time m'.reads / rate)
    unfolding flows
    wait_returns fuel t m e bounded enough =
        let (b, r, done, late) = wait_ends below cond_below rate flows t fuel m bounded enough in
        (
          b,
          over r,
          ap (wait host cond fuel t) (same_over m e)
              ∙ wait-map below host cond_below cond over follows fuel t m
              ∙ ap (mapped below host cond_below cond over) done,
          late,
        )

    -- During teardown a wait for ever returns from the scheduler too, with fuel for
    -- MM_HALOW_SCHED_WAIT_MAX_MS, if the tick counter goes on, every task, switch, hook and test
    -- of the condition comes back within nine hours, and the test does not end the teardown. It
    -- gives up only when that time is over.
    pub torn_wait_returns :
        (fuel : ℕ) (m : Machine E)
        → ((n : Machine E) → n.sched.teardown ≡ true → (cond n).1.sched.teardown ≡ true)
        → m.clock ≡ clock0
        → m.sched.teardown ≡ true
        → wait_max_ms * rate < fuel
        → (b : Bool) × (m' : Machine E) × (wait host cond fuel u32_max m ≡ some (b, m'))
          × (b ≡ false → time m.reads / rate + wait_max_ms ≤ time m'.reads / rate)
    unfolding flows wait_host
    torn_wait_returns fuel m tested e torn enough =
        let tearing : Tearing below cond_below rate flows = record {
          ticks = λ n t. t;
          enter = λ n t. t;
          tested = λ n t. tested (over n) t;
        } in
        let (b, r, done, late) =
          torn_wait_ends below cond_below rate flows tearing fuel m torn enough in
        (
          b,
          over r,
          ap (wait host cond fuel u32_max) (same_over m e)
              ∙ wait-map below host cond_below cond over follows fuel u32_max m
              ∙ ap (mapped below host cond_below cond over) done,
          late,
        )
