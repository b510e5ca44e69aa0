-- ===== src/Sched/Yield.antt =====
-- mm_halow_sched_yield and mm_halow_sched_park: how a turn is given away, by a task and by the host, and
-- the wait of the scheduler on top of them.
pub mod Checks
pub mod Clocked
use mm_halow_driver.Base.{
  ℕ, ◌+◌, ◌-◌, ◌%◌, ◌^◌, ◌<◌, ◌≡◌, refl, sym, ◌∙◌, Bool, true, false, ◌&&◌, Option, none, some,
  arith, inl, inr, if◌then◌else◌, Bool-cases, Option-cases,
}
use mm_halow_driver.Sched.{Sched, note_wake_at, wake}
use mm_halow_driver.Sched.Service.{Context, from_thread, from_irq, claim, release}
use mm_halow_driver.Sched.Run.{Machine, is_some, now, tick, on_sched, run}
use mm_halow_driver.Sched.Run.Claim.{SameClaim, Keeps, IsCounted, release-claim, run-Keeps}
use mm_halow_driver.Sched.Wait.{Host, wait}
use mm_halow_driver.Sched.Wait.Rules.{Rule, Outcome, wait-Outcome}

-- `turn` is what a task does in its turn, `switch` what happens from mm_halow_context_switch until the
-- turn comes back, and `hook` is MM_HALOW_EVENT_POLL_HOOK.
module _ {E : Type 0} (turn : ℕ → Machine E → Machine E) (switch hook : Machine E → Machine E) where
  -- The host's half of mm_halow_sched_yield: a run under a claim, then the host's events.
  pub yield_host : Context → Machine E → Machine E
  yield_host c m =
      let (claimed, s) = claim c m.sched in
      let m1 = if claimed then on_sched release (run turn (record m { sched = s })) else m in
      elim c [ from_irq ↦ m1 | from_thread ↦ hook m1 ]

  -- mm_halow_sched_yield
  pub yield : Context → Machine E → Machine E
  yield c m = elim m.sched.cur [ some i ↦ switch (on_sched wake m) | none ↦ yield_host c m ]

  -- mm_halow_sched_park
  pub park : Context → Bool → ℕ → Machine E → Machine E
  park c timed at m = elim m.sched.cur [
    | none ↦ yield c m
    | some i ↦ switch (on_sched (note_wake_at timed at) m)
  ]

  -- What mm_halow_sched_wait runs on. `mm_halow_wait_depth` is a uint16_t.
  unfoldable pub wait_host : Context → Host (Machine E)
  unfolding wake
  wait_host c = record {
    ticks = λ m. (now m, tick m);
    park = park c;
    in_task = λ m. is_some m.sched.cur;
    teardown = λ m. m.sched.teardown;
    enter = on_sched (λ s. record s { wait_depth = (s.wait_depth + 1) % 2 ^ 16 });
    leave = on_sched (λ s. record s { wait_depth = (s.wait_depth + 2 ^ 16 - 1) % 2 ^ 16 });
    wake = on_sched wake;
  }

  module _ (turns : (i : ℕ) → Keeps (turn i)) (switches : Keeps switch) (hooks : Keeps hook) where
    -- As the claim was at first, `s`, which left room for another.
    record IsSame (s : Sched) (m : Machine E) : Type 0 where
      same : SameClaim s m.sched
      counted : IsCounted s
      room : s.depth < 255

    IsCounted-now : {s : Sched} (m : Machine E) → IsSame s m → IsCounted m.sched
    IsCounted-now m v = record {
      unclaimed = λ e. v.same.0 ∙ v.counted.unclaimed (sym v.same.1 ∙ e);
      unowned = λ e. v.same.1 ∙ v.counted.unowned (sym v.same.0 ∙ e);
    }

    kept : {s : Sched} (m m' : Machine E) → SameClaim m.sched m'.sched → IsSame s m → IsSame s m'
    kept m m' (o, d) v = record {
      same = (o ∙ v.same.0, d ∙ v.same.1);
      counted = v.counted;
      room = v.room;
    }

    run_claimed :
        {s : Sched} (c : Context) (m : Machine E)
        → IsSame s m
        → (claim c m.sched).0 ≡ true
        → IsSame s (on_sched release (run turn (record m { sched = (claim c m.sched).1 })))
    run_claimed c m v e =
        let m1 = record m { sched = (claim c m.sched).1 } in
        kept m (on_sched release (run turn m1))
          (release-claim c m.sched (run turn m1).sched (rw v.same.1 v.room) (IsCounted-now m v) e
            (run-Keeps turn turns m1))
          v

    yield_host-IsSame :
        {s : Sched} (c : Context) (m : Machine E) → IsSame s m → IsSame s (yield_host c m)
    unfolding yield_host
    yield_host-IsSame from_irq m v = elim (Bool-cases (claim from_irq m.sched).0) [
      | inl e ↦ rw e (run_claimed from_irq m v e)
      | inr e ↦ rw e v
    ]
    yield_host-IsSame from_thread m v = elim (Bool-cases (claim from_thread m.sched).0) [
      | inl e ↦ rw e (kept _ _ (hooks _) (run_claimed from_thread m v e))
      | inr e ↦ rw e (kept m (hook m) (hooks m) v)
    ]

    yield-IsSame : {s : Sched} (c : Context) (m : Machine E) → IsSame s m → IsSame s (yield c m)
    unfolding yield wake
    yield-IsSame c m v = elim (Option-cases m.sched.cur) [
      | inl e ↦ rw (e, yield) (yield_host-IsSame c m v)
      | inr (i, e) ↦ rw (e, yield) (kept m _ (switches (on_sched wake m)) v)
    ]

    noted : (timed : Bool) (at : ℕ) (s : Sched) → SameClaim s (note_wake_at timed at s)
    unfolding note_wake_at
    noted timed at s = ground arith

    park-IsSame :
        {s : Sched} (c : Context) (timed : Bool) (at : ℕ) (m : Machine E)
        → IsSame s m
        → IsSame s (park c timed at m)
    unfolding park
    park-IsSame c timed at m v = elim (Option-cases m.sched.cur) [
      | inl e ↦ rw (e, park) (yield-IsSame c m v)
      | inr (i, e) ↦
          rw (e, park)
            (let m1 = on_sched (note_wake_at timed at) m in
              kept m1 (switch m1) (switches m1) (kept m m1 (noted timed at m.sched) v))
    ]

    module _ (c : Context) (cond : Machine E → Bool × Machine E)
        (conds : Keeps (λ m. (cond m).1)) where
      claim_rule : (s : Sched) → Rule (wait_host c) cond (IsSame s) (IsSame s)
      unfolding wait_host wake
      claim_rule s = record {
        ticks = λ m v. kept m (tick m) (refl, refl) v;
        park = λ timed at m v. park-IsSame c timed at m v;
        enter = λ m v. kept m _ (refl, refl) v;
        leave = λ m v. kept m _ (refl, refl) v;
        fails = λ m v e. kept m (cond m).1 (conds m) v;
        succeeds = λ m v e. kept m (cond m).1 (conds m) v;
        post_leave = λ m v. kept m _ (refl, refl) v;
        post_wake = λ m v. kept m _ (refl, refl) v;
      }

      Outcome-same :
          (s : Sched) (o : Option (Bool × Machine E))
          → Outcome (IsSame s) (IsSame s) o
          → Outcome (λ m'. SameClaim s m'.sched) (λ m'. SameClaim s m'.sched) o
      unfolding Outcome
      Outcome-same s none v = tt
      Outcome-same s (some (true, m')) v = v.same
      Outcome-same s (some (false, m')) v = v.same

      -- A wait, of the host or of a task, that starts while fewer than 255 claims are held, as the
      -- uint8_t depth needs it for one more, and while owner and depth agree on whether there are any,
      -- leaves the claim on the transceiver as it found it, whether it succeeds or times out, if the
      -- condition, the tasks, the host's events and what runs while a task is parked leave none behind.
      pub wait-SameClaim :
          (fuel t : ℕ) (m : Machine E)
          → IsCounted m.sched
          → m.sched.depth < 255
          → Outcome
              (λ m'. SameClaim m.sched m'.sched)
              (λ m'. SameClaim m.sched m'.sched)
              (wait (wait_host c) cond fuel t m)
      wait-SameClaim fuel t m counted room =
          Outcome-same m.sched (wait (wait_host c) cond fuel t m) (
            wait-Outcome (wait_host c) cond (IsSame m.sched) (IsSame m.sched) (claim_rule m.sched)
              fuel t m (record { same = (refl, refl); counted = counted; room = room }))
