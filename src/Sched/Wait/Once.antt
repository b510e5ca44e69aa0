-- ===== src/Sched/Wait/Once.antt =====
-- A wait of mm_halow_sched.c whose condition holds at the first look.
use mm_halow_driver.Base.{ℕ, suc, ◌≡◌, refl, Bool, true, some, inl, inr, Bool-cases}
use mm_halow_driver.Sched.Wait.{Host, wait, wait_loop}

-- It succeeds at once, and what holds behind the test and the last steps holds then.
pub wait-at_once :
    {S : Type 0} (h : Host S) (cond : S → Bool × S) (Q : S → Type 0) (fuel t : ℕ) (s : S)
    → (let s1 = (h.ticks s).1 in ((cond s1).0 ≡ true) × Q (h.wake (cond s1).1))
    → (let s1 = h.enter (h.ticks s).1 in ((cond s1).0 ≡ true) × Q (h.wake (h.leave (cond s1).1)))
    → (s' : S) × (wait h cond (suc fuel) t s ≡ some (true, s')) × Q s'
unfolding wait wait_loop
wait-at_once h cond Q fuel t s here entered = elim (Bool-cases (h.in_task (h.ticks s).1)) [
  | inl e ↦ (_, rw (e, here.0) refl, here.1)
  | inr e ↦ (_, rw (e, entered.0) refl, entered.1)
]
