-- ===== src/Sched/Wait/Rules.antt =====
-- What a client of a wait of mm_halow_sched.c may conclude from its result.
use mm_halow_driver.Base.{
  ℕ, zero, suc, ◌≡◌, refl, Bool, true, false, not, Option, none, some, leb, ◌==◌, if◌then◌else◌,
  sub32, Bool-cases, inl, inr,
}
use mm_halow_driver.Sched.Wait.{Host, Vars, at_deadline, wait_loop, settle, settled, wait}

-- An invariant of the world that all of a wait keeps, where the condition's success makes it `Post`.
pub record Rule {S : Type 0} (h : Host S) (cond : S → Bool × S) (Inv Post : S → Type 0)
    : Type 0 where
  pub ticks : (s : S) → Inv s → Inv (h.ticks s).1
  pub park : (timed : Bool) (at : ℕ) (s : S) → Inv s → Inv (h.park timed at s)
  pub enter : (s : S) → Inv s → Inv (h.enter s)
  pub leave : (s : S) → Inv s → Inv (h.leave s)
  pub fails : (s : S) → Inv s → (cond s).0 ≡ false → Inv (cond s).1
  pub succeeds : (s : S) → Inv s → (cond s).0 ≡ true → Post (cond s).1
  pub post_leave : (s : S) → Post s → Post (h.leave s)
  pub post_wake : (s : S) → Post s → Post (h.wake s)

-- What a result says: success leaves `Post`, a timeout the invariant.
unfoldable pub Outcome : {S : Type 0} (Inv Post : S → Type 0) → Option (Bool × S) → Type 0
Outcome Inv Post none = Unit
Outcome Inv Post (some (true, s)) = Post s
Outcome Inv Post (some (false, s)) = Inv s

module _ {S : Type 0} (h : Host S) (cond : S → Bool × S) (Inv Post : S → Type 0)
    (rule : Rule h cond Inv Post) where
  cond-Outcome : (s : S) → Inv s → Outcome Inv Post (some (cond s))
  unfolding Outcome
  cond-Outcome s i = elim (Bool-cases (cond s).0) [
    | inl e ↦ rw e (rule.succeeds s i e)
    | inr e ↦ rw e (rule.fails s i e)
  ]

  at_deadline-Outcome :
      (v : Vars) (r : ℕ × S) (go : Vars → S → Option (Bool × S))
      → Inv r.1
      → ((v : Vars) (s : S) → Inv s → Outcome Inv Post (go v s))
      → Outcome Inv Post (at_deadline h cond v r go)
  unfolding at_deadline
  at_deadline-Outcome v (now, s) go i rest = elim (Bool-cases (leb v.timeout (sub32 now v.start))) [
    | inl e ↦ rw e (cond-Outcome s i)
    | inr e ↦ rw e (rest _ _ (rule.park true _ s i))
  ]

  wait_loop-Outcome : (f : ℕ) (v : Vars) (s : S) → Inv s → Outcome Inv Post (wait_loop h cond f v s)
  unfolding wait_loop Outcome
  wait_loop-Outcome zero v s i = tt
  wait_loop-Outcome (suc f) v s i = elim (Bool-cases (cond s).0) [
    | inl done ↦ rw done (rule.succeeds s i done)
    | inr more ↦ elim (Bool-cases (v.timeout == 0)) [
      | inl z ↦ rw (more, z) (kept more)
      | inr nz ↦ elim (Bool-cases v.forever) [
        | inr timed ↦
            rw (more, nz, timed)
              (at_deadline-Outcome _ (h.ticks s1) _ (rule.ticks s1 (kept more))
                (λ v s. wait_loop-Outcome f v s))
        | inl ever ↦ elim (Bool-cases (h.teardown s1)) [
          | inl torn ↦
              rw (more, nz, ever, torn)
                (at_deadline-Outcome _ (h.ticks (h.ticks s1).1) _
                  (rule.ticks _ (rule.ticks s1 (kept more))) (λ v s. wait_loop-Outcome f v s))
          | inr up ↦
              rw (more, nz, ever, up) (wait_loop-Outcome f _ _ (rule.park false 0 s1 (kept more)))
        ]
      ]
    ]
  ]
    where
      s1 : S
      s1 = (cond s).1

      kept : (cond s).0 ≡ false → Inv s1
      kept = rule.fails s i

  settled-Outcome :
      (counted : Bool) (r : Option (Bool × S))
      → Outcome Inv Post r
      → Outcome Inv Post (settled h counted r)
  unfolding Outcome
  settled-Outcome counted none o = tt
  settled-Outcome true (some (true, s)) o = rule.post_wake _ (rule.post_leave s o)
  settled-Outcome false (some (true, s)) o = rule.post_wake s o
  settled-Outcome true (some (false, s)) o = rule.leave s o
  settled-Outcome false (some (false, s)) o = o

  -- A wait keeps the invariant of the world, whatever ran while it was parked; where it reports
  -- success, the condition was the last thing evaluated, so that its effect holds.
  pub wait-Outcome : (fuel t : ℕ) (s : S) → Inv s → Outcome Inv Post (wait h cond fuel t s)
  unfolding wait
  wait-Outcome fuel t s i = elim (Bool-cases (not (h.in_task (h.ticks s).1))) [
    | inl e ↦
        rw e (settled-Outcome true _ (wait_loop-Outcome fuel _ _ (rule.enter _ (rule.ticks s i))))
    | inr e ↦ rw e (settled-Outcome false _ (wait_loop-Outcome fuel _ _ (rule.ticks s i)))
  ]

module _ {S : Type 0} (h : Host S) (cond : S → Bool × S) where
  either :
      (b : Bool) (s : S)
      → if◌then◌else◌ {A = Option (Bool × S)} b (some (true, s)) (some (false, s)) ≡ some (b, s)
  either true s = refl
  either false s = refl

  wait_loop-poll :
      (f : ℕ) (v : Vars) (s : S)
      → (v.timeout == 0) ≡ true
      → wait_loop h cond (suc f) v s ≡ some (cond s)
  unfolding wait_loop
  wait_loop-poll f v s z = rw z (either (cond s).0 (cond s).1)

  -- A wait with a timeout of 0 looks at the condition once and never gives the turn away.
  pub wait-poll :
      (fuel : ℕ) (s : S)
      → wait h cond (suc fuel) 0 s
        ≡ some (
            settle h (not (h.in_task (h.ticks s).1)) (
              cond
                (if not (h.in_task (h.ticks s).1) then h.enter (h.ticks s).1 else (h.ticks s).1)))
  unfolding wait
  wait-poll fuel s = rw (wait_loop-poll fuel _ _ refl) refl
