-- ===== src/Sched/Wait/Map.antt =====
-- A wait of mm_halow_sched.c sees of its host only what the host's operations show.
use mm_halow_driver.Base.{
  ℕ, zero, suc, ◌≡◌, refl, Bool, true, false, not, Option, none, some, ◌==◌, u32_max, if◌then◌else◌,
  leb, add32, sub32,
}
use mm_halow_driver.Sched.Wait.{
  Host, Vars, wait_max_ms, at_deadline, capped, wait_loop, settled, wait,
}

module _ {R S : Type 0} (k : Host R) (h : Host S) (cond_k : R → Bool × R) (cond : S → Bool × S)
    (φ : R → S) where
  -- What the operations of `h` do to a state that `φ` makes is what those of `k` do below.
  pub record Follows : Type 0 where
    pub ticks : (r : R) → h.ticks (φ r) ≡ ((k.ticks r).0, φ (k.ticks r).1)
    pub park : (timed : Bool) (at : ℕ) (r : R) → h.park timed at (φ r) ≡ φ (k.park timed at r)
    pub in_task : (r : R) → h.in_task (φ r) ≡ k.in_task r
    pub teardown : (r : R) → h.teardown (φ r) ≡ k.teardown r
    pub enter : (r : R) → h.enter (φ r) ≡ φ (k.enter r)
    pub leave : (r : R) → h.leave (φ r) ≡ φ (k.leave r)
    pub wake : (r : R) → h.wake (φ r) ≡ φ (k.wake r)
    pub tests : (r : R) → cond (φ r) ≡ ((cond_k r).0, φ (cond_k r).1)

  abbrev pub mapped : Option (Bool × R) → Option (Bool × S)
  mapped none = none
  mapped (some (b, r)) = some (b, φ r)

  mapped-if :
      (b : Bool) (x y : Option (Bool × R))
      → (if b then mapped x else mapped y) ≡ mapped (if b then x else y)
  mapped-if true x y = refl
  mapped-if false x y = refl

  mapped-ifs :
      (a b c d : Bool) (v w x y z : Option (Bool × R))
      → (if a
          then mapped v
          else if b
          then mapped w
          else if c
          then (if d then mapped x else mapped y)
          else mapped z)
        ≡ mapped (if a then v else if b then w else if c then (if d then x else y) else z)
  mapped-ifs true b c d v w x y z = refl
  mapped-ifs false true c d v w x y z = refl
  mapped-ifs false false true d v w x y z = mapped-if d x y
  mapped-ifs false false false d v w x y z = refl

  module _ (f : Follows) where
    at_deadline-map :
        (v : Vars) (n : ℕ) (r : R) (go : Vars → S → Option (Bool × S))
        (go_k : Vars → R → Option (Bool × R))
        → ((v : Vars) (r : R) → go v (φ r) ≡ mapped (go_k v r))
        → at_deadline h cond v (n, φ r) go ≡ mapped (at_deadline k cond_k v (n, r) go_k)
    unfolding at_deadline
    at_deadline-map v n r go go_k same =
        rw
          (
            f.park true (add32 v.start v.timeout) r,
            same v (k.park true (add32 v.start v.timeout) r),
            f.tests r,
          )
          (mapped-if (leb v.timeout (sub32 n v.start)) (some (cond_k r))
            (go_k v (k.park true (add32 v.start v.timeout) r)))

    wait_loop-map :
        (fuel : ℕ) (v : Vars) (r : R)
        → wait_loop h cond fuel v (φ r) ≡ mapped (wait_loop k cond_k fuel v r)
    unfolding wait_loop
    wait_loop-map zero v r = refl
    wait_loop-map (suc n) v r =
        let r1 = (cond_k r).1 in
        let (now, r2) = k.ticks r1 in
        let g : Vars = record { timeout = wait_max_ms; start = now; forever = false } in
        rw
          (
            f.tests r,
            f.teardown r1,
            f.park false 0 r1,
            wait_loop-map n v (k.park false 0 r1),
            f.ticks r1,
            f.ticks r2,
            at_deadline-map g (k.ticks r2).0 (k.ticks r2).1 (wait_loop h cond n)
                (wait_loop k cond_k n) (wait_loop-map n),
            at_deadline-map v now r2 (wait_loop h cond n) (wait_loop k cond_k n) (wait_loop-map n),
          )
          (mapped-ifs (cond_k r).0 (v.timeout == 0) v.forever (k.teardown r1) (some (true, r1))
            (some (false, r1)) (at_deadline k cond_k g (k.ticks r2) (wait_loop k cond_k n))
            (wait_loop k cond_k n v (k.park false 0 r1))
            (at_deadline k cond_k v (k.ticks r1) (wait_loop k cond_k n)))

    settled-map :
        (counted : Bool) (x : Option (Bool × R))
        → settled h counted (mapped x) ≡ mapped (settled k counted x)
    settled-map counted none = refl
    settled-map true (some (true, r)) = rw (f.leave r, f.wake (k.leave r)) refl
    settled-map true (some (false, r)) = rw (f.leave r) refl
    settled-map false (some (true, r)) = rw (f.wake r) refl
    settled-map false (some (false, r)) = refl

    enter-map :
        (counted : Bool) (r : R)
        → (if counted then h.enter (φ r) else φ r) ≡ φ (if counted then k.enter r else r)
    enter-map true r = f.enter r
    enter-map false r = refl

    -- A wait on a state that `φ` makes is the wait below.
    pub wait-map : (fuel t : ℕ) (r : R) → wait h cond fuel t (φ r) ≡ mapped (wait k cond_k fuel t r)
    unfolding wait
    wait-map fuel t r =
        let r1 = (k.ticks r).1 in
        let counted = not (k.in_task r1) in
        let v : Vars = record {
          timeout = capped t (k.teardown r);
          start = (k.ticks r).0;
          forever = t == u32_max;
        } in
        rw
          (
            f.ticks r,
            f.teardown r,
            f.in_task r1,
            enter-map counted r1,
            wait_loop-map fuel v (if counted then k.enter r1 else r1),
          )
          (settled-map counted (wait_loop k cond_k fuel v (if counted then k.enter r1 else r1)))
