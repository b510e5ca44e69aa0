-- ===== src/Sched/Run/Claim.antt =====
-- mm_halow_sched_run leaves the claim on the transceiver as it finds it.
use mm_halow_driver.Base.{
  ℕ, zero, suc, ◌<◌, ◌≡◌, refl, ◌∙◌, true, Option, none, some, List, [], ◌∷◌, arith,
}
use mm_halow_driver.Heap.{Heap, free}
use mm_halow_driver.Sched.{
  Sched, nobody, task_at, wake_at_reset, max_tasks, unlink, reap_list, reap,
}
use mm_halow_driver.Sched.Service.{Context, from_thread, from_irq, claim, release}
use mm_halow_driver.Sched.Run.{
  Machine, give_turn, run_pass, one_pass, run_passes, run, max_passes, tick, start, next_of,
  first_of_list, on_sched,
}

-- The same claim, held as deep.
abbrev pub SameClaim : Sched → Sched → Type 0
SameClaim s s' = (s'.owner ≡ s.owner) × (s'.depth ≡ s.depth)

abbrev pub Keeps : {E : Type 0} → (Machine E → Machine E) → Type 0
Keeps {E} f = (m : Machine E) → SameClaim m.sched (f m).sched

-- The depth and the owner agree on whether there is a claim.
pub record IsCounted (s : Sched) : Type 0 where
  pub unclaimed : s.depth ≡ 0 → s.owner ≡ nobody
  pub unowned : s.owner ≡ nobody → s.depth ≡ 0

-- A claim, and what keeps it, is undone by a release.
pub release-claim :
    (c : Context) (s s' : Sched)
    → s.depth < 255
    → IsCounted s
    → (claim c s).0 ≡ true
    → SameClaim (claim c s).1 s'
    → SameClaim s (release s')
unfolding claim release
release-claim from_thread s s' lt v e (o, d) = ground (arith, e, o, d, v.unclaimed, v.unowned)
release-claim from_irq s s' lt v e (o, d) = ground (arith, e, o, d, v.unclaimed, v.unowned)

reap_list-SameClaim : (is : List ℕ) (h : Heap) (s : Sched) → SameClaim s (reap_list is h s).2
unfolding reap_list unlink
reap_list-SameClaim [] h s = (refl, refl)
reap_list-SameClaim (i ∷ is) h s = ground (
  arith,
  reap_list-SameClaim is h s,
  reap_list-SameClaim is (free (task_at s i).stack h) (unlink i s),
)

reap-SameClaim : (h : Heap) (s : Sched) → SameClaim s (reap h s).1
unfolding reap
reap-SameClaim h s = reap_list-SameClaim s.queue h s

module _ {E : Type 0} (turn : ℕ → Machine E → Machine E) (keeps : (i : ℕ) → Keeps (turn i)) where
  give_turn-Keeps : (i : ℕ) → Keeps (give_turn turn i)
  unfolding give_turn
  give_turn-Keeps i m = ground (arith, keeps i (on_sched (λ s. record s { cur = some i }) m))

  run_pass-Keeps : (f : ℕ) (o : Option ℕ) → Keeps (run_pass turn f o)
  unfolding run_pass
  run_pass-Keeps zero o m = (refl, refl)
  run_pass-Keeps (suc f) none m = (refl, refl)
  run_pass-Keeps (suc f) (some i) m =
      let m' = give_turn turn i m in
      let (o, d) = give_turn-Keeps i m in
      let (o', d') = run_pass-Keeps f (next_of i m'.sched.queue) m' in (o' ∙ o, d' ∙ d)

  one_pass-Keeps : Keeps (one_pass turn)
  unfolding one_pass wake_at_reset
  one_pass-Keeps m = run_pass-Keeps max_tasks (first_of_list m.sched.queue) _

  run_passes-Keeps : (k : ℕ) → Keeps (run_passes turn k)
  unfolding run_passes
  run_passes-Keeps zero m = (refl, refl)
  run_passes-Keeps (suc k) m =
      ground (arith, one_pass-Keeps (tick m), run_passes-Keeps k (one_pass turn (tick m)))

  -- If a task's turn leaves the claim as it was, so does a run.
  pub run-Keeps : Keeps (run turn)
  unfolding run
  run-Keeps m = ground (
    arith,
    run_passes-Keeps max_passes (start m),
    reap-SameClaim (run_passes turn max_passes (start m)).heap
        (run_passes turn max_passes (start m)).sched,
  )
