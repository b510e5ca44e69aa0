-- ===== src/Sched/Run/Order.antt =====
-- The turns that one pass of mm_halow_sched_run gives, in their order, and how many a run gives.
use mm_halow_driver.Base.{
  ℕ, zero, suc, ◌+◌, ◌*◌, ◌≤◌, ◌≡◌, refl, Option, none, some, List, [], ◌∷◌, ◌++◌, arith, length,
  count, count-append, ap, ◌∙◌, subst, sym, ◌⊎◌, inl, inr,
}
use mathlib.Core.List.{append_assoc}
use mm_halow_driver.Sched.{Task, TaskState, ready, dead, task_at, max_tasks}
use mm_halow_driver.Sched.Run.{
  Machine, next_of, first_of_list, give_turn, run_pass, one_pass, run_passes, run, max_passes, tick,
  on_sched, start,
}

TaskState-cases : (t : TaskState) → (t ≡ ready) ⊎ (t ≡ dead)
TaskState-cases ready = inl refl
TaskState-cases dead = inr refl

next_of_middle :
    (i : ℕ) (pre js : List ℕ) → count i pre ≡ 0 → next_of i (pre ++ (i ∷ js)) ≡ first_of_list js
unfolding next_of
next_of_middle i [] js h = ground arith
next_of_middle i (j ∷ pre) js h = ground (arith, next_of_middle i pre js)

module _ {E : Type 0} (turn : ℕ → Machine E → Machine E) where
  -- What is to happen with the tasks of a list, by the state that each is in when it is reached: a task
  -- that is ready is made the current one, has its turn, and is the current one no more; a dead one is
  -- skipped.
  pub data Turns : List ℕ → Machine E → Machine E → Type 0 where
    ends : {m : Machine E} → Turns [] m m
    takes :
        {m m' : Machine E} {is : List ℕ} (i : ℕ)
        → (task_at m.sched i).state ≡ ready
        → Turns is
            (on_sched
              (λ s. record s { cur = none })
              (turn i (on_sched (λ s. record s { cur = some i }) m)))
            m'
        → Turns (i ∷ is) m m'
    skips :
        {m m' : Machine E} {is : List ℕ} (i : ℕ)
        → (task_at m.sched i).state ≡ dead
        → Turns is m m'
        → Turns (i ∷ is) m m'

  give_turn-Turns :
      (t : Task) (i : ℕ) (is : List ℕ) (m m' : Machine E)
      → task_at m.sched i ≡ t
      → Turns is (give_turn turn i m) m'
      → Turns (i ∷ is) m m'
  unfolding give_turn
  give_turn-Turns t i is m m' e v = elim (TaskState-cases t.state) [
    | inl r ↦ takes i (rw e r) (rw (e, r, give_turn) at v)
    | inr d ↦ skips i (rw e d) (rw (e, d, give_turn) at v)
  ]

  module _ (keeps : (i : ℕ) (m : Machine E) → (turn i m).sched.queue ≡ m.sched.queue) where
    give_turn-queue : (i : ℕ) (m : Machine E) → (give_turn turn i m).sched.queue ≡ m.sched.queue
    unfolding give_turn
    give_turn-queue i m = ground (arith, keeps i (on_sched (λ s. record s { cur = some i }) m))

    run_pass-Turns :
        (js pre : List ℕ) (f : ℕ) (m : Machine E)
        → m.sched.queue ≡ pre ++ js
        → ((i : ℕ) → count i (pre ++ js) ≤ 1)
        → length js ≤ f
        → Turns js m (run_pass turn f (first_of_list js) m)
    unfolding run_pass
    run_pass-Turns [] pre zero m q u h = ends
    run_pass-Turns [] pre (suc f) m q u h = ends
    run_pass-Turns (i ∷ js) pre zero m q u h = absurd (omega arith)
    run_pass-Turns (i ∷ js) pre (suc f) m q u h =
        give_turn-Turns (task_at m.sched i) i js m _ refl (
          subst (λ o. Turns js m' (run_pass turn f o m')) (sym behind)
            (run_pass-Turns js (pre ++ (i ∷ [])) f m' (give_turn-queue i m ∙ (q ∙ regroup))
              (λ k. subst (λ (l : List ℕ). count k l ≤ 1) regroup (u k)) (omega arith)))
      where
        m' : Machine E
        m' = give_turn turn i m

        regroup : pre ++ (i ∷ js) ≡ (pre ++ (i ∷ [])) ++ js
        regroup = sym (append_assoc pre (i ∷ []) js)

        once : count i pre ≡ 0
        once = ground (arith, u i, count-append i pre (i ∷ js))

        behind : next_of i m'.sched.queue ≡ first_of_list js
        behind = ap (next_of i) (give_turn-queue i m ∙ q) ∙ next_of_middle i pre js once

    -- Where no turn changes the list, as none creates a task or tears the list down, and the list names
    -- no task twice and fits the slots, one walk goes through the whole list in the order of creation:
    -- each task that is ready when it is reached has exactly one turn, as the current task, and each
    -- that is dead then has none.
    pub run_pass-order :
        (m : Machine E)
        → ((i : ℕ) → count i m.sched.queue ≤ 1)
        → length m.sched.queue ≤ max_tasks
        → Turns m.sched.queue m (run_pass turn max_tasks (first_of_list m.sched.queue) m)
    run_pass-order m u h = run_pass-Turns m.sched.queue [] max_tasks m refl u h

  module _ (cost : E → ℕ)
      (spends : (i : ℕ) (m : Machine E) → cost (turn i m).env ≤ cost m.env + 1) where
    give_turn-cost : (i : ℕ) (m : Machine E) → cost (give_turn turn i m).env ≤ cost m.env + 1
    unfolding give_turn
    give_turn-cost i m = ground (arith, spends i (on_sched (λ s. record s { cur = some i }) m))

    run_pass-cost :
        (f : ℕ) (o : Option ℕ) (m : Machine E) → cost (run_pass turn f o m).env ≤ cost m.env + f
    unfolding run_pass
    run_pass-cost zero o m = omega arith
    run_pass-cost (suc f) none m = omega arith
    run_pass-cost (suc f) (some i) m = omega (
      arith,
      give_turn-cost i m,
      run_pass-cost f (next_of i (give_turn turn i m).sched.queue) (give_turn turn i m),
    )

    one_pass-cost : (m : Machine E) → cost (one_pass turn m).env ≤ cost m.env + max_tasks
    unfolding one_pass
    one_pass-cost m = run_pass-cost max_tasks _ _

    run_passes-cost :
        (k : ℕ) (m : Machine E) → cost (run_passes turn k m).env ≤ cost m.env + k * max_tasks
    unfolding run_passes
    run_passes-cost zero m = omega arith
    run_passes-cost (suc k) m =
        ground (arith, one_pass-cost (tick m), run_passes-cost k (one_pass turn (tick m)))

    -- However the tasks behave, one run gives at most four turns to each of the four slots.
    pub run-cost : (m : Machine E) → cost (run turn m).env ≤ cost m.env + max_passes * max_tasks
    unfolding run
    run-cost m = ground (arith, run_passes-cost max_passes (start m))
