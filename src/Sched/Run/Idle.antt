-- ===== src/Sched/Run/Idle.antt =====
-- What mm_halow_sched_run leaves: the scheduler out of itself, with no dead task listed; and what
-- mm_halow_sched_pending says between two runs.
use mm_halow_driver.Base.{
  ℕ, zero, suc, ◌^◌, ◌<◌, ◌≡◌, refl, true, false, Option, none, some, List, [], ◌∷◌, ◌⊎◌, arith,
  count, ap, ◌∙◌, sub32, at_or_past,
}
use mm_halow_driver.Heap.{Heap, free}
use mm_halow_driver.Sched.{
  Sched, is_ready, task_at, max_tasks, wake_at_reset, pending, note_wake_at, unlink, reap_list,
  reap,
}
use mm_halow_driver.Sched.Reap.{queue-reap, reap-states, count-ready_of}
use mm_halow_driver.Sched.Run.{
  Machine, give_turn, run_pass, one_pass, run_passes, run, max_passes, now, tick, is_some, start,
  finish,
}

cur-reap_list : (is : List ℕ) (h : Heap) (s : Sched) → (reap_list is h s).2.cur ≡ s.cur
unfolding reap_list unlink
cur-reap_list [] h s = refl
cur-reap_list (i ∷ is) h s =
    ground (arith, cur-reap_list is h s, cur-reap_list is (free (task_at s i).stack h) (unlink i s))

cur-reap : (h : Heap) (s : Sched) → (reap h s).1.cur ≡ s.cur
unfolding reap
cur-reap h s = cur-reap_list s.queue h s

listed_ready :
    (h : Heap) (s : Sched) (i : ℕ)
    → 0 < count i (reap h s).1.queue
    → is_ready (task_at (reap h s).1 i) ≡ true
listed_ready h s i =
    ground (arith, ap (count i) (queue-reap h s), count-ready_of i s s.queue, reap-states h s i)

finish-leaves :
    {E : Type 0} (m : Machine E)
    → m.sched.cur ≡ none
    → let s = (finish m).sched in
      (s.running ≡ false)
      × (s.cur ≡ none)
      × ((i : ℕ) → 0 < count i s.queue → is_ready (task_at s i) ≡ true)
finish-leaves m c = (refl, cur-reap m.heap m.sched ∙ c, listed_ready m.heap m.sched)

module _ {E : Type 0} (turn : ℕ → Machine E → Machine E) where
  -- A call from inside the scheduler or from a task does nothing.
  pub run_nested :
      (m : Machine E) → (m.sched.running ≡ true) ⊎ (is_some m.sched.cur ≡ true) → run turn m ≡ m
  unfolding run
  run_nested m h = ground arith

  run_pass-cur :
      (f : ℕ) (o : Option ℕ) (m : Machine E)
      → m.sched.cur ≡ none
      → (run_pass turn f o m).sched.cur ≡ none
  unfolding run_pass give_turn
  run_pass-cur zero o m h = h
  run_pass-cur (suc f) none m h = h
  run_pass-cur (suc f) (some i) m h = run_pass-cur f _ _ (ground arith)

  one_pass-cur : (m : Machine E) → m.sched.cur ≡ none → (one_pass turn m).sched.cur ≡ none
  unfolding one_pass wake_at_reset
  one_pass-cur m h = run_pass-cur max_tasks _ _ h

  run_passes-cur :
      (k : ℕ) (m : Machine E) → m.sched.cur ≡ none → (run_passes turn k m).sched.cur ≡ none
  unfolding run_passes
  run_passes-cur zero m h = h
  run_passes-cur (suc k) m h = ground (
    arith,
    one_pass-cur (tick m) h,
    run_passes-cur k (one_pass turn (tick m)) (one_pass-cur (tick m) h),
  )

  run_body :
      (m : Machine E)
      → m.sched.running ≡ false
      → m.sched.cur ≡ none
      → run turn m ≡ finish (run_passes turn max_passes (start m))
  unfolding run
  run_body m r c = ground arith

  -- However the tasks behave, a run that starts outside the scheduler ends outside it, and leaves
  -- no dead task in the list.
  pub run_leaves :
      (m : Machine E)
      → m.sched.running ≡ false
      → m.sched.cur ≡ none
      → let s = (run turn m).sched in
        (s.running ≡ false)
        × (s.cur ≡ none)
        × ((i : ℕ) → 0 < count i s.queue → is_ready (task_at s i) ≡ true)
  run_leaves m r c =
      rw (run_body m r c) (
        finish-leaves (run_passes turn max_passes (start m))
          (run_passes-cur max_passes (start m) c))

-- The time `t` is at most half the clock's range ahead of the time `a`, on a clock that wraps.
abbrev pub Ahead : ℕ → ℕ → Type 0
Ahead a t = (a < 2 ^ 32) × (t < 2 ^ 32) × (sub32 t a < 2 ^ 31)

-- What mm_halow_sched_park keeps in `wake_at` for a timed wait is no later than that wait and no
-- later than what was kept before, on a clock that may wrap in between.
pub note_wake_at_earliest :
    (now at : ℕ) (s : Sched)
    → Ahead now at
    → Ahead now s.wake_at
    → let w = (note_wake_at true at s).wake_at in
      Ahead now w × (at_or_past at w ≡ true) × (at_or_past s.wake_at w ≡ true)
unfolding note_wake_at
note_wake_at_earliest now at s h k = ground arith

-- A timed wait that mm_halow_sched_park noted is not missed: from the moment that it times out on, for as long as its lateness
-- stays in the clock's half range, a run is due.
pub pending_when_due :
    (now at later : ℕ) (s : Sched)
    → Ahead now at
    → Ahead now s.wake_at
    → Ahead now later
    → at_or_past later at ≡ true
    → pending later (note_wake_at true at s) ≡ true
unfolding note_wake_at pending
pending_when_due now at later s h k l d = ground arith
