-- ===== src/Sched/Reap.antt =====
-- mm_halow_sched_reap: dead tasks leave the list and give their stacks back.
use mm_halow_driver.Base.{
  ℕ, zero, suc, ◌≤◌, ◌≡◌, refl, true, false, ◌&&◌, ◌||◌, not, none, List, [], ◌∷◌, arith, inl, inr,
  ltb, ◌==◌, if◌then◌else◌, length, get_or, set, count, length-set, get_or-set, ap, ◌∙◌, Bool-cases,
}
use native.Mathlib.Decide.{dec_lt}
use mm_halow_driver.Heap.{Heap, free}
use mm_halow_driver.Heap.Invariant.{IsHeap, free-IsHeap}
use mm_halow_driver.Sched.{Sched, free_slot, is_free, is_ready, task_at, unlink, reap_list, reap}
use mm_halow_driver.Sched.Tasks.{IsTable}

-- The tasks of a list that are not dead, in order.
pub ready_of : Sched → List ℕ → List ℕ
ready_of s [] = []
ready_of s (i ∷ is) = if is_ready (task_at s i) then i ∷ ready_of s is else ready_of s is

-- What the loop leaves of slot `j`: its stack is gone if it is dead and was met.
record Reaped (is : List ℕ) (s s' : Sched) : Type 0 where
  slots : length s'.tasks ≡ length s.tasks
  states : (j : ℕ) → is_ready (task_at s' j) ≡ is_ready (task_at s j)
  stacks :
      (j : ℕ)
      → is_free (task_at s' j)
        ≡ (is_free (task_at s j) || (not (is_ready (task_at s j)) && ltb 0 (count j is)))

pub set_outside : {A : Type 0} (xs : List A) (i : ℕ) (v : A) → length xs ≤ i → set xs i v ≡ xs
set_outside [] i v h = refl
set_outside (x ∷ xs) zero v h = absurd (omega arith)
set_outside (x ∷ xs) (suc i) v h = ap (◌∷◌ x) (set_outside xs i v (omega arith))

pub get_or_outside : {A : Type 0} (xs : List A) (i : ℕ) (d : A) → length xs ≤ i → get_or xs i d ≡ d
get_or_outside [] i d h = refl
get_or_outside (x ∷ xs) zero d h = absurd (omega arith)
get_or_outside (x ∷ xs) (suc i) d h = get_or_outside xs i d (omega arith)

unlink-task_at :
    (i j : ℕ) (s : Sched)
    → (is_ready (task_at (unlink i s) j) ≡ is_ready (task_at s j))
      × (is_free (task_at (unlink i s) j) ≡ (is_free (task_at s j) || (i == j)))
unfolding unlink
unlink-task_at i j s = elim (dec_lt i (length s.tasks)) [
  | yes lt ↦
      let e = get_or-set s.tasks i j (record (task_at s i) { stack = none }) free_slot lt in
      (ground (arith, e), ground (arith, e))
  | no ge ↦
      let e = set_outside s.tasks i (record (task_at s i) { stack = none }) (omega arith) in
      let d = get_or_outside s.tasks i free_slot (omega arith) in
      (ground (arith, e), ground (arith, e, d))
]

length-unlink : (i : ℕ) (s : Sched) → length (unlink i s).tasks ≡ length s.tasks
unfolding unlink
length-unlink i s = length-set s.tasks i _

ready_of-unlink : (i : ℕ) (s : Sched) (is : List ℕ) → ready_of (unlink i s) is ≡ ready_of s is
unfolding ready_of
ready_of-unlink i s [] = refl
ready_of-unlink i s (j ∷ is) = ground (arith, ready_of-unlink i s is, (unlink-task_at i j s).0)

reap_list-ready_of : (is : List ℕ) (h : Heap) (s : Sched) → (reap_list is h s).0 ≡ ready_of s is
unfolding reap_list ready_of
reap_list-ready_of [] h s = refl
reap_list-ready_of (i ∷ is) h s = ground (
  arith,
  reap_list-ready_of is h s,
  reap_list-ready_of is (free (task_at s i).stack h) (unlink i s),
  ready_of-unlink i s is,
)

reap_list-Reaped : (is : List ℕ) (h : Heap) (s : Sched) → Reaped is s (reap_list is h s).2
unfolding reap_list
reap_list-Reaped [] h s = record { slots = refl; states = λ j. refl; stacks = λ j. ground arith }
reap_list-Reaped (i ∷ is) h s = elim (Bool-cases (is_ready (task_at s i))) [
  | inl e ↦ rw (e, reap_list) (kept e (reap_list-Reaped is h s))
  | inr e ↦
      rw (e, reap_list) (dropped e (reap_list-Reaped is (free (task_at s i).stack h) (unlink i s)))
]
  where
    kept : {s' : Sched} → is_ready (task_at s i) ≡ true → Reaped is s s' → Reaped (i ∷ is) s s'
    kept e r = record {
      slots = r.slots;
      states = r.states;
      stacks = λ j. ground (arith, r.stacks j);
    }

    dropped :
        {s' : Sched}
        → is_ready (task_at s i) ≡ false
        → Reaped is (unlink i s) s'
        → Reaped (i ∷ is) s s'
    dropped {s'} e r = record {
      slots = r.slots ∙ length-unlink i s;
      states = λ j. r.states j ∙ (unlink-task_at i j s).0;
      stacks = λ j. ground (arith, r.stacks j, unlink-task_at i j s);
    }

pub count-ready_of :
    (j : ℕ) (s : Sched) (is : List ℕ)
    → count j (ready_of s is) ≡ (if is_ready (task_at s j) then count j is else 0)
unfolding ready_of
count-ready_of j s [] = ground arith
count-ready_of j s (i ∷ is) = ground (arith, count-ready_of j s is)

-- mm_halow_sched_reap keeps of the list exactly the tasks that are not dead, in their order.
pub queue-reap : (h : Heap) (s : Sched) → (reap h s).1.queue ≡ ready_of s s.queue
unfolding reap
queue-reap h s = reap_list-ready_of s.queue h s

-- mm_halow_sched_reap keeps the task table well formed: a slot has a stack exactly while the list,
-- without the dead tasks, names it, and then once.
pub reap-IsTable : (h : Heap) (s : Sched) → IsTable s → IsTable (reap h s).1
unfolding reap
reap-IsTable h s v = record {
  slots = r.slots ∙ v.slots;
  listed = λ i. ground (
    arith,
    v.listed i,
    r.stacks i,
    count-ready_of i s s.queue,
    ap (count i) (reap_list-ready_of s.queue h s),
  );
}
  where
    r : Reaped s.queue s (reap_list s.queue h s).2
    r = reap_list-Reaped s.queue h s

reap_list-IsHeap :
    {base : ℕ} (is : List ℕ) (h : Heap) (s : Sched)
    → IsHeap base h
    → IsHeap base (reap_list is h s).1
unfolding reap_list
reap_list-IsHeap [] h s v = v
reap_list-IsHeap (i ∷ is) h s v = elim (Bool-cases (is_ready (task_at s i))) [
  | inl e ↦ rw (e, reap_list) (reap_list-IsHeap is h s v)
  | inr e ↦
      rw (e, reap_list)
        (reap_list-IsHeap is (free (task_at s i).stack h) (unlink i s)
          (free-IsHeap (task_at s i).stack v))
]

-- mm_halow_sched_reap keeps the heap, which the stacks go back to, well formed.
pub reap-IsHeap : {base : ℕ} (h : Heap) (s : Sched) → IsHeap base h → IsHeap base (reap h s).0
unfolding reap
reap-IsHeap h s v = reap_list-IsHeap s.queue h s v

-- mm_halow_sched_reap changes no task's state.
pub reap-states :
    (h : Heap) (s : Sched) (j : ℕ) → is_ready (task_at (reap h s).1 j) ≡ is_ready (task_at s j)
unfolding reap
reap-states h s j = (reap_list-Reaped s.queue h s).states j
