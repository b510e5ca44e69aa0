-- ===== src/Sched/Lifetime/Disjoint.antt =====
-- The stacks of the tasks never overlap.
use mm_halow_driver.Base.{
  ℕ, ◌+◌, ◌*◌, ◌≤◌, ◌≡◌, ◌≢◌, sym, ◌∙◌, ap, Option, none, some, arith, inl, inr, ◌⊎◌, Option-cases,
}
use native.Mathlib.Decide.{dec_lt}
use mm_halow_driver.Heap.{Heap, malloc, free, heap_size}
use mm_halow_driver.Heap.Live.{live, live_bounds, live_disjoint}
use mm_halow_driver.Sched.{Sched, task_at, task_delete, mark_dead, reap, wake}
use mm_halow_driver.Sched.Lifetime.{
  Step, creates, deletes, reaps, releases, allocates, turns_to, Reach, start, follow, IsPopulation,
  Reach-IsPopulation,
}
use mm_halow_driver.Sched.Lifetime.Fits.{Fits-grow, Fits-same}
use mm_halow_driver.Sched.Lifetime.Stacks.{
  stack_of, sized, HasStacks, mark_dead-stack_of, task_create-HasStacks, reap_list-HasStacks,
  malloc_keeps, free_keeps,
}

marked : (i : ℕ) (h : Heap) (s : Sched) → HasStacks h s → HasStacks h (wake (mark_dead i s))
unfolding wake
marked i h s t =
    Fits-same (stack_of s) (stack_of (mark_dead i s)) (live h.blocks)
      (λ j. mark_dead-stack_of i j s) t

task_delete-HasStacks :
    (o : Option ℕ) (h : Heap) (s : Sched) → HasStacks h s → HasStacks h (task_delete o s)
unfolding task_delete
task_delete-HasStacks (some i) h s t = marked i h s t
task_delete-HasStacks none h s t = elim (Option-cases s.cur) [
  | inl e ↦ rw (e, task_delete) t
  | inr (i, e) ↦ rw (e, task_delete) (marked i h s t)
]

sized-some : (w x p : ℕ) (o : Option ℕ) → sized w o ≡ some (p, x) → o ≡ some p
sized-some w x p none e = absurd cc
sized-some w x p (some q) e = cc

released :
    {base : ℕ} (p m : ℕ) (h : Heap) (s : Sched)
    → IsPopulation base (h, s)
    → live h.blocks p ≡ some m
    → ((i : ℕ) → (task_at s i).stack ≢ some p)
    → HasStacks h s
    → HasStacks (free (some p) h) s
released p m h s v out other t = record {
  held = λ i q w e.
      let (n, there, le) = t.held i q w e in
      (
        n,
        free_keeps p m h v.heap out q n
            (λ same.
              other i (
                sized-some (task_at s i).stack_words w q (task_at s i).stack e
                ∙ ap some (sym same)))
            there,
        le,
      );
  apart = t.apart;
}

Step-HasStacks :
    {base : ℕ} {u v : Heap × Sched}
    → Step u v
    → IsPopulation base u
    → HasStacks u.0 u.1
    → HasStacks v.0 v.1
unfolding reap
Step-HasStacks (creates {h} {s} trampoline entry arg words name small) v t =
    task_create-HasStacks trampoline entry arg words name h s v.heap small t
Step-HasStacks (deletes {h} {s} o) v t = task_delete-HasStacks o h s t
Step-HasStacks (reaps {h} {s}) v t = reap_list-HasStacks s.queue h s v.heap t
Step-HasStacks (releases {h} {s} p m out other) v t = released p m h s v out other t
Step-HasStacks (allocates {h} {s} n) v t =
    Fits-grow (stack_of s) (live h.blocks) (live (malloc n h).1.blocks) (malloc_keeps n h v.heap) t
Step-HasStacks (turns_to {h} {s} i) v t = t

Reach-HasStacks :
    {base : ℕ} {u v : Heap × Sched}
    → Reach u v
    → IsPopulation base u
    → HasStacks u.0 u.1
    → HasStacks v.0 v.1
Reach-HasStacks start p t = t
Reach-HasStacks (follow r s) p t = Step-HasStacks s (Reach-IsPopulation r p) (Reach-HasStacks r p t)

-- Over any sequence of creating tasks with stacks below 2^32 bytes, deleting and reaping them,
-- with turns, other allocations, and releases of what is no stack in between, the stack of every
-- task lies in the pool of the heap, and the stacks of two tasks do not overlap, if the heap and
-- the table are well formed and the stacks in their own blocks at the start.
pub stacks_disjoint :
    {base : ℕ} {u v : Heap × Sched} (i j p q w x : ℕ)
    → Reach u v
    → IsPopulation base u
    → HasStacks u.0 u.1
    → i ≢ j
    → stack_of v.1 i ≡ some (p, w)
    → stack_of v.1 j ≡ some (q, x)
    → (base ≤ p) × (p + w * 4 ≤ base + heap_size) × ((p + w * 4 ≤ q) ⊎ (q + x * 4 ≤ p))
stacks_disjoint {base} {u} {v} i j p q w x r pop t ne at_i at_j =
    let heap = (Reach-IsPopulation r pop).heap in
    let stacks = Reach-HasStacks r pop t in
    let (m, mp, wm) = stacks.held i p w at_i in
    let (n, nq, xn) = stacks.held j q x at_j in
    let bounds =
      live_bounds (base + heap_size) base v.0.blocks p m heap.tiles (omega (arith, heap.pool)) mp in
    let other : p ≢ q =
      λ e. stacks.apart i j p w x ne at_i (at_j ∙ ap (λ r. some (r, x)) (sym e)) in
    let apart : (p + w * 4 ≤ q) ⊎ (q + x * 4 ≤ p) = elim (dec_lt p q) [
      | yes lt ↦ inl (
          omega (
            arith,
            wm,
            live_disjoint (base + heap_size) base v.0.blocks p q m n heap.tiles mp nq lt,
          ))
      | no ge ↦ inr (
          omega (
            arith,
            xn,
            live_disjoint (base + heap_size) base v.0.blocks q p n m heap.tiles nq mp
                (omega (arith, ge, other)),
          ))
    ] in
    (omega (arith, bounds), omega (arith, bounds, wm), apart)
