-- ===== src/Sched/Lifetime.antt =====
-- The lives of tasks: mm_halow_sched_task_create, mm_halow_sched_task_delete and mm_halow_sched_reap, in
-- any order, over the heap that the stacks are taken from.
pub mod Fits
pub mod Stacks
pub mod Disjoint
mod Checks
use mm_halow_driver.Base.{
  ℕ, ◌≡◌, ◌≢◌, ◌<◌, ◌^◌, Option, none, some, inl, inr, arith, ◌∙◌, length, length-set, u32, ◌*◌,
  get_or-set, Option-cases,
}
use native.Mathlib.Decide.{dec_lt}
use mm_halow_driver.Heap.{Heap, malloc, free}
use mm_halow_driver.Heap.Live.{live}
use mm_halow_driver.Heap.Invariant.{IsHeap, malloc-IsHeap, free-IsHeap}
use mm_halow_driver.Sched.{
  Sched, free_slot, is_free, task_at, find_slot, place, task_create, mark_dead, task_delete, reap,
  stack_size, wake, dead,
}
use mm_halow_driver.Sched.Tasks.{IsTable, task_create-IsTable}
use mm_halow_driver.Sched.Reap.{reap-IsTable, reap-IsHeap, set_outside}

mark_dead-free : (i j : ℕ) (s : Sched) → is_free (task_at (mark_dead i s) j) ≡ is_free (task_at s j)
unfolding mark_dead
mark_dead-free i j s = elim (dec_lt i (length s.tasks)) [
  | yes lt ↦
      ground (arith, get_or-set s.tasks i j (record (task_at s i) { state = dead }) free_slot lt)
  | no ge ↦
      ground (arith, set_outside s.tasks i (record (task_at s i) { state = dead }) (omega arith))
]

mark_dead-IsTable : (i : ℕ) (s : Sched) → IsTable s → IsTable (mark_dead i s)
unfolding mark_dead
mark_dead-IsTable i s v = record {
  slots = length-set s.tasks i _ ∙ v.slots;
  listed = λ j. rw (mark_dead-free i j s) (v.listed j);
}

woken : (s : Sched) → IsTable s → IsTable (wake s)
unfolding wake
woken s v = record { slots = v.slots; listed = v.listed }

task_delete-IsTable : (t : Option ℕ) (s : Sched) → IsTable s → IsTable (task_delete t s)
unfolding task_delete wake
task_delete-IsTable (some i) s v = woken (mark_dead i s) (mark_dead-IsTable i s v)
task_delete-IsTable none s v = elim (Option-cases s.cur) [
  | inl e ↦ rw (e, task_delete) v
  | inr (i, e) ↦ rw (e, task_delete) (woken (mark_dead i s) (mark_dead-IsTable i s v))
]

place-IsHeap :
    {base : ℕ} (slot words trampoline entry arg name : ℕ) (s : Sched) (r : Option ℕ × Heap)
    → IsHeap base r.1
    → IsHeap base (place slot words trampoline entry arg name s r).1
unfolding place
place-IsHeap slot words trampoline entry arg name s (none, h) v = v
place-IsHeap slot words trampoline entry arg name s (some p, h) v = v

task_create-IsHeap :
    {base : ℕ} (trampoline entry arg words name : ℕ) (h : Heap) (s : Sched)
    → IsHeap base h
    → IsHeap base (task_create trampoline entry arg words name h s).1
unfolding task_create
task_create-IsHeap trampoline entry arg words name h s v = elim (Option-cases (find_slot s.tasks)) [
  | inl e ↦ rw (e, task_create) v
  | inr (slot, e) ↦
      rw (e, task_create)
        (place-IsHeap slot (stack_size words) trampoline entry arg name s
          (malloc (u32 (stack_size words * 4)) h) (malloc-IsHeap (u32 (stack_size words * 4)) v))
]

-- A step of a task's life, on the heap and the scheduler. Other allocations, releases of what they
-- gave, and turns come in between as steps of their own. The stack that is asked for is less than 2^32
-- bytes.
pub data Step : Heap × Sched → Heap × Sched → Type 0 where
  creates :
      {h : Heap} {s : Sched} (trampoline entry arg words name : ℕ)
      → stack_size words * 4 < 2 ^ 32
      → Step
          (h, s)
          (
            (task_create trampoline entry arg words name h s).1,
            (task_create trampoline entry arg words name h s).2,
          )
  deletes : {h : Heap} {s : Sched} (t : Option ℕ) → Step (h, s) (h, task_delete t s)
  reaps : {h : Heap} {s : Sched} → Step (h, s) (reap h s)
  releases :
      {h : Heap} {s : Sched} (p m : ℕ)
      → live h.blocks p ≡ some m
      → ((i : ℕ) → (task_at s i).stack ≢ some p)
      → Step (h, s) (free (some p) h, s)
  allocates : {h : Heap} {s : Sched} (n : ℕ) → Step (h, s) ((malloc n h).1, s)
  turns_to : {h : Heap} {s : Sched} (i : Option ℕ) → Step (h, s) (h, record s { cur = i })

pub data Reach (u : Heap × Sched) : Heap × Sched → Type 0 where
  start : Reach u u
  follow : {v w : Heap × Sched} → Reach u v → Step v w → Reach u w

-- The heap and the task table are both well formed.
pub record IsPopulation (base : ℕ) (u : Heap × Sched) : Type 0 where
  pub heap : IsHeap base u.0
  pub table : IsTable u.1

Step-IsPopulation :
    {base : ℕ} {u v : Heap × Sched} → Step u v → IsPopulation base u → IsPopulation base v
Step-IsPopulation (creates {h} {s} trampoline entry arg words name small) v = record {
  heap = task_create-IsHeap trampoline entry arg words name h s v.heap;
  table = task_create-IsTable trampoline entry arg words name h s v.table;
}
Step-IsPopulation (deletes {h} {s} t) v = record {
  heap = v.heap;
  table = task_delete-IsTable t s v.table;
}
Step-IsPopulation (reaps {h} {s}) v = record {
  heap = reap-IsHeap h s v.heap;
  table = reap-IsTable h s v.table;
}
Step-IsPopulation (releases {h} {s} p m out other) v = record {
  heap = free-IsHeap (some p) v.heap;
  table = v.table;
}
Step-IsPopulation (allocates {h} {s} n) v = record {
  heap = malloc-IsHeap n v.heap;
  table = v.table;
}
Step-IsPopulation (turns_to {h} {s} i) v = record {
  heap = v.heap;
  table = record { slots = v.table.slots; listed = v.table.listed };
}

-- Over any sequence of creating, deleting and reaping tasks, with turns and other allocations in
-- between, failing ones included, the heap stays well formed, and so does the task table: it has its
-- `max_tasks` slots, and a slot has a stack exactly while the list names it, and then once.
pub Reach-IsPopulation :
    {base : ℕ} {u v : Heap × Sched} → Reach u v → IsPopulation base u → IsPopulation base v
Reach-IsPopulation start p = p
Reach-IsPopulation (follow r s) p = Step-IsPopulation s (Reach-IsPopulation r p)
