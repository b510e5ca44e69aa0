-- ===== src/Sched/Lifetime/Stacks.antt =====
-- The stacks of the tasks in the map of the heap, over what mm_halow_sched.c does to tasks.
use mm_halow_driver.Base.{
  ℕ, subst, ◌+◌, ◌*◌, ◌≤◌, ◌<◌, ◌≡◌, ◌≢◌, ◌^◌, refl, ◌∙◌, ap, Option, none, some, arith, inl, inr,
  List, [], ◌∷◌, ◌==◌, if◌then◌else◌, Bool-cases, Option-cases, get_or-set, length, u32,
}
use native.Mathlib.Decide.{dec_lt}
use mm_halow_driver.Heap.{Heap, Block, commit, first_fit, block_round, malloc, free, heap_size}
use mm_halow_driver.Heap.Live.{live, live_bounds, Grants}
use mm_halow_driver.Heap.Invariant.{IsHeap, malloc-Grants, free_forgets, free-IsHeap}
use mm_halow_driver.Sched.{
  Sched, free_slot, is_ready, task_at, find_slot, place, enlist, new_task, task_create, mark_dead,
  reap_list, unlink, stack_size, wake, dead,
}
use mm_halow_driver.Sched.Tasks.{find_slot-some}
use mm_halow_driver.Sched.Reap.{set_outside, get_or_outside}
use mm_halow_driver.Sched.Lifetime.Fits.{Fits, Fits-grow, Fits-drop, Fits-add}

abbrev pub sized : ℕ → Option ℕ → Option (ℕ × ℕ)
sized w none = none
sized w (some p) = some (p, w)

-- The stack of the task in slot `i`, with its number of words.
abbrev pub stack_of : Sched → ℕ → Option (ℕ × ℕ)
stack_of s i = sized (task_at s i).stack_words (task_at s i).stack

-- The stacks of `s` are in the heap `h`.
abbrev pub HasStacks : Heap → Sched → Type 0
HasStacks h s = Fits (stack_of s) (live h.blocks)

pub mark_dead-stack_of : (i j : ℕ) (s : Sched) → stack_of (mark_dead i s) j ≡ stack_of s j
unfolding mark_dead
mark_dead-stack_of i j s = elim (dec_lt i (length s.tasks)) [
  | yes lt ↦
      ground (arith, get_or-set s.tasks i j (record (task_at s i) { state = dead }) free_slot lt)
  | no ge ↦
      ground (arith, set_outside s.tasks i (record (task_at s i) { state = dead }) (omega arith))
]

unlink-stack_of :
    (i j : ℕ) (s : Sched) → stack_of (unlink i s) j ≡ (if i == j then none else stack_of s j)
unfolding unlink
unlink-stack_of i j s = elim (dec_lt i (length s.tasks)) [
  | yes lt ↦
      ground (arith, get_or-set s.tasks i j (record (task_at s i) { stack = none }) free_slot lt)
  | no ge ↦ ground (
    arith,
    set_outside s.tasks i (record (task_at s i) { stack = none }) (omega arith),
    get_or_outside s.tasks i free_slot (omega arith),
  )
]

enlist-stack_of :
    (i j p words trampoline entry arg name : ℕ) (s : Sched)
    → i < length s.tasks
    → stack_of (enlist i (new_task p words trampoline entry arg name) s) j
      ≡ (if i == j then some (p, words) else stack_of s j)
unfolding enlist wake new_task
enlist-stack_of i j p words trampoline entry arg name s lt =
    ground (arith, get_or-set s.tasks i j (new_task p words trampoline entry arg name) free_slot lt)

commit_failed :
    (h : Heap) (o : Option (ℕ × List Block)) → (commit h o).0 ≡ none → (commit h o).1 ≡ h
commit_failed h none e = refl
commit_failed h (some (p, bs)) e = absurd cc

malloc_failed : (n : ℕ) (h : Heap) → (malloc n h).0 ≡ none → (malloc n h).1 ≡ h
unfolding malloc
malloc_failed n h e = ground (arith, commit_failed h (first_fit (block_round n) h.blocks))

granted_keeps :
    (n p q m : ℕ) (bs cs : List Block)
    → Grants 32 n bs p cs
    → live bs q ≡ some m
    → live cs q ≡ some m
granted_keeps n p q m bs cs g out = elim (Bool-cases (p == q)) [
  | inl e ↦ absurd (ground (arith, g.fresh, out))
  | inr e ↦ g.updated q ∙ rw e out
]

-- mm_halow_osal_malloc leaves every allocation.
pub malloc_keeps :
    {base : ℕ} (n : ℕ) (h : Heap)
    → IsHeap base h
    → (q m : ℕ) → live h.blocks q ≡ some m
    → live (malloc n h).1.blocks q ≡ some m
malloc_keeps n h v q m out = elim (Option-cases (malloc n h).0) [
  | inl e ↦ ap (λ (h : Heap). live h.blocks q) (malloc_failed n h e) ∙ out
  | inr (p, e) ↦
      granted_keeps n p q m h.blocks (malloc n h).1.blocks
        (malloc-Grants n p (malloc n h).1 v (λ i. (e i, (malloc n h).1))).2 out
]

-- mm_halow_osal_free of a pointer that is handed out leaves every other allocation.
pub free_keeps :
    {base : ℕ} (p m : ℕ) (h : Heap)
    → IsHeap base h
    → live h.blocks p ≡ some m
    → (q n : ℕ) → p ≢ q
    → live h.blocks q ≡ some n
    → live (free (some p) h).blocks q ≡ some n
free_keeps {base} p m h v there q n ne out =
    let b =
      live_bounds (base + heap_size) base h.blocks p m v.tiles (omega (arith, v.pool)) there in
    free_forgets p q v (omega (arith, b)) ∙ ground (arith, ne, out)

place-HasStacks :
    {base : ℕ} (slot n words trampoline entry arg name : ℕ) (h : Heap) (s : Sched) (o : Option ℕ)
    (h' : Heap)
    → IsHeap base h
    → malloc n h ≡ (o, h')
    → slot < length s.tasks
    → words * 4 ≤ n
    → HasStacks h s
    → (let r = place slot words trampoline entry arg name s (o, h') in HasStacks r.1 r.2)
unfolding place
place-HasStacks slot n words trampoline entry arg name h s none h' v e lt room t =
    Fits-grow (stack_of s) (live h.blocks) (live h'.blocks)
      (λ q m out. subst (λ r. live r.1.blocks q ≡ some m) e (malloc_keeps n h v q m out)) t
place-HasStacks slot n words trampoline entry arg name h s (some p) h' v e lt room t =
    let g = (malloc-Grants n p h' v e).2 in
    Fits-add (stack_of s) (stack_of (enlist slot (new_task p words trampoline entry arg name) s))
      (live h.blocks) (live h'.blocks) slot p words g.size
      (λ j. enlist-stack_of slot j p words trampoline entry arg name s lt) g.fresh
      (ground (arith, g.updated p)) (omega (arith, room, g.enough))
      (λ q m out. granted_keeps n p q m h.blocks h'.blocks g out) t

pub task_create-HasStacks :
    {base : ℕ} (trampoline entry arg words name : ℕ) (h : Heap) (s : Sched)
    → IsHeap base h
    → stack_size words * 4 < 2 ^ 32
    → HasStacks h s
    → (let r = task_create trampoline entry arg words name h s in HasStacks r.1 r.2)
unfolding task_create
task_create-HasStacks trampoline entry arg words name h s v small t =
    elim (Option-cases (find_slot s.tasks)) [
      | inl e ↦ rw (e, task_create) t
      | inr (slot, e) ↦
          let size = stack_size words in
          let r = malloc (u32 (size * 4)) h in
          rw (e, task_create)
            (place-HasStacks slot (u32 (size * 4)) size trampoline entry arg name h s r.0 r.1 v refl
              (find_slot-some s.tasks slot e).0 (omega (arith, small)) t)
    ]

-- What the loop of mm_halow_sched_reap does for a dead task.
unlink-HasStacks :
    {base : ℕ} (i : ℕ) (h : Heap) (s : Sched)
    → IsHeap base h
    → HasStacks h s
    → HasStacks (free (task_at s i).stack h) (unlink i s)
unfolding free
unlink-HasStacks {base} i h s v t =
    Fits-drop (stack_of s) (stack_of (unlink i s)) (live h.blocks)
      (live (free (task_at s i).stack h).blocks) i (λ j. unlink-stack_of i j s) keeps t
  where
    keeps :
        (j p w m : ℕ)
        → i ≢ j
        → stack_of s j ≡ some (p, w)
        → live h.blocks p ≡ some m
        → live (free (task_at s i).stack h).blocks p ≡ some m
    keeps j p w m ne at out = elim (Option-cases (task_at s i).stack) [
      | inl e ↦ rw e out
      | inr (q, e) ↦
          let own : stack_of s i ≡ some (q, (task_at s i).stack_words) =
            ap (sized (task_at s i).stack_words) e in
          let (n, there, le) = t.held i q (task_at s i).stack_words own in
          rw e (
            free_keeps q n h v there p m
              (λ same.
                t.apart i j p (task_at s i).stack_words w ne
                  (own ∙ ap (λ r. some (r, (task_at s i).stack_words)) same) at)
              out)
    ]

pub reap_list-HasStacks :
    {base : ℕ} (is : List ℕ) (h : Heap) (s : Sched)
    → IsHeap base h
    → HasStacks h s
    → (let r = reap_list is h s in HasStacks r.1 r.2)
unfolding reap_list
reap_list-HasStacks [] h s v t = t
reap_list-HasStacks (i ∷ is) h s v t = elim (Bool-cases (is_ready (task_at s i))) [
  | inl e ↦ rw (e, reap_list) (reap_list-HasStacks is h s v t)
  | inr e ↦
      rw (e, reap_list)
        (reap_list-HasStacks is (free (task_at s i).stack h) (unlink i s)
          (free-IsHeap (task_at s i).stack v) (unlink-HasStacks i h s v t))
]
