-- ===== src/Sched/Tasks.antt =====
-- The task table of mm_halow_sched.c: a slot has a stack exactly while the list names it, once.
use mm_halow_driver.Base.{
  ℕ, zero, suc, ◌+◌, ◌-◌, ◌*◌, ◌%◌, ◌≤◌, ◌<◌, ◌^◌, ◌≡◌, refl, true, false, Option, none, some, List,
  [], ◌∷◌, ◌++◌, ◌⊎◌, inl, inr, arith, if◌then◌else◌, length, get_or, take, replicate, count,
  count-append, length-set, get_or-set, ap, ◌∙◌, u32, Option-cases, length-replicate, length-append,
}
use mm_halow_driver.Heap.{Heap, malloc}
use mm_halow_driver.Sched.{
  Sched, Task, free_slot, is_free, task_at, find_slot, stack_size, initial_stack, wake, enlist,
  new_task, place, task_create, count_fill, stack_free_words, max_tasks, context_words, stack_fill,
}

-- The slots are `max_tasks`; one with a stack is listed once, and a free one is not listed.
pub record IsTable (s : Sched) : Type 0 where
  pub slots : length s.tasks ≡ max_tasks
  pub listed : (i : ℕ) → count i s.queue ≡ (if is_free (task_at s i) then 0 else 1)

pub find_slot-some :
    (ts : List Task) (i : ℕ)
    → find_slot ts ≡ some i
    → (i < length ts) × (is_free (get_or ts i free_slot) ≡ true)
unfolding find_slot
find_slot-some [] i e = cc
find_slot-some (t ∷ ts) i e = elim (Option-cases (find_slot ts)) [
  | inl n ↦ ground arith
  | inr (k, n) ↦ ground (arith, find_slot-some ts k n)
]

new_task-used :
    (p words trampoline entry arg name : ℕ)
    → is_free (new_task p words trampoline entry arg name) ≡ false
unfolding new_task
new_task-used p words trampoline entry arg name = refl

enlist-IsTable :
    (slot : ℕ) (t : Task) (s : Sched)
    → IsTable s
    → slot < length s.tasks
    → is_free (task_at s slot) ≡ true
    → is_free t ≡ false
    → IsTable (enlist slot t s)
unfolding enlist wake
enlist-IsTable slot t s v lt f g = record {
  slots = length-set s.tasks slot t ∙ v.slots;
  listed = λ i. ground (
    arith,
    v.listed i,
    count-append i s.queue (slot ∷ []),
    get_or-set s.tasks slot i t free_slot lt,
  );
}

-- Nothing happened, or `new p` went into the slot, at the end of the list.
abbrev pub Placed : (ℕ → Task) → Option ℕ → Option ℕ → Sched → Option ℕ × Heap × Sched → Type 0
Placed new memory slot s (o, h, s') =
    ((o ≡ none) × (s' ≡ s) × ((slot ≡ none) ⊎ (memory ≡ none)))
    ⊎ ((i p : ℕ) × (slot ≡ some i) × (memory ≡ some p) × (o ≡ some i) × (s' ≡ enlist i (new p) s))

place-Placed :
    (slot words trampoline entry arg name : ℕ) (s : Sched) (r : Option ℕ × Heap)
    → Placed
        (λ p. new_task p words trampoline entry arg name)
        r.0
        (some slot)
        s
        (place slot words trampoline entry arg name s r)
unfolding place
place-Placed slot words trampoline entry arg name s (none, h) = inl (refl, refl, inr refl)
place-Placed slot words trampoline entry arg name s (some p, h) =
    inr (slot, p, refl, refl, refl, refl)

-- mm_halow_sched_task_create fails, and leaves the scheduler alone, exactly when no slot is free
-- or the heap has no room for the stack. Otherwise the new task is in the first free slot and at
-- the end of the list.
pub task_create-Placed :
    (trampoline entry arg words name : ℕ) (h : Heap) (s : Sched)
    → Placed
        (λ p. new_task p (stack_size words) trampoline entry arg name)
        (malloc (u32 (stack_size words * 4)) h).0
        (find_slot s.tasks)
        s
        (task_create trampoline entry arg words name h s)
unfolding task_create
task_create-Placed trampoline entry arg words name h s = elim (Option-cases (find_slot s.tasks)) [
  | inl e ↦ rw (e, task_create) (inl (refl, refl, inl refl))
  | inr (slot, e) ↦
      rw (e, task_create)
        (place-Placed slot (stack_size words) trampoline entry arg name s
          (malloc (u32 (stack_size words * 4)) h))
]

-- mm_halow_sched_task_create keeps the task table well formed: a slot has a stack exactly while
-- the list names it, and then once.
pub task_create-IsTable :
    (trampoline entry arg words name : ℕ) (h : Heap) (s : Sched)
    → IsTable s
    → IsTable (task_create trampoline entry arg words name h s).2
task_create-IsTable trampoline entry arg words name h s v =
    elim (task_create-Placed trampoline entry arg words name h s) [
      | inl (o, e, w) ↦ rw e v
      | inr (i, p, fs, m, o, e) ↦
          let f = find_slot-some s.tasks i fs in
          rw e (
            enlist-IsTable i _ s v f.0 f.1
              (new_task-used p (stack_size words) trampoline entry arg name))
    ]

count_fill-replicate :
    (n : ℕ) (ws : List ℕ) → count_fill (replicate n stack_fill ++ ws) ≡ n + count_fill ws
unfolding count_fill
count_fill-replicate zero ws = omega arith
count_fill-replicate (suc n) ws = ground (arith, count_fill-replicate n ws)

take_all {ℓ} : {A : Type ℓ} (n : ℕ) (xs : List A) → length xs ≤ n → take n xs ≡ xs
take_all zero [] h = refl
take_all zero (x ∷ xs) h = absurd (omega arith)
take_all (suc n) [] h = refl
take_all (suc n) (x ∷ xs) h = ap (◌∷◌ x) (take_all n xs (omega arith))

pub length-initial_stack :
    (n trampoline : ℕ) → context_words ≤ n → length (initial_stack n trampoline) ≡ n
unfolding initial_stack
length-initial_stack n trampoline h =
    length-append (replicate (n - context_words) stack_fill)
      (replicate (context_words - 1) 0 ++ trampoline ∷ [])
    ∙ omega (arith, length-replicate (n - context_words) stack_fill)

-- A stack has room for a context, an even number of words, and all the words that were asked for.
pub stack_size_bounds :
    (n : ℕ)
    → n < 2 ^ 32 - 1
    → (n ≤ stack_size n)
      × (context_words ≤ stack_size n)
      × (stack_size n % 2 ≡ 0)
      × (stack_size n < n + 2 + context_words)
unfolding stack_size
stack_size_bounds n h = ground arith

-- A task that has not run yet reports all of its stack but the initial context as untouched.
pub stack_free_words-new :
    (p words trampoline entry arg name : ℕ)
    → words < 2 ^ 32 - 1
    → stack_free_words (some (new_task p (stack_size words) trampoline entry arg name))
      ≡ stack_size words - context_words
unfolding stack_free_words new_task initial_stack
stack_free_words-new p words trampoline entry arg name h =
    ap count_fill (
      take_all (stack_size words) _
        (omega (arith, length-initial_stack (stack_size words) trampoline room)))
    ∙ (count_fill-replicate (stack_size words - context_words)
          (replicate (context_words - 1) 0 ++ trampoline ∷ [])
        ∙ omega arith)
  where
    room : context_words ≤ stack_size words
    room = (stack_size_bounds words h).1
