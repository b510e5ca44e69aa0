-- ===== src/Sched.antt =====
-- The cooperative scheduler, src/mm_halow_sched.c: its state, the task table, and the operations
-- that are no loop over time. A task is named by its index in `mm_halow_tasks`; the list that
-- starts at `mm_halow_task_list` and goes on by `next` is the list of these indices.
pub mod Service
pub mod Tasks
pub mod Reap
pub mod Lifetime
pub mod Run
pub mod Wait
pub mod Yield
pub mod Switch
mod Checks
use mm_halow_driver.Base.{
  ℕ, zero, suc, ◌+◌, ◌-◌, ◌*◌, ◌/◌, ◌%◌, ◌^◌, Bool, true, false, ◌&&◌, ◌||◌, not, Option, none,
  some, List, [], ◌∷◌, ◌++◌, ltb, leb, ◌==◌, if◌then◌else◌, length, get_or, get_elem?, set, take,
  replicate, u32, add32, at_or_past,
}
use mm_halow_driver.Heap.{Heap, malloc, free}

-- MM_HALOW_SCHED_MAX_TASKS
abbrev pub max_tasks : ℕ
max_tasks = 4

-- MM_HALOW_CONTEXT_WORDS, with hardware floating point
abbrev pub context_words : ℕ
context_words = 10 + 16

-- MM_HALOW_STACK_FILL
abbrev pub stack_fill : ℕ
stack_fill = 0xa5a5_a5a5

-- MM_HALOW_TASK_READY and MM_HALOW_TASK_DEAD
pub data TaskState : Type 0 where
  ready dead : TaskState

-- mm_halow_task_t; `words` are the contents of the stack, lowest address first, and `sp` is an
-- index into them. `stack` is none for a free slot.
pub record Task : Type 0 where
  pub stack : Option ℕ
  pub stack_words : ℕ
  pub words : List ℕ
  pub sp : ℕ
  pub name : ℕ
  pub entry : ℕ
  pub arg : ℕ
  pub notify : ℕ
  pub state : TaskState

-- Who holds the claim on the transceiver: MM_HALOW_OWNER_NONE, _THREAD, _IRQ.
pub data Owner : Type 0 where
  nobody thread irq : Owner

-- The file's static variables.
pub record Sched : Type 0 where
  pub tasks : List Task
  pub queue : List ℕ
  pub cur : Option ℕ
  pub woken : Bool
  pub wake_at : ℕ
  pub running : Bool
  pub deadline : ℕ
  pub owner : Owner
  pub depth : ℕ
  pub wait_depth : ℕ
  pub in_callback : Bool
  pub teardown : Bool

-- A slot as memset leaves it.
abbrev pub free_slot : Task
free_slot = record {
  stack = none;
  stack_words = 0;
  words = [];
  sp = 0;
  name = 0;
  entry = 0;
  arg = 0;
  notify = 0;
  state = ready;
}

abbrev pub is_free : Task → Bool
is_free t = elim t.stack [ none ↦ true | some p ↦ false ]

abbrev pub is_ready : Task → Bool
is_ready t = elim t.state [ ready ↦ true | dead ↦ false ]

abbrev pub task_at : Sched → ℕ → Task
task_at s i = get_or s.tasks i free_slot

abbrev pub next_slot : Option ℕ → Option ℕ
next_slot none = none
next_slot (some i) = some (suc i)

-- The first slot with no stack.
pub find_slot : List Task → Option ℕ
find_slot [] = none
find_slot (t ∷ ts) = if is_free t then some 0 else next_slot (find_slot ts)

-- `(stack_words + 1) & ~1`, and at least a context
pub stack_size : ℕ → ℕ
stack_size n =
    let even = add32 n 1 / 2 * 2 in if ltb even context_words then context_words else even

-- The painted stack with the initial context: `pad` untouched words, then zeroes and the
-- trampoline in the slot that is popped into pc.
pub initial_stack : ℕ → ℕ → List ℕ
initial_stack n trampoline =
    replicate (n - context_words) stack_fill ++ (replicate (context_words - 1) 0 ++ trampoline ∷ [])

-- mm_halow_sched_wake
unfoldable pub wake : Sched → Sched
wake s = record s { woken = true }

-- The task as mm_halow_sched_task_create sets it up.
pub new_task : ℕ → ℕ → ℕ → ℕ → ℕ → ℕ → Task
unfolding initial_stack
new_task p words trampoline entry arg name = record {
  stack = some p;
  stack_words = words;
  words = initial_stack words trampoline;
  sp = words - context_words;
  name = name;
  entry = entry;
  arg = arg;
  notify = 0;
  state = ready;
}

-- Into its slot, to the end of the list.
pub enlist : ℕ → Task → Sched → Sched
unfolding wake
enlist slot t s = wake (record s { tasks = set s.tasks slot t; queue = s.queue ++ slot ∷ [] })

-- mm_halow_sched_task_create from the allocation of the stack on.
pub place : ℕ → ℕ → ℕ → ℕ → ℕ → ℕ → Sched → Option ℕ × Heap → Option ℕ × Heap × Sched
place slot words trampoline entry arg name s (none, h) = (none, h, s)
place slot words trampoline entry arg name s (some p, h) =
    (some slot, h, enlist slot (new_task p words trampoline entry arg name) s)

-- mm_halow_sched_task_create. The trampoline's address is the linker's.
pub task_create : ℕ → ℕ → ℕ → ℕ → ℕ → Heap → Sched → Option ℕ × Heap × Sched
task_create trampoline entry arg words name h s = elim (find_slot s.tasks) [
  | none ↦ (none, h, s)
  | some slot ↦
      let size = stack_size words in
      place slot size trampoline entry arg name s (malloc (u32 (size * 4)) h)
]

-- The loop of mm_halow_sched_stack_free_words.
pub count_fill : List ℕ → ℕ
count_fill [] = 0
count_fill (w ∷ ws) = if w == stack_fill then suc (count_fill ws) else 0

-- mm_halow_sched_stack_free_words
pub stack_free_words : Option Task → ℕ
unfolding count_fill
stack_free_words none = 0
stack_free_words (some t) = if is_free t then 0 else count_fill (take t.stack_words t.words)

pub mark_dead : ℕ → Sched → Sched
mark_dead i s = record s { tasks = set s.tasks i (record (task_at s i) { state = dead }) }

-- mm_halow_sched_task_delete, up to the switch away from a task that deletes itself.
pub task_delete : Option ℕ → Sched → Sched
unfolding wake mark_dead
task_delete (some i) s = wake (mark_dead i s)
task_delete none s = elim s.cur [ none ↦ s | some i ↦ wake (mark_dead i s) ]

-- mm_halow_sched_in_wait
pub in_wait : Sched → Bool
in_wait s = ltb 0 s.wait_depth

-- mm_halow_sched_task_current
pub task_current : Sched → Option ℕ
task_current s = s.cur

-- mm_halow_sched_wake_at_reset, at the clock reading `now`
pub wake_at_reset : ℕ → Sched → Sched
wake_at_reset now s = record s { wake_at = add32 now (2 ^ 31 - 1) }

-- mm_halow_sched_pending
unfoldable pub pending : ℕ → Sched → Bool
pending now s = s.woken || at_or_past now s.wake_at

-- mm_halow_pass_expired
pub pass_expired : ℕ → Sched → Bool
pass_expired now s = s.running && at_or_past now s.deadline

-- mm_halow_sched_over_budget
pub over_budget : ℕ → Sched → Bool
unfolding pass_expired
over_budget now s = elim s.cur [ none ↦ false | some t ↦ pass_expired now s ]

-- The part of mm_halow_sched_park before the switch, in a task.
pub note_wake_at : Bool → ℕ → Sched → Sched
note_wake_at timed at s =
    if timed && not (at_or_past at s.wake_at) then record s { wake_at = at } else s

pub unlink : ℕ → Sched → Sched
unlink i s = record s { tasks = set s.tasks i (record (task_at s i) { stack = none }) }

-- The loop of mm_halow_sched_reap over the rest of the list: what is kept of it, and the state.
pub reap_list : List ℕ → Heap → Sched → List ℕ × Heap × Sched
unfolding unlink
reap_list [] h s = ([], h, s)
reap_list (i ∷ is) h s = elim (is_ready (task_at s i)) [
  | true ↦ (let (kept, h', s') = reap_list is h s in (i ∷ kept, h', s'))
  | false ↦ reap_list is (free (task_at s i).stack h) (unlink i s)
]

-- mm_halow_sched_reap
pub reap : Heap → Sched → Heap × Sched
reap h s = let (kept, h', s') = reap_list s.queue h s in (h', record s' { queue = kept })

-- mm_halow_sched_deinit, at the clock reading `now`
pub deinit : ℕ → Sched → Sched
unfolding wake_at_reset
deinit now s = wake_at_reset now (record s {
  queue = [];
  cur = none;
  running = false;
  owner = nobody;
  depth = 0;
  woken = false;
  tasks = replicate max_tasks free_slot;
})
