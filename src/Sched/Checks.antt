-- ===== src/Sched/Checks.antt =====
-- The scheduler on concrete tables, tasks and clocks.
use mm_halow_driver.Base.{
  ℕ, ◌*◌, ◌<◌, zero, suc, ◌+◌, ◌-◌, ◌%◌, ◌^◌, ◌≤◌, ◌≡◌, refl, Bool, true, false, none, some, [],
  ◌∷◌, arith, inl, leb, if◌then◌else◌, count,
}
use mm_halow_driver.Heap.{Heap, whole}
use mm_halow_driver.Heap.Layout.{IsPool}
use mm_halow_driver.Heap.Invariant.{IsHeap}
use mm_halow_driver.Sched.{
  stack_size, Sched, Task, nobody, thread, dead, free_slot, is_free, task_at, mark_dead, reap,
  task_create, task_delete, max_tasks,
}
use mm_halow_driver.Sched.Service.{
  from_thread, claim, World, claims, Reach, here, next, IsExclusive, Reach-IsExclusive,
}
use mm_halow_driver.Sched.Tasks.{IsTable}
use mm_halow_driver.Sched.Lifetime.{IsPopulation}
use mm_halow_driver.Sched.Run.{Machine, run_pass, first_of_list}
use mm_halow_driver.Sched.Run.Order.{Turns, run_pass-order}
use mm_halow_driver.Sched.Run.Idle.{Ahead}
use mm_halow_driver.Sched.Wait.{Host}
use mm_halow_driver.Sched.Wait.Total.{Flows}
use mm_halow_driver.Sched.Wait.Total.Teardown.{Tearing}
use mm_halow_driver.Sched.Wait.Rules.{Rule}

abbrev pub idle : Sched
idle = record {
  tasks = free_slot ∷ free_slot ∷ free_slot ∷ free_slot ∷ [];
  queue = [];
  cur = none;
  woken = false;
  wake_at = 100;
  running = false;
  deadline = 0;
  owner = nobody;
  depth = 0;
  wait_depth = 0;
  in_callback = false;
  teardown = false;
}

abbrev pub pool : Heap
pool = record { mem = some 0x1000; blocks = whole 0x1000 ∷ []; bytes = λ a. 0 }

pool-IsPool : IsPool 0x1000
pool-IsPool = omega arith

pool-IsHeap : IsHeap 0x1000 pool
pool-IsHeap = record { held = refl; pool = pool-IsPool; tiles = omega arith; apart = (tt, tt) }

-- tasks in the slots 0 and 1, of which the first is dead
abbrev dead_task : Task
dead_task = record free_slot { stack = some 0x1010; state = dead }

abbrev live_task : Task
live_task = record free_slot { stack = some 0x2010; name = 7 }

abbrev busy : Sched
busy = record idle {
  tasks = dead_task ∷ live_task ∷ free_slot ∷ free_slot ∷ [];
  queue = 0 ∷ 1 ∷ [];
}

idle-IsTable : IsTable idle
idle-IsTable = record { slots = refl; listed = listed }
  where
    listed : (i : ℕ) → count i idle.queue ≡ (if is_free (task_at idle i) then 0 else 1)
    listed zero = refl
    listed (suc zero) = refl
    listed (suc (suc zero)) = refl
    listed (suc (suc (suc zero))) = refl
    listed (suc (suc (suc (suc i)))) = refl

busy-IsTable : IsTable busy
busy-IsTable = record { slots = refl; listed = listed }
  where
    listed : (i : ℕ) → count i busy.queue ≡ (if is_free (task_at busy i) then 0 else 1)
    listed zero = refl
    listed (suc zero) = refl
    listed (suc (suc zero)) = refl
    listed (suc (suc (suc zero))) = refl
    listed (suc (suc (suc (suc i)))) = ground arith

abbrev start_world : World
start_world = record { sched = idle; by_thread = 0; by_irq = 0 }

start-IsExclusive : IsExclusive start_world
start-IsExclusive = record {
  counted = refl;
  one_owner = inl refl;
  nobodys = λ e. refl;
  threads = λ e. cc;
  irqs = λ e. cc;
}

abbrev held_world : World
held_world = record { sched = record idle { owner = thread; depth = 1 }; by_thread = 1; by_irq = 0 }

claimed : Reach start_world held_world
unfolding claim
claimed = next here (claims from_thread (omega arith))

Reach-IsExclusive_example : IsExclusive held_world
Reach-IsExclusive_example = Reach-IsExclusive claimed start-IsExclusive

-- The life of one task.
pub empty-IsPopulation : IsPopulation 0x1000 (pool, idle)
empty-IsPopulation = record { heap = pool-IsHeap; table = idle-IsTable }

abbrev life : Heap × Sched
life =
    let (slot, h, s) = task_create 0x100 0x200 0 512 7 pool idle in reap h (task_delete (some 0) s)

small_stack : stack_size 512 * 4 < 2 ^ 32
unfolding stack_size
small_stack = omega arith

-- The world counts turns; a task that gets one deletes itself.
abbrev count_turn : ℕ → Machine ℕ → Machine ℕ
count_turn i m = record m { sched = mark_dead i m.sched; env = m.env + 1 }

abbrev machine : Machine ℕ
machine = record { sched = busy; heap = pool; clock = λ n. n; reads = 0; env = 0 }

busy-once : (i : ℕ) → count i busy.queue ≤ 1
busy-once i = ground arith

run_pass-order_example :
    Turns count_turn busy.queue machine
      (run_pass count_turn max_tasks (first_of_list busy.queue) machine)
unfolding mark_dead
run_pass-order_example = run_pass-order count_turn (λ i m. refl) machine busy-once (omega arith)

near_wrap : Ahead (2 ^ 32 - 10) 5
near_wrap = ground arith

before_wrap : Ahead (2 ^ 32 - 10) (2 ^ 32 - 5)
before_wrap = ground arith

-- A host whose state is the time in milliseconds, where giving the turn away takes one.
abbrev clock_host : Host ℕ
clock_host = record {
  ticks = λ s. (s % 2 ^ 32, s);
  park = λ timed at s. s + 1;
  in_task = λ s. false;
  teardown = λ s. false;
  enter = λ s. s;
  leave = λ s. s;
  wake = λ s. s;
}

-- a condition that holds from the time 50 on
abbrev from_50 : ℕ → Bool × ℕ
from_50 s = (leb 50 s, s)

clock-Flows : Flows clock_host from_50 1
clock-Flows = record {
  instant = λ s. s;
  positive = omega arith;
  reads = λ s. omega arith;
  ticks_on = λ s. omega arith;
  ticks_few = λ s. omega arith;
  cond_on = λ s. omega arith;
  cond_few = λ s. omega arith;
  park_on = λ timed at s. omega arith;
  round_on = λ timed at s. omega arith;
  park_few = λ timed at s. omega arith;
  enter_on = λ s. omega arith;
  enter_few = λ s. omega arith;
  leave_on = λ s. omega arith;
  wake_on = λ s. omega arith;
}

clock-Rule : Rule clock_host from_50 (λ s. 7 ≤ s) (λ s. 50 ≤ s)
clock-Rule = record {
  ticks = λ s i. i;
  park = λ timed at s i. omega arith;
  enter = λ s i. i;
  leave = λ s i. i;
  fails = λ s i e. i;
  succeeds = λ s i e. ground arith;
  post_leave = λ s p. p;
  post_wake = λ s p. p;
}

-- The same host during teardown.
abbrev torn_host : Host ℕ
torn_host = record clock_host { teardown = λ s. true }

torn-Flows : Flows torn_host from_50 1
torn-Flows = record {
  instant = λ s. s;
  positive = omega arith;
  reads = λ s. omega arith;
  ticks_on = λ s. omega arith;
  ticks_few = λ s. omega arith;
  cond_on = λ s. omega arith;
  cond_few = λ s. omega arith;
  park_on = λ timed at s. omega arith;
  round_on = λ timed at s. omega arith;
  park_few = λ timed at s. omega arith;
  enter_on = λ s. omega arith;
  enter_few = λ s. omega arith;
  leave_on = λ s. omega arith;
  wake_on = λ s. omega arith;
}

torn-Tearing : Tearing torn_host from_50 1 torn-Flows
torn-Tearing = record { ticks = λ s e. refl; enter = λ s e. refl; tested = λ s e. refl }
