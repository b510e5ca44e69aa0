-- ===== src/Sched/Lifetime/Checks.antt =====
-- Two tasks and their stacks.
use mm_halow_driver.Base.{ℕ, zero, suc, ◌+◌, ◌*◌, ◌<◌, ◌≤◌, ◌^◌, ◌⊎◌, ◌≡◌, refl, some, none, arith}
use mm_halow_driver.Heap.{Heap, heap_size, malloc, first_fit, take_block}
use mm_halow_driver.Sched.{Sched, stack_size, place, enlist, new_task, find_slot, wake, task_create}
use mm_halow_driver.Sched.Checks.{pool, idle, empty-IsPopulation}
use mm_halow_driver.Sched.Lifetime.{creates, start, follow}
use mm_halow_driver.Sched.Lifetime.Stacks.{stack_of, HasStacks}
use mm_halow_driver.Sched.Lifetime.Disjoint.{stacks_disjoint}

abbrev one_task : Heap × Sched
one_task = let r = task_create 0x100 0x200 0 30 7 pool idle in (r.1, r.2)

-- Two tasks with 30 words each.
abbrev two_tasks : Heap × Sched
two_tasks = let r = task_create 0x100 0x300 0 30 8 one_task.0 one_task.1 in (r.1, r.2)

small_30 : stack_size 30 * 4 < 2 ^ 32
unfolding stack_size
small_30 = omega arith

first_stack : stack_of two_tasks.1 0 ≡ some (0x1010, 30)
unfolding task_create place enlist new_task find_slot stack_size wake malloc first_fit take_block
first_stack = refl

second_stack : stack_of two_tasks.1 1 ≡ some (0x1098, 30)
unfolding task_create place enlist new_task find_slot stack_size wake malloc first_fit take_block
second_stack = refl

none_yet : (i : ℕ) → stack_of idle i ≡ none
none_yet zero = refl
none_yet (suc zero) = refl
none_yet (suc (suc zero)) = refl
none_yet (suc (suc (suc zero))) = refl
none_yet (suc (suc (suc (suc i)))) = refl

no_stacks : HasStacks pool idle
no_stacks = record {
  held = λ i p w e. absurd (ground (arith, none_yet i, e));
  apart = λ i j p w x ne e d. ground (arith, none_yet i, e);
}

stacks_disjoint_example :
    (0x1000 ≤ 0x1010)
    × (0x1010 + 30 * 4 ≤ 0x1000 + heap_size)
    × ((0x1010 + 30 * 4 ≤ 0x1098) ⊎ (0x1098 + 30 * 4 ≤ 0x1010))
stacks_disjoint_example =
    stacks_disjoint 0 1 0x1010 0x1098 30 30
      (follow (follow start (creates 0x100 0x200 0 30 7 small_30))
        (creates 0x100 0x300 0 30 8 small_30))
      empty-IsPopulation no_stacks (omega arith) first_stack second_stack
