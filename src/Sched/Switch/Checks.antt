-- ===== src/Sched/Switch/Checks.antt =====
-- Two contexts on a memory of zeroes, and a new task of the least stack.
use mm_halow_driver.Base.{◌+◌, ◌*◌, ◌%◌, ◌≡◌, refl, arith, inl, inr, replicate}
use mm_halow_driver.Sched.{stack_size, initial_stack, new_task}
use mm_halow_driver.Sched.Switch.{Cpu, write, read, context_switch, execute, execute_all}
use mm_halow_driver.Sched.Switch.Memory.{read-write}
use mm_halow_driver.Sched.Switch.Contexts.{IsCpu, Resumed, switch-switch}
use mm_halow_driver.Sched.Switch.Entry.{switch-new_task}

abbrev host_cpu : Cpu
host_cpu = record {
  r0 = 0x100;
  r1 = 0x5000;
  core = replicate 9 3;
  fpu = replicate 16 4;
  lr = 0x8001;
  sp = 0x2000;
  pc = 0x9000;
  mem = λ a. 0;
}

abbrev task_cpu : Cpu
task_cpu = record {
  r0 = 0x104;
  r1 = 0x1f98;
  core = replicate 9 7;
  fpu = replicate 16 8;
  lr = 0x8101;
  sp = 0x3000;
  pc = 0x9100;
  mem = (context_switch host_cpu).mem;
}

host_cpu-IsCpu : IsCpu host_cpu
host_cpu-IsCpu = record { core = refl; fpu = refl; room = omega arith; bounded = omega arith }

task_cpu-IsCpu : IsCpu task_cpu
task_cpu-IsCpu = record { core = refl; fpu = refl; room = omega arith; bounded = omega arith }

saved_at : 0x1f98 ≡ (context_switch host_cpu).mem 0x100
unfolding context_switch execute execute_all write
saved_at = refl

switch-switch_example :
    Resumed (replicate 16 4) (replicate 9 3) 0x8001 0x2000 (context_switch task_cpu)
switch-switch_example =
    switch-switch host_cpu task_cpu host_cpu-IsCpu task_cpu-IsCpu (inr (omega arith))
      (λ x l u. refl) saved_at (inr (omega arith)) (inl (omega arith))

-- A scheduler that is about to give a new task its first turn.
abbrev first_cpu : Cpu
first_cpu = record host_cpu { r1 = 0x4000; mem = write 0x4000 (initial_stack 26 0x8201) (λ a. 0) }

first_cpu-IsCpu : IsCpu first_cpu
first_cpu-IsCpu = record { core = refl; fpu = refl; room = omega arith; bounded = omega arith }

fresh_stack :
    read first_cpu.mem 0x4000 (stack_size 20) ≡ (new_task 0x4000 (stack_size 20) 0x8201 0 0 7).words
unfolding stack_size new_task initial_stack
fresh_stack = read-write 0x4000 (initial_stack 26 0x8201) (λ a. 0)

switch-new_task_example :
    Resumed
      (replicate 16 0)
      (replicate 9 0)
      0x8201
      (0x4000 + 4 * stack_size 20)
      (context_switch first_cpu)
    × ((0x4000 + 4 * stack_size 20) % 8 ≡ 0)
unfolding stack_size new_task
switch-new_task_example =
    switch-new_task first_cpu 0x4000 20 0x8201 0 0 7 first_cpu-IsCpu (omega arith) (omega arith)
      fresh_stack refl (inl (omega arith)) (inl (omega arith)) refl
