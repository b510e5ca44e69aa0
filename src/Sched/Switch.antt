-- ===== src/Sched/Switch.antt =====
-- mm_halow_context_switch, instruction by instruction, and the trampoline that a task starts in. The
-- core has hardware floating point; memory is words at byte addresses.
pub mod Memory
pub mod Contexts
pub mod Entry
mod Checks
use mm_halow_driver.Base.{
  ℕ, zero, suc, ◌+◌, ◌*◌, List, [], ◌∷◌, ◌++◌, Option, none, some, ◌==◌, if◌then◌else◌, length,
  add32, sub32,
}
use mm_halow_driver.Sched.{Sched, task_at, task_delete}

-- The registers that the switch handles: r0 and r1, r3 to r11, the 16 words of d8 to d15, lr, sp and pc.
pub record Cpu : Type 0 where
  pub r0 : ℕ
  pub r1 : ℕ
  pub core : List ℕ
  pub fpu : List ℕ
  pub lr : ℕ
  pub sp : ℕ
  pub pc : ℕ
  pub mem : ℕ → ℕ

-- Words from the address `a` upwards.
pub write : ℕ → List ℕ → (ℕ → ℕ) → ℕ → ℕ
write a [] m = m
write a (w ∷ ws) m = write (a + 4) ws (λ x. if x == a then w else m x)

pub read : (ℕ → ℕ) → ℕ → ℕ → List ℕ
read m a zero = []
read m a (suc n) = m a ∷ read m (a + 4) n

-- A push puts the lowest register at the lowest address.
abbrev pub push : List ℕ → Cpu → Cpu
push ws c = let sp = sub32 c.sp (4 * length ws) in record c { sp = sp; mem = write sp ws c.mem }

-- The instructions of mm_halow_context_switch
pub data Instruction : Type 0 where
  push_core vpush_fpu str_sp mov_sp vpop_fpu pop_core : Instruction

pub execute : Instruction → Cpu → Cpu
execute push_core c = push (c.core ++ c.lr ∷ []) c
execute vpush_fpu c = push c.fpu c
execute str_sp c = record c { mem = write c.r0 (c.sp ∷ []) c.mem }
execute mov_sp c = record c { sp = c.r1 }
execute vpop_fpu c = record c { fpu = read c.mem c.sp 16; sp = add32 c.sp (4 * 16) }
execute pop_core c = record c {
  core = read c.mem c.sp 9;
  pc = c.mem (c.sp + 4 * 9);
  sp = add32 c.sp (4 * 10);
}

pub execute_all : List Instruction → Cpu → Cpu
execute_all [] c = c
execute_all (i ∷ is) c = execute_all is (execute i c)

-- mm_halow_context_switch, called with `from_sp` in r0 and `to_sp` in r1
pub context_switch : Cpu → Cpu
context_switch = execute_all (push_core ∷ vpush_fpu ∷ str_sp ∷ mov_sp ∷ vpop_fpu ∷ pop_core ∷ [])

-- mm_halow_task_trampoline: `call` is the call of a task's main function with its argument.
pub task_trampoline : (ℕ → ℕ → Sched → Sched) → Sched → Sched
task_trampoline call s = elim s.cur [
  | none ↦ s
  | some i ↦ task_delete none (call (task_at s i).entry (task_at s i).arg s)
]
