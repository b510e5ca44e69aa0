-- ===== src/Sched/Switch/Entry.antt =====
-- The first switch to a task, into mm_halow_task_trampoline.
use mm_halow_driver.Base.{
  ℕ, ◌+◌, ◌-◌, ◌*◌, ◌%◌, ◌^◌, ◌≤◌, ◌<◌, ◌≡◌, sym, ap, subst, ◌∙◌, [], ◌∷◌, ◌++◌, arith,
  length-replicate, replicate, get_or,
}
use mm_halow_driver.Sched.{context_words, initial_stack, stack_fill, stack_size, new_task}
use mm_halow_driver.Sched.Tasks.{length-initial_stack, stack_size_bounds}
use mm_halow_driver.Sched.Switch.{Cpu, read, context_switch}
use mm_halow_driver.Sched.Switch.Memory.{Apart, read-same, off, read-split}
use mm_halow_driver.Sched.Switch.Contexts.{
  IsCpu, Holds, Resumed, saved_mem, saved_mem-outside, context_switch-Resumed, save_area,
  context_bytes,
}

-- The stack of a new task holds a context that starts the trampoline.
initial_stack-Holds :
    (m : ℕ → ℕ) (p n trampoline : ℕ)
    → context_words ≤ n
    → read m p n ≡ initial_stack n trampoline
    → Holds m (p + 4 * (n - context_words)) (replicate 16 0) (replicate 9 0) trampoline
unfolding initial_stack read
initial_stack-Holds m p n trampoline room e =
    let fill = replicate (n - context_words) stack_fill in
    let zeroes = replicate (context_words - 1) 0 ++ trampoline ∷ [] in
    let b = p + 4 * (n - context_words) in
    let whole =
      read-split m p fill zeroes (ap (read m p) (length-initial_stack n trampoline room) ∙ e) in
    let context : read m b context_words ≡ zeroes =
      subst (λ k. read m (p + 4 * k) context_words ≡ zeroes)
        (length-replicate (n - context_words) stack_fill) whole.1 in
    let halves = read-split m b (replicate 16 0) (replicate 9 0 ++ trampoline ∷ []) context in
    let ends = read-split m (b + 64) (replicate 9 0) (trampoline ∷ []) halves.1 in
    record {
      fpu_words = halves.0;
      core_words = ends.0;
      pc_word = ap m (omega arith) ∙ ap (λ l. get_or l 0 0) ends.1;
    }

-- A switch to a task that was just created, whose stack is in memory at the address `p` as it was set
-- up, enters the trampoline with an empty stack: the stack pointer is behind its last word, and is
-- aligned to eight bytes where the stack is. All the registers that are restored are zero.
pub switch-new_task :
    (d : Cpu) (p words trampoline entry arg name : ℕ)
    → IsCpu d
    → words < 2 ^ 32 - 1
    → p + 4 * stack_size words < 2 ^ 32
    → read d.mem p (stack_size words)
      ≡ (new_task p (stack_size words) trampoline entry arg name).words
    → d.r1 ≡ p + 4 * (new_task p (stack_size words) trampoline entry arg name).sp
    → Apart (save_area d) 26 p (stack_size words)
    → Apart d.r0 1 p (stack_size words)
    → p % 8 ≡ 0
    → Resumed
        (replicate 16 0)
        (replicate 9 0)
        trampoline
        (p + 4 * stack_size words)
        (context_switch d)
      × ((p + 4 * stack_size words) % 8 ≡ 0)
unfolding new_task
switch-new_task d p words trampoline entry arg name v small fits stack at area slot even = (
  record {
    fpu_back = r.fpu_back;
    core_back = r.core_back;
    pc_back = r.pc_back;
    sp_back = omega (arith, r.sp_back, at, bounds.1);
  },
  omega (arith, even, bounds.2),
)
  where
    n : ℕ
    n = stack_size words

    bounds : (words ≤ n) × (context_words ≤ n) × (n % 2 ≡ 0) × (n < words + 2 + context_words)
    bounds = stack_size_bounds words small

    stacked : read (saved_mem d) p n ≡ initial_stack n trampoline
    stacked =
        read-same d.mem (saved_mem d) p n (λ x l w.
          saved_mem-outside d v x (off (save_area d) 26 p n x l w area) (off d.r0 1 p n x l w slot))
        ∙ stack

    r :
        Resumed
          (replicate 16 0)
          (replicate 9 0)
          trampoline
          (d.r1 + context_bytes)
          (context_switch d)
    r =
        context_switch-Resumed d v (replicate 16 0) (replicate 9 0) trampoline
          (omega (arith, at, fits, bounds.1))
          (subst (λ a. Holds (saved_mem d) a (replicate 16 0) (replicate 9 0) trampoline) (sym at)
            (initial_stack-Holds (saved_mem d) p n trampoline bounds.1 stacked))
