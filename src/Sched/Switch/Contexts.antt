-- ===== src/Sched/Switch/Contexts.antt =====
-- What mm_halow_context_switch saves of the context that it leaves, and restores of the one that it
-- goes to.
use mm_halow_driver.Base.{
  ℕ, ◌+◌, ◌-◌, ◌*◌, ◌^◌, ◌≤◌, ◌<◌, ◌≡◌, refl, sym, ap, subst, ◌∙◌, List, [], ◌∷◌, ◌++◌, arith, inl,
  inr, length, length-append, add32, sub32,
}
use mm_halow_driver.Sched.Switch.{Cpu, write, read, execute, execute_all, context_switch}
use mm_halow_driver.Sched.Switch.Memory.{
  Outside, Apart, write-outside, read-write, read-write_prefix, write-last, read-same, off,
}

-- The registers that the switch saves, and the address below the stack pointer that they go to.
abbrev pub context_bytes : ℕ
context_bytes = 4 * 26

abbrev pub save_area : Cpu → ℕ
save_area c = c.sp - context_bytes

-- All the registers are there, and the stack has room for them below a 32-bit address.
pub record IsCpu (c : Cpu) : Type 0 where
  pub core : length c.core ≡ 9
  pub fpu : length c.fpu ≡ 16
  pub room : context_bytes ≤ c.sp
  pub bounded : c.sp < 2 ^ 32

-- The memory that a switch leaves.
pub saved_mem : Cpu → ℕ → ℕ
saved_mem c =
    write c.r0 (save_area c ∷ [])
      (write (save_area c) c.fpu (write (save_area c + 64) (c.core ++ c.lr ∷ []) c.mem))

module _ (c : Cpu) (v : IsCpu c) where
  core_at : sub32 c.sp (4 * length (c.core ++ c.lr ∷ [])) ≡ save_area c + 64
  core_at = ground (arith, v.core, v.room, v.bounded, length-append c.core (c.lr ∷ []))

  fpu_at : sub32 (save_area c + 64) (4 * length c.fpu) ≡ save_area c
  fpu_at = omega (arith, v.fpu, v.room, v.bounded)

  context_switch-mem : (context_switch c).mem ≡ saved_mem c
  unfolding context_switch execute_all execute saved_mem
  context_switch-mem = rw (core_at, fpu_at) refl

  -- Outside of the save area and of the word for the stack pointer the memory stays.
  pub saved_mem-outside :
      (x : ℕ) → Outside (save_area c) 26 x → Outside c.r0 1 x → saved_mem c x ≡ c.mem x
  unfolding saved_mem
  saved_mem-outside x o slot =
      write-outside c.r0 (save_area c ∷ []) (write (save_area c) c.fpu cores) x slot
      ∙ write-outside (save_area c) c.fpu cores x (at_fpu o)
      ∙ write-outside (save_area c + 64) (c.core ++ c.lr ∷ []) c.mem x (at_core o)
    where
      cores : ℕ → ℕ
      cores = write (save_area c + 64) (c.core ++ c.lr ∷ []) c.mem

      at_fpu : Outside (save_area c) 26 x → Outside (save_area c) (length c.fpu) x
      at_fpu (inl h) = inl h
      at_fpu (inr h) = inr (omega (arith, v.fpu))

      at_core :
          Outside (save_area c) 26 x → Outside (save_area c + 64) (length (c.core ++ c.lr ∷ [])) x
      at_core (inl h) = inl (omega arith)
      at_core (inr h) = inr (omega (arith, v.core, length-append c.core (c.lr ∷ [])))

-- A context that a switch can restore, at the address `a`.
pub record Holds (m : ℕ → ℕ) (a : ℕ) (fpu core : List ℕ) (pc : ℕ) : Type 0 where
  pub fpu_words : read m a 16 ≡ fpu
  pub core_words : read m (a + 64) 9 ≡ core
  pub pc_word : m (a + 100) ≡ pc

Holds-same :
    (m m' : ℕ → ℕ) (a : ℕ) (fpu core : List ℕ) (pc : ℕ)
    → ((x : ℕ) → a ≤ x → x < a + context_bytes → m' x ≡ m x)
    → Holds m a fpu core pc
    → Holds m' a fpu core pc
Holds-same m m' a fpu core pc same h = record {
  fpu_words = read-same m m' a 16 (λ x l u. same x l (omega arith)) ∙ h.fpu_words;
  core_words =
      read-same m m' (a + 64) 9 (λ x l u. same x (omega arith) (omega arith)) ∙ h.core_words;
  pc_word = same (a + 100) (omega arith) (omega arith) ∙ h.pc_word;
}

module _ (c : Cpu) (v : IsCpu c) (clear : Apart (save_area c) 26 c.r0 1) where
  -- The switch leaves the context of the caller in its save area.
  pub saved_mem-Holds : Holds (saved_mem c) (save_area c) c.fpu c.core c.lr
  unfolding saved_mem
  saved_mem-Holds =
      Holds-same below (saved_mem c) (save_area c) c.fpu c.core c.lr
        (λ x l u. write-outside c.r0 (save_area c ∷ []) below x (slot x l u clear))
        (record {
          fpu_words =
              ap (read below (save_area c)) (sym v.fpu) ∙ read-write (save_area c) c.fpu cores;
          core_words =
              read-same cores below (save_area c + 64) 9 (λ x l u. beyond x (omega arith))
              ∙ ap (read cores (save_area c + 64)) (sym v.core)
              ∙ read-write_prefix (save_area c + 64) c.core (c.lr ∷ []) c.mem;
          pc_word =
              beyond (save_area c + 100) (omega arith)
              ∙ ap cores (omega (arith, v.core))
              ∙ write-last (save_area c + 64) c.core c.lr c.mem;
        })
    where
      cores : ℕ → ℕ
      cores = write (save_area c + 64) (c.core ++ c.lr ∷ []) c.mem

      below : ℕ → ℕ
      below = write (save_area c) c.fpu cores

      beyond : (x : ℕ) → save_area c + 64 ≤ x → below x ≡ cores x
      beyond x l = write-outside (save_area c) c.fpu cores x (inr (omega (arith, l, v.fpu)))

      slot :
          (x : ℕ)
          → save_area c ≤ x
          → x < save_area c + context_bytes
          → Apart (save_area c) 26 c.r0 1
          → Outside c.r0 1 x
      slot x l u (inl h) = inl (omega arith)
      slot x l u (inr h) = inr (omega arith)

-- The saved stack pointer is in its word.
stored : (c : Cpu) → saved_mem c c.r0 ≡ save_area c
unfolding saved_mem write
stored c = ground arith

-- What a switch arrives in: a context, with the stack pointer behind it.
pub record Resumed (fpu core : List ℕ) (pc sp : ℕ) (e : Cpu) : Type 0 where
  pub fpu_back : e.fpu ≡ fpu
  pub core_back : e.core ≡ core
  pub pc_back : e.pc ≡ pc
  pub sp_back : e.sp ≡ sp

module _ (d : Cpu) (v : IsCpu d) where
  pub context_switch-Resumed :
      (fpu core : List ℕ) (pc : ℕ)
      → d.r1 + context_bytes < 2 ^ 32
      → Holds (saved_mem d) d.r1 fpu core pc
      → Resumed fpu core pc (d.r1 + context_bytes) (context_switch d)
  unfolding context_switch execute_all execute saved_mem
  context_switch-Resumed fpu core pc fits h =
      let at : add32 d.r1 64 ≡ d.r1 + 64 = omega arith in
      rw (core_at d v, fpu_at d v, at)
        (record {
          fpu_back = h.fpu_words;
          core_back = h.core_words;
          pc_back = ap (saved_mem d) (omega arith) ∙ h.pc_word;
          sp_back = omega arith;
        })

-- A context that is switched away from, and switched back to by whoever runs then, comes back as it was:
-- with its floating point and callee-saved registers and its stack pointer, behind the call of the
-- switch. What ran in between may have done anything but write below its stack pointer where the
-- switch saved it, and is itself saved elsewhere.
pub switch-switch :
    (c d : Cpu)
    → IsCpu c
    → IsCpu d
    → Apart (save_area c) 26 c.r0 1
    → ((x : ℕ) → save_area c ≤ x → x < c.sp → d.mem x ≡ (context_switch c).mem x)
    → d.r1 ≡ (context_switch c).mem c.r0
    → Apart (save_area d) 26 (save_area c) 26
    → Apart d.r0 1 (save_area c) 26
    → Resumed c.fpu c.core c.lr c.sp (context_switch d)
switch-switch c d v u clear same back apart slot = record {
  fpu_back = r.fpu_back;
  core_back = r.core_back;
  pc_back = r.pc_back;
  sp_back = omega (arith, r.sp_back, at, v.room);
}
  where
    at : d.r1 ≡ save_area c
    at = back ∙ ap (λ m. m c.r0) (context_switch-mem c v) ∙ stored c

    outside : (x : ℕ) → save_area c ≤ x → x < save_area c + context_bytes → saved_mem d x ≡ d.mem x
    outside x l w =
        saved_mem-outside d u x (off (save_area d) 26 (save_area c) 26 x l w apart)
          (off d.r0 1 (save_area c) 26 x l w slot)

    kept :
        (x : ℕ) → save_area c ≤ x → x < save_area c + context_bytes → saved_mem d x ≡ saved_mem c x
    kept x l w =
        outside x l w ∙ same x l (omega (arith, v.room)) ∙ ap (λ m. m x) (context_switch-mem c v)

    r : Resumed c.fpu c.core c.lr (d.r1 + context_bytes) (context_switch d)
    r = context_switch-Resumed d u c.fpu c.core c.lr (omega (arith, at, v.bounded, v.room)) (
        subst (λ a. Holds (saved_mem d) a c.fpu c.core c.lr) (sym at)
          (Holds-same (saved_mem c) (saved_mem d) (save_area c) c.fpu c.core c.lr kept
            (saved_mem-Holds c v clear)))
