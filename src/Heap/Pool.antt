-- ===== src/Heap/Pool.antt =====
-- When the heap has its pool.
use mm_halow_driver.Base.{
  ℕ, ◌≡◌, refl, Bool, true, false, Option, none, some, inl, inr, Option-cases, arith, List,
}
use mm_halow_driver.Heap.{Heap, Block, malloc, init, deinit, commit, first_fit, block_round}

abbrev pub is_some : Option ℕ → Bool
is_some none = false
is_some (some p) = true

-- mm_halow_osal_init reports whether there is a pool behind it.
pub init-mem : (alloc : Option ℕ) (h : Heap) → is_some (init alloc h).1.mem ≡ (init alloc h).0
unfolding init
init-mem alloc h = elim (Option-cases h.mem) [
  | inr (b, e) ↦ rw (e, init) (rw e refl)
  | inl e ↦ elim (Option-cases alloc) [
    | inl f ↦ rw (e, init, f) (rw e refl)
    | inr (b, f) ↦ rw (e, init, f) refl
  ]
]

commit-mem : (h : Heap) (r : Option (ℕ × List Block)) → (commit h r).1.mem ≡ h.mem
commit-mem h none = refl
commit-mem h (some (p, bs)) = refl

-- An allocation leaves the pool.
pub malloc-mem : (n : ℕ) (h : Heap) → is_some (malloc n h).1.mem ≡ is_some h.mem
unfolding malloc
malloc-mem n h = ground (arith, commit-mem h (first_fit (block_round n) h.blocks))

-- mm_halow_osal_deinit gives it back.
pub deinit-mem : (h : Heap) → is_some (deinit h).1.mem ≡ false
unfolding deinit
deinit-mem h = refl
