-- ===== src/Heap/Fit.antt =====
-- When mm_halow_osal_malloc fails.
use mm_halow_driver.Base.{
  ℕ, ◌<◌, ◌≡◌, refl, true, Option, none, some, List, [], ◌∷◌, arith, inl, inr, ◌⊎◌, All, ◌↔◌,
}
use mm_halow_driver.Heap.{
  Block, Heap, heap_size, block_round, first_fit, keep_block, commit, malloc,
}

-- Every block is in use or too small for `n` bytes.
abbrev pub NoneFits : ℕ → List Block → Type 0
NoneFits n = All (λ (b : Block). (b.used ≡ true) ⊎ (b.size < n))

keep_block-none : (b : Block) (r : Option (ℕ × List Block)) → (keep_block b r ≡ none) ↔ (r ≡ none)
keep_block-none b none = (λ _. refl, λ _. refl)
keep_block-none b (some r) = (λ h. cc, λ h. cc)

first_fit-NoneFits : (n : ℕ) (bs : List Block) → first_fit n bs ≡ none → NoneFits n bs
unfolding first_fit
first_fit-NoneFits n [] h = tt
first_fit-NoneFits n (b ∷ bs) h =
    ground (arith, keep_block-none b (first_fit n bs), first_fit-NoneFits n bs)

NoneFits-first_fit : (n : ℕ) (bs : List Block) → NoneFits n bs → first_fit n bs ≡ none
unfolding first_fit
NoneFits-first_fit n [] h = refl
NoneFits-first_fit n (b ∷ bs) h = ground (arith, NoneFits-first_fit n bs h.1)

commit-none : (h : Heap) (r : Option (ℕ × List Block)) → ((commit h r).0 ≡ none) ↔ (r ≡ none)
commit-none h none = (λ _. refl, λ _. refl)
commit-none h (some r) = (λ h. cc, λ h. cc)

-- mm_halow_osal_malloc(n) gives NULL exactly when n is 0, n is more than MM_HALOW_HEAP_SIZE, or
-- every block is in use or smaller than n rounded up.
pub malloc-none_iff :
    (n : ℕ) (h : Heap)
    → ((malloc n h).0 ≡ none) ↔ ((n ≡ 0) ⊎ (heap_size < n) ⊎ NoneFits (block_round n) h.blocks)
unfolding malloc
malloc-none_iff n h = (to, from)
  where
    fit :
        ((commit h (first_fit (block_round n) h.blocks)).0 ≡ none)
        ↔ (first_fit (block_round n) h.blocks ≡ none)
    fit = commit-none h (first_fit (block_round n) h.blocks)

    to : (malloc n h).0 ≡ none → (n ≡ 0) ⊎ (heap_size < n) ⊎ NoneFits (block_round n) h.blocks
    to e = ground (arith, fit, first_fit-NoneFits (block_round n) h.blocks)

    from : (n ≡ 0) ⊎ (heap_size < n) ⊎ NoneFits (block_round n) h.blocks → (malloc n h).0 ≡ none
    from (inl e) = ground arith
    from (inr (inl e)) = ground arith
    from (inr (inr e)) = ground (arith, fit, NoneFits-first_fit (block_round n) h.blocks e)
