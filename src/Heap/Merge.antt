-- ===== src/Heap/Merge.antt =====
-- No two free blocks of mm_halow_osal.c's list stand side by side: mm_halow_osal_free leaves the
-- list so, and mm_halow_osal_malloc keeps it so.
use mm_halow_driver.Base.{
  ℕ, ◌≡◌, refl, Bool, true, false, List, [], ◌∷◌, arith, inl, inr, ◌&&◌, ◌||◌, not, ap, ◌∙◌,
  Bool-cases,
}
use mm_halow_driver.Heap.{Block, take_block, coalesce_from, merged, coalesce}
use mm_halow_driver.Heap.Layout.{FirstFit, here, there, coalesce_from-merge, coalesce_from-keep}

-- The block before `bs` is in use, or the first of `bs` is, or there is none.
abbrev pub NoMerge : Bool → List Block → Type 0
NoMerge u [] = Unit {0}
NoMerge u (c ∷ bs) = (u || c.used) ≡ true

abbrev pub Coalesced : List Block → Type 0
Coalesced [] = Unit {0}
Coalesced (b ∷ bs) = NoMerge b.used bs × Coalesced bs

NoMerge-keep : (b c : Block) → (not b.used && not c.used) ≡ false → (b.used || c.used) ≡ true
NoMerge-keep b c h = ground arith

-- The head that the loop leaves has the flag of the block that it began at.
coalesce_from-NoMerge :
    (u : Bool) (b : Block) (bs : List Block) → (u || b.used) ≡ true → NoMerge u (coalesce_from b bs)
unfolding coalesce_from
coalesce_from-NoMerge u b [] h = h
coalesce_from-NoMerge u b (c ∷ bs) h = elim (Bool-cases (not b.used && not c.used)) [
  | inl s ↦ rw (coalesce_from-merge b c bs s) (coalesce_from-NoMerge u (merged b c) bs h)
  | inr s ↦ rw (coalesce_from-keep b c bs s) h
]

coalesce_from-Coalesced : (b : Block) (bs : List Block) → Coalesced (coalesce_from b bs)
unfolding coalesce_from
coalesce_from-Coalesced b [] = (tt, tt)
coalesce_from-Coalesced b (c ∷ bs) = elim (Bool-cases (not b.used && not c.used)) [
  | inl s ↦ rw (coalesce_from-merge b c bs s) (coalesce_from-Coalesced (merged b c) bs)
  | inr s ↦
      rw (coalesce_from-keep b c bs s)
        (coalesce_from-NoMerge b.used c bs (NoMerge-keep b c s), coalesce_from-Coalesced c bs)
]

-- One run of the loop leaves no pair of free neighbours, whatever it finds.
pub coalesce-Coalesced : (bs : List Block) → Coalesced (coalesce bs)
unfolding coalesce
coalesce-Coalesced [] = tt
coalesce-Coalesced (b ∷ bs) = coalesce_from-Coalesced b bs

-- On a list with no such pair it changes nothing.
pub coalesce_from_id :
    (b : Block) (bs : List Block) → NoMerge b.used bs → Coalesced bs → coalesce_from b bs ≡ b ∷ bs
unfolding coalesce_from
coalesce_from_id b [] h k = refl
coalesce_from_id b (c ∷ bs) h k =
    coalesce_from-keep b c bs (ground arith) ∙ ap (◌∷◌ b) (coalesce_from_id c bs k.0 k.1)

pub coalesce_id : (bs : List Block) → Coalesced bs → coalesce bs ≡ bs
unfolding coalesce
coalesce_id [] h = refl
coalesce_id (b ∷ bs) h = coalesce_from_id b bs h.0 h.1

-- Taking a free block of such a list leaves no pair of free neighbours.
take_block-Coalesced :
    (n : ℕ) (b : Block) (bs : List Block)
    → b.used ≡ false
    → NoMerge b.used bs
    → Coalesced bs
    → Coalesced (take_block n b bs)
unfolding take_block
take_block-Coalesced n b [] u h k = ground arith
take_block-Coalesced n b (c ∷ bs) u h k = ground arith

take_block-NoMerge :
    (v : Bool) (n : ℕ) (b : Block) (bs : List Block) → NoMerge v (take_block n b bs)
unfolding take_block
take_block-NoMerge v n b bs = ground arith

FirstFit-NoMerge :
    {n : ℕ} {bs : List Block} {p : ℕ} {cs : List Block} (v : Bool)
    → FirstFit n bs p cs
    → NoMerge v bs
    → NoMerge v cs
FirstFit-NoMerge {n} v (here b bs u s) h = take_block-NoMerge v n b bs
FirstFit-NoMerge v (there b u f) h = h

pub FirstFit-Coalesced :
    {n : ℕ} {bs : List Block} {p : ℕ} {cs : List Block}
    → FirstFit n bs p cs
    → Coalesced bs
    → Coalesced cs
FirstFit-Coalesced {n} (here b bs u s) h = take_block-Coalesced n b bs u h.0 h.1
FirstFit-Coalesced (there b u f) h = (FirstFit-NoMerge b.used f h.0, FirstFit-Coalesced f h.1)
