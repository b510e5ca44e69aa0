-- ===== src/Heap/RoundTrip.antt =====
-- mm_halow_osal_free undoes mm_halow_osal_malloc, and a pool with nothing handed out is one block.
use mm_halow_driver.Base.{
  ℕ, ◌+◌, ◌-◌, ◌^◌, ◌≤◌, ◌<◌, ◌≡◌, refl, Bool, true, false, some, List, [], ◌∷◌, arith, ap, ◌∙◌,
  All,
}
use mm_halow_driver.Heap.{
  Block, Heap, heap_size, block_hdr, block_data, data_block, whole, take_block, malloc,
  release_block, coalesce_from, coalesce, free,
}
use mm_halow_driver.Heap.Layout.{
  Tiles, Tiles-le, block_round-IsRounded, FirstFit, here, there, coalesce_from-merge,
  coalesce_from-keep,
}
use mm_halow_driver.Heap.Merge.{NoMerge, Coalesced, coalesce_from_id}
use mm_halow_driver.Heap.Invariant.{IsHeap, Took, malloc-Took}
use mm_halow_driver.Heap.Live.{FirstFit-above}

-- Releasing the block that was just taken, and merging, gives the list back.
release-take_block :
    (n : ℕ) (b : Block) (bs : List Block)
    → b.used ≡ false
    → n ≤ b.size
    → b.size < 2 ^ 32
    → n ≤ heap_size
    → NoMerge b.used bs
    → Coalesced bs
    → coalesce (release_block b.addr (take_block n b bs)) ≡ b ∷ bs
unfolding take_block release_block coalesce
release-take_block n b bs u s f r m k = ground (
  arith,
  coalesce_from_id b bs m k,
  coalesce_from-merge (record b { size = n; used = false })
      (record { addr = b.addr + block_hdr + n; size = b.size - n - block_hdr; used = false }) bs
      refl,
)

coalesce-keep :
    (b : Block) (bs : List Block) → NoMerge b.used bs → coalesce (b ∷ bs) ≡ b ∷ coalesce bs
unfolding coalesce coalesce_from
coalesce-keep b [] m = refl
coalesce-keep b (c ∷ bs) m = coalesce_from-keep b c bs (ground arith)

NoMerge-true : (bs : List Block) → NoMerge true bs
NoMerge-true [] = tt
NoMerge-true (b ∷ bs) = refl

-- The block given out stands behind the blocks that the walk passed.
release_block-pass :
    (e a : ℕ) {n : ℕ} (b : Block) {bs cs : List Block} {p : ℕ}
    → Tiles e a (b ∷ bs)
    → FirstFit n bs p cs
    → release_block (data_block p) (b ∷ cs) ≡ b ∷ release_block (data_block p) cs
unfolding release_block
release_block-pass e a b t f = ground (arith, FirstFit-above e f (a + block_hdr + b.size) t.3)

release-NoMerge :
    (e a : ℕ) {n : ℕ} {bs : List Block} {p : ℕ} {cs : List Block} (v : Bool)
    → FirstFit n bs p cs
    → Tiles e a bs
    → NoMerge v bs
    → NoMerge v (release_block (data_block p) cs)
release-NoMerge e a v (here b bs u s) t m =
    let taken : v ≡ true = ground arith in rw taken (NoMerge-true _)
release-NoMerge e a v (there b u f) t m = rw (release_block-pass e a b t f) m

release-FirstFit :
    (e : ℕ) {n : ℕ} {bs : List Block} {p : ℕ} {cs : List Block}
    → e < 2 ^ 32
    → n ≤ heap_size
    → FirstFit n bs p cs
    → (a : ℕ) → Tiles e a bs
    → Coalesced bs
    → coalesce (release_block (data_block p) cs) ≡ bs
release-FirstFit e {n} l r (here b bs u s) a t m = rw back (
    release-take_block n b bs u s (omega (arith, Tiles-le e (a + block_hdr + b.size) bs t.3)) r m.0
      m.1)
  where
    back : data_block (block_data b.addr) ≡ b.addr
    back = omega arith
release-FirstFit e l r (there b u f) a t m = rw (release_block-pass e a b t f) (
    coalesce-keep b _ (release-NoMerge e (a + block_hdr + b.size) b.used f t.3 m.0)
    ∙ ap (◌∷◌ b) (release-FirstFit e l r f (a + block_hdr + b.size) t.3 m.1))

-- What the walk took gives back the heap that it walked.
Took-free :
    {base n : ℕ} {h : Heap} {p : ℕ} {h' : Heap}
    → IsHeap base h
    → Took n h p h'
    → free (some p) h' ≡ h
unfolding free
Took-free {base} {h = h} {p} v t = rw t.becomes (
    ap (λ (bs : List Block). record h { blocks = bs })
      (release-FirstFit (base + heap_size) v.pool.fits (block_round-IsRounded _ t.bounded).bounded
        t.fit base v.tiles v.apart))

-- Freeing what mm_halow_osal_malloc just gave out gives back the heap as it was, block for block.
pub free-malloc :
    {base : ℕ} {h : Heap} (n p : ℕ) (h' : Heap)
    → IsHeap base h
    → malloc n h ≡ (some p, h')
    → free (some p) h' ≡ h
free-malloc {h = h} n p h' v e = Took-free v (malloc-Took n h e)

-- Nothing is handed out.
abbrev pub NoneUsed : List Block → Type 0
NoneUsed = All (λ (b : Block). b.used ≡ false)

one_block :
    (base : ℕ) (bs : List Block)
    → Tiles (base + heap_size) base bs
    → Coalesced bs
    → NoneUsed bs
    → bs ≡ whole base ∷ []
one_block base [] t c u = absurd (omega arith)
one_block base (b ∷ []) t c u = ground arith
one_block base (b ∷ d ∷ bs) t c u = absurd (ground arith)

-- Once everything is given back the pool is one free block again, so no fragmentation is left.
pub no_fragments :
    {base : ℕ} {h : Heap} → IsHeap base h → NoneUsed h.blocks → h.blocks ≡ whole base ∷ []
no_fragments {base} {h} v u = one_block base h.blocks v.tiles v.apart u
