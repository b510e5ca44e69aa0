-- ===== src/Heap/Invariant.antt =====
-- The invariant of the heap of mm_halow_osal.c, kept by every entry point, and what each entry
-- point does to the allocations.
use mm_halow_driver.Base.{
  ℕ, ◌+◌, ◌≤◌, ◌<◌, ◌≡◌, refl, true, Option, none, some, List, arith, inl, inr, ap, ◌∙◌,
  Option-cases, ◌==◌, if◌then◌else◌,
}
use mm_halow_driver.Heap.{
  Block, Heap, heap_size, block_hdr, block_round, data_block, init, first_fit, commit, malloc,
  release_block, free,
}
use mm_halow_driver.Heap.Layout.{
  Tiles, IsPool, block_round-IsRounded, FirstFit, first_fit-FirstFit, FirstFit-Tiles,
  release_block-Tiles, coalesce-Tiles,
}
use mm_halow_driver.Heap.Merge.{Coalesced, coalesce-Coalesced, FirstFit-Coalesced}
use mm_halow_driver.Heap.Live.{
  live, Grants, FirstFit-Grants, round-Grants, live-coalesce, live-release_block,
}

-- The heap between two calls, while it holds the pool at `base`.
pub record IsHeap (base : ℕ) (h : Heap) : Type 0 where
  pub held : h.mem ≡ some base
  pub pool : IsPool base
  pub tiles : Tiles (base + heap_size) base h.blocks
  pub apart : Coalesced h.blocks

-- What a successful mm_halow_osal_malloc went through.
pub record Took (n : ℕ) (h : Heap) (p : ℕ) (h' : Heap) : Type 0 where
  pub nonzero : 0 < n
  pub bounded : n ≤ heap_size
  pub rest : List Block
  pub fit : FirstFit (block_round n) h.blocks p rest
  pub becomes : h' ≡ record h { blocks = rest }

commit-some :
    (h : Heap) (r : Option (ℕ × List Block)) {p : ℕ} {h' : Heap}
    → commit h r ≡ (some p, h')
    → (cs : List Block) × (r ≡ some (p, cs)) × (h' ≡ record h { blocks = cs })
commit-some h none e = absurd (ground arith)
commit-some h (some (q, cs)) e = (cs, ground arith, ground arith)

pub malloc-Took : (n : ℕ) (h : Heap) {p : ℕ} {h' : Heap} → malloc n h ≡ (some p, h') → Took n h p h'
unfolding malloc
malloc-Took n h {p} {h'} e = took (fits e)
  where
    fits :
        malloc n h ≡ (some p, h')
        → (0 < n) × (n ≤ heap_size) × (commit h (first_fit (block_round n) h.blocks) ≡ (some p, h'))
    fits e = ground arith

    took :
        (0 < n) × (n ≤ heap_size) × (commit h (first_fit (block_round n) h.blocks) ≡ (some p, h'))
        → Took n h p h'
    took f =
        let (cs, g, b) = commit-some h (first_fit (block_round n) h.blocks) f.2 in
        record {
          nonzero = f.0;
          bounded = f.1;
          rest = cs;
          fit = first_fit-FirstFit (block_round n) h.blocks g;
          becomes = b;
        }

Took-IsHeap :
    {base n : ℕ} {h : Heap} {p : ℕ} {h' : Heap} → IsHeap base h → Took n h p h' → IsHeap base h'
Took-IsHeap {base} {n} v t = rw t.becomes (record {
  held = v.held;
  pool = v.pool;
  tiles =
      FirstFit-Tiles (base + heap_size) v.pool.fits (omega arith) (omega arith) (omega arith) t.fit
        base v.tiles;
  apart = FirstFit-Coalesced t.fit v.apart;
})
  where
    open t use {nonzero, bounded}

commit-none : (h : Heap) (r : Option (ℕ × List Block)) → (commit h r).0 ≡ none → (commit h r).1 ≡ h
commit-none h none e = refl
commit-none h (some r) e = cc

-- A failed mm_halow_osal_malloc leaves the heap alone.
pub malloc_unchanged : (n : ℕ) (h : Heap) → (malloc n h).0 ≡ none → (malloc n h).1 ≡ h
unfolding malloc
malloc_unchanged n h e = ground (arith, commit-none h (first_fit (block_round n) h.blocks))

-- mm_halow_osal_malloc keeps the invariant, whether it succeeds or not.
pub malloc-IsHeap : {base : ℕ} {h : Heap} (n : ℕ) → IsHeap base h → IsHeap base (malloc n h).1
malloc-IsHeap {h = h} n v = elim (Option-cases (malloc n h).0) [
  | inl e ↦ rw (malloc_unchanged n h e) v
  | inr (p, e) ↦ Took-IsHeap v (malloc-Took n h (ap (λ (r : Option ℕ). (r, (malloc n h).1)) e))
]

-- mm_halow_osal_init establishes the invariant on the block that the host hands over.
pub init-IsHeap :
    (base : ℕ) (h : Heap)
    → IsPool base
    → h.mem ≡ none
    → ((init (some base) h).0 ≡ true) × IsHeap base (init (some base) h).1
unfolding init
init-IsHeap base h p e =
    rw (e, init) (refl, record { held = refl; pool = p; tiles = omega arith; apart = (tt, tt) })

-- mm_halow_osal_free keeps it, whatever pointer it is given.
pub free-IsHeap : {base : ℕ} {h : Heap} (p : Option ℕ) → IsHeap base h → IsHeap base (free p h)
unfolding free
free-IsHeap none v = v
free-IsHeap {base} {h} (some p) v = record {
  held = v.held;
  pool = v.pool;
  tiles =
      coalesce-Tiles (base + heap_size) v.pool.fits base _
        (release_block-Tiles (base + heap_size) v.pool.fits base (data_block p) h.blocks v.tiles);
  apart = coalesce-Coalesced (release_block (data_block p) h.blocks);
}

-- A successful mm_halow_osal_malloc(n) needs 0 < n ≤ MM_HALOW_HEAP_SIZE. It gives out a pointer
-- that nobody held, with room for n bytes and less than 32 to spare, and changes no other allocation and no byte.
pub malloc-Grants :
    {base : ℕ} {h : Heap} (n p : ℕ) (h' : Heap)
    → IsHeap base h
    → malloc n h ≡ (some p, h')
    → (0 < n) × (n ≤ heap_size) × Grants 32 n h.blocks p h'.blocks × (h'.bytes ≡ h.bytes)
malloc-Grants {base} {h} n p h' v e = granted (malloc-Took n h e)
  where
    granted :
        Took n h p h'
        → (0 < n) × (n ≤ heap_size) × Grants 32 n h.blocks p h'.blocks × (h'.bytes ≡ h.bytes)
    granted t = rw t.becomes (
      t.nonzero,
      t.bounded,
      round-Grants (block_round-IsRounded n t.bounded) (
          FirstFit-Grants (base + heap_size) (block_round-IsRounded n t.bounded).bounded t.fit base
            v.tiles),
      refl,
    )

-- mm_halow_osal_free(p) takes p from the map of allocations and leaves every other one.
pub free_forgets :
    {base : ℕ} {h : Heap} (p q : ℕ)
    → IsHeap base h
    → block_hdr ≤ p
    → live (free (some p) h).blocks q ≡ (if p == q then none else live h.blocks q)
unfolding free
free_forgets {base} {h} p q v g =
    live-coalesce (release_block (data_block p) h.blocks) q
    ∙ live-release_block (base + heap_size) base h.blocks p q v.tiles g
