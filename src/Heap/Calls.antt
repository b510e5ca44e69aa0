-- ===== src/Heap/Calls.antt =====
-- Any sequence of calls on the heap of mm_halow_osal.c, from mm_halow_osal_init on.
use mm_halow_driver.Base.{
  ℕ, ◌+◌, ◌≤◌, ◌≡◌, Option, none, some, List, [], ◌∷◌, ◌⊎◌, inl, inr, ◌≢◌, arith,
}
use native.Mathlib.Decide.{dec_lt}
use mm_halow_driver.Heap.{Heap, heap_size, block_hdr, init, malloc, free, calloc, realloc}
use mm_halow_driver.Heap.Layout.{IsPool}
use mm_halow_driver.Heap.Live.{live, live_disjoint}
use mm_halow_driver.Heap.Invariant.{IsHeap, init-IsHeap, malloc-IsHeap, free-IsHeap}
use mm_halow_driver.Heap.Bytes.{calloc-IsHeap, realloc-IsHeap}

-- A call of the allocator, with its arguments.
pub data Call : Type 0 where
  mallocs : ℕ → Call
  frees : Option ℕ → Call
  callocs : ℕ → ℕ → Call
  reallocs : Option ℕ → ℕ → Call

unfoldable pub step : Call → Heap → Heap
step (mallocs n) h = (malloc n h).1
step (frees p) h = free p h
step (callocs k s) h = (calloc k s h).1
step (reallocs p n) h = (realloc p n h).1

unfoldable pub run : List Call → Heap → Heap
run [] h = h
run (c ∷ cs) h = run cs (step c h)

step-IsHeap : {base : ℕ} {h : Heap} (c : Call) → IsHeap base h → IsHeap base (step c h)
unfolding step
step-IsHeap (mallocs n) v = malloc-IsHeap n v
step-IsHeap (frees p) v = free-IsHeap p v
step-IsHeap (callocs k s) v = calloc-IsHeap k s v
step-IsHeap (reallocs p n) v = realloc-IsHeap p n v

pub run-IsHeap : {base : ℕ} (h : Heap) (cs : List Call) → IsHeap base h → IsHeap base (run cs h)
unfolding run
run-IsHeap h [] v = v
run-IsHeap h (c ∷ cs) v = run-IsHeap (step c h) cs (step-IsHeap c v)

-- A pointer that C lets a caller give back: NULL, or one that is handed out.
abbrev pub Owned : Option ℕ → Heap → Type 0
Owned none h = Unit
Owned (some p) h = (m : ℕ) × (live h.blocks p ≡ some m)

abbrev pub IsLegal : Call → Heap → Type 0
IsLegal (mallocs n) h = Unit
IsLegal (frees p) h = Owned p h
IsLegal (callocs k s) h = Unit
IsLegal (reallocs p n) h = Owned p h

-- Each call is legal in the heap that the calls before it leave.
unfoldable pub AreLegal : List Call → Heap → Type 0
AreLegal [] h = Unit
AreLegal (c ∷ cs) h = IsLegal c h × AreLegal cs (step c h)

-- After mm_halow_osal_init and any sequence of calls that frees and resizes only NULL and what is
-- handed out at that point, with any sizes, the heap is well formed: its blocks tile the pool and
-- no two free ones are neighbours.
pub run-init-IsHeap :
    (base : ℕ) (h : Heap) (cs : List Call)
    → IsPool base
    → h.mem ≡ none
    → AreLegal cs (init (some base) h).1
    → IsHeap base (run cs (init (some base) h).1)
run-init-IsHeap base h cs p e legal = run-IsHeap _ cs (init-IsHeap base h p e).1

-- After any sequence of calls on a well-formed heap no two allocations overlap: there is room for
-- a block header between them.
pub run_disjoint :
    {base : ℕ} {h : Heap} (cs : List Call) (p q m n : ℕ)
    → IsHeap base h
    → live (run cs h).blocks p ≡ some m
    → live (run cs h).blocks q ≡ some n
    → p ≢ q
    → (p + m + block_hdr ≤ q) ⊎ (q + n + block_hdr ≤ p)
run_disjoint {base} {h} cs p q m n v hp hq ne = elim (dec_lt p q) [
  | yes lt ↦ inl (live_disjoint (base + heap_size) base _ p q m n w.tiles hp hq lt)
  | no ge ↦ inr (live_disjoint (base + heap_size) base _ q p n m w.tiles hq hp (omega arith))
]
  where
    w : IsHeap base (run cs h)
    w = run-IsHeap h cs v
