-- ===== src/Heap/Bytes.antt =====
-- The bytes behind the pointers: mmosal_calloc_ clears them and mmosal_realloc_ carries them over.
use native.Mathlib.Nat.{le-div_iff_mul-le, mul_comm}
use mm_halow_driver.Base.{
  ℕ, ◌+◌, ◌-◌, ◌*◌, ◌/◌, ◌≤◌, ◌<◌, ◌≡◌, refl, false, Option, none, some, List, [], ◌∷◌, arith, inl,
  inr, ◌⊎◌, ◌≢◌, ◌&&◌, not, ap, sym, subst₂, ◌∙◌, Bool-cases, ltb, leb, ◌==◌, if◌then◌else◌, u32,
  u32_max,
}
use mm_halow_driver.Heap.{
  Block, Heap, heap_size, block_hdr, data_block, malloc, free, memset0, memcpy, clear_new, calloc,
  block_size, move_to, realloc,
}
use mm_halow_driver.Heap.Layout.{Tiles}
use mm_halow_driver.Heap.Live.{live, live_below, live_bounds, Grants}
use mm_halow_driver.Heap.Invariant.{
  IsHeap, malloc-IsHeap, malloc-Grants, malloc_unchanged, free-IsHeap, free_forgets,
}

-- The test of mmosal_calloc_ lets a product through only if it does not wrap.
product_fits : (k s : ℕ) → (not (k == 0) && ltb (u32_max / k) s) ≡ false → u32 (k * s) ≡ k * s
product_fits k s h = elim (Bool-cases (k == 0)) [
  | inl z ↦ ground arith
  | inr n ↦ omega (
    arith,
    (le-div_iff_mul-le {k = k} {x = s} {y = u32_max} (ground arith)).0 (ground arith),
    mul_comm k s,
  )
]

clear_new-some :
    (n : ℕ) (r : Option ℕ × Heap) {p : ℕ} {h' : Heap}
    → clear_new n r ≡ (some p, h')
    → (r ≡ (some p, r.1)) × (h' ≡ memset0 p n r.1)
clear_new-some n (none, h) e = absurd (ground arith)
clear_new-some n (some q, h) e = (ground arith, ground arith)

-- A successful mmosal_calloc_(k, s) gives room for all k * s bytes, without wrap-around, clears
-- them, changes no byte outside them and no other allocation.
pub calloc_clears :
    {base : ℕ} {h : Heap} (k s p : ℕ) (h' : Heap)
    → IsHeap base h
    → calloc k s h ≡ (some p, h')
    → Grants 32 (k * s) h.blocks p h'.blocks
      × ((a : ℕ) → h'.bytes a ≡ (if leb p a && ltb a (p + k * s) then 0 else h.bytes a))
unfolding calloc memset0
calloc_clears {h = h} k s p h' v e = elim (Bool-cases (not (k == 0) && ltb (u32_max / k) s)) [
  | inl over ↦ absurd (ground arith)
  | inr fits ↦ cleared (product_fits k s fits) (rw (fits, calloc) at e)
]
  where
    at_product :
        (malloc (k * s) h ≡ (some p, (malloc (k * s) h).1))
          × (h' ≡ memset0 p (k * s) (malloc (k * s) h).1)
        → Grants 32 (k * s) h.blocks p h'.blocks
          × ((a : ℕ) → h'.bytes a ≡ (if leb p a && ltb a (p + k * s) then 0 else h.bytes a))
    at_product m =
        let g = malloc-Grants (k * s) p (malloc (k * s) h).1 v m.0 in rw (m.1, g.3) (g.2, λ a. refl)

    cleared :
        u32 (k * s) ≡ k * s
        → clear_new (u32 (k * s)) (malloc (u32 (k * s)) h) ≡ (some p, h')
        → Grants 32 (k * s) h.blocks p h'.blocks
          × ((a : ℕ) → h'.bytes a ≡ (if leb p a && ltb a (p + k * s) then 0 else h.bytes a))
    cleared fits e = at_product (clear_new-some (k * s) (malloc (k * s) h) (rw fits at e))

-- mmosal_calloc_ refuses a product that a size_t cannot hold, and then leaves the heap alone.
pub calloc_overflow : (k s : ℕ) (h : Heap) → u32_max < k * s → calloc k s h ≡ (none, h)
unfolding calloc
calloc_overflow k s h o = elim (Bool-cases (not (k == 0) && ltb (u32_max / k) s)) [
  | inl over ↦ rw (over, calloc)
  | inr fits ↦ absurd (omega (arith, product_fits k s fits))
]

-- The size field that mmosal_realloc_ reads is the size behind the pointer.
block_size-live :
    (e a : ℕ) (bs : List Block) (p m : ℕ)
    → Tiles e a bs
    → live bs p ≡ some m
    → block_size (data_block p) bs ≡ m
unfolding block_size
block_size-live e a [] p m t h = cc
block_size-live e a (b ∷ bs) p m t h = ground (
  arith,
  live_below e (a + block_hdr + b.size) bs p t.3,
  block_size-live e (a + block_hdr + b.size) bs p m t.3,
)

-- What a successful resize of `p`, with `m` bytes behind it, to `n` bytes leaves.
pub record Resized (h : Heap) (p m n q : ℕ) (h' : Heap) : Type 0 where
  pub size : ℕ
  pub held : live h'.blocks q ≡ some size
  pub enough : n ≤ size
  pub copied : (i : ℕ) → i < m → h'.bytes (q + i) ≡ h.bytes (p + i)
  pub elsewhere : (a : ℕ) → (a < q) ⊎ (q + size ≤ a) → h'.bytes a ≡ h.bytes a
  pub given_back : p ≢ q → live h'.blocks p ≡ none
  pub others : (r : ℕ) → r ≢ p → r ≢ q → live h'.blocks r ≡ live h.blocks r

move_to-some :
    (p m : ℕ) (r : Option ℕ × Heap) {q : ℕ} {h' : Heap}
    → move_to p m r ≡ (some q, h')
    → (r ≡ (some q, r.1)) × (h' ≡ free (some p) (memcpy q p m r.1))
move_to-some p m (none, h) e = absurd (ground arith)
move_to-some p m (some q, h) e = (ground arith, ground arith)

moved :
    (p m n q : ℕ) (h g : Heap)
    → Grants 32 n h.blocks q g.blocks
    → g.bytes ≡ h.bytes
    → live h.blocks p ≡ some m
    → m < n
    → ((r : ℕ)
        → live (free (some p) (memcpy q p m g)).blocks r
          ≡ (if p == r then none else live g.blocks r))
    → Resized h p m n q (free (some p) (memcpy q p m g))
unfolding memcpy free
moved p m n q h g t same l lt forgets = record {
  size = t.size;
  held = ground (arith, forgets q, t.updated q, t.fresh);
  enough = t.enough;
  copied = λ i b. ground (arith, ap (λ (f : ℕ → ℕ). f (p + (q + i - q))) same);
  elsewhere = λ a o. ground (arith, t.enough, ap (λ (f : ℕ → ℕ). f a) same);
  given_back = λ ne. ground (arith, forgets p);
  others = λ r np nq. ground (arith, forgets r, t.updated r);
}

-- A pointer that is handed out stands behind a header.
live-hdr :
    {base : ℕ} {h : Heap} (p m : ℕ) → IsHeap base h → live h.blocks p ≡ some m → block_hdr ≤ p
live-hdr {base} {h} p m v l =
    omega (arith, (live_bounds (base + heap_size) base h.blocks p m v.tiles v.pool.aligned l).0)

copy-IsHeap : {base : ℕ} {g : Heap} (q p m : ℕ) → IsHeap base g → IsHeap base (memcpy q p m g)
unfolding memcpy
copy-IsHeap q p m v = record { held = v.held; pool = v.pool; tiles = v.tiles; apart = v.apart }

module _ {base : ℕ} {h : Heap} (p m n : ℕ) (v : IsHeap base h) (l : live h.blocks p ≡ some m) where
  realloc_grown :
      (q : ℕ) (h' : Heap) → m < n → move_to p m (malloc n h) ≡ (some q, h') → Resized h p m n q h'
  unfolding memcpy
  realloc_grown q h' lt e = from_parts (move_to-some p m (malloc n h) e)
    where
      g : Heap
      g = (malloc n h).1

      from_parts :
          (malloc n h ≡ (some q, g)) × (h' ≡ free (some p) (memcpy q p m g)) → Resized h p m n q h'
      from_parts r =
          let t = malloc-Grants n q g v r.0 in
          let w : IsHeap base (memcpy q p m g) = copy-IsHeap q p m (malloc-IsHeap n v) in
          rw r.1 (moved p m n q h g t.2 t.3 l lt (λ s. free_forgets p s w (live-hdr p m v l)))

  stays : n ≤ m → Resized h p m n p h
  stays le = record {
    size = m;
    held = l;
    enough = le;
    copied = λ i b. refl;
    elsewhere = λ a o. refl;
    given_back = λ ne. absurd (ne refl);
    others = λ r np nq. refl;
  }

  size_read : block_size (data_block p) h.blocks ≡ m
  size_read = block_size-live (base + heap_size) base h.blocks p m v.tiles l

  realloc_split :
      (q : Option ℕ) (h' : Heap)
      → 0 < n
      → realloc (some p) n h ≡ (q, h')
      → ((n ≤ m) × (some p ≡ q) × (h ≡ h')) ⊎ ((m < n) × (move_to p m (malloc n h) ≡ (q, h')))
  unfolding realloc
  realloc_split q h' nz e = elim (Bool-cases (leb n m)) [
    | inl le ↦ inl (ground arith, ground (arith, size_read), ground (arith, size_read))
    | inr gt ↦ inr (ground arith, ground (arith, size_read))
  ]

  move_to-none : (r : Option ℕ × Heap) {h' : Heap} → move_to p m r ≡ (none, h') → r ≡ (none, h')
  move_to-none (none, h) e = e
  move_to-none (some q, h) e = absurd (ground arith)

  -- A successful mmosal_realloc_(p, n) of an allocation of m bytes, n not 0, gives a pointer with
  -- room for n bytes that starts with the m old bytes; p is given back unless it is the pointer
  -- given, every other allocation stays, and no byte outside the new block changes.
  pub realloc_resizes :
      (q : ℕ) (h' : Heap) → 0 < n → realloc (some p) n h ≡ (some q, h') → Resized h p m n q h'
  realloc_resizes q h' nz e = elim (realloc_split (some q) h' nz e) [
    | inl (le, ep, eh) ↦ let same : p ≡ q = cc ep in subst₂ (Resized h p m n) same eh (stays le)
    | inr (lt, em) ↦ realloc_grown q h' lt em
  ]

  -- A failed one leaves the heap, and so the old allocation, as it was.
  pub realloc_keeps : (h' : Heap) → 0 < n → realloc (some p) n h ≡ (none, h') → h' ≡ h
  realloc_keeps h' nz e = elim (realloc_split none h' nz e) [
    | inl (le, ep, eh) ↦ absurd (cc)
    | inr (lt, em) ↦ failed (move_to-none (malloc n h) em)
  ]
    where
      failed : malloc n h ≡ (none, h') → h' ≡ h
      failed f =
          ap (λ (r : Option ℕ × Heap). r.1) (sym f)
          ∙ malloc_unchanged n h (ap (λ (r : Option ℕ × Heap). r.0) f)

memset-IsHeap : {base : ℕ} {g : Heap} (p n : ℕ) → IsHeap base g → IsHeap base (memset0 p n g)
unfolding memset0
memset-IsHeap p n v = record { held = v.held; pool = v.pool; tiles = v.tiles; apart = v.apart }

clear_new-IsHeap :
    {base : ℕ} (n : ℕ) (r : Option ℕ × Heap) → IsHeap base r.1 → IsHeap base (clear_new n r).1
clear_new-IsHeap n (none, h) v = v
clear_new-IsHeap n (some p, h) v = memset-IsHeap p n v

move_to-IsHeap :
    {base : ℕ} (p m : ℕ) (r : Option ℕ × Heap) → IsHeap base r.1 → IsHeap base (move_to p m r).1
move_to-IsHeap p m (none, h) v = v
move_to-IsHeap p m (some q, h) v = free-IsHeap (some p) (copy-IsHeap q p m v)

pub calloc-IsHeap : {base : ℕ} {h : Heap} (k s : ℕ) → IsHeap base h → IsHeap base (calloc k s h).1
unfolding calloc
calloc-IsHeap {h = h} k s v = elim (Bool-cases (not (k == 0) && ltb (u32_max / k) s)) [
  | inl over ↦ rw (over, calloc) v
  | inr fits ↦ rw (fits, calloc) (clear_new-IsHeap _ _ (malloc-IsHeap _ v))
]

pub realloc-IsHeap :
    {base : ℕ} {h : Heap} (p : Option ℕ) (n : ℕ) → IsHeap base h → IsHeap base (realloc p n h).1
unfolding realloc
realloc-IsHeap none n v = malloc-IsHeap n v
realloc-IsHeap {h = h} (some p) n v = ground (
  arith,
  free-IsHeap (some p) v,
  move_to-IsHeap p (block_size (data_block p) h.blocks) (malloc n h) (malloc-IsHeap n v),
)
