-- ===== src/Heap/Live.antt =====
-- The heap of mm_halow_osal.c as a map from the pointers that are handed out to the sizes behind
-- them.
use mm_halow_driver.Base.{
  ℕ, ◌+◌, ◌%◌, ◌≤◌, ◌<◌, ◌≡◌, refl, false, Option, none, some, List, [], ◌∷◌, arith, inl, inr, ◌&&◌,
  not, ◌∙◌, Bool-cases, leb, ◌==◌, if◌then◌else◌,
}
use mm_halow_driver.Heap.{
  Block, heap_size, block_hdr, block_data, data_block, take_block, release_block, coalesce_from,
  merged, coalesce,
}
use mm_halow_driver.Heap.Layout.{
  Tiles, Tiles-le, IsRounded, FirstFit, here, there, coalesce_from-merge, coalesce_from-keep,
}

-- The size behind a pointer that is handed out.
abbrev pub live : List Block → ℕ → Option ℕ
live [] q = none
live (b ∷ bs) q = if b.used && (block_data b.addr == q) then some b.size else live bs q

pub live_below :
    (e a : ℕ) (bs : List Block) (q : ℕ) → Tiles e a bs → q < a + block_hdr → live bs q ≡ none
live_below e a [] q t h = refl
live_below e a (b ∷ bs) q t h = ground (arith, live_below e (a + block_hdr + b.size) bs q t.3)

-- Merging free blocks leaves the map alone.
pub live-coalesce_from :
    (b : Block) (bs : List Block) (q : ℕ) → live (coalesce_from b bs) q ≡ live (b ∷ bs) q
unfolding coalesce_from
live-coalesce_from b [] q = refl
live-coalesce_from b (c ∷ bs) q = elim (Bool-cases (not b.used && not c.used)) [
  | inl s ↦ rw (coalesce_from-merge b c bs s) (live-coalesce_from (merged b c) bs q ∙ ground arith)
  | inr s ↦ rw (coalesce_from-keep b c bs s) (ground (arith, live-coalesce_from c bs q))
]

pub live-coalesce : (bs : List Block) (q : ℕ) → live (coalesce bs) q ≡ live bs q
unfolding coalesce
live-coalesce [] q = refl
live-coalesce (b ∷ bs) q = live-coalesce_from b bs q

pub live-release_block :
    (e a : ℕ) (bs : List Block) (p q : ℕ)
    → Tiles e a bs
    → block_hdr ≤ p
    → live (release_block (data_block p) bs) q ≡ (if p == q then none else live bs q)
unfolding release_block
live-release_block e a [] p q t h = ground arith
live-release_block e a (b ∷ bs) p q t h = ground (
  arith,
  live-release_block e (a + block_hdr + b.size) bs p q t.3,
  live_below e (a + block_hdr + b.size) bs q t.3,
)

-- What taking a block for a request of `n` bytes does to the map; the block is at most `slack` bytes larger.
pub record Grants (slack n : ℕ) (bs : List Block) (p : ℕ) (cs : List Block) : Type 0 where
  pub size : ℕ
  pub enough : n ≤ size
  pub tight : size < n + slack
  pub fresh : live bs p ≡ none
  pub updated : (q : ℕ) → live cs q ≡ (if p == q then some size else live bs q)

take_block-Grants :
    (e a n : ℕ) (b : Block) (bs : List Block)
    → n ≤ heap_size
    → b.used ≡ false
    → n ≤ b.size
    → Tiles e a (b ∷ bs)
    → Grants 24 n (b ∷ bs) (block_data b.addr) (take_block n b bs)
unfolding take_block
take_block-Grants e a n b bs r u s t = record {
  size = if leb (n + block_hdr + 8) b.size then n else b.size;
  enough = ground arith;
  tight = ground arith;
  fresh = ground (arith, behind (block_data b.addr));
  updated = λ q. ground (arith, behind q);
}
  where
    behind : (q : ℕ) → q < a + block_hdr + b.size + block_hdr → live bs q ≡ none
    behind q = live_below e (a + block_hdr + b.size) bs q t.3

pub FirstFit-above :
    (e : ℕ) {n : ℕ} {bs : List Block} {p : ℕ} {cs : List Block}
    → FirstFit n bs p cs
    → (a : ℕ) → Tiles e a bs
    → a + block_hdr ≤ p
FirstFit-above e (here b bs u s) a t = omega arith
FirstFit-above e (there b u f) a t = omega (arith, FirstFit-above e f (a + block_hdr + b.size) t.3)

pass-Grants :
    {n : ℕ} (b : Block) {bs : List Block} {p : ℕ} {cs : List Block}
    → Grants 24 n bs p cs
    → block_data b.addr < p
    → Grants 24 n (b ∷ bs) p (b ∷ cs)
pass-Grants b {bs} {p} {cs} g h = record {
  size = g.size;
  enough = g.enough;
  tight = g.tight;
  fresh = ground (arith, g.fresh);
  updated = λ q. ground (arith, g.updated q);
}

-- A first fit gives out a pointer that nobody holds, with enough room and little more, and leaves
-- every other pointer as it was.
pub FirstFit-Grants :
    (e : ℕ) {n : ℕ} {bs : List Block} {p : ℕ} {cs : List Block}
    → n ≤ heap_size
    → FirstFit n bs p cs
    → (a : ℕ) → Tiles e a bs
    → Grants 24 n bs p cs
FirstFit-Grants e {n} r (here b bs u s) a t = take_block-Grants e a n b bs r u s t
FirstFit-Grants e r (there b u f) a t =
    pass-Grants b (FirstFit-Grants e r f (a + block_hdr + b.size) t.3)
      (omega (arith, FirstFit-above e f (a + block_hdr + b.size) t.3))

-- No two allocations overlap.
pub live_disjoint :
    (e a : ℕ) (bs : List Block) (p q m n : ℕ)
    → Tiles e a bs
    → live bs p ≡ some m
    → live bs q ≡ some n
    → p < q
    → p + m + block_hdr ≤ q
live_disjoint e a [] p q m n t hp hq lt = cc
live_disjoint e a (b ∷ bs) p q m n t hp hq lt = ground (
  arith,
  live_disjoint e (a + block_hdr + b.size) bs p q m n t.3,
  live_below e (a + block_hdr + b.size) bs q t.3,
  live_below e (a + block_hdr + b.size) bs p t.3,
)

-- An allocation lies inside the pool, behind a header, and is aligned with it.
pub live_bounds :
    (e a : ℕ) (bs : List Block) (p m : ℕ)
    → Tiles e a bs
    → a % 8 ≡ 0
    → live bs p ≡ some m
    → (a + block_hdr ≤ p) × (p + m ≤ e) × (p % 8 ≡ 0)
live_bounds e a [] p m t al h = cc
live_bounds e a (b ∷ bs) p m t al h = ground (
  arith,
  Tiles-le e (a + block_hdr + b.size) bs t.3,
  live_bounds e (a + block_hdr + b.size) bs p m t.3 (omega arith),
)

pub round-Grants :
    {n r : ℕ} {bs : List Block} {p : ℕ} {cs : List Block}
    → IsRounded n r
    → Grants 24 r bs p cs
    → Grants 32 n bs p cs
round-Grants i g = record {
  size = g.size;
  enough = omega arith;
  tight = omega arith;
  fresh = g.fresh;
  updated = g.updated;
}
