-- ===== src/Heap/Layout.antt =====
-- The blocks of mm_halow_osal.c tile the pool: no gap, no overlap, no wrap-around of a size.
use mm_halow_driver.Base.{
  ℕ, ◌+◌, ◌-◌, ◌%◌, ◌^◌, ◌≤◌, ◌<◌, ◌≡◌, true, false, Option, none, some, List, [], ◌∷◌, arith, ◌⊎◌,
  inl, inr, subst, subst₂, ltb, ◌&&◌, ◌||◌, not, Bool-cases,
}
use mm_halow_driver.Heap.{
  Block, heap_size, block_hdr, block_round, block_data, take_block, first_fit, keep_block,
  release_block, coalesce_from, merged, coalesce,
}

-- From address `a` on, the blocks stand one behind the other up to `e`, with aligned sizes.
abbrev pub Tiles : ℕ → ℕ → List Block → Type 0
Tiles e a [] = a ≡ e
Tiles e a (b ∷ bs) =
    (b.addr ≡ a) × (8 ≤ b.size) × (b.size % 8 ≡ 0) × Tiles e (a + block_hdr + b.size) bs

-- A pool that the host gave is aligned and does not run past the end of the address space.
pub record IsPool (base : ℕ) : Type 0 where
  pub nonnull : 0 < base
  pub aligned : base % 8 ≡ 0
  pub fits : base + heap_size < 2 ^ 32

pub Tiles-le : (e a : ℕ) (bs : List Block) → Tiles e a bs → a ≤ e
Tiles-le e a [] t = omega arith
Tiles-le e a (b ∷ bs) t = omega (arith, Tiles-le e (a + block_hdr + b.size) bs t.3)

-- What MM_HALOW_BLOCK_ROUND gives for a size that the heap can serve.
pub record IsRounded (n r : ℕ) : Type 0 where
  pub enough : n ≤ r
  pub slack : r < n + 8
  pub aligned : r % 8 ≡ 0
  pub bounded : r ≤ heap_size

pub block_round-IsRounded : (n : ℕ) → n ≤ heap_size → IsRounded n (block_round n)
block_round-IsRounded n h = omega arith

-- The walk of the first-fit loop: it passes the blocks that are in use or too small, and takes the
-- first one that is neither.
pub data FirstFit (n : ℕ) : List Block → ℕ → List Block → Type 0 where
  here :
      (b : Block) (bs : List Block)
      → b.used ≡ false
      → n ≤ b.size
      → FirstFit n (b ∷ bs) (block_data b.addr) (take_block n b bs)
  there :
      (b : Block) {bs cs : List Block} {p : ℕ}
      → (b.used ≡ true) ⊎ (b.size < n)
      → FirstFit n bs p cs
      → FirstFit n (b ∷ bs) p (b ∷ cs)

skipped : (n : ℕ) (b : Block) → (b.used || ltb b.size n) ≡ true → (b.used ≡ true) ⊎ (b.size < n)
skipped n b h = ground arith

keep_block-some :
    (b : Block) (r : Option (ℕ × List Block)) {p : ℕ} {cs : List Block}
    → keep_block b r ≡ some (p, cs)
    → (ds : List Block) × (r ≡ some (p, ds)) × (cs ≡ b ∷ ds)
keep_block-some b none h = cc
keep_block-some b (some (q, ds)) {p} h = (ds, ground arith, ground arith)

pub first_fit-FirstFit :
    (n : ℕ) (bs : List Block) {p : ℕ} {cs : List Block}
    → first_fit n bs ≡ some (p, cs)
    → FirstFit n bs p cs
unfolding first_fit
first_fit-FirstFit n [] f = cc
first_fit-FirstFit n (b ∷ bs) {p} {cs} f = elim (Bool-cases (b.used || ltb b.size n)) [
  | inl s ↦
      let (ds, g, e) = keep_block-some b (first_fit n bs) (rw (s, first_fit) at f) in
      rw e (there b (skipped n b s) (first_fit-FirstFit n bs g))
  | inr s ↦ stop s (rw (s, first_fit) at f)
]
  where
    stop :
        (b.used || ltb b.size n) ≡ false
        → ◌≡◌ {A = Option (ℕ × List Block)}
            (some (block_data b.addr, take_block n b bs))
            (some (p, cs))
        → FirstFit n (b ∷ bs) p cs
    stop s g =
        let at_p : block_data b.addr ≡ p = ground arith in
        let at_cs : take_block n b bs ≡ cs = ground arith in
        subst₂ (FirstFit n (b ∷ bs)) at_p at_cs (here b bs (ground arith) (ground arith))

pub coalesce_from-merge :
    (b c : Block) (bs : List Block)
    → (not b.used && not c.used) ≡ true
    → coalesce_from b (c ∷ bs) ≡ coalesce_from (merged b c) bs
unfolding coalesce_from
coalesce_from-merge b c bs s = rw (s, coalesce_from)

pub coalesce_from-keep :
    (b c : Block) (bs : List Block)
    → (not b.used && not c.used) ≡ false
    → coalesce_from b (c ∷ bs) ≡ b ∷ coalesce_from c bs
unfolding coalesce_from
coalesce_from-keep b c bs s = rw (s, coalesce_from)

module _ (e : ℕ) (bounded : e < 2 ^ 32) where
  take_block-Tiles :
      (a n : ℕ) (b : Block) (bs : List Block)
      → 8 ≤ n
      → n ≤ heap_size
      → n % 8 ≡ 0
      → n ≤ b.size
      → Tiles e a (b ∷ bs)
      → Tiles e a (take_block n b bs)
  unfolding take_block
  take_block-Tiles a n b bs p q r s t = ground (arith, tail)
    where
      tail :
          n + block_hdr ≤ b.size
          → Tiles e (a + block_hdr + n + block_hdr + (b.size - n - block_hdr)) bs
      tail h = subst (λ k. Tiles e k bs) (omega arith) t.3

  pub FirstFit-Tiles :
      {n : ℕ} {bs : List Block} {p : ℕ} {cs : List Block}
      → 8 ≤ n
      → n ≤ heap_size
      → n % 8 ≡ 0
      → FirstFit n bs p cs
      → (a : ℕ) → Tiles e a bs
      → Tiles e a cs
  FirstFit-Tiles {n} p q r (here b bs u s) a t = take_block-Tiles a n b bs p q r s t
  FirstFit-Tiles p q r (there b u f) a t =
      (t.0, t.1, t.2, FirstFit-Tiles p q r f (a + block_hdr + b.size) t.3)

  pub release_block-Tiles :
      (a d : ℕ) (bs : List Block) → Tiles e a bs → Tiles e a (release_block d bs)
  unfolding release_block
  release_block-Tiles a d [] t = t
  release_block-Tiles a d (b ∷ bs) t =
      ground (arith, release_block-Tiles (a + block_hdr + b.size) d bs t.3)

  pub coalesce_from-Tiles :
      (a : ℕ) (b : Block) (bs : List Block) → Tiles e a (b ∷ bs) → Tiles e a (coalesce_from b bs)
  unfolding coalesce_from
  coalesce_from-Tiles a b [] t = t
  coalesce_from-Tiles a b (c ∷ bs) t = elim (Bool-cases (not b.used && not c.used)) [
    | inl s ↦ rw (coalesce_from-merge b c bs s) (
        coalesce_from-Tiles a (merged b c) bs
          (t.0, omega (arith, room), omega (arith, room, t.3.2), tail))
    | inr s ↦
        rw (coalesce_from-keep b c bs s)
          (t.0, t.1, t.2, coalesce_from-Tiles (a + block_hdr + b.size) c bs t.3)
  ]
    where
      room : a + block_hdr + b.size + block_hdr + c.size ≤ e
      room = Tiles-le e (a + block_hdr + b.size + block_hdr + c.size) bs t.3.3

      tail : Tiles e (a + block_hdr + (merged b c).size) bs
      tail = subst (λ k. Tiles e k bs) (omega (arith, room)) t.3.3

  pub coalesce-Tiles : (a : ℕ) (bs : List Block) → Tiles e a bs → Tiles e a (coalesce bs)
  unfolding coalesce
  coalesce-Tiles a [] t = t
  coalesce-Tiles a (b ∷ bs) t = coalesce_from-Tiles a b bs t
