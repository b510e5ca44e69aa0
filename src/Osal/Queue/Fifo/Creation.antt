-- ===== src/Osal/Queue/Fifo/Creation.antt =====
-- mmosal_queue_create makes an empty queue, in memory that is large enough.
use mm_halow_driver.Base.{
  ℕ, zero, suc, ◌+◌, ◌-◌, ◌*◌, ◌/◌, ◌≤◌, ◌≡◌, refl, false, ◌&&◌, not, Option, none, some, [], arith,
  inl, inr, ltb, ◌==◌, replicate, sym, Bool-cases, length-replicate, u32, u32_max,
}
use native.Mathlib.Nat.{le-div_iff_mul-le, mod-eq_of_lt}
use mm_halow_driver.Heap.{Heap, malloc}
use mm_halow_driver.Osal.Queue.{Queue, queue_struct, set_up, create}
use mm_halow_driver.Osal.Queue.Fifo.{IsQueue, contents, items_from}

-- A ring that nothing was pushed into.
abbrev empty_ring : {A : Type 0} → A → ℕ → ℕ → Queue A
empty_ring unset n size = record {
  num_items = n;
  item_size = size;
  head = 0;
  tail = 0;
  count = 0;
  items = replicate n unset;
}

empty_ring-IsQueue : {A : Type 0} (unset : A) (n size : ℕ) → IsQueue (empty_ring unset n size)
empty_ring-IsQueue unset zero size = record {
  slots = refl;
  bounded = omega arith;
  head = inl refl;
  tail = inl refl;
}
empty_ring-IsQueue unset (suc n) size = record {
  slots = length-replicate (suc n) unset;
  bounded = omega arith;
  head = inr (omega arith);
  tail = inr (sym (mod-eq_of_lt (omega arith)));
}

set_up-ring :
    {A : Type 0} (unset : A) (n size : ℕ) (r : Option ℕ × Heap) (p : ℕ) (q : Queue A)
    → (set_up unset n size r).0 ≡ some (p, q)
    → q ≡ empty_ring unset n size
set_up-ring unset n size (none, h) p q e = cc
set_up-ring unset n size (some a, h) p q e = cc

-- The size test lets a queue through only if its size does not wrap.
size_fits :
    (n size : ℕ)
    → (not (size == 0) && ltb ((u32_max - queue_struct) / size) n) ≡ false
    → queue_struct + n * size ≤ u32_max
size_fits n size h = elim (Bool-cases (size == 0)) [
  | inl z ↦ ground arith
  | inr nz ↦ omega (
    arith,
    (le-div_iff_mul-le {k = size} {x = n} {y = u32_max - queue_struct} (ground arith)).0
        (ground arith),
  )
]

-- A queue that mmosal_queue_create makes is well formed, empty and as long as was asked for, and its
-- memory holds that many items: the size that was asked of the heap did not wrap.
pub create-IsQueue :
    {A : Type 0} (unset : A) (n size : ℕ) (h : Heap) (p : ℕ) (q : Queue A)
    → (create unset n size h).0 ≡ some (p, q)
    → IsQueue q
      × (contents unset q ≡ [])
      × (q.num_items ≡ n)
      × (queue_struct + n * size ≤ u32_max)
      × (create unset n size h ≡ set_up unset n size (malloc (queue_struct + n * size) h))
unfolding create contents items_from
create-IsQueue unset n size h p q e =
    elim (Bool-cases (not (size == 0) && ltb ((u32_max - queue_struct) / size) n)) [
      | inl over ↦ absurd (ground arith)
      | inr fits ↦
          let room = size_fits n size fits in
          let whole : u32 (queue_struct + n * size) ≡ queue_struct + n * size = omega arith in
          rw
            (set_up-ring unset n size (malloc (u32 (queue_struct + n * size)) h) p q (rw fits at e))
            (empty_ring-IsQueue unset n size, refl, refl, room, rw (fits, whole) refl)
    ]
