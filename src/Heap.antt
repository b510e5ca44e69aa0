-- ===== src/Heap.antt =====
-- The driver's private heap, src/mm_halow_osal.c: a first-fit allocator over one pool taken from
-- the host. Blocks stand in address order in one list, so `next` is the rest of the list; the
-- list is empty when `mm_halow_heap_head` is NULL. `bytes` is the memory as the
-- holders of the blocks wrote it; the headers, which lie between, are the list and no part of it.
pub mod Layout
pub mod Merge
pub mod Live
pub mod Invariant
pub mod RoundTrip
pub mod Fit
pub mod Bytes
pub mod Calls
pub mod Pool
mod Checks
use mm_halow_driver.Base.{
  ℕ, ◌+◌, ◌-◌, ◌*◌, ◌/◌, Bool, true, false, ◌&&◌, ◌||◌, not, Option, none, some, List, [], ◌∷◌, ltb,
  leb, ◌==◌, if◌then◌else◌, u32, u32_max, add32,
}

-- MM_HALOW_HEAP_SIZE
abbrev pub heap_size : ℕ
heap_size = 96 * 1024

-- MM_HALOW_BLOCK_ALIGN
abbrev pub block_align : ℕ
block_align = 8

-- MM_HALOW_BLOCK_HDR: two words and a flag make 12 bytes, rounded up.
abbrev pub block_hdr : ℕ
block_hdr = 16

pub record Block : Type 0 where
  pub addr : ℕ
  pub size : ℕ
  pub used : Bool

pub record Heap : Type 0 where
  pub mem : Option ℕ
  pub blocks : List Block
  pub bytes : ℕ → ℕ

-- MM_HALOW_BLOCK_ROUND
abbrev pub block_round : ℕ → ℕ
block_round n = add32 n (block_align - 1) / 8 * 8

-- MM_HALOW_BLOCK_DATA and MM_HALOW_DATA_BLOCK
abbrev pub block_data : ℕ → ℕ
block_data b = b + block_hdr

abbrev pub data_block : ℕ → ℕ
data_block p = p - block_hdr

abbrev pub whole : ℕ → Block
whole base = record { addr = base; size = heap_size - block_hdr; used = false }

-- mm_halow_osal_init; the argument is what the host's mm_halow_port_heap_alloc returns.
pub init : Option ℕ → Heap → Bool × Heap
init alloc h = elim h.mem [
  | some base ↦ (true, h)
  | none ↦ elim alloc [
    | none ↦ (false, h)
    | some base ↦ (true, record h { mem = some base; blocks = whole base ∷ [] })
  ]
]

-- The body of the first-fit loop at the block that it takes.
unfoldable pub take_block : ℕ → Block → List Block → List Block
take_block n b bs =
    if leb (u32 (n + block_hdr + block_align)) b.size
    then record b { size = n; used = true } ∷ split ∷ bs
    else record b { used = true } ∷ bs
  where
    split : Block
    split = record { addr = b.addr + block_hdr + n; size = b.size - n - block_hdr; used = false }

abbrev pub keep_block : Block → Option (ℕ × List Block) → Option (ℕ × List Block)
keep_block b none = none
keep_block b (some (p, bs)) = some (p, b ∷ bs)

-- The first-fit loop: the data pointer that it finds, and the list as it leaves it.
unfoldable pub first_fit : ℕ → List Block → Option (ℕ × List Block)
first_fit n [] = none
first_fit n (b ∷ bs) =
    if b.used || ltb b.size n
    then keep_block b (first_fit n bs)
    else some (block_data b.addr, take_block n b bs)

abbrev pub commit : Heap → Option (ℕ × List Block) → Option ℕ × Heap
commit h none = (none, h)
commit h (some (p, bs)) = (some p, record h { blocks = bs })

-- mm_halow_osal_malloc
unfoldable pub malloc : ℕ → Heap → Option ℕ × Heap
malloc n h =
    if n == 0
    then (none, h)
    else if ltb heap_size n
    then (none, h)
    else commit h (first_fit (block_round n) h.blocks)

-- `MM_HALOW_DATA_BLOCK(ptr)->used = false`, with the block at address `a`.
pub release_block : ℕ → List Block → List Block
release_block a [] = []
release_block a (b ∷ bs) =
    if b.addr == a then record b { used = false } ∷ bs else b ∷ release_block a bs

-- `b->size += MM_HALOW_BLOCK_HDR + b->next->size`
abbrev pub merged : Block → Block → Block
merged b c = record b { size = add32 b.size (block_hdr + c.size) }

-- The loop of mm_halow_osal_free at the block `b`: a merge stays at `b`.
pub coalesce_from : Block → List Block → List Block
coalesce_from b [] = b ∷ []
coalesce_from b (c ∷ bs) = elim (not b.used && not c.used) [
  | true ↦ coalesce_from (merged b c) bs
  | false ↦ b ∷ coalesce_from c bs
]

pub coalesce : List Block → List Block
coalesce [] = []
coalesce (b ∷ bs) = coalesce_from b bs

-- mm_halow_osal_free. The argument is NULL or a pointer that the allocator gave out; a stray
-- pointer, which in C is undefined, changes nothing.
unfoldable pub free : Option ℕ → Heap → Heap
free none h = h
free (some p) h = record h { blocks = coalesce (release_block (data_block p) h.blocks) }

-- mm_halow_osal_deinit, for the heap; the pointer is what goes back to the host.
pub deinit : Heap → Option ℕ × Heap
deinit h = (h.mem, record h { mem = none; blocks = [] })

-- `memset(ptr, 0, n)` and `memcpy(dst, src, n)` on disjoint areas
pub memset0 : ℕ → ℕ → Heap → Heap
memset0 p n h = record h { bytes = λ a. if leb p a && ltb a (p + n) then 0 else h.bytes a }

pub memcpy : ℕ → ℕ → ℕ → Heap → Heap
memcpy dst src n h = record h {
  bytes = λ a. if leb dst a && ltb a (dst + n) then h.bytes (src + (a - dst)) else h.bytes a;
}

abbrev pub clear_new : ℕ → Option ℕ × Heap → Option ℕ × Heap
clear_new n (none, h) = (none, h)
clear_new n (some p, h) = (some p, memset0 p n h)

-- mmosal_calloc_
pub calloc : ℕ → ℕ → Heap → Option ℕ × Heap
calloc nitems size h =
    if not (nitems == 0) && ltb (u32_max / nitems) size
    then (none, h)
    else clear_new (u32 (nitems * size)) (malloc (u32 (nitems * size)) h)

-- `MM_HALOW_DATA_BLOCK(ptr)->size`, 0 for a pointer that names no block
pub block_size : ℕ → List Block → ℕ
block_size a [] = 0
block_size a (b ∷ bs) = if b.addr == a then b.size else block_size a bs

abbrev pub move_to : ℕ → ℕ → Option ℕ × Heap → Option ℕ × Heap
move_to p n (none, h) = (none, h)
move_to p n (some q, h) = (some q, free (some p) (memcpy q p n h))

-- mmosal_realloc_
pub realloc : Option ℕ → ℕ → Heap → Option ℕ × Heap
realloc none n h = malloc n h
realloc (some p) n h =
    if n == 0
    then (none, free (some p) h)
    else if leb n (block_size (data_block p) h.blocks)
    then (some p, h)
    else move_to p (block_size (data_block p) h.blocks) (malloc n h)

-- mmosal_free
pub free_ptr : Option ℕ → Heap → Heap
free_ptr p h = free p h

-- mmosal_malloc_dbg, mmosal_calloc_dbg and mmosal_realloc_dbg, with the name and the line of the caller
pub malloc_dbg : ℕ → ℕ → ℕ → Heap → Option ℕ × Heap
malloc_dbg n name line h = malloc n h

pub calloc_dbg : ℕ → ℕ → ℕ → ℕ → Heap → Option ℕ × Heap
calloc_dbg nitems size name line h = calloc nitems size h

pub realloc_dbg : Option ℕ → ℕ → ℕ → ℕ → Heap → Option ℕ × Heap
realloc_dbg p n name line h = realloc p n h
