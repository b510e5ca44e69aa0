-- ===== src/Osal/Queue.antt =====
-- The queues of mm_halow_osal.c: a ring of slots. An item is the bytes that memcpy moves in one
-- call, `item_size` of them; `A` is what they stand for.
pub mod Fifo
pub mod History
pub mod Waits
mod Checks
use mm_halow_driver.Base.{
  ℕ, ◌+◌, ◌-◌, ◌*◌, ◌/◌, ◌%◌, Bool, true, false, ◌&&◌, not, Option, none, some, List, ltb, ◌==◌,
  if◌then◌else◌, get_or, set, replicate, u32, u32_max,
}
use mm_halow_driver.Heap.{Heap, malloc}
use mm_halow_driver.Sched.Wait.{Host, wait}

-- struct mmosal_queue
pub record Queue (A : Type 0) : Type 0 where
  pub num_items : ℕ
  pub item_size : ℕ
  pub head : ℕ
  pub tail : ℕ
  pub count : ℕ
  pub items : List A

-- sizeof(struct mmosal_queue)
abbrev pub queue_struct : ℕ
queue_struct = 24

abbrev pub set_up : {A : Type 0} → A → ℕ → ℕ → Option ℕ × Heap → Option (ℕ × Queue A) × Heap
set_up unset n size (none, h) = (none, h)
set_up unset n size (some p, h) = (
  some (
    p,
    record {
      num_items = n;
      item_size = size;
      head = 0;
      tail = 0;
      count = 0;
      items = replicate n unset;
    },
  ),
  h,
)

-- mmosal_queue_create, with the address of the queue; `unset` is what a slot holds before the first
-- push.
unfoldable pub create : {A : Type 0} → A → ℕ → ℕ → Heap → Option (ℕ × Queue A) × Heap
create unset n size h =
    if not (size == 0) && ltb ((u32_max - queue_struct) / size) n
    then (none, h)
    else set_up unset n size (malloc (u32 (queue_struct + n * size)) h)

module _ {A : Type 0} where
  -- mmosal_queue_pop_from_isr on a queue: what it reports, with the item, and the queue. The second
  -- argument is what the slot out of range would hold, which no step reads.
  unfoldable pub pop : A → Queue A → Option A × Queue A
  pop d q =
      if ltb 0 q.count
      then (
        some (get_or q.items q.head d),
        record q { head = (q.head + 1) % q.num_items; count = q.count - 1 },
      )
      else (none, q)

  -- mmosal_queue_push_from_isr
  unfoldable pub push : A → Queue A → Bool × Queue A
  push a q =
      if ltb q.count q.num_items
      then (
        true,
        record q {
          items = set q.items q.tail a;
          tail = (q.tail + 1) % q.num_items;
          count = q.count + 1;
        },
      )
      else (false, q)
