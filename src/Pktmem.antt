-- ===== src/Pktmem.antt =====
-- Packet memory, src/mm_halow_pktmem.c. Packets and packet lists are morselib's, so they are a
-- parameter, `Morse`; a packet is named by its address, and comes with the table of operations that
-- its `ops` field points to.
pub mod Flow
pub mod Commands
mod Checks
use mm_halow_driver.Base.{
  ℕ, zero, suc, ◌+◌, ◌-◌, ◌*◌, ◌^◌, Bool, true, false, ◌&&◌, ◌||◌, not, Option, none, some, ltb,
  leb, ◌==◌, if◌then◌else◌, add32, sub32, u32,
}
use mm_halow_driver.Heap.{Heap, malloc, free}

-- MM_HALOW_TX_COMMAND_BLOCK_SIZE and MM_HALOW_TX_COMMAND_N_BLOCKS
abbrev pub tx_command_block_size : ℕ
tx_command_block_size = 352

abbrev pub tx_command_n_blocks : ℕ
tx_command_n_blocks = 2

-- MM_HALOW_RX_COMMAND_N_BLOCKS
abbrev pub rx_command_n_blocks : ℕ
rx_command_n_blocks = 2

-- MM_HALOW_TX_BLOCKS and MM_HALOW_RX_BLOCKS
abbrev pub tx_blocks : ℕ
tx_blocks = 32

abbrev pub rx_blocks : ℕ
rx_blocks = 16

-- MM_HALOW_TX_PAUSE_THRESHOLD and MM_HALOW_TX_UNPAUSE_THRESHOLD
abbrev pub pause_threshold : ℕ
pause_threshold = tx_blocks - 1

abbrev pub unpause_threshold : ℕ
unpause_threshold = tx_blocks - 2

-- What the driver uses of morselib: the sizes MMHAL_WLAN_MMPKT_TX_MAX_SIZE and _RX_MAX_SIZE, the
-- packet lists, mmpkt_alloc_on_heap(start, end, metadata) and mmpkt_init_buf(buf, size, start, end,
-- metadata).
pub record Morse (L : Type 0) : Type 0 where
  pub tx_max : ℕ
  pub rx_max : ℕ
  pub empty : L
  pub append : ℕ → L → L
  pub dequeue : L → Option (ℕ × L)
  pub len : L → ℕ
  pub alloc_on_heap : ℕ → ℕ → ℕ → Heap → Option ℕ × Heap
  pub init_buf : ℕ → ℕ → ℕ → ℕ → ℕ → Option ℕ

-- mm_halow_pktmem_t, the heap, and how often tx_flow_control_cb was called.
pub record Pktmem (L : Type 0) : Type 0 where
  pub tx_data_allocated : ℕ
  pub tx_data_paused : Bool
  pub rx_data_allocated : ℕ
  pub tx_command_free_list : L
  pub rx_command_free_list : L
  pub tx_command_pool : Option ℕ
  pub rx_command_pool : Option ℕ
  pub heap : Heap
  pub calls : ℕ

-- mm_halow_tx_command_ops, mm_halow_rx_command_ops, mm_halow_tx_data_ops, mm_halow_rx_data_ops, and
-- the operations that mmpkt_alloc_on_heap sets.
pub data Ops : Type 0 where
  tx_command rx_command tx_data rx_data on_heap : Ops

-- `a >= b` and `a < b` for the counter, an int32_t, against a small constant
abbrev pub signed_ge : ℕ → ℕ → Bool
signed_ge a b = leb b a && ltb a (2 ^ 31)

abbrev pub signed_lt : ℕ → ℕ → Bool
signed_lt a b = not (signed_ge a b)

-- mm_halow_pkt_size_ok
pub pkt_size_ok : ℕ → ℕ → ℕ → ℕ → Bool
pkt_size_ok start end metadata max = leb start max && leb end max && leb metadata max

module _ {L : Type 0} (m : Morse L) where
  -- The loop of mm_halow_pool_init: `n` blocks from the address `p` on.
  pub carve : ℕ → ℕ → ℕ → L → L
  carve p size zero list = list
  carve p size (suc n) list = carve (p + size) size n (m.append p list)

  pub carve_pool : ℕ → ℕ → L → Option ℕ × Heap → Option ℕ × Heap × L
  carve_pool size n list (none, h) = (none, h, list)
  carve_pool size n list (some p, h) = (some p, h, carve p size n list)

  -- mm_halow_pool_init
  pub pool_init : ℕ → ℕ → L → Heap → Option ℕ × Heap × L
  pool_init size n list h = carve_pool size n list (malloc (u32 (size * n)) h)

  -- mmhal_wlan_pktmem_init, with the heap in hand
  pub pktmem_init : Heap → Pktmem L
  pktmem_init h =
      let (tx_pool, h1, tx_list) = pool_init tx_command_block_size tx_command_n_blocks m.empty h in
      let (rx_pool, h2, rx_list) = pool_init m.rx_max rx_command_n_blocks m.empty h1 in
      record {
        tx_data_allocated = 0;
        tx_data_paused = false;
        rx_data_allocated = 0;
        tx_command_free_list = tx_list;
        rx_command_free_list = rx_list;
        tx_command_pool = tx_pool;
        rx_command_pool = rx_pool;
        heap = h2;
        calls = 0;
      }

  -- mm_halow_tx_command_free and mm_halow_rx_command_free
  pub tx_command_free : ℕ → Pktmem L → Pktmem L
  tx_command_free p s = record s { tx_command_free_list = m.append p s.tx_command_free_list }

  pub rx_command_free : ℕ → Pktmem L → Pktmem L
  rx_command_free p s = record s { rx_command_free_list = m.append p s.rx_command_free_list }

  -- mm_halow_pool_alloc from the transmit list and from the receive list
  pub tx_pool_alloc : ℕ → ℕ → ℕ → Pktmem L → Option ℕ × Pktmem L
  tx_pool_alloc start end metadata s = elim (m.dequeue s.tx_command_free_list) [
    | none ↦ (none, s)
    | some (buf, list) ↦
        let taken = record s { tx_command_free_list = list } in
        elim (m.init_buf buf tx_command_block_size start end metadata) [
          | none ↦ (none, tx_command_free buf taken)
          | some p ↦ (some p, taken)
        ]
  ]

  pub rx_pool_alloc : ℕ → ℕ → ℕ → Pktmem L → Option ℕ × Pktmem L
  rx_pool_alloc start end metadata s = elim (m.dequeue s.rx_command_free_list) [
    | none ↦ (none, s)
    | some (buf, list) ↦
        let taken = record s { rx_command_free_list = list } in
        elim (m.init_buf buf m.rx_max start end metadata) [
          | none ↦ (none, rx_command_free buf taken)
          | some p ↦ (some p, taken)
        ]
  ]

  -- mm_halow_tx_data_free; none where MMOSAL_ASSERT stops the driver.
  pub tx_data_free : ℕ → Pktmem L → Option (Pktmem L)
  tx_data_free p s =
      let left = sub32 s.tx_data_allocated 1 in
      let freed = record s { tx_data_allocated = left; heap = free (some p) s.heap } in
      if not (signed_ge s.tx_data_allocated 1)
      then none
      else if signed_lt left unpause_threshold && s.tx_data_paused
      then some (record freed { tx_data_paused = false; calls = s.calls + 1 })
      else some freed

  -- mm_halow_rx_data_free
  pub rx_data_free : Option ℕ → Pktmem L → Pktmem L
  rx_data_free none s = s
  rx_data_free (some p) s = record s {
    rx_data_allocated = sub32 s.rx_data_allocated 1;
    heap = free (some p) s.heap;
  }

  -- mmhal_wlan_alloc_mmpkt_for_tx behind the reserved pool, with the counter already raised
  pub take_tx : Option ℕ × Heap → Pktmem L → Option (ℕ × Ops) × Pktmem L
  take_tx (none, h) s =
      (none, record s { tx_data_allocated = sub32 s.tx_data_allocated 1; heap = h })
  take_tx (some p, h) s =
      let taken = record s { heap = h } in
      if signed_ge s.tx_data_allocated (pause_threshold + 1) && not s.tx_data_paused
      then (some (p, tx_data), record taken { tx_data_paused = true; calls = s.calls + 1 })
      else (some (p, tx_data), taken)

  pub alloc_tx_data : ℕ → ℕ → ℕ → Pktmem L → Option (ℕ × Ops) × Pktmem L
  alloc_tx_data start end metadata s =
      let raised = record s { tx_data_allocated = add32 s.tx_data_allocated 1 } in
      let lowered = record raised { tx_data_allocated = sub32 (add32 s.tx_data_allocated 1) 1 } in
      let taken = take_tx (m.alloc_on_heap start end metadata s.heap) raised in
      if signed_ge s.tx_data_allocated tx_blocks then (none, lowered) else taken

  -- mmhal_wlan_alloc_mmpkt_for_tx; the first argument is `pkt_class == MMHAL_WLAN_PKT_COMMAND`.
  pub alloc_for_tx : Bool → ℕ → ℕ → ℕ → Pktmem L → Option (ℕ × Ops) × Pktmem L
  alloc_for_tx command start end metadata s = elim (pkt_size_ok start end metadata m.tx_max) [
    | false ↦ (none, s)
    | true ↦ elim command [
      | false ↦ alloc_tx_data start end metadata s
      | true ↦
          let (pkt, s1) = tx_pool_alloc start end metadata s in
          elim pkt [
            | some p ↦ (some (p, tx_command), s1)
            | none ↦ alloc_tx_data start end metadata s1
          ]
    ]
  ]

  pub take_rx : Option ℕ × Heap → Pktmem L → Option (ℕ × Ops) × Pktmem L
  take_rx (none, h) s =
      (none, record s { rx_data_allocated = sub32 s.rx_data_allocated 1; heap = h })
  take_rx (some p, h) s = (some (p, rx_data), record s { heap = h })

  pub alloc_rx_data : ℕ → ℕ → Pktmem L → Option (ℕ × Ops) × Pktmem L
  alloc_rx_data capacity metadata s =
      let raised = record s { rx_data_allocated = add32 s.rx_data_allocated 1 } in
      let lowered = record raised { rx_data_allocated = sub32 (add32 s.rx_data_allocated 1) 1 } in
      let taken = take_rx (m.alloc_on_heap 0 capacity metadata s.heap) raised in
      if signed_ge s.rx_data_allocated rx_blocks then (none, lowered) else taken

  pub take_on_heap : Option ℕ × Heap → Pktmem L → Option (ℕ × Ops) × Pktmem L
  take_on_heap (none, h) s = (none, record s { heap = h })
  take_on_heap (some p, h) s = (some (p, on_heap), record s { heap = h })

  -- mmhal_wlan_alloc_mmpkt_for_rx
  pub alloc_for_rx : Bool → ℕ → ℕ → Pktmem L → Option (ℕ × Ops) × Pktmem L
  alloc_for_rx command capacity metadata s = elim (pkt_size_ok 0 capacity metadata m.rx_max) [
    | false ↦ (none, s)
    | true ↦ elim command [
      | false ↦ alloc_rx_data capacity metadata s
      | true ↦
          let (pkt, s1) = rx_pool_alloc 0 capacity metadata s in
          elim pkt [
            | some p ↦ (some (p, rx_command), s1)
            | none ↦ take_on_heap (m.alloc_on_heap 0 capacity metadata s1.heap) s1
          ]
    ]
  ]

  -- mmhal_wlan_pktmem_tx_flow_control_state; true is MMWLAN_TX_PAUSED.
  pub tx_flow_control_state : Pktmem L → Bool
  tx_flow_control_state s = s.tx_data_paused

  abbrev pub no_pool : Option ℕ → Bool
  no_pool none = true
  no_pool (some p) = false

  -- The test in the loop of mmhal_wlan_pktmem_deinit.
  pub is_drained : Pktmem L → Bool
  is_drained s =
      (s.tx_data_allocated == 0)
      && (s.rx_data_allocated == 0)
      && (no_pool s.tx_command_pool || (m.len s.tx_command_free_list == tx_command_n_blocks))
      && (no_pool s.rx_command_pool || (m.len s.rx_command_free_list == rx_command_n_blocks))

  -- Its loop with `n` rounds left; `sleep` is mmosal_task_sleep(10) with all that runs meanwhile.
  pub drain : ℕ → (Pktmem L → Pktmem L) → Pktmem L → Bool × Pktmem L
  drain zero sleep s = (false, s)
  drain (suc n) sleep s =
      let rest = drain n sleep (sleep s) in if is_drained s then (true, s) else rest

  -- mmhal_wlan_pktmem_deinit
  pub pktmem_deinit : (Pktmem L → Pktmem L) → Pktmem L → Pktmem L
  pktmem_deinit sleep s =
      let (drained, s1) = drain 100 sleep s in
      let h =
        if drained then free s1.rx_command_pool (free s1.tx_command_pool s1.heap) else s1.heap in
      record {
        tx_data_allocated = 0;
        tx_data_paused = false;
        rx_data_allocated = 0;
        tx_command_free_list = m.empty;
        rx_command_free_list = m.empty;
        tx_command_pool = none;
        rx_command_pool = none;
        heap = h;
        calls = s1.calls;
      }
