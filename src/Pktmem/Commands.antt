-- ===== src/Pktmem/Commands.antt =====
-- The reserved command buffers of mm_halow_pktmem.c, and how they go back.
use mm_halow_driver.Base.{
  ℕ, zero, suc, ◌+◌, ◌<◌, ◌≡◌, ◌⊎◌, inl, inr, refl, Bool, true, Option, none, some, arith, add32,
  Bool-cases, Option-cases,
}
use mm_halow_driver.Heap.{Heap, free}
use mm_halow_driver.Pktmem.{
  Morse, Pktmem, Ops, tx_command, tx_command_block_size, tx_command_n_blocks, rx_command_n_blocks,
  carve, tx_command_free, tx_pool_alloc, take_tx, alloc_tx_data, alloc_for_tx, pkt_size_ok,
  is_drained, drain, pktmem_deinit,
}

-- What mmpkt_list promises of its length.
pub record Measures {L : Type 0} (m : Morse L) : Type 0 where
  pub len_empty : m.len m.empty ≡ 0
  pub len_append : (p : ℕ) (l : L) → m.len (m.append p l) ≡ m.len l + 1
  pub len_dequeue : (l : L) (p : ℕ) (l' : L) → m.dequeue l ≡ some (p, l') → m.len l ≡ m.len l' + 1

-- How many command buffers an allocation took.
pub command_added : Option (ℕ × Ops) → ℕ
command_added (some (p, tx_command)) = 1
command_added o = 0

-- `out` of the reserved transmit buffers are in use.
unfoldable pub IsPooled : {L : Type 0} → Morse L → ℕ → Pktmem L → Type 0
IsPooled m out s = m.len s.tx_command_free_list + out ≡ tx_command_n_blocks

module _ {L : Type 0} (m : Morse L) (measures : Measures m) where
  len-carve : (n p size : ℕ) (l : L) → m.len (carve m p size n l) ≡ m.len l + n
  unfolding carve
  len-carve zero p size l = omega arith
  len-carve (suc n) p size l =
      omega (arith, len-carve n (p + size) size (m.append p l), measures.len_append p l)

  take_tx-list :
      (r : Option ℕ × Heap) (s : Pktmem L)
      → ((take_tx m r s).1.tx_command_free_list ≡ s.tx_command_free_list)
        × (command_added (take_tx m r s).0 ≡ 0)
  unfolding take_tx command_added
  take_tx-list (none, h) s = (refl, refl)
  take_tx-list (some p, h) s = ground arith

  alloc_tx_data-list :
      (start end metadata : ℕ) (s : Pktmem L)
      → ((alloc_tx_data m start end metadata s).1.tx_command_free_list ≡ s.tx_command_free_list)
        × (command_added (alloc_tx_data m start end metadata s).0 ≡ 0)
  unfolding alloc_tx_data command_added
  alloc_tx_data-list start end metadata s = ground (
    arith,
    take_tx-list (m.alloc_on_heap start end metadata s.heap)
        (record s { tx_data_allocated = add32 s.tx_data_allocated 1 }),
  )

  tx_pool_alloc-len :
      (start end metadata : ℕ) (s : Pktmem L)
      → ((tx_pool_alloc m start end metadata s).0 ≡ none)
          × (m.len (tx_pool_alloc m start end metadata s).1.tx_command_free_list
              ≡ m.len s.tx_command_free_list)
        ⊎ ((p : ℕ) × ((tx_pool_alloc m start end metadata s).0 ≡ some p)
            × (m.len (tx_pool_alloc m start end metadata s).1.tx_command_free_list + 1
                ≡ m.len s.tx_command_free_list))
  unfolding tx_pool_alloc tx_command_free
  tx_pool_alloc-len start end metadata s = elim (Option-cases (m.dequeue s.tx_command_free_list)) [
    | inl e ↦ rw (e, tx_pool_alloc) (inl (refl, refl))
    | inr ((buf, list), e) ↦
        elim (Option-cases (m.init_buf buf tx_command_block_size start end metadata)) [
          | inl f ↦
              rw (e, tx_pool_alloc, f)
                (inl (
                  refl,
                  omega (arith, measures.len_append buf list, measures.len_dequeue _ buf list e),
                ))
          | inr (p, f) ↦
              rw (e, tx_pool_alloc, f)
                (inr (p, refl, omega (arith, measures.len_dequeue _ buf list e)))
        ]
  ]

  -- An allocation moves a command buffer from the reserved ones to those in use, or none, whatever its
  -- class and size, so that they always number MM_HALOW_TX_COMMAND_N_BLOCKS; a buffer that was too
  -- small for the request is back on the list.
  pub alloc_for_tx-IsPooled :
      (command : Bool) (out start end metadata : ℕ) (s : Pktmem L)
      → IsPooled m out s
      → IsPooled m
          (out + command_added (alloc_for_tx m command start end metadata s).0)
          (alloc_for_tx m command start end metadata s).1
  unfolding alloc_for_tx command_added IsPooled
  alloc_for_tx-IsPooled command out start end metadata s v =
      elim (Bool-cases (pkt_size_ok start end metadata m.tx_max)) [
        | inr big ↦ rw (big, alloc_for_tx) (omega (arith, v))
        | inl ok ↦ elim (Bool-cases command) [
          | inr plain ↦
              let d = alloc_tx_data-list start end metadata s in
              rw (ok, alloc_for_tx, plain, d.0, d.1) (omega (arith, v))
          | inl cmd ↦ elim (tx_pool_alloc-len start end metadata s) [
            | inr (p, e, l) ↦ rw (ok, alloc_for_tx, cmd, e) (omega (arith, v, l))
            | inl (e, l) ↦
                let d =
                  alloc_tx_data-list start end metadata (tx_pool_alloc m start end metadata s).1 in
                rw (ok, alloc_for_tx, cmd, e, d.0, d.1) (omega (arith, v, l))
          ]
        ]
      ]

  -- A command buffer that is given back is on the list again.
  tx_command_free-IsPooled :
      (out p : ℕ) (s : Pktmem L) → IsPooled m (out + 1) s → IsPooled m out (tx_command_free m p s)
  unfolding IsPooled tx_command_free
  tx_command_free-IsPooled out p s v =
      omega (arith, v, measures.len_append p s.tx_command_free_list)

-- A pool with `n` buffers is not there, or all of them are on its list.
pub IsComplete : {L : Type 0} → Morse L → ℕ → Option ℕ → L → Type 0
IsComplete m n none list = Unit
IsComplete m n (some p) list = m.len list ≡ n

-- No data packet is in flight, and no buffer of the pools.
pub record IsIdle {L : Type 0} (m : Morse L) (s : Pktmem L) : Type 0 where
  pub no_tx : s.tx_data_allocated ≡ 0
  pub no_rx : s.rx_data_allocated ≡ 0
  pub tx_complete : IsComplete m tx_command_n_blocks s.tx_command_pool s.tx_command_free_list
  pub rx_complete : IsComplete m rx_command_n_blocks s.rx_command_pool s.rx_command_free_list

-- The state after `k` rounds of waiting.
pub slept : {L : Type 0} → ℕ → (Pktmem L → Pktmem L) → Pktmem L → Pktmem L
slept zero sleep s = s
slept (suc k) sleep s = slept k sleep (sleep s)

module _ {L : Type 0} (m : Morse L) (sleep : Pktmem L → Pktmem L) where
  drain-is_drained :
      (n : ℕ) (s : Pktmem L)
      → (drain m n sleep s).0 ≡ true
      → is_drained m (drain m n sleep s).1 ≡ true
  unfolding drain
  drain-is_drained zero s e = cc
  drain-is_drained (suc n) s e = elim (Bool-cases (is_drained m s)) [
    | inl d ↦ rw (d, drain) d
    | inr d ↦ rw (d, drain) (drain-is_drained n (sleep s) (rw (d, drain) at e))
  ]

  drain-slept :
      (k n : ℕ) (s : Pktmem L)
      → k < n
      → is_drained m (slept k sleep s) ≡ true
      → (drain m n sleep s).0 ≡ true
  unfolding drain slept
  drain-slept k zero s lt d = absurd (omega arith)
  drain-slept zero (suc n) s lt d = rw (d, drain) refl
  drain-slept (suc k) (suc n) s lt d = elim (Bool-cases (is_drained m s)) [
    | inl e ↦ rw (e, drain) refl
    | inr e ↦ rw (e, drain) (drain-slept k n (sleep s) (omega arith) d)
  ]

  is_drained-IsIdle : (s : Pktmem L) → is_drained m s ≡ true → IsIdle m s
  unfolding is_drained IsComplete
  is_drained-IsIdle s e = record {
    no_tx = ground arith;
    no_rx = ground arith;
    tx_complete = ground arith;
    rx_complete = ground arith;
  }

  -- mmhal_wlan_pktmem_deinit gives the reserved pools back to the heap only in a state where no data
  -- packet is in flight in either direction and each pool has all its buffers on its list or was never
  -- there; otherwise the heap is as the wait left it and keeps them.
  pub pktmem_deinit-is_drained :
      (s : Pktmem L)
      → let s1 = (drain m 100 sleep s).1 in
        IsIdle m s1
          × ((pktmem_deinit m sleep s).heap
              ≡ free s1.rx_command_pool (free s1.tx_command_pool s1.heap))
        ⊎ (pktmem_deinit m sleep s).heap ≡ s1.heap
  unfolding pktmem_deinit
  pktmem_deinit-is_drained s = elim (Bool-cases (drain m 100 sleep s).0) [
    | inl e ↦ inl (is_drained-IsIdle _ (drain-is_drained 100 s e), rw e refl)
    | inr e ↦ inr (rw e refl)
  ]

  -- And it does give them back when they are complete by the 99th time that it slept.
  pktmem_deinit-gives_back :
      (k : ℕ) (s : Pktmem L)
      → k < 100
      → is_drained m (slept k sleep s) ≡ true
      → let s1 = (drain m 100 sleep s).1 in
        (pktmem_deinit m sleep s).heap ≡ free s1.rx_command_pool (free s1.tx_command_pool s1.heap)
  unfolding pktmem_deinit
  pktmem_deinit-gives_back k s lt d = rw (drain-slept k 100 s lt d) refl
