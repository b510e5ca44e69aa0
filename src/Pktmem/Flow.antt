-- ===== src/Pktmem/Flow.antt =====
-- The transmit window of mm_halow_pktmem.c: counting, pausing and resuming.
use mm_halow_driver.Base.{
  ℕ, ◌+◌, ◌-◌, ◌≤◌, ◌<◌, ◌≡◌, ◌⊎◌, inl, inr, refl, subst, Bool, true, false, ◌&&◌, not, Option,
  none, some, arith, ltb, if◌then◌else◌, add32, Bool-cases, Option-cases,
}
use native.Mathlib.Decide.{dec_lt}
use mm_halow_driver.Heap.{Heap, free}
use mm_halow_driver.Pktmem.{
  Morse, Pktmem, Ops, tx_data, tx_blocks, unpause_threshold, tx_pool_alloc, tx_command_free,
  tx_command_block_size, tx_data_free, take_tx, alloc_tx_data, alloc_for_tx, pkt_size_ok,
}

-- `n` transmit packets are in flight. The window is never overrun; it is paused when it is full, and
-- stays so until it has drained below the second threshold.
pub record IsWindow {L : Type 0} (n : ℕ) (s : Pktmem L) : Type 0 where
  pub counted : s.tx_data_allocated ≡ n
  pub bounded : n ≤ tx_blocks
  pub full : n ≡ tx_blocks → s.tx_data_paused ≡ true
  pub paused : s.tx_data_paused ≡ true → unpause_threshold ≤ n

-- tx_flow_control_cb was called exactly if the window was paused or resumed.
pub Announced : {L : Type 0} → Pktmem L → Pktmem L → Type 0
Announced s s' =
    ((s'.tx_data_paused ≡ s.tx_data_paused) × (s'.calls ≡ s.calls))
    ⊎ ((s'.tx_data_paused ≡ not s.tx_data_paused) × (s'.calls ≡ s.calls + 1))

-- How many data packets an allocation added.
pub data_added : Option (ℕ × Ops) → ℕ
data_added (some (p, tx_data)) = 1
data_added o = 0

module _ {L : Type 0} (m : Morse L) where
  take_tx-IsWindow :
      (n : ℕ) (r : Option ℕ × Heap) (s : Pktmem L)
      → n < tx_blocks
      → IsWindow n (record s { tx_data_allocated = n })
      → s.tx_data_allocated ≡ n + 1
      → IsWindow (n + data_added (take_tx m r s).0) (take_tx m r s).1
  unfolding take_tx data_added
  take_tx-IsWindow n (none, h) s lt v e = ground arith
  take_tx-IsWindow n (some p, h) s lt v e = ground arith

  alloc_tx_data-room :
      (start end metadata : ℕ) (s : Pktmem L)
      → s.tx_data_allocated < tx_blocks
      → alloc_tx_data m start end metadata s
        ≡ take_tx m
            (m.alloc_on_heap start end metadata s.heap)
            (record s { tx_data_allocated = s.tx_data_allocated + 1 })
  unfolding alloc_tx_data
  alloc_tx_data-room start end metadata s lt = ground arith

  alloc_tx_data-full :
      (start end metadata : ℕ) (s : Pktmem L)
      → s.tx_data_allocated ≡ tx_blocks
      → alloc_tx_data m start end metadata s ≡ (none, s)
  unfolding alloc_tx_data
  alloc_tx_data-full start end metadata s e = ground arith

  alloc_tx_data-IsWindow :
      (n start end metadata : ℕ) (s : Pktmem L)
      → IsWindow n s
      → IsWindow
          (n + data_added (alloc_tx_data m start end metadata s).0)
          (alloc_tx_data m start end metadata s).1
  unfolding data_added
  alloc_tx_data-IsWindow n start end metadata s v = elim (dec_lt n tx_blocks) [
    | yes lt ↦ rw (alloc_tx_data-room start end metadata s (omega (arith, v.counted))) (
        take_tx-IsWindow n (m.alloc_on_heap start end metadata s.heap)
          (record s { tx_data_allocated = s.tx_data_allocated + 1 }) lt
          (record { counted = refl; bounded = v.bounded; full = v.full; paused = v.paused })
          (omega (arith, v.counted)))
    | no ge ↦
        rw (alloc_tx_data-full start end metadata s (omega (arith, v.counted, v.bounded)))
          (ground arith)
  ]

  take_tx-Announced : (r : Option ℕ × Heap) (s : Pktmem L) → Announced s (take_tx m r s).1
  unfolding take_tx Announced
  take_tx-Announced (none, h) s = inl (refl, refl)
  take_tx-Announced (some p, h) s = ground arith

  alloc_tx_data-Announced :
      (start end metadata : ℕ) (s : Pktmem L) → Announced s (alloc_tx_data m start end metadata s).1
  unfolding alloc_tx_data Announced
  alloc_tx_data-Announced start end metadata s = ground (
    arith,
    take_tx-Announced (m.alloc_on_heap start end metadata s.heap)
        (record s { tx_data_allocated = add32 s.tx_data_allocated 1 }),
  )

  -- The two states agree in what the window is about.
  record SameWindow (s s' : Pktmem L) : Type 0 where
    allocated : s'.tx_data_allocated ≡ s.tx_data_allocated
    paused : s'.tx_data_paused ≡ s.tx_data_paused
    calls : s'.calls ≡ s.calls

  tx_pool_alloc-SameWindow :
      (start end metadata : ℕ) (s : Pktmem L)
      → SameWindow s (tx_pool_alloc m start end metadata s).1
  unfolding tx_pool_alloc tx_command_free
  tx_pool_alloc-SameWindow start end metadata s =
      elim (Option-cases (m.dequeue s.tx_command_free_list)) [
        | inl e ↦ rw (e, tx_pool_alloc) (record { allocated = refl; paused = refl; calls = refl })
        | inr ((buf, list), e) ↦
            elim (Option-cases (m.init_buf buf tx_command_block_size start end metadata)) [
              | inl f ↦
                  rw (e, tx_pool_alloc, f)
                    (record { allocated = refl; paused = refl; calls = refl })
              | inr (p, f) ↦
                  rw (e, tx_pool_alloc, f)
                    (record { allocated = refl; paused = refl; calls = refl })
            ]
      ]

  SameWindow-IsWindow : (n : ℕ) (s s' : Pktmem L) → SameWindow s s' → IsWindow n s → IsWindow n s'
  SameWindow-IsWindow n s s' w v = ground arith

  -- What an allocation or a free leaves of a window of `n` packets.
  pub Moves : ℕ → Pktmem L → Pktmem L → Type 0
  Moves n s s' = IsWindow n s' × Announced s s'

  SameWindow-Moves :
      (n : ℕ) (s s' s'' : Pktmem L) → SameWindow s s' → Moves n s' s'' → Moves n s s''
  unfolding Moves Announced
  SameWindow-Moves n s s' s'' w v = (v.0, ground (arith, v.1))

  alloc_tx_data-Moves :
      (n start end metadata : ℕ) (s : Pktmem L)
      → IsWindow n s
      → Moves
          (n + data_added (alloc_tx_data m start end metadata s).0)
          s
          (alloc_tx_data m start end metadata s).1
  unfolding Moves
  alloc_tx_data-Moves n start end metadata s v = (
    alloc_tx_data-IsWindow n start end metadata s v,
    alloc_tx_data-Announced start end metadata s,
  )

  unmoved : (n : ℕ) (s s' : Pktmem L) → SameWindow s s' → IsWindow n s → Moves (n + 0) s s'
  unfolding Moves Announced
  unmoved n s s' w v = (ground arith, inl (w.paused, w.calls))

  -- mmhal_wlan_alloc_mmpkt_for_tx, for a packet of either class and of any size.
  alloc_for_tx-Moves :
      (command : Bool) (n start end metadata : ℕ) (s : Pktmem L)
      → IsWindow n s
      → Moves
          (n + data_added (alloc_for_tx m command start end metadata s).0)
          s
          (alloc_for_tx m command start end metadata s).1
  unfolding alloc_for_tx data_added
  alloc_for_tx-Moves command n start end metadata s v =
      elim (Bool-cases (pkt_size_ok start end metadata m.tx_max)) [
        | inr big ↦ rw (big, alloc_for_tx) (unmoved n s s same v)
        | inl ok ↦ elim (Bool-cases command) [
          | inr plain ↦ rw (ok, alloc_for_tx, plain) (alloc_tx_data-Moves n start end metadata s v)
          | inl cmd ↦ elim (Option-cases (tx_pool_alloc m start end metadata s).0) [
            | inr (p, e) ↦
                rw (ok, alloc_for_tx, cmd, e)
                  (unmoved n s (tx_pool_alloc m start end metadata s).1
                    (tx_pool_alloc-SameWindow start end metadata s) v)
            | inl e ↦
                rw (ok, alloc_for_tx, cmd, e)
                  (SameWindow-Moves _ s (tx_pool_alloc m start end metadata s).1 _
                    (tx_pool_alloc-SameWindow start end metadata s)
                    (alloc_tx_data-Moves n start end metadata _ (
                      SameWindow-IsWindow n s _ (tx_pool_alloc-SameWindow start end metadata s) v)))
          ]
        ]
      ]
    where
      same : SameWindow s s
      same = record { allocated = refl; paused = refl; calls = refl }

  -- What mm_halow_tx_data_free leaves of a window that is not empty.
  resumed : ℕ → Pktmem L → Pktmem L
  resumed p s =
      let freed = record s {
        tx_data_allocated = s.tx_data_allocated - 1;
        heap = free (some p) s.heap;
      } in
      if ltb (s.tx_data_allocated - 1) unpause_threshold && s.tx_data_paused
      then record freed { tx_data_paused = false; calls = s.calls + 1 }
      else freed

  tx_data_free-resumed :
      (p : ℕ) (s : Pktmem L)
      → 0 < s.tx_data_allocated
      → s.tx_data_allocated ≤ tx_blocks
      → tx_data_free m p s ≡ some (resumed p s)
  unfolding tx_data_free resumed
  tx_data_free-resumed p s pos le = ground arith

  resumed-Moves : (n p : ℕ) (s : Pktmem L) → IsWindow n s → 0 < n → Moves (n - 1) s (resumed p s)
  unfolding resumed Moves Announced
  resumed-Moves n p s v pos = (ground arith, ground arith)

  -- As long as a packet is in flight, freeing one passes the assertion of mm_halow_tx_data_free, and
  -- the window is left with one packet less. The flow control callback runs exactly if transmission
  -- is resumed.
  pub tx_data_free-Moves :
      (n p : ℕ) (s : Pktmem L)
      → IsWindow n s
      → 0 < n
      → (s' : Pktmem L) × (tx_data_free m p s ≡ some s') × Moves (n - 1) s s'
  tx_data_free-Moves n p s v pos = (
    resumed p s,
    tx_data_free-resumed p s (omega (arith, v.counted)) (omega (arith, v.counted, v.bounded)),
    resumed-Moves n p s v pos,
  )

  -- One call: of an allocation, or of the free operation of a packet that is in flight.
  pub data Step (n : ℕ) (s : Pktmem L) : ℕ → Pktmem L → Type 0 where
    allocates :
        (command : Bool) (start end metadata : ℕ)
        → Step n s
            (n + data_added (alloc_for_tx m command start end metadata s).0)
            (alloc_for_tx m command start end metadata s).1
    frees : (p : ℕ) (s' : Pktmem L) → 0 < n → tx_data_free m p s ≡ some s' → Step n s (n - 1) s'
    frees_command : (p : ℕ) → Step n s n (tx_command_free m p s)

  pub data Reach (n : ℕ) (s : Pktmem L) : ℕ → Pktmem L → Type 0 where
    here : Reach n s n s
    next :
        {k : ℕ} {u : Pktmem L} {l : ℕ} {v : Pktmem L} → Reach n s k u → Step k u l v → Reach n s l v

  Step-IsWindow :
      {n : ℕ} {s : Pktmem L} {k : ℕ} {s' : Pktmem L} → Step n s k s' → IsWindow n s → IsWindow k s'
  unfolding Moves tx_command_free
  Step-IsWindow {n} {s = s} (allocates command start end metadata) v =
      (alloc_for_tx-Moves command n start end metadata s v).0
  Step-IsWindow {n} {s = s} (frees p s' pos e) v =
      let freed = tx_data_free-Moves n p s v pos in
      let same : freed.0 ≡ s' = cc (freed.1, e) in subst (IsWindow (n - 1)) same freed.2.0
  Step-IsWindow {n} {s = s} (frees_command p) v = ground arith

  -- Over any sequence of allocations and frees the counter is the number of transmit packets in
  -- flight, never more than MM_HALOW_TX_BLOCKS; transmission is paused when that many are in flight, and
  -- while it is paused at least MM_HALOW_TX_UNPAUSE_THRESHOLD are.
  pub Reach-IsWindow :
      {n : ℕ} {s : Pktmem L} {k : ℕ} {s' : Pktmem L} → Reach n s k s' → IsWindow n s → IsWindow k s'
  Reach-IsWindow here v = v
  Reach-IsWindow (next r st) v = Step-IsWindow st (Reach-IsWindow r v)

  take_tx-late :
      (r : Option ℕ × Heap) (s : Pktmem L)
      → s.tx_data_allocated < tx_blocks
      → (take_tx m r s).1.tx_data_paused ≡ s.tx_data_paused
  unfolding take_tx
  take_tx-late (none, h) s lt = refl
  take_tx-late (some p, h) s lt = ground arith

  -- An allocation that leaves one of the MM_HALOW_TX_BLOCKS free does not pause transmission.
  pub alloc_tx_data-late :
      (start end metadata : ℕ) (s : Pktmem L)
      → s.tx_data_allocated + 1 < tx_blocks
      → (alloc_tx_data m start end metadata s).1.tx_data_paused ≡ s.tx_data_paused
  alloc_tx_data-late start end metadata s lt =
      rw (alloc_tx_data-room start end metadata s (omega arith)) (
        take_tx-late (m.alloc_on_heap start end metadata s.heap)
          (record s { tx_data_allocated = s.tx_data_allocated + 1 }) lt)
