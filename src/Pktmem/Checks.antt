-- ===== src/Pktmem/Checks.antt =====
-- Packet memory over concrete packets and lists.
use mm_halow_driver.Base.{
  ℕ, ◌+◌, ◌≡◌, ◌⊎◌, refl, true, false, none, some, List, [], ◌∷◌, ◌++◌, arith, leb, if◌then◌else◌,
  length, length-append,
}
use mm_halow_driver.Heap.{Heap, whole, malloc, free}
use mm_halow_driver.Pktmem.{Morse, Pktmem, alloc_for_tx, drain, pktmem_deinit}
use mm_halow_driver.Pktmem.Flow.{IsWindow, here, next, allocates, data_added, Reach-IsWindow}
use mm_halow_driver.Pktmem.Commands.{
  Measures, IsPooled, IsIdle, command_added, alloc_for_tx-IsPooled, pktmem_deinit-is_drained,
}

-- A packet is 40 bytes and its fields.
abbrev plain : Morse (List ℕ)
plain = record {
  tx_max = 1600;
  rx_max = 1700;
  empty = [];
  append = λ p l. l ++ p ∷ [];
  dequeue = λ l. elim l [ [] ↦ none | p ∷ ps ↦ some (p, ps) ];
  len = λ l. length l;
  alloc_on_heap = λ start end metadata h. malloc (start + end + metadata + 40) h;
  init_buf = λ buf size start end metadata.
      if leb (start + end + metadata + 40) size then some buf else none;
}

plain-Measures : Measures plain
plain-Measures = record {
  len_empty = refl;
  len_append = λ p l. length-append l (p ∷ []);
  len_dequeue = dequeued;
}
  where
    dequeued :
        (l : List ℕ) (p : ℕ) (l' : List ℕ)
        → plain.dequeue l ≡ some (p, l')
        → length l ≡ length l' + 1
    dequeued [] p l' e = cc
    dequeued (q ∷ l) p l' e = let same : l ≡ l' = cc e in rw same (omega arith)

abbrev pool : Heap
pool = record { mem = some 0x1000; blocks = whole 0x1000 ∷ []; bytes = λ a. 0 }

-- 30 packets in flight
abbrev busy : Pktmem (List ℕ)
busy = record {
  tx_data_allocated = 30;
  tx_data_paused = false;
  rx_data_allocated = 0;
  tx_command_free_list = 0x5000 ∷ [];
  rx_command_free_list = [];
  tx_command_pool = some 0x5000;
  rx_command_pool = none;
  heap = pool;
  calls = 0;
}

busy-IsWindow : IsWindow 30 busy
busy-IsWindow = record {
  counted = refl;
  bounded = omega arith;
  full = λ e. absurd (omega arith);
  paused = λ e. cc;
}

Reach-IsWindow_example :
    IsWindow
      (30 + data_added (alloc_for_tx plain false 10 100 0 busy).0)
      (alloc_for_tx plain false 10 100 0 busy).1
Reach-IsWindow_example = Reach-IsWindow plain (next here (allocates false 10 100 0)) busy-IsWindow

alloc_for_tx-IsPooled_example :
    IsPooled plain
      (1 + command_added (alloc_for_tx plain true 10 100 0 busy).0)
      (alloc_for_tx plain true 10 100 0 busy).1
unfolding IsPooled
alloc_for_tx-IsPooled_example = alloc_for_tx-IsPooled plain plain-Measures true 1 10 100 0 busy refl

pktmem_deinit-is_drained_example :
    let s1 = (drain plain 100 (λ s. record s { tx_data_allocated = 0 }) busy).1 in
    IsIdle plain s1
      × ((pktmem_deinit plain (λ s. record s { tx_data_allocated = 0 }) busy).heap
          ≡ free s1.rx_command_pool (free s1.tx_command_pool s1.heap))
    ⊎ (pktmem_deinit plain (λ s. record s { tx_data_allocated = 0 }) busy).heap ≡ s1.heap
pktmem_deinit-is_drained_example =
    pktmem_deinit-is_drained plain (λ s. record s { tx_data_allocated = 0 }) busy
