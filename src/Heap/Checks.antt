-- ===== src/Heap/Checks.antt =====
-- The allocator on concrete pools.
use mm_halow_driver.Base.{
  ℕ, ◌+◌, ◌-◌, ◌≤◌, ◌<◌, ◌≡◌, refl, true, false, none, some, List, [], ◌∷◌, arith, ◌⊎◌, ◌↔◌,
}
use mm_halow_driver.Heap.{
  Heap, heap_size, whole, init, malloc, first_fit, take_block, free, calloc, memset0, coalesce,
  coalesce_from, release_block, block_round,
}
use mm_halow_driver.Heap.Layout.{IsPool}
use mm_halow_driver.Heap.Live.{Grants}
use mm_halow_driver.Heap.Invariant.{IsHeap, malloc-Grants}
use mm_halow_driver.Heap.Fit.{NoneFits, malloc-none_iff}
use mm_halow_driver.Heap.RoundTrip.{free-malloc}
use mm_halow_driver.Heap.Calls.{
  Call, mallocs, frees, callocs, reallocs, run, step, AreLegal, run-init-IsHeap, run_disjoint,
}

abbrev nothing : Heap
nothing = record { mem = none; blocks = []; bytes = λ a. 0xcc }

abbrev fresh : Heap
fresh = record { mem = some 0x1000; blocks = whole 0x1000 ∷ []; bytes = λ a. 0xcc }

-- 104 bytes handed out at 0x1010, the rest free
abbrev one_out : Heap
one_out = record fresh {
  blocks =
      record { addr = 0x1000; size = 104; used = true }
      ∷ record { addr = 0x1078; size = heap_size - 136; used = false }
      ∷ [];
}

pool-IsPool : IsPool 0x1000
pool-IsPool = omega arith

fresh-IsHeap : IsHeap 0x1000 fresh
fresh-IsHeap = record { held = refl; pool = pool-IsPool; tiles = omega arith; apart = (tt, tt) }

one_out-IsHeap : IsHeap 0x1000 one_out
one_out-IsHeap = record {
  held = refl;
  pool = pool-IsPool;
  tiles = omega arith;
  apart = (refl, (tt, tt));
}

malloc_takes : malloc 100 fresh ≡ (some 0x1010, one_out)
unfolding malloc first_fit take_block
malloc_takes = refl

malloc-Grants_example :
    (0 < 100)
    × (100 ≤ heap_size)
    × Grants 32 100 fresh.blocks 0x1010 one_out.blocks
    × (one_out.bytes ≡ fresh.bytes)
malloc-Grants_example = malloc-Grants 100 0x1010 one_out fresh-IsHeap malloc_takes

free-malloc_example : free (some 0x1010) one_out ≡ fresh
free-malloc_example = free-malloc 100 0x1010 one_out fresh-IsHeap malloc_takes

abbrev calls : List Call
calls = mallocs 100 ∷ callocs 3 8 ∷ frees (some 0x1010) ∷ reallocs (some 0x1088) 40 ∷ []

calls_legal : AreLegal calls (init (some 0x1000) nothing).1
unfolding AreLegal init step malloc calloc free first_fit take_block memset0 coalesce coalesce_from
    release_block
calls_legal = (tt, (tt, ((104, refl), ((24, refl), tt))))

run-init-IsHeap_example : IsHeap 0x1000 (run calls (init (some 0x1000) nothing).1)
run-init-IsHeap_example = run-init-IsHeap 0x1000 nothing calls pool-IsPool refl calls_legal

run_disjoint_example : (0x1010 + 104 + 16 ≤ 0x1088) ⊎ (0x1088 + 24 + 16 ≤ 0x1010)
unfolding run step malloc first_fit take_block
run_disjoint_example =
    run_disjoint (mallocs 100 ∷ mallocs 24 ∷ []) 0x1010 0x1088 104 24 fresh-IsHeap refl refl
      (omega arith)

malloc-none_iff_example :
    ((malloc 200 one_out).0 ≡ none)
    ↔ (◌≡◌ {A = ℕ} 200 0 ⊎ (heap_size < 200) ⊎ NoneFits (block_round 200) one_out.blocks)
malloc-none_iff_example = malloc-none_iff 200 one_out
