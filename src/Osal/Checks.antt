-- ===== src/Osal/Checks.antt =====
-- The primitives on concrete queues, locks, timers and logs.
use mm_halow_driver.Base.{
  ℕ, ◌+◌, ◌-◌, ◌^◌, ◌≤◌, ◌≡◌, refl, true, false, none, some, List, [], ◌∷◌, ◌++◌, arith, inl, inr,
  count,
}
use mm_halow_driver.Heap.{Heap, heap_size, whole, malloc, first_fit, take_block}
use mm_halow_driver.Sched.Wait.{Host}
use mm_halow_driver.Heap.Invariant.{IsHeap}
use mm_halow_driver.Osal.Objects.{make, timer}
use mm_halow_driver.Osal.Queue.{Queue, create, pop, push}
use mm_halow_driver.Osal.Queue.Fifo.{IsQueue, contents, push_list, pop_list, push-pop-contents}
use mm_halow_driver.Osal.Sync.{Cell, Critical, Mutex, new_mutex, acquire, Sem}
use mm_halow_driver.Osal.Sync.Counts.{Tally}
use mm_halow_driver.Osal.Sync.Exclusion.{
  World, acquires, Reach, here, next, IsLock, Reach-IsLock, Steady,
}
use mm_halow_driver.Osal.Timers.{Timer, TimerWorld, timer_poll, timer_create, add_timer}
use mm_halow_driver.Osal.Timers.Poll.{addrs, Fired, timer_poll-Fired}
use mm_halow_driver.Osal.Log.{Log}

abbrev pool : Heap
pool = record { mem = some 0x1000; blocks = whole 0x1000 ∷ []; bytes = λ a. 0 }

-- three slots, with 7 and then 8 in them, around the end of the ring
abbrev two_of_three : Queue ℕ
two_of_three = record {
  num_items = 3;
  item_size = 4;
  head = 2;
  tail = 1;
  count = 2;
  items = 8 ∷ 0 ∷ 7 ∷ [];
}

two_of_three-IsQueue : IsQueue two_of_three
two_of_three-IsQueue = record {
  slots = refl;
  bounded = omega arith;
  head = inr (omega arith);
  tail = inr refl;
}

push-pop-contents_example :
    (((push 9 two_of_three).0, contents 0 (push 9 two_of_three).1)
      ≡ push_list 3 9 (contents 0 two_of_three))
    × (((pop 0 two_of_three).0, contents 0 (pop 0 two_of_three).1)
        ≡ pop_list (contents 0 two_of_three))
    × IsQueue (push 9 two_of_three).1
    × IsQueue (pop 0 two_of_three).1
push-pop-contents_example = push-pop-contents 0 9 two_of_three two_of_three-IsQueue

abbrev three_zeroes : Queue ℕ
three_zeroes = record {
  num_items = 3;
  item_size = 4;
  head = 0;
  tail = 0;
  count = 0;
  items = 0 ∷ 0 ∷ 0 ∷ [];
}

created : (create 0 3 4 pool).0 ≡ some (0x1010, three_zeroes)
unfolding create malloc first_fit take_block
created = refl

abbrev interrupts_on : Critical
interrupts_on = record { nesting = 0; saved = true; masked = false }

abbrev two_max : Tally Sem
two_max = record { sem = record { count = 1; max_count = 2 }; given = 0; taken = 0 }

abbrev unlocked : World
unlocked = record { mutex = new_mutex 0; holders = [] }

abbrev locked : World
locked = record {
  mutex = record { owner = some 2; taken_ms = 50; locked = true };
  holders = some 2 ∷ [];
}

lock_taken : Reach unlocked locked
unfolding acquire
lock_taken = next here (acquires (some 2) 50)

Reach-IsLock_example : IsLock locked
Reach-IsLock_example = Reach-IsLock lock_taken (inl (refl, refl))

-- The main thread with a mutex and the time.
abbrev thread_host : Host (Mutex × ℕ)
thread_host = record {
  ticks = λ s. (s.1, s);
  park = λ timed at s. (s.0, s.1 + 1);
  in_task = λ s. false;
  teardown = λ s. false;
  enter = λ s. s;
  leave = λ s. s;
  wake = λ s. s;
}

abbrev first_cell : Cell (Mutex × ℕ) Mutex
first_cell = record { get = λ s. s.0; put = λ m s. (m, s.1) }

thread-Steady : Steady thread_host first_cell (λ s. none)
thread-Steady = record {
  stored = λ m s. refl;
  current_put = λ m s. refl;
  current_ticks = λ s. refl;
  leave_mutex = λ s. refl;
  leave_current = λ s. refl;
  wake_mutex = λ s. refl;
  wake_current = λ s. refl;
}

-- A timer that is due at 100, one that is stopped, and one that repeats and is due across the wrap.
abbrev once_timer : Timer
once_timer = record {
  addr = 0x2000;
  name = 0;
  period_ms = 30;
  expires_at = 100;
  auto_reload = false;
  active = true;
  arg = 0;
  callback = 0;
}

abbrev timers_at : TimerWorld (List ℕ)
timers_at = record {
  timers =
      once_timer
      ∷ record once_timer { addr = 0x2020; active = false }
      ∷ record once_timer { addr = 0x2040; expires_at = 2 ^ 32 - 1; auto_reload = true }
      ∷ [];
  woken = false;
  env = [];
}

abbrev log_call : Timer → TimerWorld (List ℕ) → TimerWorld (List ℕ)
log_call t w = record w { env = w.env ++ t.addr ∷ [] }

timers_at-once : (i : ℕ) → count i (addrs timers_at.timers) ≤ 1
timers_at-once i = ground arith

timer_poll-Fired_example :
    Fired log_call (λ e. e) 120 [] timers_at.timers timers_at (timer_poll log_call 120 timers_at)
timer_poll-Fired_example =
    timer_poll-Fired log_call (λ e. e) (λ t w. refl) (λ t w. refl) 120 timers_at timers_at-once

abbrev nearly_full : Log
nearly_full = record { window_start = 2 ^ 32 - 10; lines = 19; dropped = 0 }

pool-IsHeap : IsHeap 0x1000 pool
pool-IsHeap = record { held = refl; pool = omega arith; tiles = omega arith; apart = (tt, tt) }

-- The pool with a timer in it.
abbrev pool_with_timer : Heap
pool_with_timer = record pool {
  blocks =
      record { addr = 0x1000; size = 32; used = true }
      ∷ record { addr = 0x1030; size = heap_size - 64; used = false }
      ∷ [];
}

abbrev made : Timer
made = record {
  addr = 0x1010;
  name = 5;
  period_ms = 100;
  expires_at = 0;
  auto_reload = true;
  active = false;
  arg = 1;
  callback = 2;
}

timer_made : make (timer 5 100 true 1 2) pool [] ≡ (some 0x1010, pool_with_timer, made ∷ [])
unfolding make timer_create add_timer malloc first_fit take_block
timer_made = refl
