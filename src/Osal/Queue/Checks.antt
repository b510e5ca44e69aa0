-- ===== src/Osal/Queue/Checks.antt =====
-- Queues of numbers: a history, and waits on a queue that a task fills while the caller is parked.
use mm_halow_driver.Base.{
  ℕ, ◌+◌, ◌%◌, ◌^◌, ◌≡◌, refl, Bool, true, false, some, List, [], ◌∷◌, ◌++◌, arith, inr,
}
use mm_halow_driver.Sched.Wait.{Host}
use mm_halow_driver.Sched.Wait.Rules.{Outcome}
use mm_halow_driver.Osal.Sync.{Cell}
use mm_halow_driver.Osal.Queue.{Queue, pop, push}
use mm_halow_driver.Osal.Queue.Fifo.{IsQueue, contents}
use mm_halow_driver.Osal.Queue.History.{Op, pushes, pops, pushed, run_ops, run_ops-IsOrdered}
use mm_halow_driver.Osal.Queue.Waits.{
  queue_pop, Steady, Leaves, Followed, Popped, queue_pop-Outcome,
}

abbrev two_slots : Queue ℕ
two_slots = record {
  num_items = 2;
  item_size = 4;
  head = 0;
  tail = 0;
  count = 0;
  items = 0 ∷ 0 ∷ [];
}

two_slots-IsQueue : IsQueue two_slots
two_slots-IsQueue = record {
  slots = refl;
  bounded = omega arith;
  head = inr (omega arith);
  tail = inr refl;
}

-- The third push finds the queue full.
abbrev ops : List (Op ℕ)
ops = pushes 5 ∷ pushes 6 ∷ pushes 7 ∷ pops ∷ pushes 8 ∷ pops ∷ pops ∷ pops ∷ []

all_out : (run_ops 0 ops two_slots).popped ≡ 5 ∷ 6 ∷ 8 ∷ []
unfolding run_ops push pop
all_out = refl

run_ops-IsOrdered_example :
    (contents 0 two_slots ++ (run_ops 0 ops two_slots).taken
      ≡ (run_ops 0 ops two_slots).popped ++ contents 0 (run_ops 0 ops two_slots).queue)
    × IsQueue (run_ops 0 ops two_slots).queue
run_ops-IsOrdered_example = run_ops-IsOrdered 0 ops two_slots two_slots-IsQueue

record World : Type 0 where
  queue : Queue ℕ
  item : ℕ
  time : ℕ
  past : List (Op ℕ)

-- While the caller is parked, a task pushes the time.
abbrev host : Host World
host = record {
  ticks = λ s. (s.time % 2 ^ 32, s);
  park = λ timed at s. record s {
    queue = (push s.time s.queue).1;
    time = s.time + 1;
    past = s.past ++ pushes s.time ∷ [];
  };
  in_task = λ s. true;
  teardown = λ s. false;
  enter = λ s. s;
  leave = λ s. s;
  wake = λ s. s;
}

abbrev the_queue : Cell World (Queue ℕ)
the_queue = record { get = λ s. s.queue; put = λ q s. record s { queue = q } }

abbrev the_item : Cell World ℕ
the_item = record { get = λ s. s.item; put = λ a s. record s { item = a } }

abbrev past : World → List (Op ℕ)
past s = s.past

pushed_alone : (a : ℕ) (r : Bool × Queue ℕ) → r.1 ≡ (pushed 0 a r (run_ops 0 [])).queue
unfolding run_ops
pushed_alone a (true, q) = refl
pushed_alone a (false, q) = refl

nothing_done : (s : World) → Leaves host 0 the_queue the_item past s s
nothing_done s = record { queue = refl; past = refl }

host-Steady : Steady host 0 the_queue the_item past
unfolding run_ops
host-Steady = record {
  stored = λ q s. refl;
  stored_past = λ q s. refl;
  item_stored = λ a s. refl;
  item_put = λ a s. record { queue = refl; past = refl };
  ticks = nothing_done;
  enter = nothing_done;
  leave = nothing_done;
  wake = nothing_done;
  item_leave = λ s. refl;
  item_wake = λ s. refl;
  park = λ timed at s. record {
    ops = pushes s.time ∷ [];
    recorded = refl;
    done = pushed_alone s.time (push s.time s.queue);
  };
}

abbrev world : World
world = record { queue = two_slots; item = 0; time = 9; past = [] }

queue_pop-Outcome_example :
    Outcome
      (Followed host 0 the_queue the_item past host-Steady two_slots)
      (Popped host 0 the_queue the_item past host-Steady two_slots)
      (queue_pop host 0 (some the_queue) the_item 10 100 world)
queue_pop-Outcome_example =
    queue_pop-Outcome host 0 the_queue the_item past host-Steady 10 100 world two_slots-IsQueue refl
