-- ===== src/Ctrl/Transmit/Checks.antt =====
-- Sending a frame over a small stand-in for morselib, in whose polls an interrupt sends frames too.
use mm_halow_driver.Base.{ℕ, refl, true, false, none, some, List, [], ◌∷◌, ◌++◌, arith, leb}
use mm_halow_driver.Sched.{Sched, free_slot, nobody}
use mm_halow_driver.Sched.Service.{from_thread}
use mm_halow_driver.Sched.Run.{Machine}
use mm_halow_driver.Sched.Run.Clocked.{Clock, stays, within}
use mm_halow_driver.Hal.{Lines, Handler}
use mm_halow_driver.Osal.Timers.{Timer}
use mm_halow_driver.Ctrl.{success, status_to_errno}
use mm_halow_driver.Ctrl.Poll.{Env, on_env}
use mm_halow_driver.Ctrl.Transmit.{Frame, chain, TxHost, send_ethernet, driver_host}
use mm_halow_driver.Ctrl.Transmit.Laws.{joined, same-Grown, Returned}
use mm_halow_driver.Ctrl.Transmit.Driver.{seen, Behaves, Documented, send_ethernet_sends}

-- What the packet and the transmit buffer hold, what was sent, and what of it within polls.
record World : Type 0 where
  packet : List ℕ
  buf : List ℕ
  frames : List (List ℕ)
  polled : List (List ℕ)

abbrev on_world : (World → World) → Machine (Env World) → Machine (Env World)
on_world f = on_env (λ e. record e { rest = f e.rest })

abbrev sent : World → List (List ℕ)
sent r = r.frames

abbrev polled : World → List (List ℕ)
polled r = r.polled

abbrev idle : Sched
idle = record {
  tasks = free_slot ∷ free_slot ∷ free_slot ∷ free_slot ∷ [];
  queue = [];
  cur = none;
  woken = false;
  wake_at = 100;
  running = false;
  deadline = 0;
  owner = nobody;
  depth = 0;
  wait_depth = 0;
  in_callback = false;
  teardown = false;
}

abbrev machine : Machine (Env World)
machine = record {
  sched = idle;
  heap = record { mem = none; blocks = []; bytes = λ a. 0 };
  clock = λ n. n;
  reads = 0;
  env = record {
    irqs = record {
      spi_handler = true;
      busy_handler = false;
      spi_enabled = true;
      busy_enabled = false;
      busy_seen = false;
    };
    timers = [];
    poll_requested = false;
    initted = true;
    rx_deferred = false;
    irq_armed = true;
    rest = record { packet = []; buf = []; frames = []; polled = [] };
  };
}

abbrev lines : World → Lines
lines r = record { irq_asserted = true; busy_asserted = false }

-- The handler sends a frame.
abbrev handle : Handler → Machine (Env World) → Machine (Env World)
handle h =
    on_world
      (λ r. record r { frames = r.frames ++ (9 ∷ []) ∷ []; polled = r.polled ++ (9 ∷ []) ∷ [] })

abbrev no_callback : Timer → Machine (Env World) → Machine (Env World)
no_callback t m = m

abbrev no_turn : ℕ → Machine (Env World) → Machine (Env World)
no_turn i m = m

-- There is room from the 30th reading of the clock on.
abbrev morse : TxHost (Machine (Env World))
morse = record {
  ticks = λ m. (0, m);
  in_task = λ m. false;
  has_buf = λ m. true;
  buf_size = 1514;
  defer = λ b m. m;
  tx_ready = λ m. (leb 30 m.reads, m);
  poll = λ m. m;
  request = λ m. m;
  alloc = λ n m. (some 1, m);
  append = λ p bytes. on_world (λ r. record r { packet = bytes });
  tx_pkt = λ p m. (success, on_world (λ r. record r { frames = r.frames ++ r.packet ∷ [] }) m);
  get_buf = λ m. m.env.rest.buf;
  put_buf = λ b. on_world (λ r. record r { buf = b });
  copy_partial = λ segments len old. joined segments;
}

counter-Clock : Clock (λ n. n) (λ n. n) 1 1
counter-Clock = record {
  positive = omega arith;
  shows = λ n. omega arith;
  grows = λ n. omega arith;
  steps = λ n. omega arith;
}

idle-Behaves : Behaves sent polled (λ n. n) (λ n. n) 1 1 8 (λ m. m)
idle-Behaves = record {
  moves = λ m e. within (λ n. n) (λ n. n) 1 m (omega arith) (stays (λ n. n) (λ n. n) 1 m e);
  few = λ m le. le;
  grows = λ m. same-Grown (seen sent polled m) (seen sent polled m) refl refl;
}

handle-Behaves : (h : Handler) → Behaves sent polled (λ n. n) (λ n. n) 1 1 8 (handle h)
handle-Behaves h = record {
  moves = λ m e. record { same = e; on = omega arith; few = omega arith };
  few = λ m le. le;
  grows = λ m. record { frames = (9 ∷ []) ∷ []; sent = refl; polled = refl };
}

morse-Documented : Documented sent polled (λ n. n) (λ n. n) 1 1 8 morse
unfolding status_to_errno
morse-Documented = record {
  ready_moves = λ m e. record { same = e; on = omega arith; few = omega arith };
  ready_few = λ m le. le;
  ready_keeps = λ m. refl;
  alloc_keeps = λ n m. refl;
  put_keeps = λ b m. refl;
  tx_sends = λ p bytes m. refl;
  stored = λ b m. refl;
  alloc_buf = λ n m. refl;
  copies = λ segments len old le fits. refl;
}

abbrev frame : Frame
frame = chain ((1 ∷ 2 ∷ []) ∷ (3 ∷ []) ∷ [])

send_ethernet_sends_example : Returned (seen sent polled) (1 ∷ 2 ∷ 3 ∷ []) machine (
    send_ethernet
      (driver_host lines handle no_callback no_turn morse from_thread)
      300
      3
      frame
      machine)
send_ethernet_sends_example =
    send_ethernet_sends sent polled (λ n. n) (λ n. n) 1 1 8 counter-Clock (omega arith) lines handle
      no_callback no_turn morse handle-Behaves (λ t. idle-Behaves) (λ i. idle-Behaves)
      morse-Documented from_thread 300 3 frame machine (omega arith) (omega arith) refl
      (omega arith) refl
