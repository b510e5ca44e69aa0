-- ===== src/Ctrl/Transmit/Driver.antt =====
-- mm_halow_send_ethernet over mm_halow_poll_func itself, on the machine of mm_halow_sched.c.
use mm_halow_driver.Base.{
  ℕ, ◌+◌, ◌*◌, ◌^◌, ◌≤◌, ◌<◌, ◌≡◌, refl, ap, false, List, [], ◌∷◌, ◌++◌, arith, length, take,
  if◌then◌else◌,
}
use mm_halow_driver.Sched.Service.{Context}
use mm_halow_driver.Sched.Run.{Machine}
use mm_halow_driver.Sched.Run.Clocked.{Clock, Moved, Moves}
use mm_halow_driver.Hal.{Lines, Handler}
use mm_halow_driver.Osal.Timers.{Timer}
use mm_halow_driver.Ctrl.{status_to_errno, is_ok}
use mm_halow_driver.Ctrl.Poll.{Env, request_poll}
use mm_halow_driver.Ctrl.Poll.Effects.{Account, poll_func-Serves}
use mm_halow_driver.Ctrl.Poll.Clocked.{poll_func-Moved}
use mm_halow_driver.Ctrl.Transmit.{Frame, TxHost, tx_ready_ms, driver_host, send_ethernet}
use mm_halow_driver.Ctrl.Transmit.Outcome.{send_ethernet-Returned}
use mm_halow_driver.Ctrl.Transmit.Laws.{
  Flows, Seen, Grown, same-Grown, Grown-trans, joined, payload, Effects, Returned,
}

-- `sent` is what was given to morselib, and `polled` what of it within polls.
module _ {R : Type 0} (sent polled : R → List (List ℕ)) where
  abbrev pub seen_in : Env R → Seen
  seen_in e = record { deferred = e.rx_deferred; sent = sent e.rest; polled = polled e.rest }

  abbrev pub seen : Machine (Env R) → Seen
  seen m = seen_in m.env

  module _ (clock0 : ℕ → ℕ) (time : ℕ → ℕ) (rate step most : ℕ) where
    -- A handler, a callback or a task's turn of morselib: it takes at most `step` milliseconds, leaves
    -- at most `most` timers, and may send frames.
    pub record Behaves (f : Machine (Env R) → Machine (Env R)) : Type 0 where
      pub moves : Moves clock0 time rate step f
      pub few : (m : Machine (Env R)) → length m.env.timers ≤ most → length (f m).env.timers ≤ most
      pub grows : (m : Machine (Env R)) → Grown (seen m) (seen (f m))

    -- What morselib and lwIP document of the calls that sending makes.
    pub record Documented (morse : TxHost (Machine (Env R))) : Type 0 where
      pub ready_moves : Moves clock0 time rate step (λ m. (morse.tx_ready m).1)
      pub ready_few :
          (m : Machine (Env R))
          → length m.env.timers ≤ most
          → length (morse.tx_ready m).1.env.timers ≤ most
      pub ready_keeps : (m : Machine (Env R)) → seen (morse.tx_ready m).1 ≡ seen m
      pub alloc_keeps : (n : ℕ) (m : Machine (Env R)) → seen (morse.alloc n m).1 ≡ seen m
      pub put_keeps : (b : List ℕ) (m : Machine (Env R)) → seen (morse.put_buf b m) ≡ seen m
      pub tx_sends :
          (p : ℕ) (bytes : List ℕ) (m : Machine (Env R))
          → seen (morse.tx_pkt p (morse.append p bytes m)).1 ≡ (
              if is_ok (status_to_errno (morse.tx_pkt p (morse.append p bytes m)).0)
              then record (seen m) { sent = (seen m).sent ++ bytes ∷ [] }
              else seen m)
      pub stored : (b : List ℕ) (m : Machine (Env R)) → morse.get_buf (morse.put_buf b m) ≡ b
      pub alloc_buf :
          (n : ℕ) (m : Machine (Env R)) → morse.get_buf (morse.alloc n m).1 ≡ morse.get_buf m
      pub copies :
          (segments : List (List ℕ)) (len : ℕ) (old : List ℕ)
          → len ≤ length (joined segments)
          → len ≤ morse.buf_size
          → take len (morse.copy_partial segments len old) ≡ take len (joined segments)

    -- What a poll does to the world: it may send frames, and leaves at most `most` timers.
    record Polled (e e' : Env R) : Type 0 where
      few : length e.timers ≤ most → length e'.timers ≤ most
      grown : Grown (seen_in e) (seen_in e')

    Polled-Account : Account Polled
    Polled-Account = record {
      trans = λ a b c v w. record {
        few = λ le. w.few (v.few le);
        grown = Grown-trans (seen_in a) (seen_in b) (seen_in c) v.grown w.grown;
      };
      touched = λ a b t. record {
        few = λ le. rw (t.timers) le;
        grown = same-Grown (seen_in a) (seen_in b) (ap sent t.rest) (ap polled t.rest);
      };
    }

    module _ (tells : Clock clock0 time rate step) (brief : 31 * step + most * step ≤ 2 ^ 30)
        (lines : R → Lines) (handler : Handler → Machine (Env R) → Machine (Env R))
        (callback : Timer → Machine (Env R) → Machine (Env R))
        (turn : ℕ → Machine (Env R) → Machine (Env R)) (morse : TxHost (Machine (Env R)))
        (handlers : (i : Handler) → Behaves (handler i))
        (callbacks : (t : Timer) → Behaves (callback t)) (turns : (i : ℕ) → Behaves (turn i))
        (docs : Documented morse) (c : Context) where
      abbrev host : TxHost (Machine (Env R))
      host = driver_host lines handler callback turn morse c

      poll-Polled : (m : Machine (Env R)) → Polled m.env (host.poll m).env
      unfolding driver_host
      poll-Polled =
          poll_func-Serves Polled Polled-Account lines handler callback turn
            (λ i m. record { few = (handlers i).few m; grown = (handlers i).grows m })
            (λ t m. record { few = (callbacks t).few m; grown = (callbacks t).grows m })
            (λ i m. record { few = (turns i).few m; grown = (turns i).grows m }) c

      poll-Moved :
          (m : Machine (Env R))
          → m.clock ≡ clock0
          → length m.env.timers ≤ most
          → Moved clock0 time rate (31 * step + most * step) m.reads (host.poll m)
      unfolding driver_host
      poll-Moved =
          poll_func-Moved clock0 time rate step tells lines handler callback turn
            (λ i. (handlers i).moves) (λ t. (callbacks t).moves) (λ i. (turns i).moves) most
            (λ i. (handlers i).few) c

      host-Flows : Flows host rate
      unfolding driver_host
      host-Flows = record {
        Good = λ m. (m.clock ≡ clock0) × (length m.env.timers ≤ most);
        instant = λ m. time m.reads;
        positive = tells.positive;
        reads = λ m g. rw (g.0, tells.shows) refl;
        ticks_good = λ m g. g;
        ticks_on = λ m. tells.grows m.reads;
        ticks_few = λ m. omega (arith, tells.steps m.reads, brief);
        defer_good = λ b m g. g;
        defer_on = λ b m. refl;
        ready_good = λ m g. ((docs.ready_moves m g.0).same, docs.ready_few m g.1);
        ready_on = λ m g. (docs.ready_moves m g.0).on;
        ready_few = λ m g. omega (arith, (docs.ready_moves m g.0).few, brief);
        poll_good = λ m g. ((poll-Moved m g.0 g.1).same, (poll-Polled m).few g.1);
        poll_on = λ m g. (poll-Moved m g.0 g.1).on;
        poll_few = λ m g. omega (arith, (poll-Moved m g.0 g.1).few, brief);
      }

      host-Effects : Effects host seen
      unfolding driver_host request_poll
      host-Effects = record {
        defer_sets = λ b m. refl;
        ticks_keeps = λ m. refl;
        ready_keeps = docs.ready_keeps;
        request_keeps = λ m. refl;
        alloc_keeps = docs.alloc_keeps;
        put_keeps = docs.put_keeps;
        poll_grows = λ m. (poll-Polled m).grown;
        tx_sends = docs.tx_sends;
        stored = docs.stored;
        alloc_buf = docs.alloc_buf;
        copies = docs.copies;
      }

      -- mm_halow_send_ethernet of `len` bytes, of which the frame has as many, over the driver's own
      -- clock and poll, with fuel for MM_HALOW_TX_READY_MS, where reception was not held off before:
      -- it returns, and does not leave reception held off. If it reports success it has given morselib
      -- the frame's first `len` bytes, once, behind all the frames that its polls sent meanwhile; if
      -- not, no frame but those of its polls. The premises: morselib and lwIP keep to what they document;
      -- a reading of the clock, a handler, a callback and a turn take at most `step` ms each, and
      -- leave at most `most` timers; and these are so few and so short that a poll takes at most
      -- 2^30 ms.
      pub send_ethernet_sends :
          (fuel len : ℕ) (frame : Frame) (m : Machine (Env R))
          → tx_ready_ms * rate < fuel
          → len ≤ length (payload frame)
          → m.clock ≡ clock0
          → length m.env.timers ≤ most
          → m.env.rx_deferred ≡ false
          → Returned seen
              (take len (payload frame))
              m
              (send_ethernet (driver_host lines handler callback turn morse c) fuel len frame m)
      unfolding host-Flows
      send_ethernet_sends fuel len frame m enough le clock few d =
          send_ethernet-Returned host seen rate host-Flows host-Effects fuel len frame m enough le
            (clock, few) d
