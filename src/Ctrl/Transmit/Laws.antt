-- ===== src/Ctrl/Transmit/Laws.antt =====
-- What sending relies on, and in which words its outcome is told.
use mathlib.Core.List.{append_assoc, append-nil}
use mm_halow_driver.Base.{
  ℕ, ◌+◌, ◌/◌, ◌%◌, ◌^◌, ◌≤◌, ◌<◌, ◌≡◌, sym, ap, ◌∙◌, Bool, false, Option, some, List, [], ◌∷◌,
  ◌++◌, if◌then◌else◌, take, length,
}
use mm_halow_driver.Ctrl.{Errno, status_to_errno, is_ok}
use mm_halow_driver.Ctrl.Transmit.{Frame, flat, segment, chain, TxHost}

-- How time passes, in the states that are `Good`: `instant` counts the steps of the world, `rate` of
-- which make a millisecond at least. A reading of the clock takes a step; nothing turns time back, or
-- takes 2^30 ms, twelve days, by itself.
pub record Flows {S : Type 0} (h : TxHost S) (rate : ℕ) : Type 1 where
  pub Good : S → Type 0
  pub instant : S → ℕ
  pub positive : 0 < rate
  pub reads : (s : S) → Good s → (h.ticks s).0 ≡ instant s / rate % 2 ^ 32
  pub ticks_good : (s : S) → Good s → Good (h.ticks s).1
  pub ticks_on : (s : S) → instant s < instant (h.ticks s).1
  pub ticks_few : (s : S) → instant (h.ticks s).1 / rate ≤ instant s / rate + 2 ^ 30
  pub defer_good : (b : Bool) (s : S) → Good s → Good (h.defer b s)
  pub defer_on : (b : Bool) (s : S) → instant (h.defer b s) ≡ instant s
  pub ready_good : (s : S) → Good s → Good (h.tx_ready s).1
  pub ready_on : (s : S) → Good s → instant s ≤ instant (h.tx_ready s).1
  pub ready_few : (s : S) → Good s → instant (h.tx_ready s).1 / rate ≤ instant s / rate + 2 ^ 30
  pub poll_good : (s : S) → Good s → Good (h.poll s)
  pub poll_on : (s : S) → Good s → instant s ≤ instant (h.poll s)
  pub poll_few : (s : S) → Good s → instant (h.poll s) / rate ≤ instant s / rate + 2 ^ 30

-- What is seen of the calls: self->rx_deferred, the frames that were given to morselib, and those
-- among them that were given to it within polls.
pub record Seen : Type 0 where
  pub deferred : Bool
  pub sent : List (List ℕ)
  pub polled : List (List ℕ)

-- Between `a` and `b` frames were sent, all of them within polls.
pub record Grown (a b : Seen) : Type 0 where
  pub frames : List (List ℕ)
  pub sent : b.sent ≡ a.sent ++ frames
  pub polled : b.polled ≡ a.polled ++ frames

pub same-Grown : (a b : Seen) → b.sent ≡ a.sent → b.polled ≡ a.polled → Grown a b
same-Grown a b e f = record {
  frames = [];
  sent = e ∙ sym (append-nil a.sent);
  polled = f ∙ sym (append-nil a.polled);
}

pub Grown-trans : (a b c : Seen) → Grown a b → Grown b c → Grown a c
Grown-trans a b c v w = record {
  frames = v.frames ++ w.frames;
  sent = w.sent ∙ ap (λ l. l ++ w.frames) v.sent ∙ append_assoc a.sent v.frames w.frames;
  polled = w.polled ∙ ap (λ l. l ++ w.frames) v.polled ∙ append_assoc a.polled v.frames w.frames;
}

-- The bytes of a frame.
abbrev pub joined : List (List ℕ) → List ℕ
joined [] = []
joined (x ∷ xs) = x ++ joined xs

abbrev pub payload : Frame → List ℕ
payload (flat bytes) = bytes
payload (segment bytes) = bytes
payload (chain segments) = joined segments

-- What morselib and lwIP document: only mmwlan_tx_pkt sends a frame, when it succeeds, and it is what
-- was appended to its packet; pbuf_copy_partial copies what it is asked for, where the chain and the
-- buffer have as much. What polls send they send within them.
pub record Effects {S : Type 0} (h : TxHost S) (seen : S → Seen) : Type 0 where
  pub defer_sets : (b : Bool) (s : S) → seen (h.defer b s) ≡ record (seen s) { deferred = b }
  pub ticks_keeps : (s : S) → seen (h.ticks s).1 ≡ seen s
  pub ready_keeps : (s : S) → seen (h.tx_ready s).1 ≡ seen s
  pub request_keeps : (s : S) → seen (h.request s) ≡ seen s
  pub alloc_keeps : (n : ℕ) (s : S) → seen (h.alloc n s).1 ≡ seen s
  pub put_keeps : (b : List ℕ) (s : S) → seen (h.put_buf b s) ≡ seen s
  pub poll_grows : (s : S) → Grown (seen s) (seen (h.poll s))
  pub tx_sends :
      (p : ℕ) (bytes : List ℕ) (s : S)
      → seen (h.tx_pkt p (h.append p bytes s)).1 ≡ (
          if is_ok (status_to_errno (h.tx_pkt p (h.append p bytes s)).0)
          then record (seen s) { sent = (seen s).sent ++ bytes ∷ [] }
          else seen s)
  pub stored : (b : List ℕ) (s : S) → h.get_buf (h.put_buf b s) ≡ b
  pub alloc_buf : (n : ℕ) (s : S) → h.get_buf (h.alloc n s).1 ≡ h.get_buf s
  pub copies :
      (segments : List (List ℕ)) (len : ℕ) (old : List ℕ)
      → len ≤ length (joined segments)
      → len ≤ h.buf_size
      → take len (h.copy_partial segments len old) ≡ take len (joined segments)

-- What the call left of `a`: reception is on, and behind what was sent within polls its own frame,
-- if it reports success, was sent.
pub record Sent (bytes : List ℕ) (a : Seen) (e : Errno) (b : Seen) : Type 0 where
  pub deferred : b.deferred ≡ false
  pub within_polls : List (List ℕ)
  pub polled : b.polled ≡ a.polled ++ within_polls
  pub sent : b.sent ≡ (a.sent ++ within_polls) ++ (if is_ok e then bytes ∷ [] else [])

-- The call returned, and did so.
unfoldable pub Returned : {S : Type 0} → (S → Seen) → List ℕ → S → Option (Errno × S) → Type 0
Returned {S} seen bytes s o = (r : Errno × S) × (o ≡ some r) × Sent bytes (seen s) r.0 (seen r.1)
