-- ===== src/Osal/Timers/Poll.antt =====
-- mm_halow_osal_timer_poll fires each timer that is due, once.
use mm_halow_driver.Base.{
  ℕ, suc, ◌^◌, ◌≤◌, ◌<◌, ◌≡◌, refl, sym, ap, ◌∙◌, false, some, List, [], ◌∷◌, ◌++◌, arith, inl, inr,
  if◌then◌else◌, length, Bool-cases, count, count-append, subst, add32,
}
use mathlib.Core.List.{append_assoc, append-nil}
use mm_halow_driver.Osal.Timers.{
  Timer, update, is_due, timer_pending, rearm, addr_of_first, find_timer, TimerWorld, fire,
  poll_from, timer_poll,
}

abbrev pub addrs : List Timer → List ℕ
addrs [] = []
addrs (t ∷ ts) = t.addr ∷ addrs ts

-- What a poll makes of a timer: one that is due and repeats has a new deadline, a period from now;
-- one that is due and does not repeat is inactive.
abbrev pub polled : ℕ → Timer → Timer
polled now t =
    if is_due now t
    then (if t.auto_reload
        then record t { expires_at = add32 now t.period_ms }
        else record t { active = false })
    else t

abbrev pub polled_all : ℕ → List Timer → List Timer
polled_all now [] = []
polled_all now (t ∷ ts) = polled now t ∷ polled_all now ts

-- The timers that a poll calls back, in the order of the list.
abbrev pub due_addrs : ℕ → List Timer → List ℕ
due_addrs now [] = []
due_addrs now (t ∷ ts) = if is_due now t then t.addr ∷ due_addrs now ts else due_addrs now ts

addrs-append : (xs ys : List Timer) → addrs (xs ++ ys) ≡ addrs xs ++ addrs ys
addrs-append [] ys = refl
addrs-append (x ∷ xs) ys = ap (◌∷◌ x.addr) (addrs-append xs ys)

addr-polled : (now : ℕ) (t : Timer) → (polled now t).addr ≡ t.addr
addr-polled now t = ground arith

addr-rearm : (now : ℕ) (t : Timer) → (rearm now t).addr ≡ t.addr
addr-rearm now t = ground arith

find_timer-middle :
    (pre : List Timer) (t : Timer) (ts : List Timer)
    → count t.addr (addrs pre) ≡ 0
    → find_timer t.addr (pre ++ t ∷ ts) ≡ some (t, addr_of_first ts)
find_timer-middle [] t ts h = ground arith
find_timer-middle (p ∷ pre) t ts h = ground (arith, find_timer-middle pre t ts)

update-middle :
    (f : Timer → Timer) (pre : List Timer) (t : Timer) (ts : List Timer)
    → count t.addr (addrs pre) ≡ 0
    → update t.addr f (pre ++ t ∷ ts) ≡ pre ++ f t ∷ ts
unfolding update
update-middle f [] t ts h = ground arith
update-middle f (p ∷ pre) t ts h = ground (arith, update-middle f pre t ts)

-- Periods and deadlines that the clock can tell apart.
abbrev pub InRange : List Timer → Type 0
InRange [] = Unit
InRange (t ∷ ts) = (0 < t.period_ms) × (t.period_ms ≤ 2 ^ 31) × (t.expires_at < 2 ^ 32) × InRange ts

timer_pending-polled :
    (now : ℕ) (ts : List Timer)
    → now < 2 ^ 32
    → InRange ts
    → timer_pending now (polled_all now ts) ≡ false
unfolding timer_pending
timer_pending-polled now [] h r = refl
timer_pending-polled now (t ∷ ts) h r = ground (arith, timer_pending-polled now ts h r.3)

module _ {E : Type 0} (callback : Timer → TimerWorld E → TimerWorld E) (log : E → List ℕ) where
  -- What a poll leaves of the timers `ts`, after `done`: each as `polled` says, and the log of the
  -- callbacks longer by those that were due.
  pub record Fired (now : ℕ) (done ts : List Timer) (w w' : TimerWorld E) : Type 0 where
    pub timers : w'.timers ≡ done ++ polled_all now ts
    pub calls : log w'.env ≡ log w.env ++ due_addrs now ts

  module _ (quiet : (t : Timer) (w : TimerWorld E) → (callback t w).timers ≡ w.timers)
      (logs : (t : Timer) (w : TimerWorld E)
        → log (callback t w).env ≡ log w.env ++ t.addr ∷ []) where
    once :
        (done : List Timer) (t : Timer) (ts : List Timer)
        → ((i : ℕ) → count i (addrs (done ++ t ∷ ts)) ≤ 1)
        → count t.addr (addrs done) ≡ 0
    once done t ts u = ground (
      arith,
      u t.addr,
      ap (count t.addr) (addrs-append done (t ∷ ts)),
      count-append t.addr (addrs done) (t.addr ∷ addrs ts),
    )

    round : ℕ → Timer → TimerWorld E → TimerWorld E
    round now t w = if is_due now t then fire callback now t w else w

    timers-round :
        (now : ℕ) (done : List Timer) (t : Timer) (ts : List Timer) (w : TimerWorld E)
        → count t.addr (addrs done) ≡ 0
        → w.timers ≡ done ++ t ∷ ts
        → (round now t w).timers ≡ done ++ polled now t ∷ ts
    unfolding round fire
    timers-round now done t ts w once e = elim (Bool-cases (is_due now t)) [
      | inl d ↦ rw (d, quiet, e) (update-middle (rearm now) done t ts once)
      | inr d ↦ rw d e
    ]

    calls-round :
        (now : ℕ) (t : Timer) (ts : List Timer) (w : TimerWorld E)
        → log (round now t w).env ++ due_addrs now ts ≡ log w.env ++ due_addrs now (t ∷ ts)
    unfolding round fire
    calls-round now t ts w = elim (Bool-cases (is_due now t)) [
      | inl d ↦
          rw (d, logs, addr-rearm now t) (append_assoc (log w.env) (t.addr ∷ []) (due_addrs now ts))
      | inr d ↦ rw d refl
    ]

    same_addrs :
        (now : ℕ) (done : List Timer) (t : Timer) (ts : List Timer)
        → addrs (done ++ t ∷ ts) ≡ addrs ((done ++ polled now t ∷ []) ++ ts)
    same_addrs now done t ts =
        addrs-append done (t ∷ ts)
        ∙ (ap (λ a. addrs done ++ a ∷ addrs ts) (sym (addr-polled now t))
            ∙ (sym (addrs-append done (polled now t ∷ ts))
                ∙ ap addrs (sym (append_assoc done (polled now t ∷ []) ts))))

    poll_from-step :
        (now f : ℕ) (t : Timer) (ts done : List Timer) (w : TimerWorld E)
        → w.timers ≡ done ++ t ∷ ts
        → count t.addr (addrs done) ≡ 0
        → poll_from callback (suc f) now (some t.addr) w
          ≡ poll_from callback f now (addr_of_first ts) (round now t w)
    unfolding poll_from round
    poll_from-step now f t ts done w e o =
        rw (ap (find_timer t.addr) e ∙ find_timer-middle done t ts o, poll_from) refl

    poll_from-Fired :
        (now : ℕ) (ts done : List Timer) (w : TimerWorld E)
        → w.timers ≡ done ++ ts
        → ((i : ℕ) → count i (addrs (done ++ ts)) ≤ 1)
        → Fired now done ts w (poll_from callback (length ts) now (addr_of_first ts) w)
    unfolding poll_from
    poll_from-Fired now [] done w e u = record { timers = e; calls = sym (append-nil (log w.env)) }
    poll_from-Fired now (t ∷ ts) done w e u =
        let rest =
          poll_from-Fired now ts (done ++ polled now t ∷ []) (round now t w)
            (timers-round now done t ts w (once done t ts u) e
              ∙ sym (append_assoc done (polled now t ∷ []) ts))
            (λ i. subst (λ (l : List ℕ). count i l ≤ 1) (same_addrs now done t ts) (u i)) in
        rw (poll_from-step now (length ts) t ts done w e (once done t ts u)) (record {
          timers = rest.timers ∙ append_assoc done (polled now t ∷ []) (polled_all now ts);
          calls = rest.calls ∙ calls-round now t ts w;
        })

    -- Where the callbacks leave the timers alone and no two timers share an address,
    -- mm_halow_osal_timer_poll calls back exactly the timers that are due, each once and in the order
    -- of the list; it gives those a new deadline, or makes them inactive, and changes no other.
    pub timer_poll-Fired :
        (now : ℕ) (w : TimerWorld E)
        → ((i : ℕ) → count i (addrs w.timers) ≤ 1)
        → Fired now [] w.timers w (timer_poll callback now w)
    unfolding timer_poll
    timer_poll-Fired now w u = poll_from-Fired now w.timers [] w refl u

    -- Where the callbacks leave the timers alone, and the periods are between 1 and 2^31, no timer is
    -- due any more at the time of the poll that has just been made.
    pub timer_pending-timer_poll :
        (now : ℕ) (w : TimerWorld E)
        → ((i : ℕ) → count i (addrs w.timers) ≤ 1)
        → now < 2 ^ 32
        → InRange w.timers
        → timer_pending now (timer_poll callback now w).timers ≡ false
    timer_pending-timer_poll now w u h r =
        ap (timer_pending now) (timer_poll-Fired now w u).timers
        ∙ timer_pending-polled now w.timers h r
