-- ===== src/Ctrl/Transmit/Outcome.antt =====
-- What a call of mm_halow_send_ethernet leaves: the frames that were sent, and whether reception is on.
use native.Mathlib.Nat.{div-lt_iff_lt-mul, le-div_iff_mul-le, div-mul-le_self}
use mm_halow_driver.Base.{
  ℕ, zero, suc, ◌+◌, ◌*◌, ◌/◌, ◌%◌, ◌^◌, ◌-◌, ◌≤◌, ◌<◌, ◌≡◌, refl, sym, ap, subst, ◌∙◌, Bool, true,
  false, ◌||◌, not, Option, none, some, List, [], ◌∷◌, ◌++◌, arith, inl, inr, ltb, leb,
  if◌then◌else◌, Bool-cases, sub32, take, length,
}
use mm_halow_driver.Ctrl.{Errno, einval, eagain, is_ok}
use mm_halow_driver.Ctrl.Transmit.{
  Frame, flat, segment, chain, TxHost, linearise, tx_ready_ms, frame_bytes, send_packet, send_frame,
  wait_ready, waited, send_ethernet,
}
use mathlib.Core.List.{append-nil}
use mm_halow_driver.Ctrl.Transmit.Laws.{
  Flows, Seen, Grown, same-Grown, Grown-trans, payload, Effects, Sent, Returned,
}

module _ {S : Type 0} (h : TxHost S) (seen : S → Seen) (rate : ℕ) (flow : Flows h rate)
    (eff : Effects h seen) where
  open flow use {Good, instant}

  -- The frame was sent once if the call reports success, and not at all otherwise.
  abbrev Sends : List ℕ → S → Errno × S → Type 0
  Sends bytes s r =
      seen r.1
      ≡ (if is_ok r.0 then record (seen s) { sent = (seen s).sent ++ bytes ∷ [] } else seen s)

  send_packet-Sends :
      (len : ℕ) (frame : Frame) (o : Option ℕ) (s : S)
      → Sends (frame_bytes h len frame s) s (send_packet h len frame (o, s))
  unfolding send_packet
  send_packet-Sends len frame none s = refl
  send_packet-Sends len frame (some p) s = ground (
    arith,
    eff.tx_sends p (frame_bytes h len frame s) s,
    eff.request_keeps (h.tx_pkt p (h.append p (frame_bytes h len frame s) s)).1,
  )

  linearise-seen : (len : ℕ) (frame : Frame) (s : S) → seen (linearise h len frame s) ≡ seen s
  unfolding linearise
  linearise-seen len (flat bytes) s = refl
  linearise-seen len (segment bytes) s = refl
  linearise-seen len (chain segments) s = eff.put_keeps _ s

  -- When the packet is filled the buffer has the frame, where it was copied there.
  frame_bytes-payload :
      (len : ℕ) (frame : Frame) (s : S)
      → len ≤ length (payload frame)
      → len ≤ h.buf_size
      → frame_bytes h len frame (h.alloc len (linearise h len frame s)).1 ≡ take len (payload frame)
  unfolding frame_bytes linearise
  frame_bytes-payload len (flat bytes) s le fits = refl
  frame_bytes-payload len (segment bytes) s le fits = refl
  frame_bytes-payload len (chain segments) s le fits =
      ap (take len) (
        eff.alloc_buf len (linearise h len (chain segments) s)
        ∙ eff.stored (h.copy_partial segments len (h.get_buf s)) s)
      ∙ eff.copies segments len (h.get_buf s) le fits

  send_frame-Sends :
      (len : ℕ) (frame : Frame) (s : S)
      → len ≤ length (payload frame)
      → len ≤ h.buf_size
      → Sends (take len (payload frame)) s (send_frame h len frame s)
  unfolding send_frame
  send_frame-Sends len frame s le fits =
      let s1 = linearise h len frame s in
      subst
        (λ a. seen (send_frame h len frame s).1 ≡ (
          if is_ok (send_frame h len frame s).0
          then record a { sent = a.sent ++ take len (payload frame) ∷ [] }
          else a))
        (eff.alloc_keeps len s1 ∙ linearise-seen len frame s)
        (subst (λ bytes. Sends bytes (h.alloc len s1).1 (send_frame h len frame s))
          (frame_bytes-payload len frame s le fits)
          (send_packet-Sends len frame (h.alloc len s1).0 (h.alloc len s1).1))

  abbrev ms : S → ℕ
  ms s = instant s / rate

  ms_mono : (s s' : S) → instant s ≤ instant s' → ms s ≤ ms s'
  ms_mono s s' le =
      (le-div_iff_mul-le flow.positive).1 (omega (arith, div-mul-le_self (instant s) rate))

  -- Before the deadline the clock shows the time that has passed since `t0`.
  within :
      (t0 : ℕ) (s : S)
      → Good s
      → t0 ≤ ms s
      → ms s ≤ t0 + tx_ready_ms + 2 ^ 30 + 2 ^ 30
      → leb tx_ready_ms (sub32 (h.ticks (h.tx_ready s).1).0 (t0 % 2 ^ 32)) ≡ false
      → ms (h.tx_ready s).1 < t0 + tx_ready_ms
  within t0 s good low high early =
      let s1 = (h.tx_ready s).1 in
      let up = ms_mono s s1 (flow.ready_on s good) in
      let few = flow.ready_few s good in
      let shown : sub32 (h.ticks s1).0 (t0 % 2 ^ 32) ≡ ms s1 - t0 =
        rw (flow.reads s1 (flow.ready_good s good)) (omega (arith, up, few, low, high)) in
      ground (arith, shown, early, up, low)

  -- The loop ends, and sends nothing but what its polls do.
  abbrev Ends : S → Option (Bool × S) → Type 0
  Ends s r = (b : Bool) × (s' : S) × (r ≡ some (b, s')) × Grown (seen s) (seen s')

  kept : (s s' : S) → seen s' ≡ seen s → Grown (seen s) (seen s')
  kept s s' e =
      same-Grown (seen s) (seen s') (ap (λ (a : Seen). a.sent) e) (ap (λ (a : Seen). a.polled) e)

  wait_ready-Ends :
      (f t0 : ℕ) (s : S)
      → Good s
      → t0 ≤ ms s
      → ms s ≤ t0 + tx_ready_ms + 2 ^ 30 + 2 ^ 30
      → 0 < f
      → (t0 + tx_ready_ms) * rate < instant s + f
      → Ends s (wait_ready h f (t0 % 2 ^ 32) s)
  unfolding wait_ready
  wait_ready-Ends zero t0 s good low high pos fuel = absurd (omega arith)
  wait_ready-Ends (suc f) t0 s good low high pos fuel =
      let s1 = (h.tx_ready s).1 in
      let s2 = (h.ticks s1).1 in
      elim (Bool-cases (h.tx_ready s).0) [
        | inl e ↦ (true, s1, rw e refl, kept s s1 (eff.ready_keeps s))
        | inr e ↦ elim (Bool-cases (leb tx_ready_ms (sub32 (h.ticks s1).0 (t0 % 2 ^ 32)))) [
          | inl late ↦
              (false, s2, rw (e, late) refl, kept s s2 (eff.ticks_keeps s1 ∙ eff.ready_keeps s))
          | inr early ↦
              let good1 = flow.ready_good s good in
              let good2 = flow.ticks_good s1 good1 in
              let before = within t0 s good low high early in
              let on : instant s < instant (h.poll s2) =
                omega (arith, flow.ready_on s good, flow.ticks_on s1, flow.poll_on s2 good2) in
              let (b, s', q, grown) =
                wait_ready-Ends f t0 (h.poll s2) (flow.poll_good s2 good2)
                  (omega (arith, low, ms_mono s (h.poll s2) (omega (arith, on))))
                  (omega (arith, before, flow.ticks_few s1, flow.poll_few s2 good2))
                  (omega
                    (arith, (div-lt_iff_lt-mul flow.positive).0 before, flow.ready_on s good, fuel))
                  (omega (arith, on, fuel)) in
              (
                b,
                s',
                rw (e, early) q,
                Grown-trans (seen s) (seen s2) (seen s')
                    (kept s s2 (eff.ticks_keeps s1 ∙ eff.ready_keeps s))
                    (Grown-trans (seen s2) (seen (h.poll s2)) (seen s') (eff.poll_grows s2) grown),
              )
        ]
      ]

  sent_own :
      (bytes : List ℕ) (a b c : Seen) (e : Errno)
      → Grown a b
      → b.deferred ≡ false
      → c ≡ (if is_ok e then record b { sent = b.sent ++ bytes ∷ [] } else b)
      → Sent bytes a e c
  sent_own bytes a b c e v d q = elim (Bool-cases (is_ok e)) [
    | inl y ↦
        let w : c ≡ record b { sent = b.sent ++ bytes ∷ [] } = rw y at q in
        record {
          deferred = ap (λ (x : Seen). x.deferred) w ∙ d;
          within_polls = v.frames;
          polled = ap (λ (x : Seen). x.polled) w ∙ v.polled;
          sent = rw y (ap (λ (x : Seen). x.sent) w ∙ ap (λ l. l ++ bytes ∷ []) v.sent);
        }
    | inr n ↦
        let w : c ≡ b = rw n at q in
        record {
          deferred = ap (λ (x : Seen). x.deferred) w ∙ d;
          within_polls = v.frames;
          polled = ap (λ (x : Seen). x.polled) w ∙ v.polled;
          sent =
              rw n (ap (λ (x : Seen). x.sent) w ∙ v.sent ∙ sym (append-nil (a.sent ++ v.frames)));
        }
  ]

  undefer-Grown :
      (s s' : S)
      → Grown (seen s) (seen s')
      → Grown (seen s) (seen (h.defer false s')) × ((seen (h.defer false s')).deferred ≡ false)
  undefer-Grown s s' v =
      let e = eff.defer_sets false s' in
      (
        Grown-trans (seen s) (seen s') (seen (h.defer false s')) v (
            same-Grown (seen s') (seen (h.defer false s')) (ap (λ (x : Seen). x.sent) e)
              (ap (λ (x : Seen). x.polled) e)),
        ap (λ (x : Seen). x.deferred) e,
      )

  waited-Returned :
      (len : ℕ) (frame : Frame) (s s0 : S) (o : Option (Bool × S))
      → len ≤ length (payload frame)
      → len ≤ h.buf_size
      → Grown (seen s) (seen s0)
      → Ends s0 o
      → Returned seen (take len (payload frame)) s (waited h len frame o)
  unfolding waited Returned
  waited-Returned len frame s s0 o le fits v (true, s', e, grown) =
      let s1 = h.defer false s' in
      let (w, d) = undefer-Grown s s' (Grown-trans (seen s) (seen s0) (seen s') v grown) in
      let r = send_frame h len frame s1 in
      rw e (
        r,
        refl,
        sent_own (take len (payload frame)) (seen s) (seen s1) (seen r.1) r.0 w d
            (send_frame-Sends len frame s1 le fits),
      )
  waited-Returned len frame s s0 o le fits v (false, s', e, grown) =
      let s1 = h.defer false s' in
      let (w, d) = undefer-Grown s s' (Grown-trans (seen s) (seen s0) (seen s') v grown) in
      rw e (
        (eagain, s1),
        refl,
        sent_own (take len (payload frame)) (seen s) (seen s1) (seen s1) eagain w d refl,
      )

  enough_fuel :
      (fuel : ℕ) (s s' : S)
      → instant s ≤ instant s'
      → tx_ready_ms * rate < fuel
      → (ms s + tx_ready_ms) * rate < instant s' + fuel
  enough_fuel fuel s s' on enough = omega (arith, div-mul-le_self (instant s) rate, on, enough)

  -- With fuel for MM_HALOW_TX_READY_MS, mm_halow_send_ethernet of `len` bytes, of which the frame has
  -- as many, returns, if reception was not held off before; and it is not left held off. If it reports
  -- success it has given morselib the frame's first `len` bytes, once, behind all the frames that its
  -- polls sent meanwhile; if not, no frame but those of its polls.
  pub send_ethernet-Returned :
      (fuel len : ℕ) (frame : Frame) (s : S)
      → tx_ready_ms * rate < fuel
      → len ≤ length (payload frame)
      → Good s
      → (seen s).deferred ≡ false
      → Returned seen (take len (payload frame)) s (send_ethernet h fuel len frame s)
  unfolding send_ethernet Returned
  send_ethernet-Returned fuel len frame s enough le good d =
      let bytes = take len (payload frame) in
      let stays = kept s s refl in
      let s1 = (h.tx_ready s).1 in
      let k = eff.ready_keeps s in
      elim (Bool-cases (ltb h.buf_size len || not (h.has_buf s))) [
        | inl bad ↦
            rw bad
              ((einval, s), refl, sent_own bytes (seen s) (seen s) (seen s) einval stays d refl)
        | inr fits ↦ elim (Bool-cases (h.in_task s)) [
          | inl task ↦ elim (Bool-cases (h.tx_ready s).0) [
            | inl ready ↦
                let r = send_frame h len frame s1 in
                rw (fits, task, ready)
                  (
                    r,
                    refl,
                    sent_own bytes (seen s) (seen s1) (seen r.1) r.0 (kept s s1 k)
                        (ap (λ (x : Seen). x.deferred) k ∙ d)
                        (send_frame-Sends len frame s1 le (ground (arith, fits))),
                  )
            | inr full ↦
                rw (fits, task, full)
                  (
                    (eagain, s1),
                    refl,
                    sent_own bytes (seen s) (seen s1) (seen s1) eagain (kept s s1 k)
                        (ap (λ (x : Seen). x.deferred) k ∙ d) refl,
                  )
          ]
          | inr thread ↦
              let s2 = (h.ticks s).1 in
              let s3 = h.defer true s2 in
              let on : instant s ≤ instant s3 =
                omega (arith, flow.ticks_on s, flow.defer_on true s2) in
              let few : ms s3 ≤ ms s + 2 ^ 30 = rw (flow.defer_on true s2) (flow.ticks_few s) in
              let e = eff.defer_sets true s2 in
              let t = eff.ticks_keeps s in
              let begun =
                same-Grown (seen s) (seen s3)
                  (ap (λ (x : Seen). x.sent) e ∙ ap (λ (x : Seen). x.sent) t)
                  (ap (λ (x : Seen). x.polled) e ∙ ap (λ (x : Seen). x.polled) t) in
              rw (fits, thread, flow.reads s good)
                (waited-Returned len frame s s3 _ le (ground (arith, fits)) begun (
                  wait_ready-Ends fuel (ms s) s3 (flow.defer_good true s2 (flow.ticks_good s good))
                    (ms_mono s s3 on) (omega (arith, few)) (omega (arith, enough))
                    (enough_fuel fuel s s3 on enough)))
        ]
      ]
