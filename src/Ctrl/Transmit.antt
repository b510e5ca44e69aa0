-- ===== src/Ctrl/Transmit.antt =====
-- mm_halow_send_ethernet of mm_halow_ctrl.c: the wait for room, and the packet that is made of a frame.
pub mod Laws
pub mod Outcome
pub mod Driver
mod Checks
use mm_halow_driver.Base.{
  ℕ, zero, suc, Bool, true, false, ◌||◌, not, Option, none, some, List, [], ◌∷◌, ltb, leb,
  if◌then◌else◌, take, sub32,
}
use mm_halow_driver.Sched.Service.{Context}
use mm_halow_driver.Sched.Run.{Machine, is_some, now, tick}
use mm_halow_driver.Hal.{Lines, Handler}
use mm_halow_driver.Osal.Timers.{Timer}
use mm_halow_driver.Ctrl.{Status, Errno, ok, einval, eagain, status_to_errno, is_ok}
use mm_halow_driver.Ctrl.Poll.{Env, on_env, request_poll, poll_func}

-- MM_HALOW_TX_READY_MS
abbrev pub tx_ready_ms : ℕ
tx_ready_ms = 250

-- What is given to be sent: a buffer (`!is_pbuf`), a pbuf of one segment, or a chain of pbufs.
pub data Frame : Type 0 where
  flat : List ℕ → Frame
  segment : List ℕ → Frame
  chain : List (List ℕ) → Frame

-- What sending uses of the rest of the driver, of morselib and of lwIP, over a state `S` of them.
pub record TxHost (S : Type 0) : Type 0 where
  -- mm_halow_ticks_ms()
  pub ticks : S → ℕ × S
  -- mm_halow_sched_task_current() != NULL
  pub in_task : S → Bool
  -- mm_halow_tx_buf != NULL
  pub has_buf : S → Bool
  -- MM_HALOW_TX_BUF_SIZE
  pub buf_size : ℕ
  -- self->rx_deferred = b
  pub defer : Bool → S → S
  -- mmwlan_tx_wait_until_ready(0) == MMWLAN_SUCCESS
  pub tx_ready : S → Bool × S
  -- mm_halow_poll_func()
  pub poll : S → S
  -- mm_halow_request_poll()
  pub request : S → S
  -- mmwlan_alloc_mmpkt_for_tx
  pub alloc : ℕ → S → Option ℕ × S
  -- mmpkt_append_data, between mmpkt_open and mmpkt_close
  pub append : ℕ → List ℕ → S → S
  -- mmwlan_tx_pkt
  pub tx_pkt : ℕ → S → Status × S
  -- what mm_halow_tx_buf holds, and a write of all of it
  pub get_buf : S → List ℕ
  pub put_buf : List ℕ → S → S
  -- pbuf_copy_partial of `len` bytes from the start of a chain, over what the buffer held
  pub copy_partial : List (List ℕ) → ℕ → List ℕ → List ℕ

module _ {S : Type 0} (h : TxHost S) where
  -- A chain is copied into the buffer that all calls share; a buffer and a single segment are sent
  -- from where they are.
  pub linearise : ℕ → Frame → S → S
  linearise len (flat bytes) s = s
  linearise len (segment bytes) s = s
  linearise len (chain segments) s = h.put_buf (h.copy_partial segments len (h.get_buf s)) s

  -- The `len` bytes that `data` points to.
  pub frame_bytes : ℕ → Frame → S → List ℕ
  frame_bytes len (flat bytes) s = take len bytes
  frame_bytes len (segment bytes) s = take len bytes
  frame_bytes len (chain segments) s = take len (h.get_buf s)

  -- The end of mm_halow_send_ethernet, with the packet that was allocated.
  pub send_packet : ℕ → Frame → Option ℕ × S → Errno × S
  send_packet len frame (none, s) = (eagain, s)
  send_packet len frame (some p, s) =
      let (status, s1) = h.tx_pkt p (h.append p (frame_bytes len frame s) s) in
      if is_ok (status_to_errno status) then (ok, h.request s1) else (status_to_errno status, s1)

  -- mm_halow_send_ethernet behind the wait
  pub send_frame : ℕ → Frame → S → Errno × S
  send_frame len frame s = send_packet len frame (h.alloc len (linearise len frame s))

  -- The `while` loop: whether the transmit path became ready, or none when the fuel runs out.
  pub wait_ready : ℕ → ℕ → S → Option (Bool × S)
  wait_ready zero start s = none
  wait_ready (suc f) start s =
      let (ready, s1) = h.tx_ready s in
      let (now, s2) = h.ticks s1 in
      let rest = wait_ready f start (h.poll s2) in
      if ready
      then some (true, s1)
      else if leb tx_ready_ms (sub32 now start)
      then some (false, s2)
      else rest

  -- The end of the wait: reception is on again.
  pub waited : ℕ → Frame → Option (Bool × S) → Option (Errno × S)
  waited len frame none = none
  waited len frame (some (ready, s)) =
      some (if ready then send_frame len frame (h.defer false s) else (eagain, h.defer false s))

  -- mm_halow_send_ethernet
  pub send_ethernet : ℕ → ℕ → Frame → S → Option (Errno × S)
  send_ethernet fuel len frame s =
      let (start, s1) = h.ticks s in
      let (ready, s2) = h.tx_ready s in
      if ltb h.buf_size len || not (h.has_buf s)
      then some (einval, s)
      else if not (h.in_task s)
      then waited len frame (wait_ready fuel start (h.defer true s1))
      else if ready
      then some (send_frame len frame s2)
      else some (eagain, s2)

module _ {R : Type 0} (lines : R → Lines) (handler : Handler → Machine (Env R) → Machine (Env R))
    (callback : Timer → Machine (Env R) → Machine (Env R))
    (turn : ℕ → Machine (Env R) → Machine (Env R)) (morse : TxHost (Machine (Env R))) where
  -- Sending on the machine that mm_halow_poll_func runs on; of `morse` only morselib's and lwIP's
  -- part is used, and the transmit buffer.
  pub driver_host : Context → TxHost (Machine (Env R))
  driver_host c = record morse {
    ticks = λ m. (now m, tick m);
    in_task = λ m. is_some m.sched.cur;
    defer = λ b. on_env (λ e. record e { rx_deferred = b });
    poll = poll_func lines handler callback turn c;
    request = request_poll;
  }
