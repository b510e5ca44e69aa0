-- ===== src/Osal/Timers.antt =====
-- The software timers of mm_halow_osal.c. A timer is named by the address of its node; the list that
-- starts at mm_halow_timer_list is the list of the nodes.
pub mod Poll
use mm_halow_driver.Base.{
  ℕ, zero, suc, Bool, true, false, ◌&&◌, Option, none, some, List, [], ◌∷◌, ◌==◌, if◌then◌else◌,
  add32, length, at_or_past,
}
use mm_halow_driver.Heap.{Heap, malloc, free}

-- struct mmosal_timer; `next` is the rest of the list.
pub record Timer : Type 0 where
  pub addr : ℕ
  pub name : ℕ
  pub period_ms : ℕ
  pub expires_at : ℕ
  pub auto_reload : Bool
  pub active : Bool
  pub arg : ℕ
  pub callback : ℕ

-- sizeof(struct mmosal_timer)
abbrev pub timer_struct : ℕ
timer_struct = 28

-- mmosal_timer_create behind the allocation
unfoldable pub add_timer :
    ℕ → ℕ → Bool → ℕ → ℕ → List Timer → Option ℕ × Heap → Option ℕ × Heap × List Timer
add_timer name period auto arg callback ts (none, h) = (none, h, ts)
add_timer name period auto arg callback ts (some p, h) = (
  some p,
  h,
  record {
    addr = p;
    name = name;
    period_ms = period;
    expires_at = 0;
    auto_reload = auto;
    active = false;
    arg = arg;
    callback = callback;
  }
      ∷ ts,
)

-- mmosal_timer_create
unfoldable pub timer_create :
    ℕ → ℕ → Bool → ℕ → ℕ → Heap → List Timer → Option ℕ × Heap × List Timer
timer_create name period auto arg callback h ts =
    add_timer name period auto arg callback ts (malloc timer_struct h)

-- The search loop of mmosal_timer_delete.
unfoldable pub unlink_timer : ℕ → List Timer → List Timer
unlink_timer a [] = []
unlink_timer a (t ∷ ts) = if t.addr == a then ts else t ∷ unlink_timer a ts

-- mmosal_timer_delete
unfoldable pub timer_delete : Option ℕ → Heap → List Timer → Heap × List Timer
timer_delete none h ts = (h, ts)
timer_delete (some a) h ts = (free (some a) h, unlink_timer a ts)

-- A write through the pointer `a`.
unfoldable pub update : ℕ → (Timer → Timer) → List Timer → List Timer
update a f [] = []
update a f (t ∷ ts) = if t.addr == a then f t ∷ ts else t ∷ update a f ts

abbrev pub started : ℕ → Timer → Timer
started now t = record t { expires_at = add32 now t.period_ms; active = true }

abbrev pub with_period : ℕ → ℕ → Timer → Timer
with_period now period t = record t {
  period_ms = period;
  expires_at = if t.active then add32 now period else t.expires_at;
}

-- mmosal_timer_start, at the clock reading `now`
pub timer_start : Option ℕ → ℕ → List Timer → Bool × List Timer
timer_start none now ts = (false, ts)
timer_start (some a) now ts = (true, update a (started now) ts)

-- mmosal_timer_stop
pub timer_stop : Option ℕ → List Timer → Bool × List Timer
timer_stop none ts = (false, ts)
timer_stop (some a) ts = (true, update a (λ t. record t { active = false }) ts)

-- mmosal_timer_change_period
pub timer_change_period : Option ℕ → ℕ → ℕ → List Timer → Bool × List Timer
timer_change_period none now period ts = (false, ts)
timer_change_period (some a) now period ts = (true, update a (with_period now period) ts)

-- mmosal_timer_get_arg, of a timer or the null pointer
pub timer_get_arg : Option Timer → Option ℕ
timer_get_arg none = none
timer_get_arg (some t) = some t.arg

-- mmosal_is_timer_active
pub is_timer_active : Option Timer → Bool
is_timer_active none = false
is_timer_active (some t) = t.active

-- `timer->active && (int32_t)(now - timer->expires_at) >= 0`
abbrev pub is_due : ℕ → Timer → Bool
is_due now t = t.active && at_or_past now t.expires_at

-- mm_halow_osal_timer_pending
pub timer_pending : ℕ → List Timer → Bool
timer_pending now [] = false
timer_pending now (t ∷ ts) = if is_due now t then true else timer_pending now ts

-- What mm_halow_osal_timer_poll writes to a timer that is due, in front of the callback.
abbrev pub rearm : ℕ → Timer → Timer
rearm now t =
    if t.auto_reload
    then record t { expires_at = add32 now t.period_ms }
    else record t { active = false }

abbrev pub addr_of_first : List Timer → Option ℕ
addr_of_first [] = none
addr_of_first (t ∷ ts) = some t.addr

abbrev pub find_timer : ℕ → List Timer → Option (Timer × Option ℕ)
find_timer a [] = none
find_timer a (t ∷ ts) = if t.addr == a then some (t, addr_of_first ts) else find_timer a ts

-- The timers, mm_halow_sched_woken, and the rest of the world.
pub record TimerWorld (E : Type 0) : Type 0 where
  pub timers : List Timer
  pub woken : Bool
  pub env : E

module _ {E : Type 0} (callback : Timer → TimerWorld E → TimerWorld E) where
  -- A timer that is due: the write, the callback with the timer as it then is, mm_halow_sched_wake.
  unfoldable pub fire : ℕ → Timer → TimerWorld E → TimerWorld E
  fire now t w =
      let armed = record w { timers = update t.addr (rearm now) w.timers } in
      record (callback (rearm now t) armed) { woken = true }

  -- The loop of mm_halow_osal_timer_poll at the pointer; `next` is read in front of the callback. A
  -- pointer to no timer, which in C is undefined, ends it. The fuel is the number of timers.
  unfoldable pub poll_from : ℕ → ℕ → Option ℕ → TimerWorld E → TimerWorld E
  poll_from zero now a w = w
  poll_from (suc f) now none w = w
  poll_from (suc f) now (some a) w = elim (find_timer a w.timers) [
    | none ↦ w
    | some r ↦ poll_from f now r.1 (if is_due now r.0 then fire now r.0 w else w)
  ]

  -- mm_halow_osal_timer_poll, at the clock reading `now`
  unfoldable pub timer_poll : ℕ → TimerWorld E → TimerWorld E
  timer_poll now w = poll_from (length w.timers) now (addr_of_first w.timers) w
