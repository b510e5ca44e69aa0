-- ===== src/Ctrl/Bringup/Lifecycle.antt =====
-- The states of the driver of mm_halow_ctrl.c, over any sequence of calls and events.
pub mod Upward
use mm_halow_driver.Base.{
  ℕ, ◌≡◌, ◌⊎◌, inl, inr, refl, Bool, true, false, ◌||◌, not, Option, none, some, List, [], ◌∷◌,
  arith, ◌∙◌, Bool-cases, Option-cases,
}
use mm_halow_driver.Heap.{Heap, malloc, init}
use mm_halow_driver.Heap.Pool.{is_some, init-mem, malloc-mem, deinit-mem}
use mm_halow_driver.Ctrl.{Errno, is_ok, Itf, sta, ap}
use mm_halow_driver.Ctrl.Channels.{ap_channel}
use mm_halow_driver.Ctrl.Bringup.{
  Below, Driver, itf_up, sta_status_cb, fatal_error_cb, link_state_cb, cleared, init_below,
  init_pool, driver_init, set_country, boot_once, ap_start, ap_start_on, ap_enable, enable_itf,
  and_then, attach, up_booted, up_listed, up_initted, set_up, disable_itf, detach, shutdown_if_last,
  set_down, down_if_up, dismantle, driver_deinit, leave,
}

-- An initialised driver has its memory pool and its buffer and is polled. One that is not has none of
-- these; it has no interface up and is not booted.
pub record IsDriver {M : Type 0} (d : Driver M) : Type 0 where
  pub polled : d.polled ≡ d.initted
  pub buffer : is_some d.tx_buf ≡ d.initted
  pub pool : is_some d.heap.mem ≡ d.initted
  pub sta_down : d.initted ≡ false → d.sta_up ≡ false
  pub ap_down : d.initted ≡ false → d.ap_up ≡ false
  pub unbooted : d.initted ≡ false → d.booted ≡ false

-- A call of the driver, or an event from morselib.
pub data Event : Type 0 where
  inits : Option ℕ → Event
  ups : Option ℕ → Itf → ℕ → Event
  downs : Itf → Event
  deinits : ℕ → Event
  fatals : Event
  statuses : Option Bool → Event
  links : Bool → Event
  leaves : Itf → Event

module _ {M : Type 0} (w : Below M) where
  init_below-IsDriver :
      (r : Option ℕ × Heap) (d : Driver M) (h0 : Heap)
      → is_some r.1.mem ≡ true
      → d.initted ≡ false
      → IsDriver d
      → IsDriver (init_below w r (record d { heap = h0 })).1
  unfolding init_below
  init_below-IsDriver (none, h) d h0 m n v = ground (arith, n, v, deinit-mem h)
  init_below-IsDriver (some p, h) d h0 m n v = ground (arith, m, v)

  init_pool-IsDriver :
      (r : Bool × Heap) (d : Driver M)
      → is_some r.1.mem ≡ r.0
      → d.initted ≡ false
      → IsDriver d
      → IsDriver (init_pool w r d).1
  unfolding init_pool
  init_pool-IsDriver (false, h) d m n v = ground (arith, m, n, v)
  init_pool-IsDriver (true, h) d m n v =
      init_below-IsDriver (malloc w.tx_buf_size h) d h (malloc-mem w.tx_buf_size h ∙ m) n v

  -- The result of a step: well formed, and initialised if it reports success.
  pub Ready : Errno × Driver M → Type 0
  Ready r = IsDriver r.1 × ((is_ok r.0 ≡ false) ⊎ (r.1.initted ≡ true))

  init_below-initted :
      (r : Option ℕ × Heap) (d : Driver M)
      → (is_ok (init_below w r d).0 ≡ false) ⊎ ((init_below w r d).1.initted ≡ true)
  unfolding init_below
  init_below-initted (none, h) d = inl refl
  init_below-initted (some p, h) d = inr refl

  init_pool-initted :
      (r : Bool × Heap) (d : Driver M)
      → (is_ok (init_pool w r d).0 ≡ false) ⊎ ((init_pool w r d).1.initted ≡ true)
  unfolding init_pool
  init_pool-initted (false, h) d = inl refl
  init_pool-initted (true, h) d =
      init_below-initted (malloc w.tx_buf_size h) (record d { heap = h })

  cleared-IsDriver : (d : Driver M) → IsDriver d → IsDriver (cleared w d)
  cleared-IsDriver d v = ground arith

  pub driver_init-Ready :
      (alloc : Option ℕ) (d : Driver M) → IsDriver d → Ready (driver_init w alloc d)
  unfolding Ready driver_init
  driver_init-Ready alloc d v = elim (Bool-cases d.initted) [
    | inl e ↦ rw (e, driver_init) (v, inr e)
    | inr e ↦
        rw (e, driver_init)
          (
            init_pool-IsDriver (init alloc d.heap) (cleared w d) (init-mem alloc d.heap) e
                (cleared-IsDriver d v),
            init_pool-initted (init alloc d.heap) (cleared w d),
          )
  ]

  set_country-Ready :
      (country : ℕ) (d : Driver M) → IsDriver d → d.initted ≡ true → Ready (set_country w country d)
  unfolding Ready set_country
  set_country-Ready country d v e = elim (Option-cases (w.lookup_domain country)) [
    | inl n ↦ rw (n, set_country) (v, inr e)
    | inr (c, n) ↦ rw (n, set_country) (ground arith, inr e)
  ]

  boot_once-Ready : (d : Driver M) → IsDriver d → d.initted ≡ true → Ready (boot_once w d)
  unfolding Ready boot_once
  boot_once-Ready d v e = elim (Bool-cases d.booted) [
    | inl b ↦ rw (b, boot_once) (v, inr e)
    | inr b ↦ rw (b, boot_once) (ground arith, inr e)
  ]

  enable_itf-Ready :
      (itf : Itf) (d : Driver M) → IsDriver d → d.initted ≡ true → Ready (enable_itf w itf d)
  unfolding Ready ap_enable ap_start ap_start_on
  enable_itf-Ready sta d v e = (v, inr e)
  enable_itf-Ready ap d v e = elim (Option-cases (ap_channel d.channels d.access.chan_num)) [
    | inl n ↦ rw (n, ap_enable) (ground arith)
    | inr (c, n) ↦ rw (n, ap_enable) (ground arith)
  ]

  attach-Ready : (itf : Itf) (d : Driver M) → IsDriver d → d.initted ≡ true → Ready (attach w itf d)
  unfolding Ready
  attach-Ready sta d v e = ground arith
  attach-Ready ap d v e = ground arith

  and_then-Ready :
      (r : Errno × Driver M) (f : Driver M → Errno × Driver M)
      → Ready r
      → ((d : Driver M) → IsDriver d → d.initted ≡ true → Ready (f d))
      → Ready (and_then w r f)
  unfolding Ready
  and_then-Ready (e, d) f (v, inl bad) k = rw bad (v, inl bad)
  and_then-Ready (e, d) f (v, inr i) k = elim (Bool-cases (is_ok e)) [
    | inl good ↦ rw good (k d v i)
    | inr bad ↦ rw bad (v, inr i)
  ]

  up_booted-Ready :
      (itf : Itf) (d : Driver M) → IsDriver d → d.initted ≡ true → Ready (up_booted w itf d)
  unfolding up_booted
  up_booted-Ready itf d v i =
      and_then-Ready (enable_itf w itf d) (attach w itf) (enable_itf-Ready itf d v i)
        (attach-Ready itf)

  up_listed-Ready :
      (itf : Itf) (d : Driver M) → IsDriver d → d.initted ≡ true → Ready (up_listed w itf d)
  unfolding up_listed
  up_listed-Ready itf d v i =
      and_then-Ready (boot_once w d) (up_booted w itf) (boot_once-Ready d v i) (up_booted-Ready itf)

  up_initted-Ready :
      (itf : Itf) (country : ℕ) (d : Driver M)
      → IsDriver d
      → d.initted ≡ true
      → Ready (up_initted w itf country d)
  unfolding up_initted
  up_initted-Ready itf country d v i =
      and_then-Ready (set_country w country d) (up_listed w itf) (set_country-Ready country d v i)
        (up_listed-Ready itf)

  set_up-IsDriver :
      (alloc : Option ℕ) (itf : Itf) (country : ℕ) (d : Driver M)
      → IsDriver d
      → IsDriver (set_up w alloc itf country d).1
  unfolding Ready set_up
  set_up-IsDriver alloc itf country d v = elim (Bool-cases (itf_up itf d)) [
    | inl e ↦ rw (e, set_up) v
    | inr e ↦
        rw (e, set_up)
          (and_then-Ready (driver_init w alloc d) (up_initted w itf country)
            (driver_init-Ready alloc d v) (up_initted-Ready itf country)).0
  ]

  set_down-IsDriver : (itf : Itf) (d : Driver M) → IsDriver d → IsDriver (set_down w itf d)
  unfolding set_down
  set_down-IsDriver itf d v = elim (Bool-cases d.initted) [
    | inr e ↦ rw (e, set_down) v
    | inl e ↦ rw (e, set_down) (shut (detach w itf (disable_itf w itf d)) (detached itf))
  ]
    where
      shut : (d : Driver M) → IsDriver d → IsDriver (shutdown_if_last w d)
      shut d v = ground arith

      detached : (itf : Itf) → IsDriver (detach w itf (disable_itf w itf d))
      detached sta = ground arith
      detached ap = ground arith

  dismantle-IsDriver :
      (now : ℕ) (d : Driver M) → d.sta_up ≡ false → d.ap_up ≡ false → IsDriver (dismantle w now d)
  dismantle-IsDriver now d s a = ground (arith, deinit-mem d.heap)

  -- Behind the loop of mm_halow_deinit no interface is up.
  all_down :
      (d : Driver M)
      → d.initted ≡ true
      → ((down_if_up w ap (down_if_up w sta d)).sta_up ≡ false)
        × ((down_if_up w ap (down_if_up w sta d)).ap_up ≡ false)
  unfolding set_down
  all_down d e = ground arith

  driver_deinit-IsDriver : (now : ℕ) (d : Driver M) → IsDriver d → IsDriver (driver_deinit w now d)
  unfolding driver_deinit
  driver_deinit-IsDriver now d v = elim (Bool-cases (not d.initted || d.in_callback)) [
    | inl e ↦ rw e v
    | inr e ↦ rw e (
        let down = all_down d (ground arith) in
        dismantle-IsDriver now (down_if_up w ap (down_if_up w sta d)) down.0 down.1)
  ]

  -- One call or event.
  pub handle : Event → Driver M → Driver M
  handle (inits alloc) d = (driver_init w alloc d).1
  handle (ups alloc itf country) d = (set_up w alloc itf country d).1
  handle (downs itf) d = set_down w itf d
  handle (deinits now) d = driver_deinit w now d
  handle fatals d = fatal_error_cb w d
  handle (statuses s) d = sta_status_cb s d
  handle (links linked) d = link_state_cb w linked d
  handle (leaves itf) d = leave w itf d

  pub handle_all : List Event → Driver M → Driver M
  handle_all [] d = d
  handle_all (e ∷ es) d = handle_all es (handle e d)

  handle-IsDriver : (e : Event) (d : Driver M) → IsDriver d → IsDriver (handle e d)
  unfolding handle fatal_error_cb link_state_cb sta_status_cb leave Ready
  handle-IsDriver (inits alloc) d v = (driver_init-Ready alloc d v).0
  handle-IsDriver (ups alloc itf country) d v = set_up-IsDriver alloc itf country d v
  handle-IsDriver (downs itf) d v = set_down-IsDriver itf d v
  handle-IsDriver (deinits now) d v = driver_deinit-IsDriver now d v
  handle-IsDriver fatals d v = ground arith
  handle-IsDriver (statuses none) d v = ground arith
  handle-IsDriver (statuses (some false)) d v = ground arith
  handle-IsDriver (statuses (some true)) d v = ground arith
  handle-IsDriver (links true) d v = ground arith
  handle-IsDriver (links false) d v = ground arith
  handle-IsDriver (leaves sta) d v = ground arith
  handle-IsDriver (leaves ap) d v = ground arith

  -- Over any sequence of initialising, bringing interfaces up and down, leaving, deinitialising, and
  -- events from morselib, failing calls included: the driver is polled and has its memory pool and its
  -- transmit buffer exactly while it is initialised, and no interface is up, nor the transceiver
  -- booted, while it is not.
  pub handle_all-IsDriver :
      (es : List Event) (d : Driver M) → IsDriver d → IsDriver (handle_all es d)
  unfolding handle_all
  handle_all-IsDriver [] d v = v
  handle_all-IsDriver (e ∷ es) d v = handle_all-IsDriver es (handle e d) (handle-IsDriver e d v)
