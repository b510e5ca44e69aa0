-- ===== src/Ctrl/Bringup.antt =====
-- Bringing the driver and its interfaces up and down, in mm_halow_ctrl.c. morselib and lwIP are a
-- parameter over their state `M`; what they call back is modelled as an event of its own.
pub mod Lifecycle
pub mod Start
pub mod Handed
mod Checks
use mm_halow_driver.Base.{
  ℕ, zero, suc, Bool, true, false, ◌&&◌, ◌||◌, not, Option, none, some, List, [], ◌==◌, length,
  if◌then◌else◌,
}
use mm_halow_driver.Base.Int.{ℤ, pos, negsuc}
use mm_halow_driver.Heap.{Heap, malloc, init, deinit}
use mm_halow_driver.Sched.{Sched, deinit as sched_deinit}
use mm_halow_driver.Ctrl.Channels.{Channel, ap_channel, op_class}
use mm_halow_driver.Ctrl.Radio.{Mmwlan, RadioConfig, apply_pm}
use mm_halow_driver.Ctrl.Radio.Apply.{apply_radio}
use mm_halow_driver.Ctrl.Access.{ApConfig, ApArgs, ap_args, sec_sae}
use mm_halow_driver.Ctrl.{
  Status, Errno, ok, einval, enomem, eperm, enodev, status_to_errno, is_ok, Link, down, join, noip,
  fail, Itf, sta, ap,
}

-- What these functions call: the mmwlan_ functions, those that set something and those that register a
-- handler; the lwIP callbacks; mmwlan_lookup_regulatory_domain for a country; and what
-- mmwlan_get_vif_mac_addr leaves in the buffer that it is given.
pub record Below (M : Type 0) : Type 0 where
  pub tx_buf_size : ℕ
  pub mmwlan_init : M → M
  pub mmwlan : Mmwlan M
  pub register_handlers : M → M
  pub unregister_rx : M → M
  pub get_vif_mac_addr : ℕ → M → ℕ
  pub boot : M → Status × M
  pub shutdown : M → M
  pub mmwlan_deinit : M → M
  pub lookup_domain : ℕ → Option (List Channel)
  pub set_channel_list : List Channel → M → Status × M
  pub mmwlan_ap_enable : ApArgs → M → Status × M
  pub mmwlan_ap_disable : M → M
  pub mmwlan_sta_disable : M → M
  pub tcpip_init : Itf → M → M
  pub tcpip_deinit : Itf → M → M
  pub tcpip_set_link_up : Itf → M → M
  pub tcpip_set_link_down : Itf → M → M

-- The fields of mm_halow_t and the variables that these functions use; `itf_state` is one Bool for
-- each bit, and `has_cache` is `scan_cache != NULL`, `polled` is `mm_halow_poll != NULL`.
pub record Driver (M : Type 0) : Type 0 where
  pub sta_up : Bool
  pub ap_up : Bool
  pub initted : Bool
  pub booted : Bool
  pub scan_active : Bool
  pub has_cache : Bool
  pub link_status : Link
  pub country : ℕ
  pub channels : Option (List Channel)
  pub config : RadioConfig
  pub mac : ℕ
  pub access : ApConfig
  pub ap_sta_count : ℕ
  pub polled : Bool
  pub tx_buf : Option ℕ
  pub in_callback : Bool
  pub heap : Heap
  pub sched : Sched
  pub below : M

abbrev pub itf_up : {M : Type 0} → Itf → Driver M → Bool
itf_up sta d = d.sta_up
itf_up ap d = d.ap_up

abbrev pub with_itf : {M : Type 0} → Itf → Bool → Driver M → Driver M
with_itf sta b d = record d { sta_up = b }
with_itf ap b d = record d { ap_up = b }

-- mm_halow_sta_status_cb; none is any other state than connecting (false) and connected (true).
pub sta_status_cb : {M : Type 0} → Option Bool → Driver M → Driver M
sta_status_cb (some false) d = record d { link_status = join }
sta_status_cb (some true) d = record d { link_status = noip }
sta_status_cb none d = record d { link_status = down }

module _ {M : Type 0} (w : Below M) where
  abbrev pub run_below : (M → M) → Driver M → Driver M
  run_below f d = record d { below = f d.below }

  -- mm_halow_fatal_error_cb
  pub fatal_error_cb : Driver M → Driver M
  fatal_error_cb d =
      run_below (w.tcpip_set_link_down sta)
        (record d { booted = false; scan_active = false; link_status = fail })

  -- What mm_halow_init clears of a previous session.
  abbrev pub cleared : Driver M → Driver M
  cleared d = record d {
    sta_up = false;
    ap_up = false;
    scan_active = false;
    has_cache = false;
    ap_sta_count = 0;
    link_status = down;
  }

  -- mm_halow_link_state_cb
  pub link_state_cb : Bool → Driver M → Driver M
  link_state_cb linked d =
      if linked
      then run_below (w.tcpip_set_link_up sta) d
      else run_below (w.tcpip_set_link_down sta) d

  -- What mm_halow_init asks of morselib: to initialise, to take the settings, whatever it answers to
  -- them, and to call the driver back.
  pub start_library : RadioConfig → M → M
  start_library c m =
      w.register_handlers (apply_radio w.mmwlan c (apply_pm w.mmwlan c (w.mmwlan_init m)).1)

  abbrev pub library_started : Driver M → Driver M
  library_started d =
      let m = start_library d.config d.below in
      record d { below = m; mac = w.get_vif_mac_addr d.mac m }

  -- mm_halow_init behind the allocation of the transmit buffer
  pub init_below : Option ℕ × Heap → Driver M → Errno × Driver M
  init_below (none, h) d = (enomem, record d { heap = (deinit h).1; tx_buf = none })
  init_below (some p, h) d = (
    ok,
    record (library_started (record d { heap = h; tx_buf = some p })) {
      initted = true;
      polled = true;
    },
  )

  pub init_pool : Bool × Heap → Driver M → Errno × Driver M
  init_pool (false, h) d = (enomem, record d { heap = h })
  init_pool (true, h) d = init_below (malloc w.tx_buf_size h) (record d { heap = h })

  -- mm_halow_init; `alloc` is what mm_halow_port_heap_alloc returns.
  pub driver_init : Option ℕ → Driver M → Errno × Driver M
  driver_init alloc d = elim d.initted [
    | true ↦ (ok, d)
    | false ↦ init_pool (init alloc d.heap) (cleared d)
  ]

  -- mm_halow_set_country
  pub set_country : ℕ → Driver M → Errno × Driver M
  set_country country d = elim (w.lookup_domain country) [
    | none ↦ (einval, d)
    | some c ↦
        let (status, m) = w.set_channel_list c d.below in
        (status_to_errno status, record d { country = country; channels = some c; below = m })
  ]

  -- The boot in mm_halow_wifi_set_up.
  pub boot_once : Driver M → Errno × Driver M
  boot_once d = elim d.booted [
    | true ↦ (ok, d)
    | false ↦
        let (status, m) = w.boot d.below in
        let booted = is_ok (status_to_errno status) in
        (
          status_to_errno status,
          record d {
            below = m;
            booted = booted;
            mac = if booted then w.get_vif_mac_addr d.mac m else d.mac;
          },
        )
  ]

  -- mm_halow_ap_enable from the choice of the channel on
  unfoldable pub ap_start : ℕ → ℕ → Driver M → Errno × Driver M
  ap_start class chan d =
      let (status, m) = w.mmwlan_ap_enable (ap_args d.access class chan) d.below in
      if (d.access.auth == sec_sae) && (length d.access.key == 0)
      then (einval, record d { ap_sta_count = 0 })
      else (status_to_errno status, record d { ap_sta_count = 0; below = m })

  unfoldable pub ap_start_on : Option Channel → Driver M → Errno × Driver M
  ap_start_on none d = (enodev, d)
  ap_start_on (some c) d = ap_start (op_class c) c.s1g_chan_num d

  -- mm_halow_ap_enable
  unfoldable pub ap_enable : Driver M → Errno × Driver M
  ap_enable d =
      if not d.config.always_on
      then (eperm, d)
      else if length d.access.ssid == 0
      then (einval, d)
      else if d.sta_up
      then ap_start 0 0 d
      else ap_start_on (ap_channel d.channels d.access.chan_num) d

  abbrev pub enable_itf : Itf → Driver M → Errno × Driver M
  enable_itf sta d = (ok, d)
  enable_itf ap d = ap_enable d

  abbrev pub link_up_itf : Itf → Driver M → Driver M
  link_up_itf sta d = d
  link_up_itf ap d = run_below (w.tcpip_set_link_up ap) d

  -- A step that follows when the one before it returned 0.
  abbrev pub and_then : Errno × Driver M → (Driver M → Errno × Driver M) → Errno × Driver M
  and_then (e, d) f = let rest = f d in if is_ok e then rest else (e, d)

  -- The end of bringing an interface up.
  abbrev pub attach : Itf → Driver M → Errno × Driver M
  attach itf d =
      let added = with_itf itf true (run_below (w.tcpip_init itf) d) in
      (ok, link_up_itf itf (if itf_up itf d then d else added))

  -- mm_halow_wifi_set_up with `up`, from its end: from the access point's start on, from the boot on,
  -- from the channel list on, and whole.
  pub up_booted : Itf → Driver M → Errno × Driver M
  up_booted itf d = and_then (enable_itf itf d) (attach itf)

  pub up_listed : Itf → Driver M → Errno × Driver M
  up_listed itf d = and_then (boot_once d) (up_booted itf)

  pub up_initted : Itf → ℕ → Driver M → Errno × Driver M
  up_initted itf country d = and_then (set_country country d) (up_listed itf)

  -- `alloc` is what the allocator gives for the heap of the driver.
  pub set_up : Option ℕ → Itf → ℕ → Driver M → Errno × Driver M
  set_up alloc itf country d = elim (itf_up itf d) [
    | true ↦ (ok, d)
    | false ↦ and_then (driver_init alloc d) (up_initted itf country)
  ]

  abbrev pub disable_itf : Itf → Driver M → Driver M
  disable_itf ap d = run_below w.mmwlan_ap_disable d
  disable_itf sta d = record (run_below w.mmwlan_sta_disable d) { link_status = down }

  abbrev pub detach : Itf → Driver M → Driver M
  detach itf d =
      if itf_up itf d
      then with_itf itf false
          (run_below (w.tcpip_deinit itf) (run_below (w.tcpip_set_link_down itf) d))
      else d

  -- mmwlan_shutdown under mm_halow_sched_teardown, which is false behind it, and what follows it.
  abbrev pub torn_down : (M → M) → Driver M → Driver M
  torn_down rest d = record (run_below (λ m. rest (w.shutdown m)) d) {
    sched = record d.sched { teardown = false };
    booted = false;
  }

  -- The shutdown when the last interface went down.
  abbrev pub shutdown_if_last : Driver M → Driver M
  shutdown_if_last d = if not d.sta_up && not d.ap_up then torn_down (λ m. m) d else d

  -- mm_halow_wifi_set_up with `!up`
  pub set_down : Itf → Driver M → Driver M
  set_down itf d = elim d.initted [
    | false ↦ d
    | true ↦ shutdown_if_last (detach itf (disable_itf itf d))
  ]

  -- The interface of a number, MM_HALOW_ITF_STA or MM_HALOW_ITF_AP, if it is in range.
  abbrev pub itf_of : ℤ → Option Itf
  itf_of (pos zero) = some sta
  itf_of (pos (suc zero)) = some ap
  itf_of (pos (suc (suc n))) = none
  itf_of (negsuc n) = none

  abbrev set_up_on : Option ℕ → Option Itf → Bool → ℕ → Driver M → Errno × Driver M
  set_up_on alloc none up country d = (einval, d)
  set_up_on alloc (some itf) up country d =
      if up then set_up alloc itf country d else (ok, set_down itf d)

  -- mm_halow_wifi_set_up
  pub wifi_set_up : Option ℕ → ℤ → Bool → ℕ → Driver M → Errno × Driver M
  wifi_set_up alloc itf up country d = set_up_on alloc (itf_of itf) up country d

  abbrev pub down_if_up : Itf → Driver M → Driver M
  down_if_up itf d = if itf_up itf d then set_down itf d else d

  -- mm_halow_deinit behind the loop over the interfaces
  abbrev pub dismantle : ℕ → Driver M → Driver M
  dismantle now d = record (torn_down w.mmwlan_deinit (run_below w.unregister_rx d)) {
    polled = false;
    sched = sched_deinit now (record d.sched { teardown = false });
    heap = (deinit d.heap).1;
    tx_buf = none;
    has_cache = false;
    scan_active = false;
    initted = false;
    link_status = down;
  }

  -- mm_halow_deinit, at the clock reading `now`
  pub driver_deinit : ℕ → Driver M → Driver M
  driver_deinit now d =
      if not d.initted || d.in_callback then d else dismantle now (down_if_up ap (down_if_up sta d))

  -- mm_halow_wifi_leave, up to what mmwlan_ap_disable and mmwlan_sta_disable return
  pub leave : Itf → Driver M → Driver M
  leave ap d = run_below w.mmwlan_ap_disable d
  leave sta d = run_below w.mmwlan_sta_disable (record d { link_status = down })

-- mm_halow_wifi_link_status
pub wifi_link_status : {M : Type 0} → Itf → Driver M → Link
wifi_link_status ap d = if d.ap_up then Link.up else down
wifi_link_status sta d = d.link_status
