-- ===== src/Ctrl/Join.antt =====
-- Joining a network and the state of the link, in mm_halow_ctrl.c. A MAC address is a number. What
-- mmwlan_ functions do is an argument; the wait for the end of a sweep is that of the scheduler.
pub mod Attempt
mod Checks
use mm_halow_driver.Base.{
  ℕ, Bool, true, false, ◌&&◌, ◌||◌, not, Option, none, some, List, [], ltb, ◌==◌, if◌then◌else◌,
  length,
}
use mm_halow_driver.Sched.Wait.{Host, wait}
use mm_halow_driver.Ctrl.{
  Status, Errno, ok, einval, status_to_errno, is_ok, Link, down, join, noip, up, fail, Itf, sta, ap,
}
use mm_halow_driver.Ctrl.Access.{sec_open, sec_sae}

-- MM_HALOW_SCAN_ABORT_MS
abbrev pub scan_abort_ms : ℕ
scan_abort_ms = 5000

-- The fields of mm_halow_t that joining uses, and the world below them.
pub record Station (M : Type 0) : Type 0 where
  pub sta_ssid : List ℕ
  pub link_status : Link
  pub scan_active : Bool
  pub below : M

-- struct mmwlan_sta_args, as far as mm_halow_wifi_join sets it.
pub record StaArgs : Type 0 where
  pub ssid : List ℕ
  pub security_type : ℕ
  pub passphrase : List ℕ
  pub pmf_disabled : Bool
  pub bssid : Option ℕ
  pub scan_interval_base_s : ℕ
  pub scan_interval_limit_s : ℕ

-- MMWLAN_SSID_MAXLEN, MMWLAN_PASSPHRASE_MAXLEN, mmwlan_scan_abort and mmwlan_sta_enable
pub record StaApi (M : Type 0) : Type 0 where
  pub ssid_maxlen : ℕ
  pub passphrase_maxlen : ℕ
  pub scan_abort : Station M → Station M
  pub sta_enable : StaArgs → Station M → Status × Station M

-- The arguments that mm_halow_wifi_join makes.
pub sta_args : List ℕ → List ℕ → ℕ → Option ℕ → StaArgs
sta_args ssid key auth bssid = record {
  ssid = ssid;
  security_type = auth;
  passphrase = key;
  pmf_disabled = auth == sec_open;
  bssid = bssid;
  scan_interval_base_s = 2;
  scan_interval_limit_s = 10;
}

module _ {M : Type 0} where
  -- mm_halow_scan_idle_cond
  pub scan_idle : Station M → Bool × Station M
  scan_idle d = (not d.scan_active, d)

  abbrev pub asked : List ℕ → Station M → Station M
  asked ssid d = record d { sta_ssid = ssid; link_status = join }

  module _ (w : StaApi M) (host : Host (Station M)) where
    -- The guards of mm_halow_wifi_join
    abbrev pub is_refused : List ℕ → List ℕ → ℕ → Bool
    is_refused ssid key auth =
        (length ssid == 0)
        || ltb w.ssid_maxlen (length ssid)
        || ltb w.passphrase_maxlen (length key)
        || (auth == sec_sae) && (length key == 0)

    -- mmwlan_sta_enable and what follows it
    pub enable : StaArgs → Station M → Errno × Station M
    enable args d =
        let (status, d1) = w.sta_enable args d in
        if is_ok (status_to_errno status)
        then (ok, d1)
        else (status_to_errno status, record d1 { link_status = fail })

    pub enable_after : StaArgs → Option (Bool × Station M) → Option (Errno × Station M)
    enable_after args none = none
    enable_after args (some (idle, d)) = some (enable args d)

    -- mm_halow_wifi_join behind the guards: the end of a sweep, and the start of joining
    pub join_asked : ℕ → StaArgs → Station M → Option (Errno × Station M)
    join_asked fuel args d =
        let stopped = wait host scan_idle fuel scan_abort_ms (w.scan_abort d) in
        if d.scan_active then enable_after args stopped else some (enable args d)

    -- mm_halow_wifi_join
    pub wifi_join : ℕ → List ℕ → List ℕ → ℕ → Option ℕ → Station M → Option (Errno × Station M)
    wifi_join fuel ssid key auth bssid d =
        let rest = join_asked fuel (sta_args ssid key auth bssid) (asked ssid d) in
        if is_refused ssid key auth then some (einval, d) else rest

abbrev pub is_linked : Link → Bool
is_linked noip = true
is_linked up = true
is_linked l = false

-- mm_halow_tcpip_link_status of what mm_halow_wifi_link_status says; the Bools are NETIF_FLAG_UP
-- and `!ip_addr_isany`.
pub tcpip_link_status : Bool → Bool → Link → Link
tcpip_link_status netif_up has_addr l =
    if not (is_linked l) then l else if netif_up && has_addr then up else noip
