-- ===== src/Ctrl/Queries.antt =====
-- The calls of mm_halow_ctrl.c that ask morselib something, or pass a command on. Its answers are
-- arguments, over its state `M`.
use mm_halow_driver.Base.{
  ℕ, Bool, true, false, ◌||◌, not, Option, none, some, List, [], ◌∷◌, if◌then◌else◌,
}
use mm_halow_driver.Base.Int.{ℤ, ltb_ℤ, eq_ℤ}
use mm_halow_driver.Ctrl.{
  Status, success, command_error, Errno, ok, einval, enodev, status_to_errno, Itf,
}
use mm_halow_driver.Ctrl.Channels.{Channel}
use mm_halow_driver.Ctrl.Radio.{Radio}

abbrev pub is_success : Status → Bool
is_success success = true
is_success s = false

-- `status != MMWLAN_SUCCESS && status != MMWLAN_COMMAND_ERROR`
abbrev pub is_failure : Status → Bool
is_failure success = false
is_failure command_error = false
is_failure s = true

-- What is asked of morselib. A MAC address is a number; the arguments are the names of the functions.
pub record QueryApi (M : Type 0) : Type 0 where
  pub lookup_domain : ℕ → Option (List Channel)
  pub get_vif_mac_addr : Itf → M → Status × ℕ
  pub get_bssid : M → Status × ℕ
  pub get_rssi : M → ℕ
  pub get_vif_channel_info : Itf → M → Status × ℕ × ℕ
  pub ate_execute_command : List ℕ → ℕ → M → Status × List ℕ × M
  pub get_duty_cycle_stats : M → Status × ℕ
  pub get_rc_stats : M → ℕ
  pub get_version : M → Status × ℕ

module _ {M : Type 0} (w : QueryApi M) where
  -- mm_halow_country_supported
  pub country_supported : ℕ → Bool
  country_supported country = elim (w.lookup_domain country) [ none ↦ false | some cs ↦ true ]

  -- mm_halow_wifi_get_mac, where `mac` is self->mac
  pub get_mac : ℕ → Itf → M → ℕ
  get_mac mac itf m =
      let (status, addr) = w.get_vif_mac_addr itf m in if is_success status then addr else mac

  -- mm_halow_wifi_get_bssid
  pub get_bssid : M → Errno × ℕ
  get_bssid m = let (status, bssid) = w.get_bssid m in (status_to_errno status, bssid)

  -- mm_halow_wifi_get_rssi
  pub get_rssi : M → Errno × ℕ
  get_rssi m = (ok, w.get_rssi m)

  -- mm_halow_wifi_get_channel: the channel and the primary bandwidth, if morselib tells them
  pub get_channel : Itf → M → Errno × Option (ℕ × ℕ)
  get_channel itf m =
      let (status, chan, bw) = w.get_vif_channel_info itf m in
      if is_success status then (ok, some (chan, bw)) else (status_to_errno status, none)

  -- mm_halow_wifi_ate_command: the response, whose room is `room`; none leaves *rsp_len as it was.
  pub ate_command : List ℕ → ℕ → Radio → M → Errno × Option (List ℕ) × M
  ate_command cmd room r m =
      let (status, rsp, m1) = w.ate_execute_command cmd room m in
      if not r.booted
      then (enodev, none, m)
      else if is_failure status
      then (status_to_errno status, none, m1)
      else (ok, some rsp, m1)

  -- mm_halow_wifi_get_duty_cycle
  pub get_duty_cycle : Radio → M → Errno × ℕ
  get_duty_cycle r m =
      let (status, stats) = w.get_duty_cycle_stats m in
      if not r.booted then (enodev, 0) else (status_to_errno status, stats)

  -- mm_halow_wifi_get_rc_stats
  pub get_rc_stats : Radio → M → Errno × Option ℕ
  get_rc_stats r m = if not r.booted then (enodev, none) else (ok, some (w.get_rc_stats m))

  -- mm_halow_wifi_get_version
  pub get_version : Radio → M → Errno × ℕ
  get_version r m =
      let (status, version) = w.get_version m in
      if not r.booted then (enodev, 0) else (status_to_errno status, version)

-- MMWLAN_MCS_NONE and MMWLAN_MCS_MAX, MMWLAN_GI_NONE and MMWLAN_GI_MAX, and the bandwidths MMWLAN_BW_NONE,
-- _1MHZ, _2MHZ, _4MHZ and _8MHZ.
pub record RateRange : Type 0 where
  pub mcs_none : ℤ
  pub mcs_max : ℤ
  pub gi_none : ℤ
  pub gi_max : ℤ
  pub bandwidths : List ℤ

abbrev pub is_one_of : ℤ → List ℤ → Bool
is_one_of v [] = false
is_one_of v (x ∷ xs) = if eq_ℤ v x then true else is_one_of v xs

module _ {M : Type 0} (override_rate_control : ℤ → ℤ → ℤ → M → Status × M) (rates : RateRange) where
  -- mm_halow_wifi_fixed_rate, over mmwlan_ate_override_rate_control
  pub fixed_rate : ℤ → ℤ → ℤ → Radio → M → Errno × M
  fixed_rate mcs bw gi r m =
      let (status, m1) = override_rate_control mcs bw gi m in
      if not r.booted
      then (enodev, m)
      else if ltb_ℤ mcs rates.mcs_none
          || ltb_ℤ rates.mcs_max mcs
          || ltb_ℤ gi rates.gi_none
          || ltb_ℤ rates.gi_max gi
      then (einval, m)
      else if not (is_one_of bw rates.bandwidths)
      then (einval, m)
      else (status_to_errno status, m1)

-- mm_halow_wifi_get_ps_timeout
pub get_ps_timeout : Radio → Errno × ℕ
get_ps_timeout r = (ok, r.config.ps_timeout_ms)

-- mm_halow_wifi_get_pm; true stands for MM_HALOW_PM_NONE.
pub get_pm : Radio → Errno × Bool
get_pm r = (ok, r.config.always_on)
