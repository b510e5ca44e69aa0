-- ===== src/Ctrl/Radio.antt =====
-- The settings of mm_halow_ctrl.c: radio, power management and health, which are kept whatever the
-- state and given to morselib when it takes them. morselib's calls are a parameter over its state.
pub mod Settings
pub mod Apply
use mm_halow_driver.Base.{
  ℕ, ◌+◌, ◌%◌, ◌^◌, Bool, true, false, ◌&&◌, ◌||◌, not, ltb, ◌==◌, if◌then◌else◌,
}
use mm_halow_driver.Ctrl.{
  Status, success, command_error, Errno, ok, einval, eperm, enodev, enotconn, status_to_errno,
  is_ok, Link, down, join, noip, up, fail,
}

-- What these functions call of morselib: each mmwlan_ function by its name, and the values that it
-- takes for a setup command, a duty cycle mode and a fixed rate.
pub record Mmwlan (M : Type 0) : Type 0 where
  pub set_ampdu_enabled : Bool → M → Status × M
  pub set_sgi_enabled : Bool → M → Status × M
  pub set_subbands_enabled : Bool → M → Status × M
  pub set_rts_threshold : ℕ → M → Status × M
  pub set_fragment_threshold : ℕ → M → Status × M
  pub set_listen_interval : ℕ → M → Status × M
  pub override_max_tx_power : ℕ → M → Status × M
  pub set_power_save_mode : Bool → M → Status × M
  pub set_dynamic_ps_timeout : ℕ → M → Status × M
  pub set_duty_cycle_mode : ℕ → M → Status × M
  pub set_health_check_interval : ℕ → ℕ → M → Status × M
  pub twt_add_configuration : ℕ → ℕ → ℕ → M → Status × M
  pub set_wnm_sleep_enabled : Bool → Bool → M → Status × M
  pub is_duty_cycle_mode : ℕ → Bool
  pub is_twt_setup : ℕ → Bool

-- The settings of mm_halow_t, which survive the driver's session; `pm`, as `always_on`, is true for
-- MM_HALOW_PM_NONE.
pub record RadioConfig : Type 0 where
  pub always_on : Bool
  pub ps_timeout_ms : ℕ
  pub ampdu : Bool
  pub sgi : Bool
  pub subbands : Bool
  pub listen_interval : ℕ
  pub txpower : ℕ
  pub duty_cycle_mode : ℕ
  pub rts_threshold : ℕ
  pub fragment_threshold : ℕ
  pub wnm_powerdown : Bool
  pub health_min_ms : ℕ
  pub health_max_ms : ℕ

-- MM_HALOW_PS_TIMEOUT_DEFAULT_MS
abbrev pub ps_timeout_default_ms : ℕ
ps_timeout_default_ms = 100

-- The settings that mm_halow_state starts with.
pub initial_config : RadioConfig
initial_config = record {
  always_on = true;
  ps_timeout_ms = ps_timeout_default_ms;
  ampdu = true;
  sgi = true;
  subbands = true;
  listen_interval = 0;
  txpower = 0;
  duty_cycle_mode = 0;
  rts_threshold = 0;
  fragment_threshold = 0;
  wnm_powerdown = false;
  health_min_ms = 0;
  health_max_ms = 0;
}

-- The fields of mm_halow_t that these functions use.
pub record Radio : Type 0 where
  pub config : RadioConfig
  pub booted : Bool
  pub ap_up : Bool
  pub link_status : Link

-- MM_HALOW_RADIO_AMPDU and so on; any other number is `unknown`.
pub data What : Type 0 where
  ampdu sgi subbands rts frag listen wnm_pd txpower unknown : What

abbrev pub is_down : Link → Bool
is_down down = true
is_down l = false

abbrev pub is_associated : Link → Bool
is_associated up = true
is_associated noip = true
is_associated l = false

-- a value stored in a bool, and in a uint16_t
abbrev pub to_bool : ℕ → Bool
to_bool v = not (v == 0)

abbrev pub u16 : ℕ → ℕ
u16 v = v % 2 ^ 16

abbrev pub of_bool : Bool → ℕ
of_bool true = 1
of_bool false = 0

-- The store of mm_halow_wifi_set_radio.
pub store : What → ℕ → RadioConfig → RadioConfig
store What.ampdu v c = record c { ampdu = to_bool v }
store What.sgi v c = record c { sgi = to_bool v }
store What.subbands v c = record c { subbands = to_bool v }
store rts v c = record c { rts_threshold = v }
store frag v c = record c { fragment_threshold = v }
store listen v c = record c { listen_interval = u16 v }
store wnm_pd v c = record c { wnm_powerdown = to_bool v }
store What.txpower v c = record c { txpower = u16 v }
store unknown v c = c

-- mm_halow_wifi_get_radio
pub get_radio : What → RadioConfig → ℕ
get_radio What.ampdu c = of_bool c.ampdu
get_radio What.sgi c = of_bool c.sgi
get_radio What.subbands c = of_bool c.subbands
get_radio rts c = c.rts_threshold
get_radio frag c = c.fragment_threshold
get_radio wnm_pd c = of_bool c.wnm_powerdown
get_radio What.txpower c = c.txpower
get_radio listen c = c.listen_interval
get_radio unknown c = c.listen_interval

module _ {M : Type 0} (w : Mmwlan M) where
  -- What mm_halow_wifi_set_radio passes on to morselib, which is nothing when it would refuse.
  pub push_radio : What → ℕ → Bool → Bool → M → Status × M
  push_radio What.ampdu v live booted m =
      if live then w.set_ampdu_enabled (to_bool v) m else (success, m)
  push_radio What.sgi v live booted m =
      if live then w.set_sgi_enabled (to_bool v) m else (success, m)
  push_radio What.subbands v live booted m =
      if live then w.set_subbands_enabled (to_bool v) m else (success, m)
  push_radio rts v live booted m = if booted then w.set_rts_threshold v m else (success, m)
  push_radio frag v live booted m = if booted then w.set_fragment_threshold v m else (success, m)
  push_radio listen v live booted m = if live then w.set_listen_interval v m else (success, m)
  push_radio wnm_pd v live booted m = (success, m)
  push_radio What.txpower v live booted m =
      if booted then w.override_max_tx_power v m else (success, m)
  push_radio unknown v live booted m = (invalid, m)
    where
      invalid : Status
      invalid = Status.invalid_argument

  -- mm_halow_wifi_set_radio
  pub set_radio : What → ℕ → Radio → M → Errno × Radio × M
  set_radio what v r m =
      let live = r.booted && is_down r.link_status in
      let (status, m1) = push_radio what v live r.booted m in
      (status_to_errno status, record r { config = store what v r.config }, m1)

  -- mm_halow_apply_pm
  pub apply_pm : RadioConfig → M → Errno × M
  apply_pm c m =
      let (status, m1) = w.set_power_save_mode (not c.always_on) m in
      let (status2, m2) = w.set_dynamic_ps_timeout c.ps_timeout_ms m1 in
      elim (is_ok (status_to_errno status)) [
        | false ↦ (status_to_errno status, m1)
        | true ↦ (status_to_errno status2, m2)
      ]

  -- mm_halow_wifi_pm; the argument is true for MM_HALOW_PM_NONE.
  pub wifi_pm : Bool → Radio → M → Errno × Radio × M
  wifi_pm always_on r m =
      let c = record r.config { always_on = always_on } in
      let (e, m1) = apply_pm c m in
      if not always_on && r.ap_up
      then (eperm, r, m)
      else if not r.booted
      then (ok, record r { config = c }, m)
      else if is_ok e
      then (ok, record r { config = c }, m1)
      else (e, r, m1)

  -- mm_halow_wifi_set_ps_timeout
  pub set_ps_timeout : ℕ → Radio → M → Errno × Radio × M
  set_ps_timeout ms r m =
      let (status, m1) = w.set_dynamic_ps_timeout ms m in
      if ms == 0
      then (einval, r, m)
      else if not r.booted
      then (ok, record r { config = record r.config { ps_timeout_ms = ms } }, m)
      else if is_ok (status_to_errno status)
      then (ok, record r { config = record r.config { ps_timeout_ms = ms } }, m1)
      else (status_to_errno status, r, m1)

  -- mm_halow_wifi_set_health_check
  pub set_health_check : ℕ → ℕ → Radio → M → Errno × Radio × M
  set_health_check min_ms max_ms r m =
      let (status, m1) = w.set_health_check_interval min_ms max_ms m in
      let r1 = record r {
        config = record r.config { health_min_ms = min_ms; health_max_ms = max_ms };
      } in
      if not (max_ms == 0) && ltb max_ms min_ms
      then (einval, r, m)
      else if r.booted
      then (status_to_errno status, r1, m1)
      else (ok, r1, m)

  -- mm_halow_wifi_set_duty_cycle
  pub set_duty_cycle : ℕ → Radio → M → Errno × Radio × M
  set_duty_cycle mode r m =
      let (status, m1) = w.set_duty_cycle_mode mode m in
      let r1 = record r { config = record r.config { duty_cycle_mode = mode % 2 ^ 8 } } in
      if not r.booted
      then (enodev, r1, m)
      else if not (w.is_duty_cycle_mode mode)
      then (einval, r1, m)
      else (status_to_errno status, r1, m1)

  -- mm_halow_wifi_twt
  pub twt : ℕ → ℕ → ℕ → Radio → M → Errno × M
  twt interval_us duration_us setup r m =
      let (status, m1) = w.twt_add_configuration interval_us duration_us setup m in
      if not r.booted
      then (enodev, m)
      else if not (is_down r.link_status)
      then (eperm, m)
      else if not (w.is_twt_setup setup)
      then (einval, m)
      else if (interval_us == 0) || (duration_us == 0) || ltb interval_us duration_us
      then (einval, m)
      else (status_to_errno status, m1)

  -- mm_halow_wifi_wnm_sleep
  pub wnm_sleep : Bool → Bool → Radio → M → Errno × M
  wnm_sleep enable powerdown r m =
      let (status, m1) = w.set_wnm_sleep_enabled enable powerdown m in
      if enable && r.config.always_on
      then (eperm, m)
      else if enable && not (is_associated r.link_status)
      then (enotconn, m)
      else (status_to_errno status, m1)
