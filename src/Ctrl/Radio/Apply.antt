-- ===== src/Ctrl/Radio/Apply.antt =====
-- mm_halow_apply_radio: the kept settings are given to morselib when the driver initialises.
use mm_halow_driver.Base.{ℕ, Bool, true, false, ◌&&◌, not, ◌≡◌, refl, ◌==◌, arith, if◌then◌else◌}
use mm_halow_driver.Ctrl.{Status}
use mm_halow_driver.Ctrl.Radio.Settings.{same_setting}
use mm_halow_driver.Ctrl.Radio.{
  Mmwlan, RadioConfig, What, rts, frag, listen, of_bool, get_radio, apply_pm,
}

module _ {M : Type 0} (w : Mmwlan M) where
  -- A setting that is only given where it is not zero.
  abbrev pub unless_zero : ℕ → (M → Status × M) → M → M
  unless_zero v set m = if v == 0 then m else (set m).1

  -- mm_halow_apply_radio
  pub apply_radio : RadioConfig → M → M
  apply_radio c m =
      let m1 = (w.set_ampdu_enabled c.ampdu m).1 in
      let m2 = (w.set_sgi_enabled c.sgi m1).1 in
      let m3 = (w.set_subbands_enabled c.subbands m2).1 in
      let m4 = unless_zero c.rts_threshold (w.set_rts_threshold c.rts_threshold) m3 in
      let m5 =
        unless_zero c.fragment_threshold (w.set_fragment_threshold c.fragment_threshold) m4 in
      let m6 = unless_zero c.listen_interval (w.set_listen_interval c.listen_interval) m5 in
      unless_zero c.health_max_ms (w.set_health_check_interval c.health_min_ms c.health_max_ms) m6

  -- The transmit power, the duty cycle and the power-down of a sleep are not among them.
  apply_radio-rest :
      (c : RadioConfig) (power mode : ℕ) (down : Bool) (m : M)
      → apply_radio (record c { txpower = power; duty_cycle_mode = mode; wnm_powerdown = down }) m
        ≡ apply_radio c m
  unfolding apply_radio
  apply_radio-rest c power mode down m = refl

-- The settings that mm_halow_apply_radio gives.
abbrev pub is_given : What → Bool
is_given What.ampdu = true
is_given What.sgi = true
is_given What.subbands = true
is_given rts = true
is_given frag = true
is_given listen = true
is_given what = false

-- The settings for which zero is morselib's own choice.
abbrev pub is_optional : What → Bool
is_optional rts = true
is_optional frag = true
is_optional listen = true
is_optional what = false

-- What morselib documents of its settings, as far as `seen` tells them: each setter sets its own, and
-- those of power save and of the health check set none of them.
pub record Settles {M : Type 0} (w : Mmwlan M) (seen : What → M → ℕ) : Type 0 where
  pub ampdu :
      (b : Bool) (a : What) (m : M)
      → is_given a ≡ true
      → seen a (w.set_ampdu_enabled b m).1
        ≡ (if same_setting What.ampdu a then of_bool b else seen a m)
  pub sgi :
      (b : Bool) (a : What) (m : M)
      → is_given a ≡ true
      → seen a (w.set_sgi_enabled b m).1 ≡ (if same_setting What.sgi a then of_bool b else seen a m)
  pub subbands :
      (b : Bool) (a : What) (m : M)
      → is_given a ≡ true
      → seen a (w.set_subbands_enabled b m).1
        ≡ (if same_setting What.subbands a then of_bool b else seen a m)
  pub rts_threshold :
      (v : ℕ) (a : What) (m : M)
      → is_given a ≡ true
      → seen a (w.set_rts_threshold v m).1 ≡ (if same_setting rts a then v else seen a m)
  pub fragment_threshold :
      (v : ℕ) (a : What) (m : M)
      → is_given a ≡ true
      → seen a (w.set_fragment_threshold v m).1 ≡ (if same_setting frag a then v else seen a m)
  pub listen_interval :
      (v : ℕ) (a : What) (m : M)
      → is_given a ≡ true
      → seen a (w.set_listen_interval v m).1 ≡ (if same_setting listen a then v else seen a m)
  pub health :
      (min_ms max_ms : ℕ) (a : What) (m : M)
      → seen a (w.set_health_check_interval min_ms max_ms m).1 ≡ seen a m
  pub power_save : (b : Bool) (a : What) (m : M) → seen a (w.set_power_save_mode b m).1 ≡ seen a m
  pub ps_timeout : (v : ℕ) (a : What) (m : M) → seen a (w.set_dynamic_ps_timeout v m).1 ≡ seen a m

module _ {M : Type 0} (w : Mmwlan M) (seen : What → M → ℕ) (settles : Settles w seen) where
  -- What morselib is to have: the setting that the driver keeps, or its own where that is left to it.
  abbrev pub wanted : What → RadioConfig → M → ℕ
  wanted a c m = if is_optional a && (get_radio a c == 0) then seen a m else get_radio a c

  pub apply_pm-seen : (a : What) (c : RadioConfig) (m : M) → seen a (apply_pm w c m).1 ≡ seen a m
  unfolding apply_pm
  apply_pm-seen a c m = ground (
    arith,
    settles.power_save (not c.always_on) a m,
    settles.ps_timeout c.ps_timeout_ms a (w.set_power_save_mode (not c.always_on) m).1,
  )

  unless_zero-seen :
      (own a : What) (v : ℕ) (set : M → Status × M) (m : M)
      → seen a (set m).1 ≡ (if same_setting own a then v else seen a m)
      → seen a (unless_zero w v set m)
        ≡ (if same_setting own a && not (v == 0) then v else seen a m)
  unless_zero-seen own a v set m e = ground (arith, e)

  health-seen :
      (a : What) (v min_ms max_ms : ℕ) (m : M)
      → seen a (unless_zero w v (w.set_health_check_interval min_ms max_ms) m) ≡ seen a m
  health-seen a v min_ms max_ms m = ground (arith, settles.health min_ms max_ms a m)

  pub apply_radio-seen :
      (a : What) (c : RadioConfig) (m : M)
      → is_given a ≡ true
      → seen a (apply_radio w c m) ≡ wanted a c m
  unfolding apply_radio get_radio same_setting
  apply_radio-seen a c m h =
      rw
        (
          health-seen a c.health_max_ms c.health_min_ms c.health_max_ms,
          unless_zero-seen listen a c.listen_interval (w.set_listen_interval c.listen_interval) _
              (settles.listen_interval c.listen_interval a _ h),
          unless_zero-seen frag a c.fragment_threshold
              (w.set_fragment_threshold c.fragment_threshold) _
              (settles.fragment_threshold c.fragment_threshold a _ h),
          unless_zero-seen rts a c.rts_threshold (w.set_rts_threshold c.rts_threshold) _
              (settles.rts_threshold c.rts_threshold a _ h),
          settles.subbands c.subbands a _ h,
          settles.sgi c.sgi a _ h,
          settles.ampdu c.ampdu a _ h,
        )
        (settle a h)
    where
      settle :
          (a : What)
          → is_given a ≡ true
          → (if same_setting listen a && not (c.listen_interval == 0)
              then c.listen_interval
              else if same_setting frag a && not (c.fragment_threshold == 0)
              then c.fragment_threshold
              else if same_setting rts a && not (c.rts_threshold == 0)
              then c.rts_threshold
              else if same_setting What.subbands a
              then of_bool c.subbands
              else if same_setting What.sgi a
              then of_bool c.sgi
              else if same_setting What.ampdu a
              then of_bool c.ampdu
              else seen a m)
            ≡ wanted a c m
      settle a h = ground arith
