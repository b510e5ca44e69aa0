-- ===== src/Ctrl/Radio/Settings.antt =====
-- What the settings of mm_halow_ctrl.c read back, and what reaches the transceiver.
use mm_halow_driver.Base.{ℕ, ◌≤◌, ◌<◌, ◌≡◌, ◌⊎◌, Bool, true, false, arith, if◌then◌else◌}
use mm_halow_driver.Ctrl.{is_ok, down}
use mm_halow_driver.Ctrl.Radio.{
  Mmwlan, Radio, What, rts, frag, listen, wnm_pd, unknown, to_bool, u16, of_bool, store, get_radio,
  set_radio, wifi_pm, twt,
}

-- How much of a value a setting keeps: whether it is set, its low 16 bits, or all of it.
pub kept : What → ℕ → ℕ
kept What.ampdu v = of_bool (to_bool v)
kept What.sgi v = of_bool (to_bool v)
kept What.subbands v = of_bool (to_bool v)
kept rts v = v
kept frag v = v
kept listen v = u16 v
kept wnm_pd v = of_bool (to_bool v)
kept What.txpower v = u16 v
kept unknown v = v

-- Whether two settings are one; an unknown one reads the listen interval.
unfoldable pub same_setting : What → What → Bool
same_setting What.ampdu What.ampdu = true
same_setting What.sgi What.sgi = true
same_setting What.subbands What.subbands = true
same_setting rts rts = true
same_setting frag frag = true
same_setting listen listen = true
same_setting listen unknown = true
same_setting wnm_pd wnm_pd = true
same_setting What.txpower What.txpower = true
same_setting a b = false

-- A radio setting reads back as it was written, whatever the state and whatever morselib answered,
-- in the bits that it keeps; every other setting reads as before.
pub get_radio-set_radio :
    {M : Type 0} (w : Mmwlan M) (a b : What) (v : ℕ) (r : Radio) (m : M)
    → get_radio b (set_radio w a v r m).1.config
      ≡ (if same_setting a b then kept a v else get_radio b r.config)
unfolding get_radio set_radio store same_setting kept
get_radio-set_radio w a b v r m = ground arith

-- mm_halow_wifi_pm changes the mode exactly if it reports success.
pub wifi_pm-mode :
    {M : Type 0} (w : Mmwlan M) (mode : Bool) (r : Radio) (m : M)
    → let (e, r1, m1) = wifi_pm w mode r m in
      r1 ≡ (if is_ok e then record r { config = record r.config { always_on = mode } } else r)
unfolding wifi_pm
wifi_pm-mode w mode r m = ground arith

-- A target wake time agreement reaches the transceiver only if it is booted, nothing is joined, and
-- the window, which is not empty, fits inside the interval; otherwise morselib is not called.
pub twt-guard :
    {M : Type 0} (w : Mmwlan M) (interval_us duration_us setup : ℕ) (r : Radio) (m : M)
    → ((r.booted ≡ true)
        × (r.link_status ≡ down)
        × (w.is_twt_setup setup ≡ true)
        × (0 < duration_us)
        × (duration_us ≤ interval_us)
        × ((twt w interval_us duration_us setup r m).1
            ≡ (w.twt_add_configuration interval_us duration_us setup m).1))
      ⊎ ((twt w interval_us duration_us setup r m).1 ≡ m)
        × (is_ok (twt w interval_us duration_us setup r m).0 ≡ false)
unfolding twt
twt-guard w interval_us duration_us setup r m = ground arith
