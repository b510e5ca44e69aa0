-- ===== src/Ctrl/Checks.antt =====
-- The control layer on concrete stations, scan results, settings and calls.
use mm_halow_driver.Base.{
  ℕ, ◌+◌, ◌≡◌, true, false, none, some, List, [], ◌∷◌, arith, ltb, if◌then◌else◌,
}
use mm_halow_driver.Ctrl.{success, unavailable, down}
use mm_halow_driver.Ctrl.Stations.View.{run_status, last_status, view, view-run_status}
use mm_halow_driver.Ctrl.Stations.{IsRoster}
use mm_halow_driver.Ctrl.Scan.{Result, IsCache}
use mm_halow_driver.Ctrl.Radio.{Mmwlan, Radio, RadioConfig, What, listen, set_radio, get_radio}
use mm_halow_driver.Ctrl.Radio.Settings.{kept, same_setting, get_radio-set_radio}
use mm_halow_driver.Ctrl.Channels.{Channel, ap_channel}
use mm_halow_driver.Ctrl.Channels.Choice.{Chosen, ap_channel-Chosen}

two_stas-IsRoster : IsRoster 4 (11 ∷ 12 ∷ [])
two_stas-IsRoster = record { bounded = omega arith; once = λ a. ground arith }

abbrev beacon : Result
beacon = record {
  ssid = [];
  bssid = 7;
  rssi = 0;
  channel_freq_hz = 916_000_000;
  chan_num = 28;
  bw_mhz = 1;
  op_bw_mhz = 8;
  protected = true;
}

one_beacon-IsCache : IsCache 32 (beacon ∷ [])
one_beacon-IsCache = record { bounded = omega arith; once = λ b. ground arith }

-- A morselib that counts its calls, and refuses the settings of power and listening.
abbrev counting : Mmwlan ℕ
counting = record {
  set_ampdu_enabled = λ b m. (success, m + 1);
  set_sgi_enabled = λ b m. (success, m + 1);
  set_subbands_enabled = λ b m. (success, m + 1);
  set_rts_threshold = λ v m. (success, m + 1);
  set_fragment_threshold = λ v m. (success, m + 1);
  set_listen_interval = λ v m. (unavailable, m + 1);
  override_max_tx_power = λ v m. (unavailable, m + 1);
  set_power_save_mode = λ b m. (success, m + 1);
  set_dynamic_ps_timeout = λ v m. (success, m + 1);
  set_duty_cycle_mode = λ v m. (success, m + 1);
  set_health_check_interval = λ a b m. (success, m + 1);
  twt_add_configuration = λ i d s m. (success, m + 1);
  set_wnm_sleep_enabled = λ a b m. (success, m + 1);
  is_duty_cycle_mode = λ v. ltb v 2;
  is_twt_setup = λ v. ltb v 3;
}

abbrev settings : RadioConfig
settings = record {
  always_on = true;
  ps_timeout_ms = 100;
  ampdu = true;
  sgi = true;
  subbands = true;
  listen_interval = 0;
  txpower = 0;
  duty_cycle_mode = 0;
  rts_threshold = 0;
  fragment_threshold = 0;
  wnm_powerdown = false;
  health_min_ms = 0;
  health_max_ms = 0;
}

abbrev running : Radio
running = record { config = settings; booted = true; ap_up = false; link_status = down }

get_radio-set_radio_example :
    get_radio listen (set_radio counting What.txpower 70000 running 0).1.config ≡ (
      if same_setting What.txpower listen
      then kept What.txpower 70000
      else get_radio listen settings)
get_radio-set_radio_example = get_radio-set_radio counting What.txpower listen 70000 running 0

-- Two channels, one of them wide.
abbrev plan : List Channel
plan =
    record {
      centre_freq_hz = 902_500_000;
      chan_bw_mhz = 1;
      s1g_chan_num = 1;
      s1g_operating_class = none;
      global_operating_class = 68;
    }
    ∷ record {
      centre_freq_hz = 908_000_000;
      chan_bw_mhz = 8;
      s1g_chan_num = 12;
      s1g_operating_class = some 4;
      global_operating_class = 71;
    }
    ∷ []

ap_channel-Chosen_example : Chosen 0 plan (ap_channel (some plan) 0)
ap_channel-Chosen_example = ap_channel-Chosen 0 plan

-- Station 3 comes and goes, and the others come in another order.
view-run_status_example :
    view (run_status 4 ((1, true) ∷ (2, true) ∷ []) [])
    ≡ view (run_status 4 ((2, true) ∷ (3, true) ∷ (1, true) ∷ (3, false) ∷ []) [])
unfolding last_status
view-run_status_example =
    view-run_status 4 ((1, true) ∷ (2, true) ∷ [])
      ((2, true) ∷ (3, true) ∷ (1, true) ∷ (3, false) ∷ []) (omega arith) (omega arith)
      (λ a. ground arith)
