-- ===== src/Ctrl/Bringup/Checks.antt =====
-- Bringing the driver up and down over a morselib whose state is the settings of the radio.
use mm_halow_driver.Base.{ℕ, ◌≡◌, refl, true, false, none, some, List, [], ◌∷◌, ltb, if◌then◌else◌}
use mm_halow_driver.Sched.{Sched, free_slot, nobody}
use mm_halow_driver.Ctrl.{success, down, sta, is_ok, status_to_errno}
use mm_halow_driver.Ctrl.Radio.{Mmwlan, RadioConfig, What, rts, frag, listen, of_bool}
use mm_halow_driver.Ctrl.Radio.Settings.{same_setting}
use mm_halow_driver.Ctrl.Channels.{Channel, ap_channel, channel_from}
use mm_halow_driver.Ctrl.Access.{ApArgs}
use mm_halow_driver.Ctrl.Bringup.Start.{Started, Placed, ap_enable-Started}
use mm_halow_driver.Ctrl.Bringup.Handed.{Handed}
use mm_halow_driver.Ctrl.Bringup.{Below, Driver, set_up, ap_enable, ap_start, ap_start_on}
use mm_halow_driver.Ctrl.Bringup.Lifecycle.{
  IsDriver, ups, downs, deinits, fatals, handle_all, handle_all-IsDriver,
}
use mm_halow_driver.Ctrl.Bringup.Lifecycle.Upward.{Brought, set_up-Brought}

-- A setting that is taken.
abbrev take_setting : What → ℕ → (What → ℕ) → What → ℕ
take_setting own v m a = if same_setting own a then v else m a

abbrev held : Mmwlan (What → ℕ)
held = record {
  set_ampdu_enabled = λ b m. (success, take_setting What.ampdu (of_bool b) m);
  set_sgi_enabled = λ b m. (success, take_setting What.sgi (of_bool b) m);
  set_subbands_enabled = λ b m. (success, take_setting What.subbands (of_bool b) m);
  set_rts_threshold = λ v m. (success, take_setting rts v m);
  set_fragment_threshold = λ v m. (success, take_setting frag v m);
  set_listen_interval = λ v m. (success, take_setting listen v m);
  override_max_tx_power = λ v m. (success, m);
  set_power_save_mode = λ b m. (success, m);
  set_dynamic_ps_timeout = λ v m. (success, m);
  set_duty_cycle_mode = λ v m. (success, m);
  set_health_check_interval = λ a b m. (success, m);
  twt_add_configuration = λ i d s m. (success, m);
  set_wnm_sleep_enabled = λ a b m. (success, m);
  is_duty_cycle_mode = λ v. ltb v 2;
  is_twt_setup = λ v. ltb v 3;
}

abbrev seen : What → (What → ℕ) → ℕ
seen a m = m a

-- Settings, one of them not morselib's default.
abbrev settings : RadioConfig
settings = record {
  always_on = true;
  ps_timeout_ms = 100;
  ampdu = true;
  sgi = true;
  subbands = true;
  listen_interval = 0;
  txpower = 0;
  duty_cycle_mode = 0;
  rts_threshold = 500;
  fragment_threshold = 0;
  wnm_powerdown = false;
  health_min_ms = 0;
  health_max_ms = 0;
}

-- Two channels, one of them wide.
abbrev plan : List Channel
plan =
    record {
      centre_freq_hz = 902_500_000;
      chan_bw_mhz = 1;
      s1g_chan_num = 1;
      s1g_operating_class = none;
      global_operating_class = 68;
    }
    ∷ record {
      centre_freq_hz = 908_000_000;
      chan_bw_mhz = 8;
      s1g_chan_num = 12;
      s1g_operating_class = some 4;
      global_operating_class = 71;
    }
    ∷ []

-- A morselib that knows ten countries and boots.
abbrev library : Below (What → ℕ)
library = record {
  tx_buf_size = 1514;
  mmwlan_init = λ m. m;
  mmwlan = held;
  register_handlers = λ m. m;
  unregister_rx = λ m. m;
  get_vif_mac_addr = λ old m. 0x2412;
  boot = λ m. (success, m);
  shutdown = λ m. m;
  mmwlan_deinit = λ m. m;
  lookup_domain = λ c. if ltb c 10 then some plan else none;
  set_channel_list = λ c m. (success, m);
  mmwlan_ap_enable = λ a m. (success, m);
  mmwlan_ap_disable = λ m. m;
  mmwlan_sta_disable = λ m. m;
  tcpip_init = λ i m. m;
  tcpip_deinit = λ i m. m;
  tcpip_set_link_up = λ i m. m;
  tcpip_set_link_down = λ i m. m;
}

abbrev off_sched : Sched
off_sched = record {
  tasks = free_slot ∷ free_slot ∷ free_slot ∷ free_slot ∷ [];
  queue = [];
  cur = none;
  woken = false;
  wake_at = 100;
  running = false;
  deadline = 0;
  owner = nobody;
  depth = 0;
  wait_depth = 0;
  in_callback = false;
  teardown = false;
}

abbrev off : Driver (What → ℕ)
off = record {
  sta_up = false;
  ap_up = false;
  initted = false;
  booted = false;
  scan_active = false;
  has_cache = false;
  link_status = down;
  country = 0;
  channels = none;
  config = settings;
  mac = 0;
  access = record { auth = 2; ssid = []; key = []; chan_num = 0 };
  ap_sta_count = 0;
  polled = false;
  tx_buf = none;
  in_callback = false;
  heap = record { mem = none; blocks = []; bytes = λ a. 0 };
  sched = off_sched;
  below = λ a. 0;
}

off-IsDriver : IsDriver off
off-IsDriver = record {
  polled = refl;
  buffer = refl;
  pool = refl;
  sta_down = λ e. refl;
  ap_down = λ e. refl;
  unbooted = λ e. refl;
}

handle_all-IsDriver_example :
    IsDriver
      (handle_all library (ups (some 0x1000) sta 1 ∷ fatals ∷ downs sta ∷ deinits 5 ∷ []) off)
handle_all-IsDriver_example =
    handle_all-IsDriver library (ups (some 0x1000) sta 1 ∷ fatals ∷ downs sta ∷ deinits 5 ∷ []) off
      off-IsDriver

set_up-Brought_example : Brought library sta (set_up library (some 0x1000) sta 1 off)
set_up-Brought_example = set_up-Brought library (some 0x1000) sta 1 off off-IsDriver refl

-- An access point that is configured, and a station that is down.
abbrev configured : Driver (What → ℕ)
configured = record off {
  channels = some plan;
  access = record { auth = 2; ssid = 97 ∷ []; key = 98 ∷ []; chan_num = 0 };
}

configured-ok : is_ok (ap_enable library configured).0 ≡ true
unfolding ap_enable ap_start ap_start_on ap_channel channel_from status_to_errno
configured-ok = refl

ap_enable-Started_example :
    (a : ApArgs) × Started library configured a (ap_enable library configured)
    × Placed library configured a
ap_enable-Started_example = ap_enable-Started library configured configured-ok
