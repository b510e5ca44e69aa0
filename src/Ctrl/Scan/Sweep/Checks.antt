-- ===== src/Ctrl/Scan/Sweep/Checks.antt =====
-- A sweep over a world that is the time in milliseconds. Giving the turn away takes four seconds and
-- brings a result in, and a sweep ends by itself behind the time 20000.
use mm_halow_driver.Base.{
  ℕ, ◌+◌, ◌%◌, ◌^◌, ◌≡◌, true, false, none, some, List, [], ◌∷◌, refl, arith, leb, if◌then◌else◌,
}
use mm_halow_driver.Sched.Wait.{Host}
use mm_halow_driver.Sched.Wait.Total.{Flows}
use mm_halow_driver.Ctrl.{success, down, Status}
use mm_halow_driver.Ctrl.Scan.{Result}
use mm_halow_driver.Ctrl.Scan.Sweep.{Scan, scan_idle, scan_rx, scan_cached, is_down}
use mm_halow_driver.Ctrl.Scan.Sweep.Results.{
  IsSound, Receives, Receiving, Listed, empty-IsCache, scan_cached-Listed,
}

abbrev beacon : ℕ → Result
beacon bssid = record {
  ssid = [];
  bssid = bssid;
  rssi = 0;
  channel_freq_hz = 916_000_000;
  chan_num = 28;
  bw_mhz = 1;
  op_bw_mhz = 8;
  protected = true;
}

abbrev later : Scan ℕ → Scan ℕ
later s = record s {
  below = s.below + 4000;
  scan_active = if leb 20000 s.below then false else s.scan_active;
}

abbrev host : Host (Scan ℕ)
host = record {
  ticks = λ s. (s.below % 2 ^ 32, s);
  park = λ timed at s. scan_rx (beacon s.below) (later s);
  in_task = λ s. false;
  teardown = λ s. false;
  enter = λ s. s;
  leave = λ s. s;
  wake = λ s. s;
}

abbrev request : Scan ℕ → Status × Scan ℕ
request s = (success, s)

abbrev at_rest : Scan ℕ
at_rest = record {
  cache = some [];
  scan_cache_max = 32;
  scan_active = false;
  scan_started_ms = 0;
  link_status = down;
  heap = record { mem = none; blocks = []; bytes = λ a. 0 };
  below = 7;
}

host-Flows : Flows host scan_idle 1
unfolding scan_idle scan_rx
host-Flows = record {
  instant = λ s. s.below;
  positive = omega arith;
  reads = λ s. omega arith;
  ticks_on = λ s. omega arith;
  ticks_few = λ s. omega arith;
  cond_on = λ s. omega arith;
  cond_few = λ s. omega arith;
  park_on = λ timed at s. omega arith;
  round_on = λ timed at s. omega arith;
  park_few = λ timed at s. omega arith;
  enter_on = λ s. omega arith;
  enter_few = λ s. omega arith;
  leave_on = λ s. omega arith;
  wake_on = λ s. omega arith;
}

nothing_in : (s : Scan ℕ) → Receives s s
nothing_in s = record { results = []; cached = refl; sized = refl }

host-Receiving : Receiving request host
unfolding scan_rx
host-Receiving = record {
  ticks = nothing_in;
  park = λ timed at s. record { results = beacon s.below ∷ []; cached = refl; sized = refl };
  enter = nothing_in;
  leave = nothing_in;
  wake = nothing_in;
  request_scan = nothing_in;
}

at_rest-IsSound : IsSound at_rest
at_rest-IsSound = record { cached = empty-IsCache 32; sized = omega arith }

scan_cached-Listed_example :
    (r : List Result × Scan ℕ) × (scan_cached request host 56 12000 3 at_rest ≡ some r)
    × Listed request host host-Receiving 1 host-Flows 3 r
    × (is_down down ≡ false → r ≡ ([], at_rest))
scan_cached-Listed_example =
    scan_cached-Listed request host host-Receiving 1 host-Flows 56 12000 3 at_rest (omega arith)
      at_rest-IsSound
