-- ===== src/Ctrl/Join/Checks.antt =====
-- Joining over a small stand-in for morselib, and a scheduler that only lets time pass.
use mm_halow_driver.Base.{
  ℕ, ◌+◌, ◌%◌, ◌^◌, ◌≡◌, refl, true, false, none, some, [], ◌∷◌, arith, leb, if◌then◌else◌,
}
use mm_halow_driver.Sched.Wait.{Host}
use mm_halow_driver.Sched.Wait.Total.{Flows}
use mm_halow_driver.Ctrl.{Errno, einval, success, down}
use mm_halow_driver.Ctrl.Join.{Station, StaApi, sta_args, scan_idle, asked, is_refused, wifi_join}
use mm_halow_driver.Ctrl.Join.Attempt.{Tried, wifi_join-Tried}

-- Below is the time in milliseconds. Giving the turn away takes one, and a sweep ends at the time 40.
abbrev host : Host (Station ℕ)
host = record {
  ticks = λ s. (s.below % 2 ^ 32, s);
  park = λ timed at s. record s {
    below = s.below + 1;
    scan_active = if leb 40 s.below then false else s.scan_active;
  };
  in_task = λ s. false;
  teardown = λ s. false;
  enter = λ s. s;
  leave = λ s. s;
  wake = λ s. s;
}

abbrev library : StaApi ℕ
library = record {
  ssid_maxlen = 32;
  passphrase_maxlen = 100;
  scan_abort = λ s. s;
  sta_enable = λ args s. (success, s);
}

host-Flows : Flows host scan_idle 1
unfolding scan_idle
host-Flows = record {
  instant = λ s. s.below;
  positive = omega arith;
  reads = λ s. omega arith;
  ticks_on = λ s. omega arith;
  ticks_few = λ s. omega arith;
  cond_on = λ s. omega arith;
  cond_few = λ s. omega arith;
  park_on = λ timed at s. omega arith;
  round_on = λ timed at s. omega arith;
  park_few = λ timed at s. omega arith;
  enter_on = λ s. omega arith;
  enter_few = λ s. omega arith;
  leave_on = λ s. omega arith;
  wake_on = λ s. omega arith;
}

abbrev sweeping : Station ℕ
sweeping = record { sta_ssid = []; link_status = down; scan_active = true; below = 7 }

wifi_join-Tried_example :
    (r : Errno × Station ℕ) × (wifi_join library host 6000 (97 ∷ []) (98 ∷ []) 2 none sweeping
      ≡ some r)
    × (is_refused library host (97 ∷ []) (98 ∷ []) 2 ≡ true → r ≡ (einval, sweeping))
    × (is_refused library host (97 ∷ []) (98 ∷ []) 2 ≡ false
        → Tried library host 1 host-Flows
            (λ d. refl)
            (λ d. refl)
            (sta_args (97 ∷ []) (98 ∷ []) 2 none)
            (asked (97 ∷ []) sweeping)
            r)
wifi_join-Tried_example =
    wifi_join-Tried library host 1 host-Flows (λ d. refl) (λ d. refl) 6000 (97 ∷ []) (98 ∷ []) 2
      none sweeping (omega arith)
