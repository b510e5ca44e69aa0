-- ===== src/Ctrl/Scan.antt =====
-- Scanning in mm_halow_ctrl.c: the cache of results, keyed by BSSID, here, and the sweep in Sweep.
-- A BSSID is a number; the cache with `scan_cache_len` is a list.
pub mod Sweep
use mm_halow_driver.Base.{
  ℕ, ◌*◌, ◌≤◌, ◌≡◌, ◌≢◌, refl, ap, Bool, true, false, ◌||◌, Option, none, some, List, [], ◌∷◌, ◌++◌,
  arith, inl, inr, ltb, ◌==◌, if◌then◌else◌, length, length-append, count, count-append, take, min,
  Bool-cases,
}
use mm_halow_driver.Ctrl.Channels.{Channel, freq_to_chan}

-- MM_HALOW_SCAN_CACHE_MAX
abbrev pub cache_max : ℕ
cache_max = 32

-- MMWLAN_SSID_MAXLEN, which the standard fixes
abbrev pub ssid_max : ℕ
ssid_max = 32

-- mm_halow_ev_scan_result_t; `protected` is MM_HALOW_SEC_SAE in place of MM_HALOW_SEC_OPEN.
pub record Result : Type 0 where
  pub ssid : List ℕ
  pub bssid : ℕ
  pub rssi : ℕ
  pub channel_freq_hz : ℕ
  pub chan_num : ℕ
  pub bw_mhz : ℕ
  pub op_bw_mhz : ℕ
  pub protected : Bool

-- The search and the insertion of mm_halow_scan_cache_add, with `scan_cache_max` first.
pub is_cached : ℕ → List Result → Bool
is_cached b [] = false
is_cached b (r ∷ rs) = if r.bssid == b then true else is_cached b rs

pub refresh : Result → List Result → List Result
refresh res [] = []
refresh res (r ∷ rs) = if r.bssid == res.bssid then res ∷ rs else r ∷ refresh res rs

pub add_result : ℕ → Result → List Result → List Result
add_result max res rs =
    if is_cached res.bssid rs
    then refresh res rs
    else if ltb (length rs) max
    then rs ++ res ∷ []
    else rs

-- mm_halow_scan_cache_add; none is a cache that was not allocated.
pub scan_cache_add : ℕ → Result → Option (List Result) → Option (List Result)
scan_cache_add max res none = none
scan_cache_add max res (some rs) = some (add_result max res rs)

-- What mm_halow_scan_rx_cb makes of a beacon: the SSID cut to size, and the channel's number.
pub to_result : Option (List Channel) → List ℕ → ℕ → ℕ → ℕ → ℕ → ℕ → Bool → Result
to_result channels ssid bssid rssi freq bw op_bw privacy = record {
  ssid = take ssid_max ssid;
  bssid = bssid;
  rssi = rssi;
  channel_freq_hz = freq;
  chan_num = freq_to_chan channels freq bw;
  bw_mhz = bw;
  op_bw_mhz = op_bw;
  protected = privacy;
}

abbrev pub bssids : List Result → List ℕ
bssids [] = []
bssids (r ∷ rs) = r.bssid ∷ bssids rs

abbrev pub find_result : ℕ → List Result → Option Result
find_result b [] = none
find_result b (r ∷ rs) = if r.bssid == b then some r else find_result b rs

-- The cache fits its memory and has no BSSID twice.
pub record IsCache (max : ℕ) (rs : List Result) : Type 0 where
  pub bounded : length rs ≤ max
  pub once : (b : ℕ) → count b (bssids rs) ≤ 1

bssids-append : (xs ys : List Result) → bssids (xs ++ ys) ≡ bssids xs ++ bssids ys
bssids-append [] ys = refl
bssids-append (x ∷ xs) ys = ap (◌∷◌ x.bssid) (bssids-append xs ys)

is_cached-count : (b : ℕ) (rs : List Result) → is_cached b rs ≡ ltb 0 (count b (bssids rs))
unfolding is_cached
is_cached-count b [] = refl
is_cached-count b (r ∷ rs) = ground (arith, is_cached-count b rs)

bssids-refresh : (res : Result) (rs : List Result) → bssids (refresh res rs) ≡ bssids rs
unfolding refresh
bssids-refresh res [] = refl
bssids-refresh res (r ∷ rs) = ground (arith, bssids-refresh res rs)

length-refresh : (res : Result) (rs : List Result) → length (refresh res rs) ≡ length rs
unfolding refresh
length-refresh res [] = refl
length-refresh res (r ∷ rs) = ground (arith, length-refresh res rs)

find-refresh :
    (res : Result) (rs : List Result) (b : ℕ)
    → is_cached res.bssid rs ≡ true
    → find_result b (refresh res rs) ≡ (if res.bssid == b then some res else find_result b rs)
unfolding refresh is_cached
find-refresh res [] b h = cc
find-refresh res (r ∷ rs) b h = ground (arith, find-refresh res rs b)

find-append :
    (res : Result) (rs : List Result) (b : ℕ)
    → is_cached res.bssid rs ≡ false
    → find_result b (rs ++ res ∷ []) ≡ (if res.bssid == b then some res else find_result b rs)
unfolding is_cached
find-append res [] b h = ground arith
find-append res (r ∷ rs) b h = ground (arith, find-append res rs b)

find_result-none : (rs : List Result) (b : ℕ) → is_cached b rs ≡ false → find_result b rs ≡ none
unfolding is_cached
find_result-none [] b h = refl
find_result-none (r ∷ rs) b h = ground (arith, find_result-none rs b)

-- Adding a result keeps the cache within its memory and free of duplicates. The newest result is
-- what a look-up of its BSSID finds, unless it was new and there was no room; every other BSSID
-- is found as before.
pub add_result-IsCache :
    (max : ℕ) (res : Result) (rs : List Result)
    → IsCache max rs
    → IsCache max (add_result max res rs)
      × (find_result res.bssid (add_result max res rs)
          ≡ (if is_cached res.bssid rs || ltb (length rs) max then some res else none))
      × ((b : ℕ) → res.bssid ≢ b → find_result b (add_result max res rs) ≡ find_result b rs)
unfolding add_result
add_result-IsCache max res rs v = elim (Bool-cases (is_cached res.bssid rs)) [
  | inl e ↦
      rw (e, add_result)
        (
          record {
            bounded = omega (arith, v.bounded, length-refresh res rs);
            once = λ b. rw (bssids-refresh res rs) (v.once b);
          },
          ground (arith, find-refresh res rs res.bssid e),
          λ b ne. ground (arith, find-refresh res rs b e),
        )
  | inr e ↦ elim (Bool-cases (ltb (length rs) max)) [
    | inl room ↦
        rw (e, add_result, room)
          (
            record {
              bounded = ground (arith, length-append rs (res ∷ []));
              once = λ b. ground (
                arith,
                v.once b,
                is_cached-count res.bssid rs,
                ap (count b) (bssids-append rs (res ∷ [])),
                count-append b (bssids rs) (res.bssid ∷ []),
              );
            },
            ground (arith, find-append res rs res.bssid e),
            λ b ne. ground (arith, find-append res rs b e),
          )
    | inr full ↦ rw (e, add_result, full) (v, find_result-none rs res.bssid e, λ b ne. refl)
  ]
]
