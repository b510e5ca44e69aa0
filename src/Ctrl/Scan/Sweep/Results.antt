-- ===== src/Ctrl/Scan/Sweep/Results.antt =====
-- What mm_halow_wifi_scan_cached returns.
use mm_halow_driver.Base.{
  ℕ, zero, suc, ◌*◌, ◌≤◌, ◌<◌, ◌≡◌, refl, ap, subst, sym, ◌∙◌, Bool, true, false, some, List, [],
  ◌∷◌, arith, inl, inr, Bool-cases, Option-cases, length, length-take, count, take, min,
  if◌then◌else◌,
}
use mm_halow_driver.Heap.{malloc}
use mm_halow_driver.Sched.Wait.{Host, wait, wait_max_ms}
use mm_halow_driver.Sched.Wait.Total.{Flows, wait_ends}
use mm_halow_driver.Sched.Wait.Rules.{Rule, Outcome, wait-Outcome}
use mm_halow_driver.Ctrl.{Status, ok, is_ok, status_to_errno}
use mm_halow_driver.Ctrl.Scan.{
  Result, cache_max, scan_cache_add, bssids, IsCache, add_result-IsCache,
}
use mm_halow_driver.Ctrl.Scan.Sweep.{
  Scan, results_of, is_down, scan_ms, scan_idle, scan_rx, with_cache, copy_out, copied, cleared,
  scan_start, begin_sweep, sweep, scan_cached,
}

count-take : (b n : ℕ) (rs : List Result) → count b (bssids (take n rs)) ≤ count b (bssids rs)
count-take b zero rs = omega arith
count-take b (suc n) [] = omega arith
count-take b (suc n) (r ∷ rs) = ground (arith, count-take b n rs)

pub empty-IsCache : (max : ℕ) → IsCache max []
empty-IsCache max = record { bounded = omega arith; once = λ b. omega arith }

module _ {M : Type 0} where
  -- The cache is within its memory, which is at most MM_HALOW_SCAN_CACHE_MAX results, and has no
  -- BSSID twice.
  pub record IsSound (s : Scan M) : Type 0 where
    pub cached : IsCache s.scan_cache_max (results_of s.cache)
    pub sized : s.scan_cache_max ≤ cache_max

  -- A result that comes in keeps the cache sound.
  pub scan_rx-IsSound : (res : Result) (s : Scan M) → IsSound s → IsSound (scan_rx res s)
  unfolding scan_rx scan_cache_add
  scan_rx-IsSound res s v = elim (Option-cases s.cache) [
    | inl e ↦ rw (e, scan_rx) (record { cached = empty-IsCache s.scan_cache_max; sized = v.sized })
    | inr (rs, e) ↦
        rw (e, scan_rx)
          (record {
            cached =
                (add_result-IsCache s.scan_cache_max res rs
                  (subst (λ c. IsCache s.scan_cache_max (results_of c)) e v.cached)).0;
            sized = v.sized;
          })
  ]

  -- The results that come in, one after the other.
  abbrev pub received : List Result → Scan M → Scan M
  received [] s = s
  received (res ∷ rs) s = received rs (scan_rx res s)

  -- The cache of `s'` is that of `s` with the results that came in between.
  pub record Receives (s s' : Scan M) : Type 0 where
    pub results : List Result
    pub cached : s'.cache ≡ (received results s).cache
    pub sized : s'.scan_cache_max ≡ s.scan_cache_max

  received-IsSound : (rs : List Result) (s : Scan M) → IsSound s → IsSound (received rs s)
  received-IsSound [] s v = v
  received-IsSound (res ∷ rs) s v = received-IsSound rs (scan_rx res s) (scan_rx-IsSound res s v)

  received-max : (rs : List Result) (s : Scan M) → (received rs s).scan_cache_max ≡ s.scan_cache_max
  unfolding scan_rx
  received-max [] s = refl
  received-max (res ∷ rs) s = received-max rs (scan_rx res s)

  same :
      (s s' : Scan M)
      → s'.cache ≡ s.cache
      → s'.scan_cache_max ≡ s.scan_cache_max
      → IsSound s
      → IsSound s'
  same s s' c m v = record { cached = rw (c, m) v.cached; sized = rw m v.sized }

  Receives-IsSound : {s s' : Scan M} → Receives s s' → IsSound s → IsSound s'
  Receives-IsSound {s} {s'} r v =
      same (received r.results s) s' r.cached (r.sized ∙ sym (received-max r.results s))
        (received-IsSound r.results s v)

  with_cache-IsSound : (size : ℕ) (s : Scan M) → IsSound s → IsSound (with_cache size s).1
  unfolding with_cache
  with_cache-IsSound size s v = elim (Option-cases s.cache) [
    | inr (rs, e) ↦ rw (e, with_cache) v
    | inl e ↦ elim (Option-cases (malloc (cache_max * size) s.heap).0) [
      | inl f ↦ rw (e, with_cache, f) (record { cached = v.cached; sized = v.sized })
      | inr (a, f) ↦
          rw (e, with_cache, f) (record { cached = empty-IsCache cache_max; sized = omega arith })
    ]
  ]

  cleared-IsSound : (s : Scan M) → IsSound s → IsSound (cleared s)
  cleared-IsSound s v = elim (Option-cases s.cache) [
    | inl e ↦ rw e (record { cached = empty-IsCache s.scan_cache_max; sized = v.sized })
    | inr (rs, e) ↦ rw e (record { cached = empty-IsCache s.scan_cache_max; sized = v.sized })
  ]

module _ {M : Type 0} (request : Scan M → Status × Scan M) (host : Host (Scan M)) where
  -- What runs meanwhile touches the cache by mm_halow_scan_rx_cb alone: the scheduler, the tasks in
  -- which results come in, and the asking for a sweep.
  pub record Receiving : Type 0 where
    pub ticks : (s : Scan M) → Receives s (host.ticks s).1
    pub park : (timed : Bool) (at : ℕ) (s : Scan M) → Receives s (host.park timed at s)
    pub enter : (s : Scan M) → Receives s (host.enter s)
    pub leave : (s : Scan M) → Receives s (host.leave s)
    pub wake : (s : Scan M) → Receives s (host.wake s)
    pub request_scan : (s : Scan M) → Receives s (request s).1

  module _ (receiving : Receiving) (rate : ℕ) (flow : Flows host scan_idle rate) where
    open flow use {instant}

    scan_idle-Rule : Rule host scan_idle IsSound IsSound
    unfolding scan_idle
    scan_idle-Rule = record {
      ticks = λ s. Receives-IsSound (receiving.ticks s);
      park = λ timed at s. Receives-IsSound (receiving.park timed at s);
      enter = λ s. Receives-IsSound (receiving.enter s);
      leave = λ s. Receives-IsSound (receiving.leave s);
      fails = λ s v e. v;
      succeeds = λ s v e. v;
      post_leave = λ s. Receives-IsSound (receiving.leave s);
      post_wake = λ s. Receives-IsSound (receiving.wake s);
    }

    scan_start-IsSound : (s : Scan M) → IsSound s → IsSound (scan_start request host s).1
    unfolding scan_start
    scan_start-IsSound s v =
        let s0 = record s { scan_active = true } in
        let s1 = record (host.ticks s0).1 { scan_started_ms = (host.ticks s0).0 } in
        let v1 =
          same (host.ticks s0).1 s1 refl refl
            (Receives-IsSound (receiving.ticks s0) (same s s0 refl refl v)) in
        let v2 = Receives-IsSound (receiving.request_scan s1) v1 in
        elim (Bool-cases (is_ok (status_to_errno (request s1).0))) [
          | inl e ↦ rw e v2
          | inr e ↦ rw e (same (request s1).1 _ refl refl v2)
        ]

    begin_either-IsSound :
        (active : Bool) (s : Scan M)
        → IsSound s
        → IsSound (if active then (ok, s) else scan_start request host (cleared s)).1
    begin_either-IsSound true s v = v
    begin_either-IsSound false s v = scan_start-IsSound (cleared s) (cleared-IsSound s v)

    begin_sweep-IsSound : (s : Scan M) → IsSound s → IsSound (begin_sweep request host s).1
    unfolding begin_sweep
    begin_sweep-IsSound s v = begin_either-IsSound s.scan_active s v

    -- A list of results that fits the room for it and has no BSSID twice, and a sound cache.
    pub record Listed (max : ℕ) (r : List Result × Scan M) : Type 0 where
      pub fits : length r.0 ≤ min max cache_max
      pub once : (b : ℕ) → count b (bssids r.0) ≤ 1
      pub sound : IsSound r.1

    nothing-Listed : (max : ℕ) (s : Scan M) → IsSound s → Listed max ([], s)
    nothing-Listed max s v = record { fits = omega arith; once = λ b. omega arith; sound = v }

    copied-Listed : (max : ℕ) (s : Scan M) → IsSound s → Listed max (copy_out max s, s)
    copied-Listed max s v =
        let rs = results_of s.cache in
        let n = min (length rs) max in
        record {
          fits = omega (arith, length-take n rs, v.cached.bounded, v.sized);
          once = λ b. omega (arith, count-take b n rs, v.cached.once b);
          sound = v;
        }

    waited-Listed :
        (fuel max : ℕ) (s : Scan M)
        → wait_max_ms * rate < fuel
        → IsSound s
        → (r : List Result × Scan M) × (copied max (wait host scan_idle fuel scan_ms s) ≡ some r)
          × Listed max r
    unfolding copied Outcome
    waited-Listed fuel max s enough v =
        let (b, s', e, late) =
          wait_ends host scan_idle rate flow scan_ms fuel s (omega arith) (omega (arith, enough)) in
        let out =
          subst (Outcome IsSound IsSound) e
            (wait-Outcome host scan_idle IsSound IsSound scan_idle-Rule fuel scan_ms s v) in
        ((copy_out max s', s'), ap (copied max) e, copied-Listed max s' (either b s' out))
      where
        either : (b : Bool) (s' : Scan M) → Outcome IsSound IsSound (some (b, s')) → IsSound s'
        either true s' out = out
        either false s' out = out

    sweep-Listed :
        (fuel max : ℕ) (s : Scan M)
        → wait_max_ms * rate < fuel
        → IsSound s
        → (r : List Result × Scan M) × (sweep request host fuel max s ≡ some r) × Listed max r
    unfolding sweep
    sweep-Listed fuel max s enough v =
        let s1 = (begin_sweep request host s).1 in
        let v1 = begin_sweep-IsSound s v in
        elim (Bool-cases (is_ok (begin_sweep request host s).0)) [
          | inl e ↦ rw e (waited-Listed fuel max s1 enough v1)
          | inr e ↦ rw e (([], s1), refl, nothing-Listed max s1 v1)
        ]

    -- A call returns, with fuel for MM_HALOW_SCHED_WAIT_MAX_MS, a list that fits the room for it and
    -- MM_HALOW_SCAN_CACHE_MAX and that has no BSSID twice, and leaves the cache sound, whatever results
    -- mm_halow_scan_rx_cb is called with meanwhile, as often as it is and at any point, whether the
    -- sweep ends in time, is refused or finds no memory; nothing else touches the cache meanwhile, and
    -- the tasks let the time pass. While the link is not down the list is empty and the state stays.
    pub scan_cached-Listed :
        (size fuel max : ℕ) (s : Scan M)
        → wait_max_ms * rate < fuel
        → IsSound s
        → (r : List Result × Scan M) × (scan_cached request host size fuel max s ≡ some r)
          × Listed max r
          × (is_down s.link_status ≡ false → r ≡ ([], s))
    unfolding scan_cached
    scan_cached-Listed size fuel max s enough v = elim (Bool-cases (is_down s.link_status)) [
      | inr e ↦ rw (e, scan_cached) (([], s), refl, nothing-Listed max s v, λ f. refl)
      | inl e ↦
          let s1 = (with_cache size s).1 in
          let v1 = with_cache-IsSound size s v in
          elim (Bool-cases (with_cache size s).0) [
            | inl f ↦
                let (r, q, l) = sweep-Listed fuel max s1 enough v1 in
                rw (e, scan_cached, f) (r, q, l, λ g. absurd (cc))
            | inr f ↦
                rw (e, scan_cached, f) (([], s1), refl, nothing-Listed max s1 v1, λ g. absurd (cc))
          ]
    ]
