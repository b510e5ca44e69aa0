-- ===== src/Ctrl/Scan/Sweep.antt =====
-- A sweep in mm_halow_ctrl.c: mm_halow_wifi_scan_cached, what starts a sweep, and what morselib calls
-- back during it. mmwlan_scan_request is a parameter; the wait is that of the scheduler.
pub mod Results
mod Checks
use mm_halow_driver.Base.{
  ℕ, ◌*◌, Bool, true, false, not, Option, none, some, List, [], if◌then◌else◌, length, take, min,
}
use mm_halow_driver.Heap.{Heap, malloc}
use mm_halow_driver.Sched.Wait.{Host, wait}
use mm_halow_driver.Ctrl.{
  Status, Errno, ok, status_to_errno, is_ok, Link, down, join, noip, up, fail,
}
use mm_halow_driver.Ctrl.Channels.{Channel}
use mm_halow_driver.Ctrl.Scan.{Result, cache_max, scan_cache_add}

-- MM_HALOW_SCAN_MS
abbrev pub scan_ms : ℕ
scan_ms = 30000

-- The fields of mm_halow_t that scanning uses, the driver's heap, and the world below them.
pub record Scan (M : Type 0) : Type 0 where
  pub cache : Option (List Result)
  pub scan_cache_max : ℕ
  pub scan_active : Bool
  pub scan_started_ms : ℕ
  pub link_status : Link
  pub heap : Heap
  pub below : M

abbrev pub results_of : Option (List Result) → List Result
results_of none = []
results_of (some rs) = rs

abbrev pub is_down : Link → Bool
is_down down = true
is_down l = false

module _ {M : Type 0} where
  -- mm_halow_scan_idle_cond
  pub scan_idle : Scan M → Bool × Scan M
  scan_idle s = (not s.scan_active, s)

  -- mm_halow_scan_complete_cb
  pub scan_complete : Scan M → Scan M
  scan_complete s = record s { scan_active = false }

  -- mm_halow_scan_rx_cb, with the result that it makes of a beacon
  pub scan_rx : Result → Scan M → Scan M
  scan_rx res s = record s { cache = scan_cache_add s.scan_cache_max res s.cache }

  -- The cache, which is allocated once; `size` is the size of a result.
  pub with_cache : ℕ → Scan M → Bool × Scan M
  with_cache size s = elim s.cache [
    | some rs ↦ (true, s)
    | none ↦
        let (p, h) = malloc (cache_max * size) s.heap in
        elim p [
          | none ↦ (false, record s { heap = h })
          | some a ↦ (true, record s { heap = h; cache = some []; scan_cache_max = cache_max })
        ]
  ]

  -- The copy at the end of mm_halow_wifi_scan_cached.
  abbrev pub copy_out : ℕ → Scan M → List Result
  copy_out max s = take (min (length (results_of s.cache)) max) (results_of s.cache)

  pub copied : ℕ → Option (Bool × Scan M) → Option (List Result × Scan M)
  copied max none = none
  copied max (some (idle, s)) = some (copy_out max s, s)

  -- scan_cache_len = 0
  abbrev pub cleared : Scan M → Scan M
  cleared s = record s { cache = elim s.cache [ none ↦ none | some rs ↦ some [] ] }

  module _ (request : Scan M → Status × Scan M) (host : Host (Scan M)) where
    -- mm_halow_scan_start_locked; `request` is mmwlan_scan_request.
    pub scan_start : Scan M → Errno × Scan M
    scan_start s =
        let (now, s1) = host.ticks (record s { scan_active = true }) in
        let (status, s2) = request (record s1 { scan_started_ms = now }) in
        if is_ok (status_to_errno status)
        then (ok, s2)
        else (status_to_errno status, record s2 { scan_active = false })

    -- The start of a sweep, unless one is on.
    pub begin_sweep : Scan M → Errno × Scan M
    begin_sweep s = if s.scan_active then (ok, s) else scan_start (cleared s)

    -- mm_halow_wifi_scan_cached behind the allocation
    pub sweep : ℕ → ℕ → Scan M → Option (List Result × Scan M)
    sweep fuel max s =
        let (e, s1) = begin_sweep s in
        let waited = copied max (wait host scan_idle fuel scan_ms s1) in
        if is_ok e then waited else some ([], s1)

    -- mm_halow_wifi_scan_cached, with room for `max` results
    pub scan_cached : ℕ → ℕ → ℕ → Scan M → Option (List Result × Scan M)
    scan_cached size fuel max s =
        let (ready, s1) = with_cache size s in
        let swept = sweep fuel max s1 in
        if not (is_down s.link_status) then some ([], s) else if ready then swept else some ([], s1)
