-- ===== src/Ctrl/Join/Attempt.antt =====
-- What a call of mm_halow_wifi_join comes to.
use mm_halow_driver.Base.{
  ℕ, ◌+◌, ◌*◌, ◌/◌, ◌≤◌, ◌<◌, ◌≡◌, ◌⊎◌, refl, Bool, true, false, Option, some, List, arith, inl,
  inr, Bool-cases, ap, sym, subst, ◌∙◌,
}
use mm_halow_driver.Sched.Wait.{Host, wait}
use mm_halow_driver.Sched.Wait.Total.{Flows, wait_ends}
use mm_halow_driver.Sched.Wait.Rules.{Rule, Outcome, wait-Outcome}
use mm_halow_driver.Ctrl.{Errno, ok, einval, status_to_errno, is_ok, fail}
use mm_halow_driver.Ctrl.Join.{
  Station, StaArgs, StaApi, sta_args, scan_idle, asked, is_refused, enable, enable_after,
  join_asked, wifi_join, scan_abort_ms,
}

is_ok-ok : (e : Errno) → is_ok e ≡ true → e ≡ ok
is_ok-ok ok h = refl
is_ok-ok e h = ground arith

module _ {M : Type 0} (w : StaApi M) (host : Host (Station M)) (rate : ℕ)
    (flow : Flows host scan_idle rate)
    (quiet : (d : Station M) → (host.leave d).scan_active ≡ d.scan_active)
    (quiet_wake : (d : Station M) → (host.wake d).scan_active ≡ d.scan_active) where
  open flow use {instant}

  -- An attempt from the state `d`: morselib is asked to join with `args` in the state `at`, where
  -- no sweep is on, or one was aborted and the time for it to end is over.
  pub record Tried (args : StaArgs) (d : Station M) (r : Errno × Station M) : Type 0 where
    pub at : Station M
    pub settled :
        (at.scan_active ≡ false)
        ⊎ (instant (w.scan_abort d) / rate + scan_abort_ms ≤ instant at / rate)
    pub answer : r.0 ≡ status_to_errno (w.sta_enable args at).0
    pub joined : is_ok r.0 ≡ true → r.1 ≡ (w.sta_enable args at).1
    pub failed : is_ok r.0 ≡ false → r.1.link_status ≡ fail

  enable-Tried :
      (args : StaArgs) (d at : Station M)
      → (at.scan_active ≡ false)
        ⊎ (instant (w.scan_abort d) / rate + scan_abort_ms ≤ instant at / rate)
      → Tried args d (enable w host args at)
  unfolding enable
  enable-Tried args d at h = elim (Bool-cases (is_ok (status_to_errno (w.sta_enable args at).0))) [
    | inl good ↦ rw good (record {
      at = at;
      settled = h;
      answer = sym (is_ok-ok (status_to_errno (w.sta_enable args at).0) good);
      joined = λ e. refl;
      failed = λ e. cc;
    })
    | inr bad ↦
        rw bad
          (record { at = at; settled = h; answer = refl; joined = λ e. cc; failed = λ e. refl })
  ]

  idle_rule : Rule host scan_idle (λ d. Unit {0}) (λ d. d.scan_active ≡ false)
  unfolding scan_idle
  idle_rule = record {
    ticks = λ d i. tt;
    park = λ timed at d i. tt;
    enter = λ d i. tt;
    leave = λ d i. tt;
    fails = λ d i e. tt;
    succeeds = λ d i e. ground (arith, e);
    post_leave = λ d p. rw (quiet d) p;
    post_wake = λ d p. rw (quiet_wake d) p;
  }

  join_asked-on :
      (fuel : ℕ) (args : StaArgs) (d : Station M)
      → d.scan_active ≡ true
      → join_asked w host fuel args d
        ≡ enable_after w host args (wait host scan_idle fuel scan_abort_ms (w.scan_abort d))
  unfolding join_asked
  join_asked-on fuel args d on = ground arith

  join_asked-Tried :
      (fuel : ℕ) (args : StaArgs) (d : Station M)
      → scan_abort_ms * rate < fuel
      → (r : Errno × Station M) × (join_asked w host fuel args d ≡ some r) × Tried args d r
  unfolding join_asked enable_after Outcome
  join_asked-Tried fuel args d enough = elim (Bool-cases d.scan_active) [
    | inr off ↦ (enable w host args d, ground (arith, off), enable-Tried args d d (inl off))
    | inl on ↦
        let (b, at, e, late) =
          wait_ends host scan_idle rate flow scan_abort_ms fuel (w.scan_abort d) (omega arith)
            (omega (arith, enough)) in
        let post = subst (Outcome (λ d. Unit {0}) (λ d. d.scan_active ≡ false)) e (
          wait-Outcome host scan_idle (λ d. Unit {0}) (λ d. d.scan_active ≡ false) idle_rule fuel
            scan_abort_ms (w.scan_abort d) tt) in
        (
          enable w host args at,
          join_asked-on fuel args d on ∙ ap (enable_after w host args) e,
          enable-Tried args d at (ended b at late post),
        )
  ]
    where
      ended :
          (b : Bool) (at : Station M)
          → (b ≡ false → instant (w.scan_abort d) / rate + scan_abort_ms ≤ instant at / rate)
          → Outcome (λ d. Unit {0}) (λ d. d.scan_active ≡ false) (some (b, at))
          → (at.scan_active ≡ false)
            ⊎ (instant (w.scan_abort d) / rate + scan_abort_ms ≤ instant at / rate)
      ended true at late post = inl post
      ended false at late post = inr (late refl)

  -- A call with arguments out of range is refused and changes nothing. With fuel for
  -- MM_HALOW_SCAN_ABORT_MS any other returns; it has asked morselib to join, never while a sweep
  -- that is on could still end by itself, and where that failed the link status says so.
  pub wifi_join-Tried :
      (fuel : ℕ) (ssid key : List ℕ) (auth : ℕ) (bssid : Option ℕ) (d : Station M)
      → scan_abort_ms * rate < fuel
      → (r : Errno × Station M) × (wifi_join w host fuel ssid key auth bssid d ≡ some r)
        × (is_refused w host ssid key auth ≡ true → r ≡ (einval, d))
        × (is_refused w host ssid key auth ≡ false
            → Tried (sta_args ssid key auth bssid) (asked ssid d) r)
  unfolding wifi_join
  wifi_join-Tried fuel ssid key auth bssid d enough =
      elim (Bool-cases (is_refused w host ssid key auth)) [
        | inl bad ↦ rw bad ((einval, d), refl, λ e. refl, λ e. absurd (cc))
        | inr fine ↦
            let (r, e, t) =
              join_asked-Tried fuel (sta_args ssid key auth bssid) (asked ssid d) enough in
            rw fine (r, e, λ f. absurd (cc), λ f. t)
      ]
