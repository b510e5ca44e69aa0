-- ===== src/Ctrl/Bringup/Lifecycle/Upward.antt =====
-- What mm_halow_wifi_set_up leaves when it brings an interface up.
use mm_halow_driver.Base.{
  ℕ, ◌≡◌, ◌⊎◌, inl, inr, refl, true, false, Option, arith, ◌∙◌, Bool-cases, Option-cases,
}
use mm_halow_driver.Ctrl.{Errno, is_ok, Itf, sta, ap}
use mm_halow_driver.Ctrl.Channels.{ap_channel}
use mm_halow_driver.Ctrl.Bringup.{
  Below, Driver, itf_up, driver_init, set_country, boot_once, ap_start, ap_start_on, ap_enable,
  enable_itf, and_then, attach, up_booted, up_listed, up_initted, set_up,
}
use mm_halow_driver.Ctrl.Bringup.Lifecycle.{IsDriver, Ready, driver_init-Ready}

module _ {M : Type 0} (w : Below M) where
  -- What bringing an interface up leaves when it reports success.
  abbrev pub Brought : Itf → Errno × Driver M → Type 0
  Brought itf r =
      (is_ok r.0 ≡ false) ⊎ ((itf_up itf r.1 ≡ true) × (r.1.initted ≡ true) × (r.1.booted ≡ true))

  attach-Brought :
      (itf : Itf) (d : Driver M) → d.initted ≡ true → d.booted ≡ true → Brought itf (attach w itf d)
  attach-Brought sta d i b = ground arith
  attach-Brought ap d i b = ground arith

  boot_once-booted :
      (d : Driver M) → (is_ok (boot_once w d).0 ≡ false) ⊎ ((boot_once w d).1.booted ≡ true)
  unfolding boot_once
  boot_once-booted d = elim (Bool-cases d.booted) [ inl b ↦ rw b (inr refl) | inr b ↦ ground arith ]

  and_then-Brought :
      (itf : Itf) (r : Errno × Driver M) (f : Driver M → Errno × Driver M)
      → ((is_ok r.0 ≡ true) → Brought itf (f r.1))
      → Brought itf (and_then w r f)
  and_then-Brought itf (e, d) f k = elim (Bool-cases (is_ok e)) [
    | inl good ↦ rw good (k good)
    | inr bad ↦ rw bad (inl bad)
  ]

  kept_by_enable :
      (itf : Itf) (d : Driver M)
      → ((enable_itf w itf d).1.initted ≡ d.initted) × ((enable_itf w itf d).1.booted ≡ d.booted)
  unfolding ap_enable ap_start ap_start_on
  kept_by_enable sta d = (refl, refl)
  kept_by_enable ap d = elim (Option-cases (ap_channel d.channels d.access.chan_num)) [
    | inl n ↦ rw (n, ap_enable) (ground arith)
    | inr (c, n) ↦ rw (n, ap_enable) (ground arith)
  ]

  up_booted-Brought :
      (itf : Itf) (d : Driver M)
      → d.initted ≡ true
      → d.booted ≡ true
      → Brought itf (up_booted w itf d)
  unfolding up_booted
  up_booted-Brought itf d i b = and_then-Brought itf (enable_itf w itf d) (attach w itf) λ good.
      attach-Brought itf (enable_itf w itf d).1 ((kept_by_enable itf d).0 ∙ i)
        ((kept_by_enable itf d).1 ∙ b)

  boot_once-initted : (d : Driver M) → (boot_once w d).1.initted ≡ d.initted
  unfolding boot_once
  boot_once-initted d = ground arith

  up_listed-Brought :
      (itf : Itf) (d : Driver M) → d.initted ≡ true → Brought itf (up_listed w itf d)
  unfolding up_listed
  up_listed-Brought itf d i = and_then-Brought itf (boot_once w d) (up_booted w itf) λ good.
      up_booted-Brought itf (boot_once w d).1 (boot_once-initted d ∙ i)
        (ground (arith, boot_once-booted d))

  set_country-initted :
      (country : ℕ) (d : Driver M) → (set_country w country d).1.initted ≡ d.initted
  unfolding set_country
  set_country-initted country d = elim (Option-cases (w.lookup_domain country)) [
    | inl n ↦ rw (n, set_country) refl
    | inr (c, n) ↦ rw (n, set_country) refl
  ]

  up_initted-Brought :
      (itf : Itf) (country : ℕ) (d : Driver M)
      → d.initted ≡ true
      → Brought itf (up_initted w itf country d)
  unfolding up_initted
  up_initted-Brought itf country d i =
      and_then-Brought itf (set_country w country d) (up_listed w itf) λ good.
        up_listed-Brought itf (set_country w country d).1 (set_country-initted country d ∙ i)

  -- Bringing up an interface that is down ends with an error, or with the driver initialised, the
  -- transceiver booted and the interface up.
  pub set_up-Brought :
      (alloc : Option ℕ) (itf : Itf) (country : ℕ) (d : Driver M)
      → IsDriver d
      → itf_up itf d ≡ false
      → Brought itf (set_up w alloc itf country d)
  unfolding set_up Ready
  set_up-Brought alloc itf country d v e =
      rw (e, set_up)
        (and_then-Brought itf (driver_init w alloc d) (up_initted w itf country) λ good.
          up_initted-Brought itf country (driver_init w alloc d).1
            (ground (arith, (driver_init-Ready w alloc d v).1)))
