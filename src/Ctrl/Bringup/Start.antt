-- ===== src/Ctrl/Bringup/Start.antt =====
-- What mm_halow_ap_enable asks of morselib.
use mm_halow_driver.Base.{
  ℕ, ◌<◌, ◌≡◌, refl, true, false, Option, none, some, List, arith, inl, inr, ◌==◌, ◌&&◌, length,
  Bool-cases, subst,
}
use mm_halow_driver.Ctrl.{Errno, status_to_errno, is_ok}
use mm_halow_driver.Ctrl.Channels.{Channel, ap_channel, op_class}
use mm_halow_driver.Ctrl.Channels.Choice.{Chosen, ap_channel-Chosen}
use mm_halow_driver.Ctrl.Access.{ApArgs, ap_args, sec_sae}
use mm_halow_driver.Ctrl.Bringup.{Below, Driver, ap_start, ap_start_on, ap_enable}

module _ {M : Type 0} (w : Below M) where
  -- A start of the access point with the arguments `a`: power save is off, there is an SSID and, for
  -- SAE, a passphrase, and what is returned and left is morselib's answer.
  pub record Started (d : Driver M) (a : ApArgs) (r : Errno × Driver M) : Type 0 where
    pub listening : d.config.always_on ≡ true
    pub named : 0 < length a.ssid
    pub configured : a.ssid ≡ d.access.ssid
    pub security : a.security_type ≡ d.access.auth
    pub secret :
        a.security_type ≡ sec_sae → (0 < length a.passphrase) × (a.passphrase ≡ d.access.key)
    pub answer : r.0 ≡ status_to_errno (w.mmwlan_ap_enable a d.below).0
    pub left : r.1.below ≡ (w.mmwlan_ap_enable a d.below).1

  -- Where the access point is: on the station's channel, or on the one that is chosen.
  pub record Placed (d : Driver M) (a : ApArgs) : Type 0 where
    pub shared : d.sta_up ≡ true → (a.op_class ≡ 0) × (a.s1g_chan_num ≡ 0)
    pub alone :
        d.sta_up ≡ false
        → (cs : List Channel) × (c : Channel) × (d.channels ≡ some cs)
          × Chosen d.access.chan_num cs (some c)
          × (a.op_class ≡ op_class c)
          × (a.s1g_chan_num ≡ c.s1g_chan_num)

  ap_start-Started :
      (class chan : ℕ) (d : Driver M)
      → d.config.always_on ≡ true
      → 0 < length d.access.ssid
      → is_ok (ap_start w class chan d).0 ≡ true
      → Started d (ap_args d.access class chan) (ap_start w class chan d)
  unfolding ap_start ap_args
  ap_start-Started class chan d l n e =
      elim (Bool-cases ((d.access.auth == sec_sae) && (length d.access.key == 0))) [
        | inl bad ↦ absurd (ground (arith, e, bad))
        | inr good ↦ rw good (record {
          listening = l;
          named = n;
          configured = refl;
          security = refl;
          secret = λ sae. ground (arith, good, sae);
          answer = refl;
          left = refl;
        })
      ]

  ap_enable-up :
      (d : Driver M)
      → d.config.always_on ≡ true
      → 0 < length d.access.ssid
      → d.sta_up ≡ true
      → ap_enable w d ≡ ap_start w 0 0 d
  unfolding ap_enable
  ap_enable-up d l n u = ground arith

  ap_enable-alone :
      (d : Driver M)
      → d.config.always_on ≡ true
      → 0 < length d.access.ssid
      → d.sta_up ≡ false
      → ap_enable w d ≡ ap_start_on w (ap_channel d.channels d.access.chan_num) d
  unfolding ap_enable
  ap_enable-alone d l n u = ground arith

  ap_enable-guards :
      (d : Driver M)
      → is_ok (ap_enable w d).0 ≡ true
      → (d.config.always_on ≡ true) × (0 < length d.access.ssid)
  unfolding ap_enable
  ap_enable-guards d e = (ground arith, ground arith)

  listed_channel :
      (channels : Option (List Channel)) (num : ℕ) (c : Channel)
      → ap_channel channels num ≡ some c
      → (cs : List Channel) × (channels ≡ some cs) × Chosen num cs (some c)
  unfolding ap_channel
  listed_channel none num c h = cc
  listed_channel (some cs) num c h = (cs, refl, subst (Chosen num cs) h (ap_channel-Chosen num cs))

  -- The start of an access point that stands alone, on the channel `o`.
  ap_start_on-Started :
      (o : Option Channel) (d : Driver M)
      → ap_channel d.channels d.access.chan_num ≡ o
      → d.sta_up ≡ false
      → d.config.always_on ≡ true
      → 0 < length d.access.ssid
      → is_ok (ap_start_on w o d).0 ≡ true
      → (a : ApArgs) × Started d a (ap_start_on w o d) × Placed d a
  unfolding ap_start_on ap_args
  ap_start_on-Started none d q u l n e = cc
  ap_start_on-Started (some c) d q u l n e =
      let (cs, listed, chosen) = listed_channel d.channels d.access.chan_num c q in
      (
        ap_args d.access (op_class c) c.s1g_chan_num,
        ap_start-Started (op_class c) c.s1g_chan_num d l n e,
        record { shared = λ up. absurd (cc); alone = λ _. (cs, c, listed, chosen, refl, refl) },
      )

  -- If mm_halow_ap_enable succeeds, it has started an access point with the configured network, on the
  -- station's channel if the station is up and else on the channel that is configured, or the first
  -- of the widest.
  pub ap_enable-Started :
      (d : Driver M)
      → is_ok (ap_enable w d).0 ≡ true
      → (a : ApArgs) × Started d a (ap_enable w d) × Placed d a
  unfolding ap_args
  ap_enable-Started d e =
      let (l, n) = ap_enable-guards d e in
      elim (Bool-cases d.sta_up) [
        | inl up ↦
            let q = ap_enable-up d l n up in
            (
              ap_args d.access 0 0,
              rw q (ap_start-Started 0 0 d l n (rw q at e)),
              record { shared = λ _. (refl, refl); alone = λ down. absurd (cc) },
            )
        | inr down ↦
            let q = ap_enable-alone d l n down in
            rw q (
              ap_start_on-Started (ap_channel d.channels d.access.chan_num) d refl down l n
                (rw q at e))
      ]
