-- ===== src/Lwip/Netifs/Session.antt =====
-- The default route over an interface's session: mm_halow_cb_tcpip_init, then mm_halow_cb_tcpip_deinit.
use mm_halow_driver.Base.{
  ℕ, ◌≡◌, ◌∙◌, ap, true, false, Option, none, some, arith, ◌==◌, if◌then◌else◌, Option-cases, inl,
  inr,
}
use mm_halow_driver.Lwip.Netifs.{
  NetifApi, InitApi, IpConfig, is_none, points_to, listed, serve_addresses, tcpip_init,
  tcpip_deinit,
}
use mm_halow_driver.Lwip.Netifs.Route.{Routes, tcpip_deinit-Routed}

-- What lwIP documents of the other calls of mm_halow_cb_tcpip_init: none of them sets the default.
pub record Leaves {L : Type 0} (api : NetifApi L) (more : InitApi L) : Type 0 where
  pub add :
      (n : ℕ) (c : IpConfig) (l : L)
      → api.netif_default (more.netif_add n c l) ≡ api.netif_default l
  pub hostname : (n : ℕ) (l : L) → api.netif_default (more.set_hostname n l) ≡ api.netif_default l
  pub dns : (a : ℕ) (l : L) → api.netif_default (more.dns_setserver a l) ≡ api.netif_default l
  pub dhcp : (n : ℕ) (l : L) → api.netif_default (more.dhcp_set_struct n l) ≡ api.netif_default l
  pub server :
      (a m : ℕ) (l : L) → api.netif_default (more.dhcp_server_init a m l) ≡ api.netif_default l
  pub up : (n : ℕ) (l : L) → api.netif_default (api.netif_set_up n l) ≡ api.netif_default l

module _ {L : Type 0} (api : NetifApi L) (more : InitApi L) (leaves : Leaves api more)
    (dhcp_stop dhcp_server_deinit : L → L) (cleared : ℕ → L → L)
    (r : Routes api dhcp_stop dhcp_server_deinit cleared) where
  serve_addresses-default :
      (itf netif : ℕ) (c : IpConfig) (l : L)
      → api.netif_default (serve_addresses api more itf netif c l) ≡ api.netif_default l
  unfolding serve_addresses
  serve_addresses-default itf netif c l = ground (
    arith,
    leaves.dns c.gateway l,
    leaves.dhcp netif l,
    leaves.dhcp netif (more.dns_setserver c.gateway l),
    leaves.server c.address c.netmask l,
  )

  claimed_default : ℕ → Option ℕ → Option ℕ
  claimed_default netif none = some netif
  claimed_default netif (some n) = some n

  routed-default :
      (netif : ℕ) (l : L)
      → api.netif_default
          (if is_none (api.netif_default l) then api.netif_set_default netif l else l)
        ≡ claimed_default netif (api.netif_default l)
  unfolding claimed_default
  routed-default netif l = elim (Option-cases (api.netif_default l)) [
    | inl e ↦ rw e (r.set netif l)
    | inr (n, e) ↦ rw e e
  ]

  tcpip_init-default :
      (c : IpConfig) (itf netif : ℕ) (l : L)
      → api.netif_default (tcpip_init api more c itf netif l)
        ≡ claimed_default netif (api.netif_default l)
  unfolding tcpip_init
  tcpip_init-default c itf netif l =
      let added = more.netif_add netif c l in
      serve_addresses-default itf netif c _
      ∙ leaves.up netif _
      ∙ routed-default netif (more.set_hostname netif added)
      ∙ ap (claimed_default netif) (leaves.hostname netif added ∙ leaves.add netif c l)

  -- An interface's session, from the state `l`: where another interface has the default route it has it
  -- during the session and after it; where none has it, this one takes it, and after the session there
  -- is none only where no interface that is left is up.
  pub record Session (netif : ℕ) (l during after : L) : Type 0 where
    pub other :
        (n : ℕ)
        → api.netif_default l ≡ some n
        → n == netif ≡ false
        → (api.netif_default during ≡ some n) × (api.netif_default after ≡ some n)
    pub own : api.netif_default l ≡ none → api.netif_default during ≡ some netif
    pub passed_on :
        api.netif_default l ≡ none
        → api.netif_default after ≡ none
        → (n : ℕ) → listed n (api.netif_list after) ≡ true
        → api.netif_is_up n after ≡ false

  -- Where lwIP's calls do to the default interface what they document: bringing an interface up with
  -- mm_halow_cb_tcpip_init and taking it down with mm_halow_cb_tcpip_deinit leaves the default route with
  -- another interface that had it, all along. Where none had it the interface has it in between, and
  -- afterwards no interface has it only if none of those that are left is up.
  pub tcpip_deinit-tcpip_init :
      (c : IpConfig) (itf netif : ℕ) (l : L)
      → let during = tcpip_init api more c itf netif l in
        Session netif l during
          (tcpip_deinit api dhcp_stop dhcp_server_deinit cleared itf netif during)
  unfolding claimed_default
  tcpip_deinit-tcpip_init c itf netif l =
      let during = tcpip_init api more c itf netif l in
      let e = tcpip_init-default c itf netif l in
      let down = tcpip_deinit-Routed api dhcp_stop dhcp_server_deinit cleared r itf netif during in
      record {
        other = λ n d ne.
            let had : api.netif_default during ≡ some n = e ∙ ap (claimed_default netif) d in
            (had, down.kept (ap (points_to netif) had ∙ ne) ∙ had);
        own = λ d. e ∙ ap (claimed_default netif) d;
        passed_on = λ d.
            let had : api.netif_default during ≡ some netif = e ∙ ap (claimed_default netif) d in
            down.last (ap (points_to netif) had ∙ self netif);
      }
    where
      self : (n : ℕ) → (n == n) ≡ true
      self n = ground arith
