-- ===== src/Lwip/Netifs/Route.antt =====
-- Where mm_halow_cb_tcpip_deinit leaves the default route.
use mm_halow_driver.Base.{
  ℕ, ◌≡◌, ◌⊎◌, refl, ◌∙◌, ap, true, false, none, some, List, [], ◌∷◌, arith, inl, inr, Bool-cases,
  ◌==◌, if◌then◌else◌,
}
use mm_halow_driver.Lwip.{itf_sta}
use mm_halow_driver.Lwip.Netifs.{
  NetifApi, is_none, points_to, listed, hand_default, remove_listed, tcpip_deinit,
}

-- What lwIP documents: stopping DHCP and clearing an interface leave the default alone, removing an
-- interface takes the default from that one only, and setting it sets it and no interface up or down.
pub record Routes {L : Type 0} (api : NetifApi L) (dhcp_stop dhcp_server_deinit : L → L)
    (cleared : ℕ → L → L) : Type 0 where
  pub stop : (l : L) → api.netif_default (dhcp_stop l) ≡ api.netif_default l
  pub server : (l : L) → api.netif_default (dhcp_server_deinit l) ≡ api.netif_default l
  pub clear : (n : ℕ) (l : L) → api.netif_default (cleared n l) ≡ api.netif_default l
  pub remove :
      (n : ℕ) (l : L)
      → points_to n (api.netif_default l) ≡ false
      → api.netif_default (api.netif_remove n l) ≡ api.netif_default l
  pub set : (n : ℕ) (l : L) → api.netif_default (api.netif_set_default n l) ≡ some n

module _ {L : Type 0} (api : NetifApi L) (dhcp_stop dhcp_server_deinit : L → L)
    (cleared : ℕ → L → L) (r : Routes api dhcp_stop dhcp_server_deinit cleared) where
  -- An interface that was not the default leaves the default as it is; one that was leaves none only
  -- where no interface is up.
  pub record Routed (netif : ℕ) (l l' : L) : Type 0 where
    pub kept :
        points_to netif (api.netif_default l) ≡ false → api.netif_default l' ≡ api.netif_default l
    pub last :
        points_to netif (api.netif_default l) ≡ true
        → api.netif_default l' ≡ none
        → (n : ℕ) → listed n (api.netif_list l') ≡ true
        → api.netif_is_up n l' ≡ false

  -- With no interface of the list up the state stays; otherwise there is a default.
  hand_default-cases :
      (ns : List ℕ) (l : L)
      → (hand_default api ns l ≡ l) × ((n : ℕ) → listed n ns ≡ true → api.netif_is_up n l ≡ false)
        ⊎ ((n : ℕ) × (api.netif_default (hand_default api ns l) ≡ some n))
  unfolding hand_default
  hand_default-cases [] l = inl (refl, λ n h. ground (arith, h))
  hand_default-cases (n ∷ ns) l = elim (Bool-cases (api.netif_is_up n l)) [
    | inl e ↦ rw e (inr (n, r.set n l))
    | inr e ↦ rw e (elim (hand_default-cases ns l) [
      | inl h ↦ inl (
        h.0,
        λ m k. elim (Bool-cases (n == m)) [
          | inl q ↦ ground (arith, q, e)
          | inr q ↦ h.1 m (ground (arith, q, k))
        ],
      )
      | inr h ↦ inr h
    ])
  ]

  stopped-default :
      (itf : ℕ) (l : L)
      → api.netif_default (if itf == itf_sta then dhcp_stop l else dhcp_server_deinit l)
        ≡ api.netif_default l
  stopped-default itf l = ground (arith, r.stop l, r.server l)

  remove_listed-default :
      (netif : ℕ) (l : L)
      → points_to netif (api.netif_default l) ≡ false
      → api.netif_default (remove_listed api cleared netif l) ≡ api.netif_default l
  unfolding remove_listed
  remove_listed-default netif l h =
      ground (arith, r.remove netif l h, r.clear netif (api.netif_remove netif l))

  settled : L → L
  settled l = if is_none (api.netif_default l) then hand_default api (api.netif_list l) l else l

  settled-last :
      (l : L)
      → api.netif_default (settled l) ≡ none
      → (n : ℕ) → listed n (api.netif_list (settled l)) ≡ true
      → api.netif_is_up n (settled l) ≡ false
  unfolding settled
  settled-last l = elim (Bool-cases (is_none (api.netif_default l))) [
    | inr d ↦ rw d (λ e n h. ground (arith, d, e))
    | inl d ↦ rw d (elim (hand_default-cases (api.netif_list l) l) [
      | inl h ↦ rw h.0 (λ e. h.1)
      | inr h ↦ λ e n k. ground (arith, e, h.1)
    ])
  ]

  -- Where lwIP's calls do to the default interface what they document, mm_halow_cb_tcpip_deinit leaves
  -- the default route alone if another interface has it, and if its own has it, it leaves the system
  -- without one only where no interface that is left is up.
  pub tcpip_deinit-Routed :
      (itf netif : ℕ) (l : L)
      → Routed netif l (tcpip_deinit api dhcp_stop dhcp_server_deinit cleared itf netif l)
  unfolding tcpip_deinit settled
  tcpip_deinit-Routed itf netif l = record {
    kept = λ h. rw h (
        remove_listed-default netif (if itf == itf_sta then dhcp_stop l else dhcp_server_deinit l)
          (ap (points_to netif) (stopped-default itf l) ∙ h)
        ∙ stopped-default itf l);
    last = λ h. rw h (
        settled-last (
          remove_listed api cleared netif
            (if itf == itf_sta then dhcp_stop l else dhcp_server_deinit l)));
  }
