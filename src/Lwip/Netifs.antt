-- ===== src/Lwip/Netifs.antt =====
-- mm_halow_cb_tcpip_deinit over lwIP's list of network interfaces, which the arguments stand for.
pub mod Route
pub mod Session
use mm_halow_driver.Base.{
  ℕ, Bool, true, false, ◌&&◌, Option, none, some, List, [], ◌∷◌, ◌==◌, if◌then◌else◌,
}
use mm_halow_driver.Lwip.{itf_sta}

-- lwIP's netif_list, netif_default, netif_is_up, netif_remove, netif_set_default and netif_set_up.
pub record NetifApi (L : Type 0) : Type 0 where
  pub netif_list : L → List ℕ
  pub netif_default : L → Option ℕ
  pub netif_is_up : ℕ → L → Bool
  pub netif_remove : ℕ → L → L
  pub netif_set_default : ℕ → L → L
  pub netif_set_up : ℕ → L → L

abbrev pub is_none : Option ℕ → Bool
is_none none = true
is_none (some x) = false

abbrev pub points_to : ℕ → Option ℕ → Bool
points_to n none = false
points_to n (some x) = x == n

abbrev pub listed : ℕ → List ℕ → Bool
listed n [] = false
listed n (x ∷ xs) = if x == n then true else listed n xs

module _ {L : Type 0} (api : NetifApi L) where
  -- The NETIF_FOREACH that hands the default route to an interface that is up
  unfoldable pub hand_default : List ℕ → L → L
  hand_default [] l = l
  hand_default (n ∷ ns) l =
      if api.netif_is_up n l then api.netif_set_default n l else hand_default ns l

  -- The NETIF_FOREACH that removes the interface; `cleared` zeroes its address and its flags
  unfoldable pub remove_listed : (ℕ → L → L) → ℕ → L → L
  remove_listed cleared netif l =
      if listed netif (api.netif_list l) then cleared netif (api.netif_remove netif l) else l

  -- mm_halow_cb_tcpip_deinit of the interface `netif`
  unfoldable pub tcpip_deinit : (L → L) → (L → L) → (ℕ → L → L) → ℕ → ℕ → L → L
  tcpip_deinit dhcp_stop dhcp_server_deinit cleared itf netif l =
      let was_default = points_to netif (api.netif_default l) in
      let stopped = if itf == itf_sta then dhcp_stop l else dhcp_server_deinit l in
      let removed = remove_listed cleared netif stopped in
      if was_default && is_none (api.netif_default removed)
      then hand_default (api.netif_list removed) removed
      else removed

-- MM_HALOW_AP_ADDRESS and MM_HALOW_AP_NETMASK, and the addresses that an interface comes up on: those
-- of the access point, or zeroes until a DHCP server answers.
pub record IpConfig : Type 0 where
  pub address : ℕ
  pub netmask : ℕ
  pub gateway : ℕ

pub ip_config : ℕ → ℕ → ℕ → IpConfig
ip_config ap_address ap_netmask itf =
    if itf == itf_sta
    then record { address = 0; netmask = 0; gateway = 0 }
    else record { address = ap_address; netmask = ap_netmask; gateway = ap_address }

-- What mm_halow_cb_tcpip_init calls beside: netif_add with mm_halow_netif_init, the host name, and the
-- DHCP client, the DHCP server and the name server.
pub record InitApi (L : Type 0) : Type 0 where
  pub netif_add : ℕ → IpConfig → L → L
  pub set_hostname : ℕ → L → L
  pub dns_setserver : ℕ → L → L
  pub dhcp_set_struct : ℕ → L → L
  pub dhcp_server_init : ℕ → ℕ → L → L

module _ {L : Type 0} (api : NetifApi L) (more : InitApi L) where
  -- The end of mm_halow_cb_tcpip_init
  pub serve_addresses : ℕ → ℕ → IpConfig → L → L
  serve_addresses itf netif c l =
      let named = if c.gateway == 0 then l else more.dns_setserver c.gateway l in
      if itf == itf_sta
      then more.dhcp_set_struct netif named
      else more.dhcp_server_init c.address c.netmask l

  -- mm_halow_cb_tcpip_init of the interface `netif`, with lwIP's DHCP, DNS and host names built in
  unfoldable pub tcpip_init : IpConfig → ℕ → ℕ → L → L
  unfolding serve_addresses
  tcpip_init c itf netif l =
      let added = more.set_hostname netif (more.netif_add netif c l) in
      let routed =
        if is_none (api.netif_default added) then api.netif_set_default netif added else added in
      serve_addresses itf netif c (api.netif_set_up netif routed)

-- The fields of struct netif that mm_halow_netif_init sets; the flags are NETIF_FLAG_BROADCAST,
-- _ETHARP, _ETHERNET and _IGMP.
pub record NetifSetup : Type 0 where
  pub mtu : ℕ
  pub broadcast : Bool
  pub etharp : Bool
  pub ethernet : Bool
  pub igmp : Bool
  pub hwaddr : ℕ
  pub hwaddr_len : ℕ

-- mm_halow_netif_init, with MM_HALOW_MTU, sizeof(netif->hwaddr) and what mm_halow_wifi_get_mac tells
pub netif_init : ℕ → ℕ → ℕ → NetifSetup
netif_init mtu addr_size mac = record {
  mtu = mtu;
  broadcast = true;
  etharp = true;
  ethernet = true;
  igmp = true;
  hwaddr = mac;
  hwaddr_len = addr_size;
}
