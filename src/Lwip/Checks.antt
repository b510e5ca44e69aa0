-- ===== src/Lwip/Checks.antt =====
-- The lwIP interface over a small stand-in for lwIP.
use mm_halow_driver.Base.{
  ℕ, ◌+◌, ◌<◌, ◌≡◌, refl, Bool, true, false, Option, none, some, List, [], ◌∷◌, arith, ◌==◌, ◌&&◌,
  if◌then◌else◌, count,
}
use mm_halow_driver.Lwip.{process_ethernet}
use mm_halow_driver.Lwip.Frames.{Buffers, process_ethernet-held}
use mm_halow_driver.Lwip.Netifs.{
  NetifApi, tcpip_deinit, remove_listed, hand_default, InitApi, IpConfig, tcpip_init,
}
use mm_halow_driver.Lwip.Netifs.Session.{Leaves, Session, tcpip_deinit-tcpip_init}
use mm_halow_driver.Lwip.Netifs.Route.{Routes}

-- The state is the list of the buffers that are held; the input function takes those of interface 0.
abbrev remove_pbuf : ℕ → List ℕ → List ℕ
remove_pbuf p [] = []
remove_pbuf p (x ∷ xs) = if x == p then xs else x ∷ remove_pbuf p xs

abbrev link_up : ℕ → List ℕ → Bool
link_up itf l = true

abbrev alloc : ℕ → List ℕ → Option ℕ × List ℕ
alloc n l = (some 7, 7 ∷ l)

abbrev take : ℕ → List ℕ → List ℕ → Bool × List ℕ
take p d l = (true, l)

abbrev take_at : ℕ → List ℕ → ℕ → List ℕ → Bool × List ℕ
take_at p d n l = (true, l)

abbrev accept : ℕ → ℕ → List ℕ → Bool × List ℕ
accept itf p l = if itf == 0 then (true, remove_pbuf p l) else (false, l)

remove_pbuf-count :
    (p i : ℕ) (l : List ℕ)
    → 0 < count p l
    → count i (remove_pbuf p l) + (if p == i then 1 else 0) ≡ count i l
remove_pbuf-count p i [] h = ground (arith, h)
remove_pbuf-count p i (x ∷ xs) h = ground (arith, h, remove_pbuf-count p i xs)

accept-count :
    (itf p i : ℕ) (l : List ℕ)
    → 0 < count p l
    → count i (accept itf p l).1 + (if (accept itf p l).0 && (p == i) then 1 else 0) ≡ count i l
accept-count itf p i l h = ground (arith, remove_pbuf-count p i l h)

stand_in-Buffers : Buffers alloc take take_at remove_pbuf accept count
stand_in-Buffers = record {
  alloc_some = λ n p i l e. ground (arith, e);
  alloc_none = λ n i l e. ground (arith, e);
  take = λ p i d l. refl;
  take_at = λ p i d n l. refl;
  freed = remove_pbuf-count;
  handed = accept-count;
}

process_ethernet-held_example :
    count 7 (
      process_ethernet link_up alloc take take_at remove_pbuf accept false 1
        (1 ∷ 2 ∷ [])
        (3 ∷ [])
        [])
    ≡ 0
process_ethernet-held_example =
    process_ethernet-held link_up alloc take take_at remove_pbuf accept count stand_in-Buffers false
      1 7 (1 ∷ 2 ∷ []) (3 ∷ []) []

-- A frame that is dropped because the driver runs inside lwIP does not allocate.
dropped :
    process_ethernet link_up alloc take take_at remove_pbuf accept true 0 (1 ∷ []) [] (9 ∷ [])
    ≡ 9 ∷ []
unfolding process_ethernet
dropped = refl

-- The interfaces in their list's order, and the default; all are up.
record Net : Type 0 where
  listing : List ℕ
  default : Option ℕ

abbrev remove_netif : ℕ → Net → Net
remove_netif n l = record {
  listing = remove_pbuf n l.listing;
  default = elim l.default [ none ↦ none | some d ↦ if d == n then none else some d ];
}

abbrev net : NetifApi Net
net = record {
  netif_list = λ l. l.listing;
  netif_default = λ l. l.default;
  netif_is_up = λ n l. true;
  netif_remove = remove_netif;
  netif_set_default = λ n l. record l { default = some n };
  netif_set_up = λ n l. l;
}

net-Routes : Routes net (λ l. l) (λ l. l) (λ n l. l)
net-Routes = record {
  stop = λ l. refl;
  server = λ l. refl;
  clear = λ n l. refl;
  remove = λ n l h. ground (arith, h);
  set = λ n l. refl;
}

abbrev two_up : Net
two_up = record { listing = 4 ∷ 5 ∷ []; default = some 4 }

-- The second interface gets the default when the first one, which has it, goes.
handed_on : (tcpip_deinit net (λ l. l) (λ l. l) (λ n l. l) 0 4 two_up).default ≡ some 5
unfolding tcpip_deinit remove_listed hand_default
handed_on = refl

abbrev calls : InitApi Net
calls = record {
  netif_add = λ n c l. record l { listing = n ∷ l.listing };
  set_hostname = λ n l. l;
  dns_setserver = λ a l. l;
  dhcp_set_struct = λ n l. l;
  dhcp_server_init = λ a m l. l;
}

calls-Leaves : Leaves net calls
calls-Leaves = record {
  add = λ n c l. refl;
  hostname = λ n l. refl;
  dns = λ a l. refl;
  dhcp = λ n l. refl;
  server = λ a m l. refl;
  up = λ n l. refl;
}

abbrev zeroes : IpConfig
zeroes = record { address = 0; netmask = 0; gateway = 0 }

tcpip_deinit-tcpip_init_example :
    Session net calls calls-Leaves
      (λ l. l)
      (λ l. l)
      (λ n l. l)
      net-Routes
      7
      two_up
      (tcpip_init net calls zeroes 0 7 two_up)
      (tcpip_deinit net (λ l. l) (λ l. l) (λ n l. l) 0 7 (tcpip_init net calls zeroes 0 7 two_up))
tcpip_deinit-tcpip_init_example =
    tcpip_deinit-tcpip_init net calls calls-Leaves (λ l. l) (λ l. l) (λ n l. l) net-Routes zeroes 0
      7 two_up
