-- ===== src/Lwip.antt =====
-- The lwIP interface, src/mm_halow_lwip.c: received frames and link changes. lwIP's buffers and
-- network interfaces are a state `L` with its functions as arguments; `true` stands for ERR_OK.
pub mod Frames
pub mod Netifs
pub mod Output
mod Checks
use mm_halow_driver.Base.{
  ℕ, ◌+◌, ◌%◌, ◌^◌, Bool, not, Option, none, some, List, length, ◌==◌, if◌then◌else◌,
}

-- MM_HALOW_ITF_STA
abbrev pub itf_sta : ℕ
itf_sta = 0

module _ {L : Type 0} (netif_is_link_up : ℕ → L → Bool) where
  -- mm_halow_cb_tcpip_set_link_up
  pub tcpip_set_link_up : (L → L) → (L → L) → ℕ → L → L
  tcpip_set_link_up netif_set_link_up dhcp_start itf l =
      if netif_is_link_up itf l
      then l
      else if itf == itf_sta
      then dhcp_start (netif_set_link_up l)
      else netif_set_link_up l

  -- mm_halow_cb_tcpip_set_link_down
  pub tcpip_set_link_down : (L → L) → ℕ → L → L
  tcpip_set_link_down netif_set_link_down itf l =
      if not (netif_is_link_up itf l) then l else netif_set_link_down l

  module _ (pbuf_alloc : ℕ → L → Option ℕ × L) (pbuf_take : ℕ → List ℕ → L → Bool × L)
      (pbuf_take_at : ℕ → List ℕ → ℕ → L → Bool × L) (pbuf_free : ℕ → L → L)
      (input : ℕ → ℕ → L → Bool × L) where
    -- The last statement of mm_halow_cb_process_ethernet
    pub hand_over : ℕ → ℕ → L → L
    hand_over itf p l = let r = input itf p l in if r.0 then r.1 else pbuf_free p r.1

    -- Its copies of the header and, behind it, of the payload
    pub fill : ℕ → List ℕ → List ℕ → ℕ → L → L
    fill itf header payload p l =
        let h = pbuf_take p header l in
        let b = pbuf_take_at p payload (length header % 2 ^ 16) h.1 in
        if h.0 then if b.0 then hand_over itf p b.1 else pbuf_free p b.1 else pbuf_free p h.1

    pub filled : ℕ → List ℕ → List ℕ → Option ℕ × L → L
    filled itf header payload (none, l) = l
    filled itf header payload (some p, l) = fill itf header payload p l

    -- mm_halow_cb_process_ethernet, at self->rx_deferred. The length of a pbuf is a u16_t.
    pub process_ethernet : Bool → ℕ → List ℕ → List ℕ → L → L
    process_ethernet rx_deferred itf header payload l =
        if rx_deferred
        then l
        else if not (netif_is_link_up itf l)
        then l
        else filled itf header payload (pbuf_alloc ((length header + length payload) % 2 ^ 16) l)

    -- mm_halow_rx_cb of mm_halow_ctrl.c: a frame of the station's interface
    pub rx_cb : Bool → List ℕ → List ℕ → L → L
    rx_cb rx_deferred header payload l = process_ethernet rx_deferred itf_sta header payload l
