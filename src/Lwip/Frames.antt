-- ===== src/Lwip/Frames.antt =====
-- What mm_halow_cb_process_ethernet does with lwIP's buffers.
use mm_halow_driver.Base.{
  ℕ, ◌+◌, ◌<◌, ◌&&◌, ◌==◌, ◌%◌, ◌^◌, ◌≡◌, refl, ◌∙◌, sym, ap, Bool, true, false, Option, none, some,
  List, arith, inl, inr, Bool-cases, if◌then◌else◌, length,
}
use mm_halow_driver.Lwip.{hand_over, fill, filled, process_ethernet}

-- What lwIP documents of its buffers, where `held` counts those that the caller has to free: an
-- allocation that succeeds makes one more, a copy none, freeing one fewer, and the input function takes
-- the buffer over if it reports success only.
pub record Buffers {L : Type 0} (pbuf_alloc : ℕ → L → Option ℕ × L)
    (pbuf_take : ℕ → List ℕ → L → Bool × L) (pbuf_take_at : ℕ → List ℕ → ℕ → L → Bool × L)
    (pbuf_free : ℕ → L → L) (input : ℕ → ℕ → L → Bool × L) (held : ℕ → L → ℕ) : Type 0 where
  pub alloc_some :
      (n p i : ℕ) (l : L)
      → (pbuf_alloc n l).0 ≡ some p
      → held i (pbuf_alloc n l).1 ≡ held i l + (if p == i then 1 else 0)
  pub alloc_none :
      (n i : ℕ) (l : L) → (pbuf_alloc n l).0 ≡ none → held i (pbuf_alloc n l).1 ≡ held i l
  pub take : (p i : ℕ) (d : List ℕ) (l : L) → held i (pbuf_take p d l).1 ≡ held i l
  pub take_at : (p i : ℕ) (d : List ℕ) (n : ℕ) (l : L) → held i (pbuf_take_at p d n l).1 ≡ held i l
  pub freed :
      (p i : ℕ) (l : L)
      → 0 < held p l
      → held i (pbuf_free p l) + (if p == i then 1 else 0) ≡ held i l
  pub handed :
      (itf p i : ℕ) (l : L)
      → 0 < held p l
      → held i (input itf p l).1 + (if (input itf p l).0 && (p == i) then 1 else 0) ≡ held i l

module _ {L : Type 0} (netif_is_link_up : ℕ → L → Bool) (pbuf_alloc : ℕ → L → Option ℕ × L)
    (pbuf_take : ℕ → List ℕ → L → Bool × L) (pbuf_take_at : ℕ → List ℕ → ℕ → L → Bool × L)
    (pbuf_free : ℕ → L → L) (input : ℕ → ℕ → L → Bool × L) (held : ℕ → L → ℕ)
    (b : Buffers pbuf_alloc pbuf_take pbuf_take_at pbuf_free input held) where
  hand_over-held :
      (itf p i : ℕ) (l : L)
      → 0 < held p l
      → held i
            (hand_over netif_is_link_up pbuf_alloc pbuf_take pbuf_take_at pbuf_free input itf p l)
          + (if p == i then 1 else 0)
        ≡ held i l
  unfolding hand_over
  hand_over-held itf p i l h = elim (Bool-cases (input itf p l).0) [
    | inl e ↦ rw e (ground (arith, e, b.handed itf p i l h))
    | inr e ↦ rw e (
        ground
          (arith, e, b.handed itf p i l h, b.handed itf p p l h, b.freed p i (input itf p l).1))
  ]

  fill-held :
      (itf p i : ℕ) (header payload : List ℕ) (l : L)
      → 0 < held p l
      → held i (
            fill netif_is_link_up pbuf_alloc pbuf_take pbuf_take_at pbuf_free input itf header
              payload p l)
          + (if p == i then 1 else 0)
        ≡ held i l
  unfolding fill
  fill-held itf p i header payload l h =
      let n = length header % 2 ^ 16 in
      let l' = (pbuf_take p header l).1 in
      let l'' = (pbuf_take_at p payload n l').1 in
      ground (
        arith,
        b.take p i header l,
        b.take p p header l,
        b.take_at p i payload n l',
        b.take_at p p payload n l',
        b.freed p i l',
        b.freed p i l'',
        hand_over-held itf p i l'',
      )

  filled-held :
      (itf i n : ℕ) (header payload : List ℕ) (l : L) (r : Option ℕ × L)
      → r ≡ pbuf_alloc n l
      → held i (
          filled netif_is_link_up pbuf_alloc pbuf_take pbuf_take_at pbuf_free input itf header
            payload r)
        ≡ held i l
  unfolding filled
  filled-held itf i n header payload l (none, l') e =
      ap (λ r. held i r.1) e ∙ b.alloc_none n i l (sym (ap (λ r. r.0) e))
  filled-held itf i n header payload l (some p, l') e =
      let a = (λ (j : ℕ). ap (λ r. held j r.1) e ∙ b.alloc_some n p j l (sym (ap (λ r. r.0) e))) in
      ground (arith, a i, a p, fill-held itf p i header payload l')

  -- Where lwIP's buffers behave as documented, a received frame leaves no buffer behind: whether it is
  -- dropped, cannot be copied, is refused or is taken, the driver holds the buffers that it held before,
  -- and it has freed each buffer that lwIP did not take over once.
  pub process_ethernet-held :
      (rx_deferred : Bool) (itf i : ℕ) (header payload : List ℕ) (l : L)
      → held i (
          process_ethernet netif_is_link_up pbuf_alloc pbuf_take pbuf_take_at pbuf_free input
            rx_deferred itf header payload l)
        ≡ held i l
  unfolding process_ethernet
  process_ethernet-held true itf i header payload l = refl
  process_ethernet-held false itf i header payload l = elim (Bool-cases (netif_is_link_up itf l)) [
    | inl e ↦ rw e (
        filled-held itf i ((length header + length payload) % 2 ^ 16) header payload l
          (pbuf_alloc ((length header + length payload) % 2 ^ 16) l) refl)
    | inr e ↦ rw e refl
  ]
