-- ===== src/Hal/Interrupts.antt =====
-- No interrupt of the transceiver is lost between two polls of mm_halow_hal.c.
use mm_halow_driver.Base.{◌≡◌, refl, true, List, [], ◌∷◌, arith, if◌then◌else◌}
use mm_halow_driver.Hal.{
  Irqs, Lines, Handler, spi, busy, spi_ready, busy_ready, irq_pending, poll_irqs,
}

-- An IRQ line that is asserted, with its interrupt enabled and a handler there, is pending, still so
-- at the next look, and a poll calls its handler first.
pub irq_pending_lem :
    (l after : Lines) (s : Irqs)
    → spi_ready s l ≡ true
    → ((irq_pending l s).0 ≡ true)
      × ((irq_pending l (irq_pending l s).1).0 ≡ true)
      × ((rest : List Handler) × (poll_irqs l after s ≡ spi ∷ rest))
unfolding irq_pending poll_irqs
irq_pending_lem l after s e =
    (ground arith, ground arith, (if busy_ready s after then busy ∷ [] else [], rw e refl))
