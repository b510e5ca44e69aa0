-- ===== src/Hal/Pins/Sessions.antt =====
-- A task of morselib gives its turn away between bus transactions only.
use mm_halow_driver.Base.{ℕ, ◌≡◌, Bool, true, false, List, [], ◌∷◌, ◌++◌, ◌==◌}
use mm_halow_driver.Hal.Pins.{
  cs, Action, write, output, input, transfer, spi_init, spi_deinit, irq_config, sleep, yield,
  cs_assert, cs_deassert, spi_rw, spi_read, spi_write, send_training_seq,
}

-- A call of the bus functions by morselib; `selects` is mmhal_wlan_spi_cs_assert in a pass that is
-- over its budget or not, and in a critical section or not.
pub data Call : Type 0 where
  selects : Bool → Bool → Call
  deselects trains : Call
  exchanges : ℕ → ℕ → Call
  reads : List (ℕ × ℕ) → Call
  writes : ℕ → List ℕ → Call

pub actions_of : Call → List Action
actions_of (selects over_budget in_critical) = cs_assert over_budget in_critical
actions_of deselects = cs_deassert
actions_of trains = send_training_seq
actions_of (exchanges byte rx) = spi_rw byte rx
actions_of (reads ts) = spi_read ts
actions_of (writes len buf) = spi_write len buf

pub trace : List Call → List Action
trace [] = []
trace (c ∷ calls) = actions_of c ++ trace calls

-- Whether the chip is selected after an action.
abbrev pub selected_after : Bool → Action → Bool
selected_after sel (write cs v) = v == 0
selected_after sel a = sel

-- The turn is given away only while the chip is not selected.
abbrev pub YieldsOutside : Bool → List Action → Type 0
YieldsOutside sel [] = Unit
YieldsOutside sel (yield ∷ rest) = (sel ≡ false) × YieldsOutside sel rest
YieldsOutside sel (write p v ∷ rest) = YieldsOutside (selected_after sel (write p v)) rest
YieldsOutside sel (output p ∷ rest) = YieldsOutside sel rest
YieldsOutside sel (input p ∷ rest) = YieldsOutside sel rest
YieldsOutside sel (transfer n s d ∷ rest) = YieldsOutside sel rest
YieldsOutside sel (spi_init ∷ rest) = YieldsOutside sel rest
YieldsOutside sel (spi_deinit ∷ rest) = YieldsOutside sel rest
YieldsOutside sel (irq_config b ∷ rest) = YieldsOutside sel rest
YieldsOutside sel (sleep n ∷ rest) = YieldsOutside sel rest

-- A caller that ends a transaction before it begins the next one.
abbrev pub Bracketed : Bool → List Call → Type 0
Bracketed sel [] = Unit
Bracketed sel (selects o c ∷ calls) = (sel ≡ false) × Bracketed true calls
Bracketed sel (deselects ∷ calls) = Bracketed false calls
Bracketed sel (trains ∷ calls) = Bracketed false calls
Bracketed sel (exchanges b rx ∷ calls) = Bracketed sel calls
Bracketed sel (reads ts ∷ calls) = Bracketed sel calls
Bracketed sel (writes n b ∷ calls) = Bracketed sel calls

reads-YieldsOutside :
    (sel : Bool) (ts : List (ℕ × ℕ)) (rest : List Action)
    → YieldsOutside sel rest
    → YieldsOutside sel (spi_read ts ++ rest)
unfolding spi_read
reads-YieldsOutside sel [] rest h = h
reads-YieldsOutside sel (t ∷ ts) rest h = reads-YieldsOutside sel ts rest h

-- Over any sequence of bus calls in which a transaction ends before the next begins, a task that has
-- overrun its turn gives it away only while the chip is not selected.
pub trace-YieldsOutside :
    (sel : Bool) (calls : List Call) → Bracketed sel calls → YieldsOutside sel (trace calls)
unfolding trace actions_of cs_assert cs_deassert send_training_seq spi_rw spi_write
trace-YieldsOutside sel [] h = tt
trace-YieldsOutside sel (selects true true ∷ calls) h = trace-YieldsOutside true calls h.1
trace-YieldsOutside sel (selects true false ∷ calls) h = (h.0, trace-YieldsOutside true calls h.1)
trace-YieldsOutside sel (selects false c ∷ calls) h = trace-YieldsOutside true calls h.1
trace-YieldsOutside sel (deselects ∷ calls) h = trace-YieldsOutside false calls h
trace-YieldsOutside sel (trains ∷ calls) h = trace-YieldsOutside false calls h
trace-YieldsOutside sel (exchanges byte rx ∷ calls) h = trace-YieldsOutside sel calls h
trace-YieldsOutside sel (reads ts ∷ calls) h =
    reads-YieldsOutside sel ts (trace calls) (trace-YieldsOutside sel calls h)
trace-YieldsOutside sel (writes len buf ∷ calls) h = trace-YieldsOutside sel calls h
