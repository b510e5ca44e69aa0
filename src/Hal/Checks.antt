-- ===== src/Hal/Checks.antt =====
-- The hardware layer on concrete blobs and bounds.
use mm_halow_driver.Base.{List, [], ◌∷◌, true, false, refl}
use mm_halow_driver.Hal.Pins.Sessions.{
  Call, trains, selects, exchanges, deselects, trace, YieldsOutside, trace-YieldsOutside,
}

-- Two transactions with the training sequence in front; the second begins in a pass that is over.
abbrev two_transactions : List Call
two_transactions =
    trains
    ∷ selects false false
    ∷ exchanges 0x40 0
    ∷ deselects
    ∷ selects true false
    ∷ deselects
    ∷ []

trace-YieldsOutside_example : YieldsOutside true (trace two_transactions)
trace-YieldsOutside_example = trace-YieldsOutside true two_transactions (refl, (refl, tt))
