-- ===== src/Hal/Pins.antt =====
-- The pins and the bus of mm_halow_hal.c, as the list of what is done to them, in order.
pub mod Sessions
use mm_halow_driver.Base.{
  ℕ, ◌+◌, ◌≡◌, refl, Bool, true, false, ◌&&◌, not, Option, none, some, List, [], ◌∷◌, ◌++◌, map,
  if◌then◌else◌, ◌==◌, arith,
}
use mm_halow_driver.Hal.{Robuf, read_blob, read_buf}

-- MM_HALOW_RESET, _WAKE, _CS, _BUSY and _IRQ
pub data Pin : Type 0 where
  reset wake cs busy irq : Pin

-- What a transfer clocks out: the buffer of ones, or the bytes given.
pub data Source : Type 0 where
  ones : Source
  bytes : List ℕ → Source

-- A call of the port: a pin written or set to a direction, a transfer of a length from a source, with
-- the address that it reads into, the bus and the pin interrupt turned on or off, and a sleep in ms.
pub data Action : Type 0 where
  write : Pin → ℕ → Action
  output : Pin → Action
  input : Pin → Action
  transfer : ℕ → Source → Option ℕ → Action
  spi_init spi_deinit : Action
  irq_config : Bool → Action
  sleep : ℕ → Action
  yield : Action

-- MM_HALOW_TRAINING_BYTES
abbrev pub training_bytes : ℕ
training_bytes = 16

-- mmhal_wlan_spi_cs_assert, of a pass that is over its budget or not, and in a critical section or not
pub cs_assert : Bool → Bool → List Action
cs_assert over_budget in_critical =
    (if over_budget && not in_critical then yield ∷ [] else []) ++ write cs 0 ∷ []

-- mmhal_wlan_spi_cs_deassert
pub cs_deassert : List Action
cs_deassert = write cs 1 ∷ []

-- mmhal_wlan_spi_rw, where the byte is read into `rx`
pub spi_rw : ℕ → ℕ → List Action
spi_rw byte rx = transfer 1 (bytes (byte ∷ [])) (some rx) ∷ []

-- mmhal_wlan_spi_read_buf, from the transfers that it makes
pub spi_read : List (ℕ × ℕ) → List Action
spi_read = map (λ t. transfer t.1 ones (some t.0))

-- mmhal_wlan_spi_write_buf
pub spi_write : ℕ → List ℕ → List Action
spi_write len buf = transfer len (bytes buf) none ∷ []

-- mmhal_wlan_send_training_seq
pub send_training_seq : List Action
unfolding cs_deassert
send_training_seq = cs_deassert ++ transfer training_bytes ones none ∷ []

-- mmhal_wlan_assert_reset
pub assert_reset : Bool → List Action
assert_reset on = write reset (if on then 0 else 1) ∷ []

-- mmhal_wlan_hard_reset
pub hard_reset : List Action
unfolding assert_reset
hard_reset = assert_reset true ++ sleep 5 ∷ (assert_reset false ++ sleep 20 ∷ [])

-- mmhal_wlan_wake_assert and mmhal_wlan_wake_deassert
pub set_wake : Bool → List Action
set_wake on = write wake (if on then 1 else 0) ∷ []

-- mmhal_wlan_init, with MM_HALOW_ENABLE_PIN_IRQ or not
pub wlan_init : Bool → List Action
unfolding assert_reset
wlan_init pin_irq =
    output reset
    ∷ write reset 0
    ∷ output wake
    ∷ write wake 0
    ∷ output cs
    ∷ write cs 1
    ∷ input busy
    ∷ input irq
    ∷ ((if pin_irq then irq_config true ∷ [] else [])
        ++ spi_init ∷ output cs ∷ write cs 1 ∷ assert_reset false)

-- mmhal_wlan_deinit, for the pins and the bus
pub wlan_deinit : Bool → List Action
unfolding assert_reset
wlan_deinit pin_irq =
    (if pin_irq then irq_config false ∷ [] else [])
    ++ (assert_reset true ++ write wake 0 ∷ spi_deinit ∷ [])

-- mmhal_wlan_read_bcf_file: the board's blob, or none where it supplies none
pub read_bcf_file : Option (ℕ × ℕ) → ℕ → ℕ → Robuf
read_bcf_file none offset len = record { buf = none; len = 0 }
read_bcf_file (some (start, end)) offset len = read_blob start end offset len
