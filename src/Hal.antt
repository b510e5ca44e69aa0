-- ===== src/Hal.antt =====
-- The hardware layer, src/mm_halow_hal.c: blobs, bus chunks, interrupts, pins and random numbers. The
-- port's pins, bus and random source are arguments.
pub mod Ranges
pub mod Interrupts
pub mod Pins
mod Checks
use mm_halow_driver.Base.{
  ℕ, zero, suc, ◌+◌, ◌-◌, ◌%◌, Bool, true, false, ◌&&◌, ◌||◌, not, Option, none, some, List, [],
  ◌∷◌, ◌++◌, ltb, leb, ◌==◌, min, if◌then◌else◌, u32_max, u32,
}

-- MM_HALOW_READ_CHUNK
abbrev pub read_chunk : ℕ
read_chunk = 128

-- The part of struct mmhal_robuf that is set: `buf` and `len`.
pub record Robuf : Type 0 where
  pub buf : Option ℕ
  pub len : ℕ

-- mm_halow_read_blob, for a blob between two addresses
pub read_blob : ℕ → ℕ → ℕ → ℕ → Robuf
read_blob start end offset requested =
    if ltb (end - start) offset
    then record { buf = none; len = 0 }
    else record { buf = some (start + offset); len = min (end - start - offset) requested }

-- mmhal_wlan_read_fw_file, of the firmware between its two symbols
pub read_fw_file : ℕ → ℕ → ℕ → ℕ → Robuf
read_fw_file start end offset requested = read_blob start end offset requested

-- mmhal_wlan_spi_read_buf: the transfers that it makes, as address and length. The fuel is the length.
pub read_buf : ℕ → ℕ → ℕ → List (ℕ × ℕ)
read_buf zero buf len = []
read_buf (suc f) buf len =
    let chunk = min len read_chunk in
    let rest = read_buf f (buf + chunk) (len - chunk) in
    if ltb 0 len then (buf, chunk) ∷ rest else []

-- mmhal_random_u32; `value` is what mm_halow_port_random_u32 returns.
pub random_u32 : ℕ → ℕ → ℕ → ℕ
random_u32 value min max =
    if leb max min
    then min
    else if max - min == u32_max
    then value
    else u32 (min + value % (max - min + 1))

-- mmhal_read_mac_addr: `mac` if some byte of it is not zero, else the port's address
pub read_mac_addr : List ℕ → List ℕ → List ℕ
read_mac_addr port mac = go mac
  where
    go : List ℕ → List ℕ
    go [] = port
    go (b ∷ bs) = if not (b == 0) then mac else go bs

-- The static variables, where a handler is there or not, and `busy_seen`.
pub record Irqs : Type 0 where
  pub spi_handler : Bool
  pub busy_handler : Bool
  pub spi_enabled : Bool
  pub busy_enabled : Bool
  pub busy_seen : Bool

-- The levels of the lines: mmhal_wlan_spi_irq_is_asserted and mmhal_wlan_busy_is_asserted.
pub record Lines : Type 0 where
  pub irq_asserted : Bool
  pub busy_asserted : Bool

-- mmhal_wlan_spi_irq_is_asserted of the pin, and mmhal_wlan_busy_is_asserted on a board that inverts
-- the line or not
pub read_lines : Bool → ℕ → ℕ → Lines
read_lines inverted irq_pin busy_pin = record {
  irq_asserted = irq_pin == 0;
  busy_asserted = if inverted then busy_pin == 0 else not (busy_pin == 0);
}

pub data Handler : Type 0 where
  spi busy : Handler

abbrev pub spi_ready : Irqs → Lines → Bool
spi_ready s l = s.spi_enabled && s.spi_handler && l.irq_asserted

abbrev pub busy_ready : Irqs → Lines → Bool
busy_ready s l = s.busy_enabled && s.busy_handler && l.busy_asserted

abbrev pub differ : Bool → Bool → Bool
differ a b = a && not b || not a && b

-- mmhal_wlan_set_spi_irq_enabled: the handlers that it calls, and the state
pub set_spi_irq_enabled : Bool → Lines → Irqs → List Handler × Irqs
set_spi_irq_enabled enabled l s = (
  (if enabled && l.irq_asserted && s.spi_handler then spi ∷ [] else []),
  record s { spi_enabled = enabled },
)

-- mmhal_wlan_register_spi_irq_handler and mmhal_wlan_register_busy_irq_handler, with a handler or without
pub register_spi_irq_handler : Bool → Irqs → Irqs
register_spi_irq_handler there s = record s { spi_handler = there }

pub register_busy_irq_handler : Bool → Irqs → Irqs
register_busy_irq_handler there s = record s { busy_handler = there }

-- mmhal_wlan_set_busy_irq_enabled
pub set_busy_irq_enabled : Bool → Irqs → Irqs
set_busy_irq_enabled enabled s = record s { busy_enabled = enabled }

-- mm_halow_hal_irq_pending
pub irq_pending : Lines → Irqs → Bool × Irqs
irq_pending l s =
    (differ (busy_ready s l) s.busy_seen || spi_ready s l, record s { busy_seen = busy_ready s l })

-- mm_halow_hal_poll_irqs: the handlers that it calls. `after` is what the first of them leaves of the
-- lines.
pub poll_irqs : Lines → Lines → Irqs → List Handler
poll_irqs l after s =
    (if spi_ready s l then spi ∷ [] else [])
    ++ (if busy_ready s (if spi_ready s l then after else l) then busy ∷ [] else [])

-- mmhal_wlan_deinit, for the interrupts
pub hal_deinit : Irqs → Irqs
hal_deinit s = record s {
  spi_enabled = false;
  busy_enabled = false;
  spi_handler = false;
  busy_handler = false;
}
