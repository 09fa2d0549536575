-- ===== src/Arch/Serial.antt =====
-- The serial port: kernel/spectre-kernel/src/arch/serial.rs. `PortIo` is a record of its two
-- instructions over the state of the device behind the ports, which a read may change too. Ports are
-- numbers of 16 bits, values bytes.
pub mod Divisor
pub mod Init
pub mod Output
use whisez_os.Prelude.{
  ℕ, zero, suc, ◌+◌, ◌-◌, ◌*◌, ◌/◌, ◌%◌, ◌^◌, Bool, true, false, not, ◌||◌, Option, none, some,
  List, [], ◌∷◌, ◌==◌, ltb, if◌then◌else◌, bit_and, bit_or,
}
use whisez_os.Prelude.Results.{Result, ok, err}

abbrev pub uart_clock_hz : ℕ
uart_clock_hz = 115200

-- The registers, counted from the base port.
abbrev pub data_register : ℕ
data_register = 0

abbrev pub int_enable : ℕ
int_enable = 1

abbrev pub fifo_ctrl : ℕ
fifo_ctrl = 2

abbrev pub line_ctrl : ℕ
line_ctrl = 3

abbrev pub modem_ctrl : ℕ
modem_ctrl = 4

abbrev pub line_status : ℕ
line_status = 5

abbrev pub data_8bits : ℕ
data_8bits = 3

abbrev pub stop_1bit : ℕ
stop_1bit = 0

abbrev pub parity_none : ℕ
parity_none = 0

abbrev pub dlab : ℕ
dlab = 2 ^ 7

abbrev pub data_ready : ℕ
data_ready = 2 ^ 0

abbrev pub thr_empty : ℕ
thr_empty = 2 ^ 5

pub data SerialError : Type 0 where
  unsupported_baud : ℕ → SerialError
  not_present : SerialError

-- The error of a divisor, in thousandths of the rate.
unfoldable pub error_permille : ℕ → ℕ → ℕ
error_permille baud divisor =
    let actual : ℕ = uart_clock_hz / divisor in
    if ltb baud actual then (actual - baud) * 1000 / baud else (baud - actual) * 1000 / baud

unfoldable pub divisor_for : ℕ → Result SerialError ℕ
divisor_for baud =
    let divisor : ℕ = (uart_clock_hz + baud / 2) / baud in
    if baud == 0 || ltb uart_clock_hz baud
    then err (unsupported_baud baud)
    else if divisor == 0 || ltb (2 ^ 16 - 1) divisor
    then err (unsupported_baud baud)
    else if ltb 30 (error_permille baud divisor)
    then err (unsupported_baud baud)
    else ok divisor

pub record PortIo (D : Type 0) : Type 0 where
  pub read : ℕ → D → ℕ × D
  pub write : ℕ → ℕ → D → D

abbrev pub spin_limit : ℕ
spin_limit = 100000

-- A port with the registers from `base` on.
module _ {D : Type 0} (ports : PortIo D) (base : ℕ) where
  unfoldable pub write_reg : ℕ → ℕ → D → D
  write_reg offset value d = ports.write ((base + offset) % 2 ^ 16) value d

  unfoldable pub read_reg : ℕ → D → ℕ × D
  read_reg offset d = ports.read ((base + offset) % 2 ^ 16) d

  unfoldable pub self_test : D → D × Result SerialError (Unit {0})
  self_test d =
      let (value, d') =
        read_reg data_register (write_reg data_register 0xAE (write_reg modem_ctrl 0x1E d)) in
      (d', if not (value == 0xAE) then err not_present else ok tt)

  -- The writes of `init` before its self-test, the first innermost.
  unfoldable pub configure : ℕ → D → D
  configure divisor d = write_reg fifo_ctrl 0xC7 (
      write_reg line_ctrl (bit_or (bit_or data_8bits stop_1bit) parity_none) (
        write_reg int_enable (divisor / 2 ^ 8 % 2 ^ 8) (
          write_reg data_register (divisor % 2 ^ 8)
            (write_reg line_ctrl dlab (write_reg int_enable 0x00 d)))))

  unfoldable pub init : ℕ → D → D × Result SerialError (Unit {0})
  init baud d = elim (divisor_for baud) [
    | err e ↦ (d, err e)
    | ok divisor ↦
        let (d', result) = self_test (configure divisor d) in
        elim result [ err e ↦ (d', err e) | ok _ ↦ (write_reg modem_ctrl 0x0B d', ok tt) ]
  ]

  unfoldable pub can_transmit : D → Bool × D
  can_transmit d =
      let (status, d') = read_reg line_status d in (not (bit_and status thr_empty == 0), d')

  -- The wait, with `left` further rounds before it gives up; the answer is whether the byte may be sent.
  unfoldable pub wait : ℕ → D → D × Bool
  wait zero d = let (ready, d') = can_transmit d in (d', ready)
  wait (suc left) d =
      let (ready, d') = can_transmit d in elim ready [ true ↦ (d', true) | false ↦ wait left d' ]

  unfoldable pub write_byte : ℕ → D → D
  write_byte byte d =
      let (d', ready) = wait spin_limit d in if ready then write_reg data_register byte d' else d'

  unfoldable pub write_str_bytes : List ℕ → D → D
  write_str_bytes [] d = d
  write_str_bytes (b ∷ s) d =
      let d' = if b == b'\n' then write_byte b'\r' d else d in write_str_bytes s (write_byte b d')

  unfoldable pub read_byte : D → Option ℕ × D
  read_byte d =
      let (status, d') = read_reg line_status d in
      if not (bit_and status data_ready == 0)
      then (let (value, d'') = read_reg data_register d' in (some value, d''))
      else (none, d')
