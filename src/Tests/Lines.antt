-- ===== src/Tests/Lines.antt =====
-- The serial port on a chip that has the registers and nothing else, behind COM1.
use whisez_os.Prelude.{
  ℕ, ◌+◌, ◌-◌, ◌%◌, ◌^◌, ◌<◌, ◌≡◌, refl, ap, false, List, [], ◌∷◌, ◌++◌, ◌==◌, if◌then◌else◌, arith,
}
use whisez_os.Prelude.Bits.{has_bit}
use whisez_os.Prelude.Results.{ok, err}
use whisez_os.Arch.Serial.{
  PortIo, divisor_for, unsupported_baud, error_permille, init, can_transmit, read_reg, write_reg,
}
use whisez_os.Arch.Serial.Init.{Registers, written, IsUart, configured, init_configures}
use whisez_os.Arch.Serial.Output.{IsReady}

abbrev com1 : ℕ
com1 = 0x3F8

abbrev chip : PortIo Registers
chip = record {
  read = λ port r. (if port == com1 then r.echo else 0x20, r);
  write = λ port v r. written (port - com1) v r;
}

abbrev cold : Registers
cold = record {
  interrupts = 15;
  divisor_low = 0;
  divisor_high = 0;
  fifo = 0;
  line = 0;
  modem = 0;
  echo = 0;
}

chip-IsUart : IsUart chip com1 (λ r. r)
chip-IsUart = record {
  wrote = λ offset v r h. ap (λ o. written o v r) (place offset h);
  kept = λ r. refl;
}
  where
    place : (offset : ℕ) → offset < 5 → (com1 + offset) % 2 ^ 16 - com1 ≡ offset
    place offset h = omega arith

divisor_9600 : divisor_for 9600 ≡ ok 12
unfolding divisor_for error_permille
divisor_9600 = refl

-- 31250 is not served: the nearest divisor, 4, is 8 in a hundred off.
refused_31250 : divisor_for 31250 ≡ err (unsupported_baud 31250)
unfolding divisor_for error_permille
refused_31250 = refl

plain : has_bit 0 7 ≡ false
unfolding has_bit
plain = refl

init_configures_example :
    ((init chip com1 9600 cold).1 ≡ ok tt) × ((init chip com1 9600 cold).0 ≡ configured 12 0 0x0B)
init_configures_example =
    init_configures chip com1 (λ r. r) chip-IsUart (λ r looped plain. refl) 9600 12 cold
      divisor_9600 plain

-- A device that has room for every byte and keeps what was sent.
abbrev printer : PortIo (List ℕ)
printer = record { read = λ port sent. (0x20, sent); write = λ port v sent. sent ++ v ∷ [] }

printer-IsReady : IsReady printer com1 (λ sent. sent)
unfolding can_transmit read_reg write_reg
printer-IsReady = record { room = λ d. refl; looked = λ d. refl; sends = λ b d. refl }
