-- ===== src/Arch/Serial/Init.antt =====
-- What `init` leaves in the registers of a 16550.
use whisez_os.Prelude.{
  ℕ, zero, suc, ◌+◌, ◌/◌, ◌%◌, ◌^◌, ◌<◌, ◌≡◌, inl, inr, refl, ap, ◌∙◌, true, false, arith,
  Bool-cases, ◌==◌, if◌then◌else◌,
}
use whisez_os.Prelude.Bits.{has_bit}
use whisez_os.Prelude.Results.{Result, ok, err, Result-cases}
use whisez_os.Arch.Serial.{
  SerialError, not_present, divisor_for, PortIo, write_reg, read_reg, self_test, configure, init,
}

-- The registers that are written. The divisor has two halves; `echo` is the last byte that was sent.
pub record Registers : Type 0 where
  pub interrupts : ℕ
  pub divisor_low : ℕ
  pub divisor_high : ℕ
  pub fifo : ℕ
  pub line : ℕ
  pub modem : ℕ
  pub echo : ℕ

-- With bit 7 of the line control set, the registers 0 and 1 are the halves of the divisor.
unfoldable pub written : ℕ → ℕ → Registers → Registers
written zero v r = if has_bit r.line 7 then record r { divisor_low = v } else record r { echo = v }
written (suc zero) v r =
    if has_bit r.line 7 then record r { divisor_high = v } else record r { interrupts = v }
written (suc (suc zero)) v r = record r { fifo = v }
written (suc (suc (suc zero))) v r = record r { line = v }
written (suc (suc (suc (suc n)))) v r = record r { modem = v }

-- What is documented of a 16550 behind the ports from `base` on: how its registers are written, that
-- reading the data register writes none of them.
pub record IsUart {D : Type 0} (ports : PortIo D) (base : ℕ) (registers : D → Registers)
    : Type 0 where
  pub wrote :
      (offset v : ℕ) (d : D)
      → offset < 5
      → registers (ports.write ((base + offset) % 2 ^ 16) v d) ≡ written offset v (registers d)
  pub kept : (d : D) → registers (ports.read ((base + 0) % 2 ^ 16) d).1 ≡ registers d

-- The device answers in loopback: with bit 4 of the modem control set, the byte sent comes back.
abbrev pub Echoes : {D : Type 0} → PortIo D → ℕ → (D → Registers) → Type 0
Echoes {D} ports base registers =
    (d : D)
    → has_bit (registers d).modem 4 ≡ true
    → has_bit (registers d).line 7 ≡ false
    → (ports.read ((base + 0) % 2 ^ 16) d).0 ≡ (registers d).echo

-- The registers of a port that was set to a divisor, with eight bits, no parity and one stop bit.
abbrev pub configured : ℕ → ℕ → ℕ → Registers
configured divisor interrupts modem = record {
  interrupts = interrupts;
  divisor_low = divisor % 2 ^ 8;
  divisor_high = divisor / 2 ^ 8 % 2 ^ 8;
  fifo = 0xC7;
  line = 3;
  modem = modem;
  echo = 0xAE;
}

-- What `init` leaves in the interrupt register: the write that should clear it goes to the divisor if
-- the line control gives access to that.
unfoldable pub interrupts_after : Registers → ℕ
interrupts_after r = if has_bit r.line 7 then r.interrupts else 0

-- The registers when the divisor, the line control and the queues are set.
settled : ℕ → Registers → Registers
settled divisor r = record {
  interrupts = interrupts_after r;
  divisor_low = divisor % 2 ^ 8;
  divisor_high = divisor / 2 ^ 8 % 2 ^ 8;
  fifo = 0xC7;
  line = 3;
  modem = r.modem;
  echo = r.echo;
}

written-settled :
    (divisor : ℕ) (r : Registers)
    → written 2 0xC7 (
        written 3 3 (
          written 1
            (divisor / 2 ^ 8 % 2 ^ 8)
            (written 0 (divisor % 2 ^ 8) (written 3 (2 ^ 7) (written 1 0 r)))))
      ≡ settled divisor r
unfolding written settled interrupts_after has_bit
written-settled divisor r = ground arith

module _ {D : Type 0} (ports : PortIo D) (base : ℕ) (registers : D → Registers)
    (uart : IsUart ports base registers) where
  -- How `init` ends: a rate without a divisor touches nothing, a port that fails its test stays in
  -- loopback, and one that passes it is configured.
  pub data Started (baud : ℕ) (d : D) : D × Result SerialError (Unit {0}) → Type 0 where
    refused : (e : SerialError) → divisor_for baud ≡ err e → Started baud d (d, err e)
    absent :
        (divisor : ℕ) (d' : D)
        → divisor_for baud ≡ ok divisor
        → registers d' ≡ configured divisor (interrupts_after (registers d)) 0x1E
        → Started baud d (d', err not_present)
    running :
        (divisor : ℕ) (d' : D)
        → divisor_for baud ≡ ok divisor
        → registers d' ≡ configured divisor (interrupts_after (registers d)) 0x0B
        → Started baud d (d', ok tt)

  registers-write_reg :
      (offset v : ℕ) (d : D) {r : Registers}
      → offset < 5
      → registers d ≡ r
      → registers (write_reg ports base offset v d) ≡ written offset v r
  unfolding write_reg
  registers-write_reg offset v d h e = uart.wrote offset v d h ∙ ap (written offset v) e

  -- The line control before the first write decides what that write goes to.
  registers-configure :
      (divisor : ℕ) (d : D)
      → registers (configure ports base divisor d) ≡ settled divisor (registers d)
  unfolding configure
  registers-configure divisor d =
      registers-write_reg 2 0xC7 _ (omega arith) (
        registers-write_reg 3 3 _ (omega arith) (
          registers-write_reg 1 (divisor / 2 ^ 8 % 2 ^ 8) _ (omega arith) (
            registers-write_reg 0 (divisor % 2 ^ 8) _ (omega arith) (
              registers-write_reg 3 (2 ^ 7) _ (omega arith)
                (registers-write_reg 1 0 d (omega arith) refl)))))
      ∙ written-settled divisor (registers d)

  tested : (d : D) → D
  tested d = (read_reg ports base 0 (write_reg ports base 0 0xAE (write_reg ports base 4 0x1E d))).1

  registers-tested :
      (divisor : ℕ) (r : Registers) (d : D)
      → registers d ≡ settled divisor r
      → registers (tested d) ≡ configured divisor (interrupts_after r) 0x1E
  unfolding tested read_reg settled written has_bit
  registers-tested divisor r d e =
      uart.kept (write_reg ports base 0 0xAE (write_reg ports base 4 0x1E d))
      ∙ registers-write_reg 0 0xAE _ (omega arith) (registers-write_reg 4 0x1E d (omega arith) e)

  -- The byte that the self-test reads.
  heard : (d : D) → ℕ
  heard d = (read_reg ports base 0 (write_reg ports base 0 0xAE (write_reg ports base 4 0x1E d))).0

  init-refused :
      (baud : ℕ) (d : D) (e : SerialError)
      → divisor_for baud ≡ err e
      → init ports base baud d ≡ (d, err e)
  unfolding init
  init-refused baud d e h = ground arith

  init_absent :
      (baud divisor : ℕ) (d : D)
      → divisor_for baud ≡ ok divisor
      → (heard (configure ports base divisor d) == 0xAE) ≡ false
      → init ports base baud d ≡ (tested (configure ports base divisor d), err not_present)
  unfolding init self_test heard tested
  init_absent baud divisor d h k = ground arith

  init_running :
      (baud divisor : ℕ) (d : D)
      → divisor_for baud ≡ ok divisor
      → (heard (configure ports base divisor d) == 0xAE) ≡ true
      → init ports base baud d
        ≡ (write_reg ports base 4 0x0B (tested (configure ports base divisor d)), ok tt)
  unfolding init self_test heard tested
  init_running baud divisor d h k = ground arith

  registers-running :
      (divisor : ℕ) (d : D)
      → registers (write_reg ports base 4 0x0B (tested (configure ports base divisor d)))
        ≡ configured divisor (interrupts_after (registers d)) 0x0B
  unfolding written
  registers-running divisor d =
      registers-write_reg 4 0x0B _ (omega arith)
        (registers-tested divisor (registers d) _ (registers-configure divisor d))

  -- `init` ends in one of three ways: a rate that no divisor serves touches no register; a port that
  -- does not answer the test is configured but left in loopback; a port that answers is configured.
  pub init-Started : (baud : ℕ) (d : D) → Started baud d (init ports base baud d)
  init-Started baud d = elim (Result-cases (divisor_for baud)) [
    | inr (e, h) ↦ rw (init-refused baud d e h) (refused e h)
    | inl (divisor, h) ↦ elim (Bool-cases (heard (configure ports base divisor d) == 0xAE)) [
      | inl yes_heard ↦
          rw (init_running baud divisor d h yes_heard)
            (running divisor _ h (registers-running divisor d))
      | inr no_heard ↦ rw (init_absent baud divisor d h no_heard) (
          absent divisor _ h
            (registers-tested divisor (registers d) _ (registers-configure divisor d)))
    ]
  ]

  -- On a 16550 that answers in loopback and does not give access to its divisor when `init` starts, a
  -- rate with a divisor is accepted, and the port is left with that divisor, no interrupts, eight bits
  -- without parity, its queues on and out of loopback.
  pub init_configures :
      Echoes ports base registers
      → (baud divisor : ℕ) (d : D) → divisor_for baud ≡ ok divisor
      → has_bit (registers d).line 7 ≡ false
      → ((init ports base baud d).1 ≡ ok tt)
        × (registers (init ports base baud d).0 ≡ configured divisor 0 0x0B)
  unfolding interrupts_after heard read_reg written settled has_bit
  init_configures echoes baud divisor d h clear =
      let set = registers-configure divisor d in
      let sent =
        registers-write_reg 0 0xAE _ (omega arith)
          (registers-write_reg 4 0x1E _ (omega arith) set) in
      let back =
        echoes _ (ap (λ r. has_bit r.modem 4) sent) (ap (λ r. has_bit r.line 7) sent)
        ∙ ap (λ r. r.echo) sent in
      let run = init_running baud divisor d h (ground arith) in
      (
        ap (λ r. r.1) run,
        ap (λ r. registers r.0) run
            ∙ registers-running divisor d
            ∙ ap (λ i. configured divisor i 0x0B) (rw clear refl),
      )
