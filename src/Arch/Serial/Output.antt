-- ===== src/Arch/Serial/Output.antt =====
-- Output: the bounded wait, and what a text becomes on the line.
use whisez_os.Prelude.{
  ℕ, zero, suc, ◌≤◌, ◌<◌, ◌≡◌, inl, inr, ap, sym, ◌∙◌, Bool, true, false, arith, Bool-cases, ◌==◌,
  ==_iff, if◌then◌else◌, List, [], ◌∷◌, ◌++◌,
}
use mathlib.Core.List.{append-nil, append_assoc}
use whisez_os.Arch.Serial.{
  PortIo, spin_limit, write_reg, can_transmit, wait, write_byte, write_str_bytes,
}

module _ {D : Type 0} (ports : PortIo D) (base : ℕ) where
  -- The device after n looks at its line status.
  unfoldable pub polled : ℕ → D → D
  polled zero d = d
  polled (suc n) d = polled n (can_transmit ports base d).1

  -- How a byte is written: after the first look, of the first 100,001, that finds room for it, or not
  -- at all.
  pub data Wrote (byte : ℕ) (d : D) : D → Type 0 where
    sent :
        (n : ℕ)
        → n ≤ spin_limit
        → ((k : ℕ) → k < n → (can_transmit ports base (polled k d)).0 ≡ false)
        → (can_transmit ports base (polled n d)).0 ≡ true
        → Wrote byte d (write_reg ports base 0 byte (polled (suc n) d))
    dropped :
        ((k : ℕ) → k ≤ spin_limit → (can_transmit ports base (polled k d)).0 ≡ false)
        → Wrote byte d (polled (suc spin_limit) d)

  data Waited (left : ℕ) (d : D) : D × Bool → Type 0 where
    free :
        (n : ℕ)
        → n ≤ left
        → ((k : ℕ) → k < n → (can_transmit ports base (polled k d)).0 ≡ false)
        → (can_transmit ports base (polled n d)).0 ≡ true
        → Waited left d (polled (suc n) d, true)
    busy :
        ((k : ℕ) → k ≤ left → (can_transmit ports base (polled k d)).0 ≡ false)
        → Waited left d (polled (suc left) d, false)

  Busy-cons :
      (n : ℕ) (d : D)
      → (can_transmit ports base d).0 ≡ false
      → ((k : ℕ)
          → k < n
          → (can_transmit ports base (polled k (can_transmit ports base d).1)).0 ≡ false)
      → (k : ℕ) → k < suc n
      → (can_transmit ports base (polled k d)).0 ≡ false
  unfolding polled
  Busy-cons n d e f zero h = e
  Busy-cons n d e f (suc k) h = f k (omega arith)

  Waited-later :
      (left : ℕ) (d : D) {r : D × Bool}
      → (can_transmit ports base d).0 ≡ false
      → Waited left (can_transmit ports base d).1 r
      → Waited (suc left) d r
  unfolding polled
  Waited-later left d e (free n h f t) = free (suc n) (omega arith) (Busy-cons n d e f) t
  Waited-later left d e (busy f) =
      busy (λ k h. Busy-cons (suc left) d e (λ k h. f k (omega arith)) k (omega arith))

  wait-Waited : (left : ℕ) (d : D) → Waited left d (wait ports base left d)
  unfolding wait polled
  wait-Waited zero d = elim (Bool-cases (can_transmit ports base d).0) [
    | inl e ↦ rw (wait, e) (free 0 (omega arith) (λ k h. absurd (omega arith)) e)
    | inr e ↦ rw (wait, e) (busy (only d e))
  ]
    where
      only :
          (d : D)
          → (can_transmit ports base d).0 ≡ false
          → (k : ℕ) → k ≤ 0
          → (can_transmit ports base (polled k d)).0 ≡ false
      only d e zero h = e
      only d e (suc k) h = absurd (omega arith)
  wait-Waited (suc left) d = elim (Bool-cases (can_transmit ports base d).0) [
    | inl e ↦ rw (wait, e) (free 0 (omega arith) (λ k h. absurd (omega arith)) e)
    | inr e ↦ rw (wait, e) (Waited-later left d e (wait-Waited left (can_transmit ports base d).1))
  ]

  Wrote-Waited :
      (byte : ℕ) (d : D) {r : D × Bool}
      → Waited spin_limit d r
      → Wrote byte d (if r.1 then write_reg ports base 0 byte r.0 else r.0)
  Wrote-Waited byte d (free n h f t) = sent n h f t
  Wrote-Waited byte d (busy f) = dropped f

  -- A byte is written or dropped after a bounded number of looks, whatever the device does.
  pub write_byte-Wrote : (byte : ℕ) (d : D) → Wrote byte d (write_byte ports base byte d)
  unfolding write_byte
  write_byte-Wrote byte d = Wrote-Waited byte d (wait-Waited spin_limit d)

-- The bytes of a text on the line: each line feed follows a carriage return.
unfoldable pub crlf : List ℕ → List ℕ
crlf [] = []
crlf (b ∷ s) = if b == b'\n' then b'\r' ∷ b'\n' ∷ crlf s else b ∷ crlf s

-- A device that always has room, with the bytes it has sent: looks do not send, and writes of data do.
pub record IsReady {D : Type 0} (ports : PortIo D) (base : ℕ) (line : D → List ℕ) : Type 0 where
  pub room : (d : D) → (can_transmit ports base d).0 ≡ true
  pub looked : (d : D) → line (can_transmit ports base d).1 ≡ line d
  pub sends : (b : ℕ) (d : D) → line (write_reg ports base 0 b d) ≡ line d ++ b ∷ []

module _ {D : Type 0} (ports : PortIo D) (base : ℕ) (line : D → List ℕ)
    (ready : IsReady ports base line) where
  wait_ready : (left : ℕ) (d : D) → wait ports base left d ≡ ((can_transmit ports base d).1, true)
  unfolding wait
  wait_ready zero d = rw (wait, ready.room d)
  wait_ready (suc left) d = rw (wait, ready.room d)

  line-write_byte : (b : ℕ) (d : D) → line (write_byte ports base b d) ≡ line d ++ b ∷ []
  unfolding write_byte
  line-write_byte b d =
      ap (λ r. line (if r.1 then write_reg ports base 0 b r.0 else r.0)) (wait_ready spin_limit d)
      ∙ ready.sends b (can_transmit ports base d).1
      ∙ ap (λ l. l ++ b ∷ []) (ready.looked d)

  -- A device that always has room sends a text with each line feed after a carriage return, and drops
  -- nothing.
  pub line-write_str_bytes :
      (s : List ℕ) (d : D) → line (write_str_bytes ports base s d) ≡ line d ++ crlf s
  unfolding write_str_bytes crlf
  line-write_str_bytes [] d = sym (append-nil (line d))
  line-write_str_bytes (b ∷ s) d = elim (Bool-cases (b == b'\n')) [
    | inl e ↦
        let newline : b ≡ b'\n' = (==_iff b b'\n').0 e in
        let d' = write_byte ports base b'\r' d in
        rw e (
          line-write_str_bytes s (write_byte ports base b d')
          ∙ rw (line-write_byte b d', line-write_byte b'\r' d, newline)
              (append_assoc (line d ++ b'\r' ∷ []) (b'\n' ∷ []) (crlf s)
                ∙ append_assoc (line d) (b'\r' ∷ []) _))
    | inr e ↦ rw e (
        line-write_str_bytes s (write_byte ports base b d)
        ∙ rw (line-write_byte b d) (append_assoc (line d) (b ∷ []) (crlf s)))
  ]
