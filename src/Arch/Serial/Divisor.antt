-- ===== src/Arch/Serial/Divisor.antt =====
-- The divisor of a rate.
use native.Mathlib.Nat.{div-mul-le_self, lt-div-mul-add, div-lt_iff_lt-mul, le-div_iff_mul-le}
use whisez_os.Prelude.{
  ℕ, ◌+◌, ◌-◌, ◌*◌, ◌/◌, ◌^◌, ◌≤◌, ◌<◌, ◌≡◌, ◌↔◌, ◌⊎◌, inl, inr, subst, false, arith, ltb,
  Bool-cases, ◌==◌, ◌||◌,
}
use whisez_os.Prelude.Results.{ok, err}
use whisez_os.Arch.Serial.{uart_clock_hz, unsupported_baud, error_permille, divisor_for}

-- The divisor nearest to a rate that the clock reaches, which the register holds, and with which the
-- rate is met within 31 thousandths.
pub record Serves (baud divisor : ℕ) : Type 0 where
  pub reached : baud ≤ uart_clock_hz
  pub fits : divisor < 2 ^ 16
  pub below : divisor * baud ≤ uart_clock_hz + baud / 2
  pub above : uart_clock_hz + baud / 2 < divisor * baud + baud
  pub not_slow : 969 * baud < 1000 * (uart_clock_hz / divisor)
  pub not_fast : 1000 * (uart_clock_hz / divisor) < 1031 * baud

quotient_unique : (n b q : ℕ) → 0 < b → q * b ≤ n → n < q * b + b → q ≡ n / b
quotient_unique n b q pos h k =
    let low = (le-div_iff_mul-le pos).1 h in
    let high = (div-lt_iff_lt-mul pos).1 (next n b q k) in omega arith
  where
    next : (n b q : ℕ) → n < q * b + b → n < (q + 1) * b
    next n b q k = omega arith

error_bounds :
    (baud divisor : ℕ)
    → 0 < baud
    → (ltb 30 (error_permille baud divisor) ≡ false) ↔ (
        (969 * baud < 1000 * (uart_clock_hz / divisor))
        × (1000 * (uart_clock_hz / divisor) < 1031 * baud))
unfolding error_permille
error_bounds baud divisor h =
    let actual = uart_clock_hz / divisor in
    let fast = div-lt_iff_lt-mul {x = (actual - baud) * 1000} {y = 31} h in
    let slow = div-lt_iff_lt-mul {x = (baud - actual) * 1000} {y = 31} h in ground arith

Serves-unique :
    (baud divisor : ℕ)
    → Serves baud divisor
    → (0 < baud) × (divisor ≡ (uart_clock_hz + baud / 2) / baud)
Serves-unique baud divisor s =
    let pos : 0 < baud = omega arith in
    (pos, quotient_unique (uart_clock_hz + baud / 2) baud divisor pos s.below s.above)

abbrev nearest : ℕ → ℕ
nearest baud = (uart_clock_hz + baud / 2) / baud

nearest_pos : (baud : ℕ) → 0 < baud → baud ≤ uart_clock_hz → 0 < nearest baud
nearest_pos baud pos reached =
    (le-div_iff_mul-le {x = 1} {y = uart_clock_hz + baud / 2} pos).1 (omega arith)

nearest-Serves :
    (baud : ℕ)
    → 0 < baud
    → baud ≤ uart_clock_hz
    → nearest baud < 2 ^ 16
    → ltb 30 (error_permille baud (nearest baud)) ≡ false
    → Serves baud (nearest baud)
nearest-Serves baud pos reached fits e =
    let (slow, fast) = (error_bounds baud (nearest baud) pos).0 e in
    record {
      reached = reached;
      fits = fits;
      below = div-mul-le_self (uart_clock_hz + baud / 2) baud;
      above = lt-div-mul-add pos;
      not_slow = slow;
      not_fast = fast;
    }

Serves-nearest :
    (baud divisor : ℕ)
    → Serves baud divisor
    → (0 < baud)
      × (baud ≤ uart_clock_hz)
      × (nearest baud < 2 ^ 16)
      × (ltb 30 (error_permille baud (nearest baud)) ≡ false)
Serves-nearest baud divisor s =
    let (pos, same) = Serves-unique baud divisor s in
    let met = (error_bounds baud divisor pos).1 (s.not_slow, s.not_fast) in
    (
      pos,
      s.reached,
      subst (λ d. d < 2 ^ 16) same s.fits,
      subst (λ d. ltb 30 (error_permille baud d) ≡ false) same met,
    )

-- `divisor_for` answers the divisor that serves a rate, or refuses the rate, exactly when none does.
pub divisor_for_lem :
    (baud : ℕ)
    → ((divisor : ℕ) × (divisor_for baud ≡ ok divisor) × Serves baud divisor)
      ⊎ ((divisor_for baud ≡ err (unsupported_baud baud)) × ((divisor : ℕ) → ¬ Serves baud divisor))
unfolding divisor_for
divisor_for_lem baud = elim (Bool-cases (baud == 0 || ltb uart_clock_hz baud)) [
  | inl out ↦ inr (rw out, λ d s. ground (arith, Serves-nearest baud d s))
  | inr in_reach ↦
      let pos : 0 < baud = ground arith in
      let reached : baud ≤ uart_clock_hz = ground arith in
      elim (Bool-cases (nearest baud == 0 || ltb (2 ^ 16 - 1) (nearest baud))) [
        | inl wide ↦ inr (
          rw (in_reach, wide),
          λ d s. ground (arith, Serves-nearest baud d s, nearest_pos baud pos reached),
        )
        | inr fits ↦ elim (Bool-cases (ltb 30 (error_permille baud (nearest baud)))) [
          | inl off ↦ inr (rw (in_reach, fits, off), λ d s. ground (arith, Serves-nearest baud d s))
          | inr near ↦ inl (
            nearest baud,
            rw (in_reach, fits, near),
            nearest-Serves baud pos reached (ground arith) near,
          )
        ]
      ]
]
