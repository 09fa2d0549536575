-- ===== src/Arch/Frame/Contiguous/Masks.antt =====
-- The bits that `first_used_in` looks at in one word.
use whisez_os.Prelude.{
  ℕ, zero, suc, ◌+◌, ◌-◌, ◌*◌, ◌/◌, ◌%◌, ◌^◌, ◌≤◌, ◌<◌, ◌≡◌, ◌≢◌, inl, inr, ap, ◌∙◌, true, false,
  ◌&&◌, ◌==◌, ltb, leb, arith, Bool-cases, dec_le,
}
use whisez_os.Prelude.Bits.{bit, bit_shift, bit_ones, low_bit_zero}
use native.Mathlib.Nat.{pow-suc, one-le-pow, pow-le-pow_right}
use whisez_os.Arch.Frame.Alloc.{full_word-bit}
use whisez_os.Arch.Frame.Contiguous.{trailing_zeros, mask}

pub trailing_zeros-clear : (n w i : ℕ) → i < trailing_zeros n w → bit w i ≡ false
unfolding trailing_zeros bit
trailing_zeros-clear zero w i h = absurd (omega arith)
trailing_zeros-clear (suc n) w zero h = ground arith
trailing_zeros-clear (suc n) w (suc i) h = trailing_zeros-clear n (w / 2) i (ground arith)

trailing_zeros_odd : (n w : ℕ) → (w % 2 == 1) ≡ true → trailing_zeros (suc n) w ≡ 0
unfolding trailing_zeros
trailing_zeros_odd n w h = ground arith

trailing_zeros_even :
    (n w : ℕ) → (w % 2 == 1) ≡ false → trailing_zeros (suc n) w ≡ suc (trailing_zeros n (w / 2))
unfolding trailing_zeros
trailing_zeros_even n w h = ground arith

-- In a word that is not zero the count stops at a set bit.
pub trailing_zeros-set :
    (n w : ℕ) → w < 2 ^ n → w ≢ 0 → (trailing_zeros n w < n) × (bit w (trailing_zeros n w) ≡ true)
unfolding bit
trailing_zeros-set zero w h ne = absurd (ground arith)
trailing_zeros-set (suc n) w h ne =
    elim (Bool-cases (w % 2 == 1))
      as (λ _. (trailing_zeros (suc n) w < suc n) × (bit w (trailing_zeros (suc n) w) ≡ true)) [
        | inl odd ↦ (
          omega (arith, trailing_zeros_odd n w odd),
          ap (bit w) (trailing_zeros_odd n w odd) ∙ odd,
        )
        | inr even ↦
            let below =
              trailing_zeros-set n (w / 2) (omega (arith, pow-suc 2 n)) (λ z. ne (ground arith)) in
            let step = trailing_zeros_even n w even in
            (omega (arith, step, below.0), ap (bit w) step ∙ below.1)
      ]

shift-lt : (n r b : ℕ) → r + b ≤ n → (2 ^ r - 1) * 2 ^ b < 2 ^ n
shift-lt n r zero h = omega (
  arith,
  one-le-pow r 2 (omega arith),
  pow-le-pow_right {n = 2} (omega arith) {i = r} {j = n} (omega arith),
)
shift-lt zero r (suc b) h = absurd (omega arith)
shift-lt (suc n) r (suc b) h =
    omega
      (arith, pow-suc 2 n, ap (λ t. (2 ^ r - 1) * t) (pow-suc 2 b), shift-lt n r b (omega arith))

pub bit-mask :
    (remaining b i : ℕ)
    → b < 64
    → remaining ≤ 64 - b
    → i < 64
    → bit (mask remaining b) i ≡ (leb b i && ltb i (b + remaining))
unfolding mask
bit-mask remaining b i h k l = elim (dec_le 64 remaining) [
  | yes whole ↦ ground (arith, full_word-bit i l)
  | no part ↦ elim (dec_le b i) [
    | yes above ↦ ground (
      arith,
      shift-lt 64 remaining b (omega arith),
      ap (bit ((2 ^ remaining - 1) * 2 ^ b)) (upto above),
      bit_shift b (2 ^ remaining - 1) (i - b),
      bit_ones remaining (i - b),
    )
    | no below ↦ ground (
      arith,
      shift-lt 64 remaining b (omega arith),
      low_bit_zero b (2 ^ remaining - 1) i (omega arith),
    )
  ]
]
  where
    upto : b ≤ i → i ≡ b + (i - b)
    upto above = omega arith
