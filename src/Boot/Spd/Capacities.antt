-- ===== src/Boot/Spd/Capacities.antt =====
-- What the bytes of a module say about its size.
use native.Mathlib.Nat.{mul-le-mul, div-le_self}
use whisez_os.Prelude.{
  ℕ, zero, suc, ◌+◌, ◌-◌, ◌*◌, ◌/◌, ◌%◌, ◌^◌, ◌≤◌, ◌≡◌, inl, inr, refl, subst, Option, none, some,
  List, [], ◌∷◌, arith, length, Option-cases,
}
use whisez_os.Prelude.Bits.{pow_lt_pow}
use whisez_os.Boot.Spd.{
  Module, SmBus, DramKind, ddr4, ddr5, unknown, ddr4_die_mbits, ddr5_die_gbits, ddr4_decode,
  ddr5_decode, ddr4_capacity, ddr5_capacity, capacity, probe, enumerate_from, enumerate, push_found,
  spd_total,
}

ddr4_die-le : (n : ℕ) {m : ℕ} → ddr4_die_mbits n ≡ some m → m ≤ 65536
unfolding ddr4_die_mbits
ddr4_die-le n e = ground (arith, pow_lt_pow 6 (n - 2))

ddr5_die-le : (n : ℕ) {m : ℕ} → ddr5_die_gbits n ≡ some m → m ≤ 64
unfolding ddr5_die_gbits
ddr5_die-le n e = ground arith

-- The number of chips side by side.
chips-le : (bus sdram : ℕ) → 8 * 2 ^ (bus % 8) / sdram ≤ 2048
chips-le bus sdram =
    omega (arith, div-le_self (8 * 2 ^ (bus % 8)) sdram, pow_lt_pow 8 (bus % 8) (omega arith))

abbrev pub largest_module : ℕ
largest_module = 2 ^ 47

product-le : (d c r u : ℕ) {x y z : ℕ} → d ≤ x → c ≤ y → r ≤ z → d * c * r * u ≤ x * y * z * u
product-le d c r u h k l = mul-le-mul (mul-le-mul (mul-le-mul h k) l) (omega arith)

ddr4_decode-le :
    (byte4 byte12 byte13 : ℕ) {m : ℕ}
    → ddr4_decode byte4 byte12 byte13 ≡ some m
    → m ≤ largest_module
unfolding ddr4_decode
ddr4_decode-le byte4 byte12 byte13 e = elim (Option-cases (ddr4_die_mbits (byte4 % 16))) [
  | inl p ↦ absurd (ground arith)
  | inr (die, p) ↦ ground (
    arith,
    product-le (die / 8) (8 * 2 ^ (byte13 % 8) / (4 * 2 ^ (byte12 % 8))) (byte12 / 8 % 8 + 1)
        (2 ^ 20) {x = 8192} {y = 2048} {z = 8} (omega (arith, ddr4_die-le (byte4 % 16) p))
        (chips-le byte13 (4 * 2 ^ (byte12 % 8))) (omega arith),
  )
]

ddr5_decode-le :
    (byte4 byte6 byte234 : ℕ) {m : ℕ}
    → ddr5_decode byte4 byte6 byte234 ≡ some m
    → m ≤ largest_module
unfolding ddr5_decode
ddr5_decode-le byte4 byte6 byte234 e = elim (Option-cases (ddr5_die_gbits (byte4 % 32))) [
  | inl p ↦ absurd (ground arith)
  | inr (die, p) ↦ ground (
    arith,
    product-le (die / 8) (8 * 2 ^ (byte234 % 8) / (4 * 2 ^ (byte6 / 32 % 8))) (byte234 / 32 % 4 + 1)
        (2 ^ 30) {x = 8} {y = 2048} {z = 4} (omega (arith, ddr5_die-le (byte4 % 32) p))
        (chips-le byte234 (4 * 2 ^ (byte6 / 32 % 8))) (omega arith),
  )
]

-- Modules in slots from `first` on, in ascending order, before `last`, none too large.
abbrev pub InSlots : ℕ → ℕ → List Module → Type 0
InSlots first last [] = first ≤ last
InSlots first last (m ∷ ms) =
    (first ≤ m.slot) × (m.capacity_bytes ≤ largest_module) × InSlots (m.slot + 1) last ms

InSlots-weaken : (i j last : ℕ) (ms : List Module) → i ≤ j → InSlots j last ms → InSlots i last ms
InSlots-weaken i j last [] h s = omega arith
InSlots-weaken i j last (m ∷ ms) h (p, q, r) = (omega arith, q, r)

push_found-InSlots :
    (x : Option Module) (i last : ℕ) (ms : List Module)
    → ((m : Module) → x ≡ some m → (m.slot ≡ i) × (m.capacity_bytes ≤ largest_module))
    → InSlots (i + 1) last ms
    → InSlots i last (push_found x ms)
push_found-InSlots none i last ms found s = InSlots-weaken i (i + 1) last ms (omega arith) s
push_found-InSlots (some m) i last ms found s =
    let (at, small) = found m refl in
    (omega arith, small, InSlots-weaken (m.slot + 1) (i + 1) last ms (omega arith) s)

-- The sum without a wrap.
unfoldable pub installed : List Module → ℕ
installed [] = 0
installed (m ∷ ms) = m.capacity_bytes + installed ms

pub InSlots-installed :
    (first last : ℕ) (ms : List Module)
    → InSlots first last ms
    → installed ms + first * largest_module ≤ last * largest_module
unfolding installed
InSlots-installed first last [] h = omega arith
InSlots-installed first last (m ∷ ms) (p, q, r) =
    omega (arith, InSlots-installed (m.slot + 1) last ms r)

pub InSlots-length :
    (first last : ℕ) (ms : List Module) → InSlots first last ms → first + length ms ≤ last
InSlots-length first last [] h = omega arith
InSlots-length first last (m ∷ ms) (p, q, r) = omega (arith, InSlots-length (m.slot + 1) last ms r)

-- The sizes of modules in the eight slots do not overflow a sum of 64 bits.
pub spd_total-installed :
    (first : ℕ) (ms : List Module) → InSlots first 8 ms → spd_total ms ≡ installed ms
unfolding spd_total installed
spd_total-installed first [] h = refl
spd_total-installed first (m ∷ ms) (p, q, r) =
    omega (arith, spd_total-installed (m.slot + 1) ms r, InSlots-installed (m.slot + 1) 8 ms r)

module _ {B : Type 0} (bus : SmBus B) where
  capacity-le :
      (kind : DramKind) (addr : ℕ) (b : B) {m : ℕ}
      → (capacity bus kind addr b).0 ≡ some m
      → m ≤ largest_module
  unfolding capacity ddr4_capacity ddr5_capacity
  capacity-le ddr4 addr b e = grind (arith, ddr4_decode-le)
  capacity-le ddr5 addr b e = grind (arith, ddr5_decode-le)
  capacity-le (unknown k) addr b e = cc

  -- A module that was found stands in the slot of its address and is no larger than the largest.
  probe_found :
      (addr : ℕ) (b : B) {m : Module}
      → (probe bus addr b).0 ≡ some m
      → (m.slot ≡ addr - 0x50) × (m.capacity_bytes ≤ largest_module)
  unfolding probe
  probe_found addr b e = grind (arith, capacity-le)

  enumerate_from-InSlots :
      (n addr : ℕ) (b : B)
      → 0x50 ≤ addr
      → InSlots (addr - 0x50) (addr + n - 0x50) (enumerate_from bus n addr b).0
  unfolding enumerate_from
  enumerate_from-InSlots zero addr b h = omega arith
  enumerate_from-InSlots (suc n) addr b h =
      let rest = (enumerate_from bus n (addr + 1) (probe bus addr b).1).0 in
      push_found-InSlots (probe bus addr b).0 (addr - 0x50) (addr + suc n - 0x50) rest
        (λ m p. probe_found addr b p)
        (subst (λ k. InSlots k (addr + suc n - 0x50) rest) (next addr h)
          (subst (λ k. InSlots (addr + 1 - 0x50) (k - 0x50) rest) (plus_suc addr n)
            (enumerate_from-InSlots n (addr + 1) (probe bus addr b).1 (omega arith))))
    where
      plus_suc : (i k : ℕ) → i + 1 + k ≡ i + suc k
      plus_suc i k = omega arith

      next : (addr : ℕ) → 0x50 ≤ addr → addr + 1 - 0x50 ≡ addr - 0x50 + 1
      next addr h = omega arith

  -- What `enumerate` finds stands in the eight slots, in ascending order.
  pub enumerate-InSlots : (b : B) → InSlots 0 8 (enumerate bus b).0
  unfolding enumerate
  enumerate-InSlots b = enumerate_from-InSlots 8 0x50 b (omega arith)
