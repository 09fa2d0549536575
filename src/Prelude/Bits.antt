-- ===== src/Prelude/Bits.antt =====
-- Bit operations on machine words, bit by bit. A word is a number, and bit i of it is read by
-- halving. The laws of the native operations follow from their recursion over the digits.
use Prim.Native.Nat.{
  ℕ, zero, suc, ◌+◌, ◌-◌, ◌*◌, ◌/◌, ◌%◌, ◌^◌, ◌≤◌, ◌<◌, min, max, bit_and, bit_or, bit_xor, digits,
  differ, bit_and-bitwise, bit_or-bitwise, bit_xor-bitwise,
}
use mathlib.Core.Path.{◌≡◌, refl, sym, ap, ◌∙◌}
use mathlib.Core.Bool.{Bool, true, false, not, ◌&&◌, ◌||◌}
use native.Mathlib.Omega.{arith}
use native.Mathlib.Nat.{pow-suc, one-le-pow, mul_assoc}
use whisez_os.Prelude.Tests.{◌==◌, ltb}

-- The digit recursion does not depend on its fuel, and takes one digit off both numbers.
module _ (z : ℕ → ℕ) (f : ℕ → ℕ → ℕ) where
  digits_enough : (n m a b : ℕ) → a ≤ n → a ≤ m → digits z f n a b ≡ digits z f m a b
  digits_enough zero zero a b h k = refl
  digits_enough zero (suc m) zero b h k = refl
  digits_enough zero (suc m) (suc a) b h k = absurd (omega arith)
  digits_enough (suc n) zero zero b h k = refl
  digits_enough (suc n) zero (suc a) b h k = absurd (omega arith)
  digits_enough (suc n) (suc m) zero b h k = refl
  digits_enough (suc n) (suc m) (suc a) b h k =
      ap (λ t. t * 2 + f (suc a % 2) (b % 2))
        (digits_enough n m (suc a / 2) (b / 2) (omega arith) (omega arith))

  digits_step :
      ((b : ℕ) → z b ≡ z (b / 2) * 2 + f 0 (b % 2))
      → (a b : ℕ) → digits z f a a b ≡ digits z f (a / 2) (a / 2) (b / 2) * 2 + f (a % 2) (b % 2)
  digits_step start zero b = start b
  digits_step start (suc a) b =
      ap (λ t. t * 2 + f (suc a % 2) (b % 2))
        (digits_enough a (suc a / 2) (suc a / 2) (b / 2) (omega arith) (omega arith))

pub bit_and_step : (a b : ℕ) → bit_and a b ≡ bit_and (a / 2) (b / 2) * 2 + min (a % 2) (b % 2)
bit_and_step a b = ground (
  arith,
  bit_and-bitwise a b,
  bit_and-bitwise (a / 2) (b / 2),
  digits_step (λ b. 0) min (λ b. omega arith) a b,
)

pub bit_or_step : (a b : ℕ) → bit_or a b ≡ bit_or (a / 2) (b / 2) * 2 + max (a % 2) (b % 2)
bit_or_step a b = ground (
  arith,
  bit_or-bitwise a b,
  bit_or-bitwise (a / 2) (b / 2),
  digits_step (λ b. b) max (λ b. omega arith) a b,
)

-- Bit i of a word.
unfoldable pub bit : ℕ → ℕ → Bool
bit w zero = w % 2 == 1
bit w (suc i) = bit (w / 2) i

pub bit-bit_and : (a b i : ℕ) → bit (bit_and a b) i ≡ (bit a i && bit b i)
unfolding bit
bit-bit_and a b zero = ground (arith, bit_and_step a b)
bit-bit_and a b (suc i) = ground (arith, bit_and_step a b, bit-bit_and (a / 2) (b / 2) i)

pub bit-bit_or : (a b i : ℕ) → bit (bit_or a b) i ≡ (bit a i || bit b i)
unfolding bit
bit-bit_or a b zero = ground (arith, bit_or_step a b)
bit-bit_or a b (suc i) = ground (arith, bit_or_step a b, bit-bit_or (a / 2) (b / 2) i)

pub bit_zero : (i : ℕ) → bit 0 i ≡ false
unfolding bit
bit_zero zero = refl
bit_zero (suc i) = bit_zero i

pub bit-pow : (k i : ℕ) → bit (2 ^ k) i ≡ (k == i)
unfolding bit
bit-pow zero zero = refl
bit-pow zero (suc i) = ground (arith, bit_zero i)
bit-pow (suc k) zero = ground (arith, pow-suc 2 k)
bit-pow (suc k) (suc i) = ground (arith, pow-suc 2 k, bit-pow k i)

-- The complement within n bits.
pub bit_compl : (n x i : ℕ) → x < 2 ^ n → i < n → bit (2 ^ n - 1 - x) i ≡ not (bit x i)
unfolding bit
bit_compl zero x i h k = absurd (omega arith)
bit_compl (suc n) x zero h k = ground (arith, pow-suc 2 n)
bit_compl (suc n) x (suc i) h k =
    ground (arith, pow-suc 2 n, bit_compl n (x / 2) i (omega (arith, pow-suc 2 n)))

-- Words of n bits that agree bit by bit are equal.
pub bit_ext : (n a b : ℕ) → a < 2 ^ n → b < 2 ^ n → ((i : ℕ) → i < n → bit a i ≡ bit b i) → a ≡ b
unfolding bit
bit_ext zero a b ha hb same = omega arith
bit_ext (suc n) a b ha hb same = ground (
  arith,
  same 0 (omega arith),
  bit_ext n (a / 2) (b / 2) (omega (arith, pow-suc 2 n)) (omega (arith, pow-suc 2 n))
      (λ i h. same (suc i) (omega arith)),
)

pub bit_above : (n a i : ℕ) → a < 2 ^ n → n ≤ i → bit a i ≡ false
unfolding bit
bit_above zero a i h k = ground (arith, bit_zero i)
bit_above (suc n) a zero h k = absurd (omega arith)
bit_above (suc n) a (suc i) h k = bit_above n (a / 2) i (omega (arith, pow-suc 2 n)) (omega arith)

pub bit_or-lt : (n a b : ℕ) → a < 2 ^ n → b < 2 ^ n → bit_or a b < 2 ^ n
bit_or-lt zero a b h k = ground (arith, bit_or_step a b)
bit_or-lt (suc n) a b h k = ground (
  arith,
  pow-suc 2 n,
  bit_or_step a b,
  bit_or-lt n (a / 2) (b / 2) (omega (arith, pow-suc 2 n)) (omega (arith, pow-suc 2 n)),
)

pub bit_and-le : (n a b : ℕ) → a < 2 ^ n → bit_and a b ≤ a
bit_and-le zero zero b h = ground (arith, bit_and-bitwise 0 b)
bit_and-le zero (suc a) b h = absurd (omega arith)
bit_and-le (suc n) a b h =
    ground (arith, bit_and_step a b, bit_and-le n (a / 2) (b / 2) (omega (arith, pow-suc 2 n)))

bit_and-zero : (n a : ℕ) → a ≤ n → bit_and a 0 ≡ 0
bit_and-zero zero a h = ground (arith, bit_and-bitwise a 0)
bit_and-zero (suc n) zero h = refl
bit_and-zero (suc n) (suc a) h =
    omega (arith, bit_and_step (suc a) 0, bit_and-zero n (suc a / 2) (omega arith))

-- `w & (1 << i) != 0`, as the sources write the test of a bit.
unfoldable pub has_bit : ℕ → ℕ → Bool
has_bit w i = not (bit_and w (2 ^ i) == 0)

pub has_bit-bit : (w i : ℕ) → has_bit w i ≡ bit w i
unfolding has_bit bit
has_bit-bit w zero = ground (arith, bit_and_step w 1, bit_and-zero (w / 2) (w / 2))
has_bit-bit w (suc i) =
    ground (arith, bit_and_step w (2 ^ suc i), pow-suc 2 i, has_bit-bit (w / 2) i)

-- Tests of one bit of a mask or a set of flags are written in this form too: `w & m == m`.
unfoldable pub has_all : ℕ → ℕ → Bool
has_all w m = bit_and w m == m

bit_and_assoc : (n a b c : ℕ) → a ≤ n → bit_and (bit_and a b) c ≡ bit_and a (bit_and b c)
bit_and_assoc zero zero b c h =
    ground (arith, bit_and-bitwise 0 b, bit_and-bitwise 0 c, bit_and-bitwise 0 (bit_and b c))
bit_and_assoc zero (suc a) b c h = absurd (omega arith)
bit_and_assoc (suc n) zero b c h = bit_and_assoc n zero b c (omega arith)
bit_and_assoc (suc n) (suc a) b c h = ground (
  arith,
  bit_and_step (suc a) b,
  bit_and_step b c,
  bit_and_step (bit_and (suc a) b) c,
  bit_and_step (suc a) (bit_and b c),
  bit_and_assoc n (suc a / 2) (b / 2) (c / 2) (omega arith),
)

-- `contains` is transitive: what a set holds, a larger one holds.
pub has_all_trans : (a b c : ℕ) → has_all a b ≡ true → has_all b c ≡ true → has_all a c ≡ true
unfolding has_all
has_all_trans a b c h k = ground (arith, bit_and_assoc a a b c (omega arith))

-- A flag of one bit is contained exactly when the bit is set.
pub has_all-bit : (w k : ℕ) → has_all w (2 ^ k) ≡ bit w k
unfolding has_all bit
has_all-bit w zero = ground (arith, bit_and_step w 1, bit_and-zero (w / 2) (w / 2))
has_all-bit w (suc k) =
    ground (arith, bit_and_step w (2 ^ suc k), pow-suc 2 k, has_all-bit (w / 2) k)

-- The low bits of a multiple of a power of two are zero.
pub low_bit_zero : (n q k : ℕ) → k < n → bit (q * 2 ^ n) k ≡ false
unfolding bit
low_bit_zero zero q k h = absurd (omega arith)
low_bit_zero (suc n) q zero h = ground (arith, ap (λ t. q * t) (pow-suc 2 n))
low_bit_zero (suc n) q (suc k) h =
    ground (arith, ap (λ t. q * t) (pow-suc 2 n), low_bit_zero n q k (omega arith))

-- A shift to the left moves the bits up, and 2 ^ r - 1 has the r low bits.
pub bit_shift : (n x i : ℕ) → bit (x * 2 ^ n) (n + i) ≡ bit x i
unfolding bit
bit_shift zero x i = ground arith
bit_shift (suc n) x i =
    ap (bit (x * 2 ^ suc n)) (up n i) ∙ ap (λ y. bit y (n + i)) (half n x) ∙ bit_shift n x i
  where
    up : (n i : ℕ) → suc n + i ≡ suc (n + i)
    up n i = omega arith

    half : (n x : ℕ) → x * 2 ^ suc n / 2 ≡ x * 2 ^ n
    half n x = omega (arith, ap (λ t. x * t) (pow-suc 2 n))

pub bit_ones : (r i : ℕ) → bit (2 ^ r - 1) i ≡ ltb i r
unfolding bit
bit_ones zero i = ground (arith, bit_zero i)
bit_ones (suc r) zero = ground (arith, pow-suc 2 r, one-le-pow r 2 (omega arith))
bit_ones (suc r) (suc i) = ground (arith, pow-suc 2 r, one-le-pow r 2 (omega arith), bit_ones r i)

pub pow_lt_pow : (n k : ℕ) → k < n → 2 ^ k < 2 ^ n
pow_lt_pow zero k h = absurd (omega arith)
pow_lt_pow (suc n) zero h = omega (arith, pow-suc 2 n, one-le-pow n 2 (omega arith))
pow_lt_pow (suc n) (suc k) h = omega (arith, pow-suc 2 n, pow-suc 2 k, pow_lt_pow n k (omega arith))

pub or_zero : (n a : ℕ) → a ≤ n → bit_or 0 a ≡ a
or_zero zero zero h = refl
or_zero zero (suc a) h = absurd (omega arith)
or_zero (suc n) zero h = refl
or_zero (suc n) (suc a) h =
    omega (arith, bit_or_step 0 (suc a), or_zero n (suc a / 2) (omega arith))

-- Fields that do not meet are put together as by a sum.
pub or_fields : (n a b : ℕ) → a < 2 ^ n → bit_or a (b * 2 ^ n) ≡ a + b * 2 ^ n
or_fields zero zero b h = or_zero (b * 2 ^ 0) (b * 2 ^ 0) (omega arith) ∙ omega arith
or_fields zero (suc a) b h = absurd (omega arith)
or_fields (suc n) a b h =
    let p = ap (λ t. b * t) (pow-suc 2 n) ∙ sym (mul_assoc b (2 ^ n) 2) in
    let half : b * 2 ^ suc n / 2 ≡ b * 2 ^ n = omega arith in
    let low : b * 2 ^ suc n % 2 ≡ 0 = omega arith in
    let ih = or_fields n (a / 2) b (omega (arith, pow-suc 2 n)) in
    let whole = ap (bit_or (a / 2)) half ∙ ih in omega (arith, bit_or_step a (b * 2 ^ suc n))

pub bit_xor_step : (a b : ℕ) → bit_xor a b ≡ bit_xor (a / 2) (b / 2) * 2 + differ (a % 2) (b % 2)
bit_xor_step a b = ground (
  arith,
  bit_xor-bitwise a b,
  bit_xor-bitwise (a / 2) (b / 2),
  digits_step (λ b. b) differ (λ b. omega arith) a b,
)

eq_of_differ : (x y : ℕ) → differ x y ≡ 0 → x ≡ y
eq_of_differ zero y e = sym e
eq_of_differ (suc x) zero e = e
eq_of_differ (suc x) (suc y) e = ap suc (eq_of_differ x y e)

differ_self : (x : ℕ) → differ x x ≡ 0
differ_self zero = refl
differ_self (suc x) = differ_self x

-- Nothing is left of numbers that are equal, and only of those.
pub eq_of_xor : (n a b : ℕ) → a ≤ n → b ≤ n → bit_xor a b ≡ 0 → a ≡ b
eq_of_xor zero a b h k e = omega arith
eq_of_xor (suc n) a b h k e =
    let s = bit_xor_step a b in
    let low = eq_of_differ (a % 2) (b % 2) (omega arith) in
    let high = eq_of_xor n (a / 2) (b / 2) (omega arith) (omega arith) (omega arith) in omega arith

pub xor_self : (n a : ℕ) → a ≤ n → bit_xor a a ≡ 0
xor_self zero zero h = refl
xor_self zero (suc a) h = absurd (omega arith)
xor_self (suc n) a h =
    omega (arith, bit_xor_step a a, differ_self (a % 2), xor_self n (a / 2) (omega arith))

pub or_eq_zero : (n a b : ℕ) → a ≤ n → b ≤ n → bit_or a b ≡ 0 → (a ≡ 0) × (b ≡ 0)
or_eq_zero zero a b h k e = omega arith
or_eq_zero (suc n) a b h k e =
    ground (arith, bit_or_step a b, or_eq_zero n (a / 2) (b / 2) (omega arith) (omega arith))
