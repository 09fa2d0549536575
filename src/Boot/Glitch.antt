-- ===== src/Boot/Glitch.antt =====
-- The lines of the address column that boot/spectre-boot/src/glitch.rs prints of a digest. A line is
-- the list of its bytes.
use whisez_os.Prelude.{
  ℕ, zero, suc, ◌+◌, ◌-◌, ◌*◌, ◌/◌, ◌%◌, ◌<◌, ◌≡◌, refl, ap, ◌∙◌, List, [], ◌∷◌, ◌++◌, ◌==◌, ltb,
  arith, length, get_or, drop, every_below_lem, ==_iff, if◌then◌else◌, max,
}
use Prim.Native.String.{String}

abbrev pub memory_halt_text : String
memory_halt_text = "NO MEMORY DETECTED - SYSTEM HALTED"

abbrev pub tamper_halt_text : String
tamper_halt_text = "KERNEL TAMPER DETECTED"

abbrev pub hex : List ℕ
hex =
    b'0' ∷ b'1' ∷ b'2' ∷ b'3' ∷ b'4' ∷ b'5' ∷ b'6' ∷ b'7' ∷ b'8' ∷ b'9' ∷ b'A' ∷ b'B' ∷ b'C' ∷ b'D'
    ∷ b'E' ∷ b'F' ∷ []

-- The four bits that digit `nibble` of a line shows.
unfoldable pub nibble_at : List ℕ → ℕ → ℕ → ℕ
nibble_at digest base nibble =
    let byte = get_or digest ((base + nibble / 2) % max (length digest) 1) 0 in
    if nibble % 2 == 0 then byte / 16 else byte % 16

-- The loop over the nibbles from `nibble` on, `n` of them.
unfoldable pub nibbles_from : ℕ → ℕ → List ℕ → ℕ → List ℕ
nibbles_from zero nibble digest base = []
nibbles_from (suc n) nibble digest base =
    get_or hex (nibble_at digest base nibble) 0 ∷ nibbles_from n (nibble + 1) digest base

unfoldable pub tamper_line : List ℕ → ℕ → List ℕ
tamper_line digest line =
    b'0' ∷ b'x' ∷ nibbles_from 16 0 digest (line * 8 % max (length digest) 1) ++ b' ' ∷ []

-- The value of a digit.
unfoldable pub unhex : ℕ → ℕ
unhex c = if ltb c b'A' then c - b'0' else c - b'A' + 10

unhex-hex : (v : ℕ) → v < 16 → unhex (get_or hex v 0) ≡ v
unfolding unhex
unhex-hex v h =
    (==_iff (unhex (get_or hex v 0)) v).0
      (every_below_lem 16 (λ v. unhex (get_or hex v 0) == v) v refl h)

nibbles_from-get :
    (n nibble : ℕ) (digest : List ℕ) (base k : ℕ) (tail : List ℕ)
    → k < n
    → get_or (nibbles_from n nibble digest base ++ tail) k 0
      ≡ get_or hex (nibble_at digest base (nibble + k)) 0
unfolding nibbles_from
nibbles_from-get zero nibble digest base k tail h = absurd (omega arith)
nibbles_from-get (suc n) nibble digest base zero tail h =
    ap (λ i. get_or hex (nibble_at digest base i) 0) (omega arith)
nibbles_from-get (suc n) nibble digest base (suc k) tail h =
    nibbles_from-get n (nibble + 1) digest base k tail (omega arith)
    ∙ ap (λ i. get_or hex (nibble_at digest base i) 0) (omega arith)

-- The byte that two digits of a line stand for.
unfoldable pub byte_of_line : List ℕ → ℕ → ℕ
byte_of_line line j =
    unhex (get_or (drop 2 line) (2 * j) 0) * 16 + unhex (get_or (drop 2 line) (2 * j + 1) 0)

even_place : (base j : ℕ) → base + j < 64 → (base + 2 * j / 2) % 64 ≡ base + j
even_place base j h = omega arith

even_digit : (j : ℕ) → 2 * j % 2 ≡ 0
even_digit j = omega arith

odd_place : (base j : ℕ) → base + j < 64 → (base + (2 * j + 1) / 2) % 64 ≡ base + j
odd_place base j h = omega arith

odd_digit : (j : ℕ) → (2 * j + 1) % 2 ≡ 1
odd_digit j = omega arith

zero_plus : (k : ℕ) → 0 + k ≡ k
zero_plus k = omega arith

-- Digit k of a line.
digit_of_line :
    (digest : List ℕ) (line k : ℕ)
    → length digest ≡ 64
    → k < 16
    → get_or (drop 2 (tamper_line digest line)) k 0
      ≡ get_or hex (nibble_at digest (line * 8 % 64) k) 0
unfolding tamper_line
digit_of_line digest line k l h =
    nibbles_from-get 16 0 digest (line * 8 % max (length digest) 1) k (b' ' ∷ []) h
    ∙ rw (l, zero_plus k) refl

nibble_at-even :
    (digest : List ℕ) (base j : ℕ)
    → length digest ≡ 64
    → base + j < 64
    → nibble_at digest base (2 * j) ≡ get_or digest (base + j) 0 / 16
unfolding nibble_at
nibble_at-even digest base j l h = rw (l, even_place base j h, even_digit j) refl

nibble_at-odd :
    (digest : List ℕ) (base j : ℕ)
    → length digest ≡ 64
    → base + j < 64
    → nibble_at digest base (2 * j + 1) ≡ get_or digest (base + j) 0 % 16
unfolding nibble_at
nibble_at-odd digest base j l h = rw (l, odd_place base j h, odd_digit j) refl

-- A line shows eight bytes of a digest of 64 bytes, from the eighth of its number on, in two digits
-- each, and lines that differ by eight are the same: the digest can be read off the first eight lines.
pub byte_of_line-tamper_line :
    (digest : List ℕ) (line j : ℕ)
    → length digest ≡ 64
    → ((i : ℕ) → get_or digest i 0 < 256)
    → j < 8
    → byte_of_line (tamper_line digest line) j ≡ get_or digest (line * 8 % 64 + j) 0
unfolding byte_of_line
byte_of_line-tamper_line digest line j l bytes h =
    let base : ℕ = line * 8 % 64 in
    let byte : ℕ = get_or digest (base + j) 0 in
    let small = bytes (base + j) in
    let high = nibble_at-even digest base j l (omega arith) in
    let low = nibble_at-odd digest base j l (omega arith) in
    rw (digit_of_line digest line (2 * j) l (omega arith), high)
      (rw (digit_of_line digest line (2 * j + 1) l (omega arith), low)
        (rw (unhex-hex (byte / 16) (omega arith), unhex-hex (byte % 16) (omega arith))
          (omega arith)))
