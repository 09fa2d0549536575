-- ===== src/Pe/Reads.antt =====
-- What the reads and the alignments of the loader give.
use whisez_os.Prelude.{
  ℕ, zero, suc, ◌+◌, ◌-◌, ◌*◌, ◌/◌, ◌%◌, ◌^◌, ◌≤◌, ◌<◌, ◌≡◌, refl, ap, ◌∙◌, sym, subst, bit_and,
  max, true, List, [], ◌∷◌, arith, ◌==◌, leb, length, take, drop, Bool-cases, inl, inr,
}
use whisez_os.Prelude.Bits.{bit_and_step}
use whisez_os.Prelude.Results.{ok}
use native.Mathlib.Nat.{
  pow-suc, one-le-pow, pow-le-pow_right, mul_assoc, div-div-eq-div-mul, div-one, div-mul-le_self,
  lt-div-mul-add,
}
use whisez_os.Pe.{
  le_value, read_word, Section, align_down, align_up_u64, start_of, end_of, is_power_of_two,
  pow_upto,
}

-- A list of bytes.
abbrev pub IsBytes : List ℕ → Type 0
IsBytes [] = Unit {0}
IsBytes (b ∷ bs) = (b < 256) × IsBytes bs

IsBytes-drop : (n : ℕ) (bs : List ℕ) → IsBytes bs → IsBytes (drop n bs)
IsBytes-drop zero bs h = h
IsBytes-drop (suc n) [] h = h
IsBytes-drop (suc n) (b ∷ bs) h = IsBytes-drop n bs h.1

le_value-lt : (n : ℕ) (bs : List ℕ) → IsBytes bs → le_value (take n bs) < 256 ^ n
unfolding le_value
le_value-lt zero bs h = omega arith
le_value-lt (suc n) [] h = omega (arith, one-le-pow (suc n) 256 (omega arith))
le_value-lt (suc n) (b ∷ bs) h = omega (arith, le_value-lt n bs h.1, h.0, pow-suc 256 n)

-- A word that is read lies in the file, and fits in its bytes.
pub read_word-lt :
    (n : ℕ) (b : List ℕ) (off : ℕ) {v : ℕ} → IsBytes b → read_word n b off ≡ ok v → v < 256 ^ n
unfolding read_word
read_word-lt n b off {v} bytes e = elim (Bool-cases (leb (off + n) (length b))) [
  | inl fits ↦
      let same : le_value (take n (drop off b)) ≡ v = ground arith in
      omega (arith, same, le_value-lt n (drop off b) (IsBytes-drop off b bytes))
  | inr short ↦ absurd (ground arith)
]

and_ones : (n v : ℕ) → v < 2 ^ n → bit_and v (2 ^ n - 1) ≡ v
and_ones zero zero h = refl
and_ones zero (suc v) h = absurd (omega arith)
and_ones (suc n) v h =
    let p = pow-suc 2 n in
    let one = one-le-pow n 2 (omega arith) in
    let half : (2 ^ suc n - 1) / 2 ≡ 2 ^ n - 1 = omega arith in
    let low : (2 ^ suc n - 1) % 2 ≡ 1 = omega arith in
    let ih = and_ones n (v / 2) (omega arith) in
    let whole = ap (λ m. bit_and (v / 2) m) half ∙ ih in
    omega (arith, bit_and_step v (2 ^ suc n - 1))

-- The mask of a power of two rounds down to a multiple.
and_mask : (k n v : ℕ) → k ≤ n → v < 2 ^ n → bit_and v (2 ^ n - 2 ^ k) ≡ v / 2 ^ k * 2 ^ k
and_mask zero n v l h = omega (arith, and_ones n v h, div-one v)
and_mask (suc k) zero v l h = absurd (omega arith)
and_mask (suc k) (suc n) v l h =
    let p = pow-suc 2 n in
    let q = pow-suc 2 k in
    let half : (2 ^ suc n - 2 ^ suc k) / 2 ≡ 2 ^ n - 2 ^ k = omega arith in
    let low : (2 ^ suc n - 2 ^ suc k) % 2 ≡ 0 = omega arith in
    let ih = and_mask k n (v / 2) (omega arith) (omega arith) in
    let whole = ap (λ m. bit_and (v / 2) m) half ∙ ih in
    let double : 2 * 2 ^ k ≡ 2 ^ suc k = omega arith in
    let twice = div-div-eq-div-mul v 2 (2 ^ k) ∙ ap (λ d. v / d) double in
    let scaled : v / 2 ^ suc k * 2 ^ suc k ≡ v / 2 ^ suc k * 2 ^ k * 2 =
      ap (λ d. v / 2 ^ suc k * d) q ∙ sym (mul_assoc (v / 2 ^ suc k) (2 ^ k) 2) in
    let back : v / 2 / 2 ^ k * 2 ^ k ≡ v / 2 ^ suc k * 2 ^ k = ap (λ d. d * 2 ^ k) twice in
    omega (arith, bit_and_step v (2 ^ suc n - 2 ^ suc k))

pow_upto-pow : (k v : ℕ) → pow_upto k v ≡ true → (j : ℕ) × (j < k) × (v ≡ 2 ^ j)
pow_upto-pow zero v e = cc
pow_upto-pow (suc k) v e = elim (Bool-cases (v == 2 ^ k)) [
  | inl here ↦ (k, omega arith, ground arith)
  | inr other ↦ let (j, l, same) = pow_upto-pow k v (ground arith) in (j, omega arith, same)
]

-- The pages of a section: from `start` to `stop`, whole pages that hold the section and nothing that a page less would.
pub record Pages (s : Section) (alignment start stop : ℕ) : Type 0 where
  pub first : ℕ
  pub last : ℕ
  pub start_whole : start ≡ first * alignment
  pub stop_whole : stop ≡ last * alignment
  pub from_start : start ≤ s.virtual_address
  pub near_start : s.virtual_address < start + alignment
  pub to_stop : s.virtual_address + max s.virtual_size s.size_of_raw_data ≤ stop
  pub near_stop : stop < s.virtual_address + max s.virtual_size s.size_of_raw_data + alignment

start_stop-Pages :
    (s : Section) (k : ℕ)
    → k < 32
    → s.virtual_address < 2 ^ 32
    → s.virtual_size < 2 ^ 32
    → s.size_of_raw_data < 2 ^ 32
    → Pages s (2 ^ k) (start_of s (2 ^ k)) (end_of s (2 ^ k))
unfolding start_of end_of align_down align_up_u64
start_stop-Pages s k h va vs rs =
    let one = one-le-pow k 2 (omega arith) in
    let le32 = pow-le-pow_right {n = 2} (omega arith) {i = k} {j = 32} (omega arith) in
    let e = s.virtual_address + max s.virtual_size s.size_of_raw_data in
    let up = (e + 2 ^ k - 1) % 2 ^ 64 in
    let mask32 : 2 ^ 32 - 1 - (2 ^ k - 1) ≡ 2 ^ 32 - 2 ^ k = omega arith in
    let mask64 : 2 ^ 64 - 1 - (2 ^ k - 1) ≡ 2 ^ 64 - 2 ^ k = omega arith in
    let down =
      ap (bit_and s.virtual_address) mask32 ∙ and_mask k 32 s.virtual_address (omega arith) va in
    let above = ap (bit_and up) mask64 ∙ and_mask k 64 up (omega arith) (omega arith) in
    let up_is : up ≡ e + 2 ^ k - 1 = omega arith in
    let a = div-mul-le_self s.virtual_address (2 ^ k) in
    let b = lt-div-mul-add {a = s.virtual_address} {b = 2 ^ k} one in
    let c = div-mul-le_self up (2 ^ k) in
    let d = lt-div-mul-add {a = up} {b = 2 ^ k} one in
    record {
      first = s.virtual_address / 2 ^ k;
      last = up / 2 ^ k;
      start_whole = down;
      stop_whole = above;
      from_start = omega (arith, down, a);
      near_start = omega (arith, down, b);
      to_stop = omega (arith, above, d, up_is);
      near_stop = omega (arith, above, c, up_is);
    }

-- For an alignment that passes the test, and a section of 32-bit words.
pub section-Pages :
    (s : Section) (alignment : ℕ)
    → is_power_of_two alignment ≡ true
    → s.virtual_address < 2 ^ 32
    → s.virtual_size < 2 ^ 32
    → s.size_of_raw_data < 2 ^ 32
    → Pages s alignment (start_of s alignment) (end_of s alignment)
section-Pages s alignment h va vs rs =
    let (k, l, same) = pow_upto-pow 32 alignment h in
    subst (λ al. Pages s al (start_of s al) (end_of s al)) (sym same)
      (start_stop-Pages s k l va vs rs)
