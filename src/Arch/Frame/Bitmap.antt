-- ===== src/Arch/Frame/Bitmap.antt =====
-- The bitmap as a set of frames in use: one bit is read or written, the others stay.
use whisez_os.Prelude.{
  ℕ, zero, suc, ◌-◌, ◌/◌, ◌%◌, ◌^◌, ◌<◌, ◌≡◌, ap, ◌∙◌, Bool, true, not, ◌&&◌, ◌||◌, none, some,
  List, [], ◌∷◌, arith, ◌==◌, if◌then◌else◌, get_elem?, set, get_elem?-set_self, get_elem?-set_ne,
  get_elem?-lt, ℕ_discrete,
}
use whisez_os.Prelude.Bits.{
  pow_lt_pow, bit, bit-bit_or, bit-bit_and, bit-pow, bit_compl, bit_or-lt, bit_and-le,
}
use whisez_os.Arch.Frame.{frames_per_word, set_bit, clear_bit}

-- Whether the frame at an offset is in use; past the bitmap it counts as in use.
abbrev pub used_at : List ℕ → ℕ → Bool
used_at bitmap o = elim (get_elem? bitmap (o / frames_per_word)) [
  | none ↦ true
  | some w ↦ bit w (o % frames_per_word)
]

abbrev pub AllWords : List ℕ → Type 0
AllWords [] = Unit {0}
AllWords (w ∷ ws) = (w < 2 ^ 64) × AllWords ws

pub AllWords-get :
    (ws : List ℕ) (i : ℕ) {w : ℕ} → AllWords ws → get_elem? ws i ≡ some w → w < 2 ^ 64
AllWords-get [] i a e = cc
AllWords-get (x ∷ ws) zero a e = ground arith
AllWords-get (x ∷ ws) (suc i) {w} a e = AllWords-get ws i {w = w} a.1 e

pub AllWords-set : (ws : List ℕ) (i w : ℕ) → w < 2 ^ 64 → AllWords ws → AllWords (set ws i w)
AllWords-set [] i w h a = tt
AllWords-set (x ∷ ws) zero w h a = (h, a.1)
AllWords-set (x ∷ ws) (suc i) w h a = (a.0, AllWords-set ws i w h a.1)

pow-lt : (k : ℕ) → k < 64 → 2 ^ k < 2 ^ 64
pow-lt = pow_lt_pow 64

pub set_bit-lt : (w k : ℕ) → w < 2 ^ 64 → k < 64 → set_bit w k < 2 ^ 64
set_bit-lt w k h lt = bit_or-lt 64 w (2 ^ k) h (pow-lt k lt)

pub clear_bit-lt : (w k : ℕ) → w < 2 ^ 64 → clear_bit w k < 2 ^ 64
clear_bit-lt w k h = omega (arith, bit_and-le 64 w (2 ^ 64 - 1 - 2 ^ k) h)

pub bit-set_bit : (w k i : ℕ) → bit (set_bit w k) i ≡ (bit w i || (k == i))
bit-set_bit w k i = bit-bit_or w (2 ^ k) i ∙ ap (λ b. bit w i || b) (bit-pow k i)

pub bit-clear_bit :
    (w k i : ℕ) → k < 64 → i < 64 → bit (clear_bit w k) i ≡ (bit w i && not (k == i))
bit-clear_bit w k i h lt =
    bit-bit_and w (2 ^ 64 - 1 - 2 ^ k) i
    ∙ ap (λ b. bit w i && b) (bit_compl 64 (2 ^ k) i (pow-lt k h) lt ∙ ap not (bit-pow k i))

-- Writing the bit of one frame, in the word where it stands, writes that frame alone.
pub used_at-set :
    (bitmap : List ℕ) (o p w w' : ℕ) (b : Bool)
    → get_elem? bitmap (o / frames_per_word) ≡ some w
    → ((i : ℕ) → i < 64 → bit w' i ≡ (if o % frames_per_word == i then b else bit w i))
    → used_at (set bitmap (o / frames_per_word) w') p ≡ (if o == p then b else used_at bitmap p)
used_at-set bitmap o p w w' b e h = elim (ℕ_discrete (o / 64) (p / 64)) [
  | yes same ↦ ground (
    arith,
    ap (get_elem? (set bitmap (o / 64) w')) same,
    ap (get_elem? bitmap) same,
    get_elem?-set_self bitmap (o / 64) w' (get_elem?-lt bitmap (o / 64) e),
    h (p % 64) (omega arith),
  )
  | no differs ↦ ground (arith, get_elem?-set_ne bitmap w' differs)
]
