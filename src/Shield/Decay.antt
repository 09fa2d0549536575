-- ===== src/Shield/Decay.antt =====
-- How fast a score falls.
use whisez_os.Prelude.{
  ℕ, suc, ◌+◌, ◌-◌, ◌*◌, ◌/◌, ◌%◌, ◌^◌, ◌≤◌, ◌<◌, ◌≡◌, arith, leb, ap, sym, ◌∙◌, Bool-cases, inl,
  inr,
}
use native.Mathlib.Nat.{
  pow-suc, mul-le-mul_left, div-eq_of_lt, div-div-eq-div-mul, pow-le-pow_right, div-le_self,
}
use whisez_os.Shield.{decayed, half_life_ms}

reduction-le : (h r : ℕ) → r < half_life_ms → h / 2 ≤ h - h * r / (half_life_ms * 2)
reduction-le h r l =
    let product : h * r ≤ h * half_life_ms = mul-le-mul_left h (omega arith) in omega arith

div_twice : (score p : ℕ) → score / 2 ^ (p + 1) ≡ score / 2 ^ p / 2
div_twice score p =
    ap (λ t. score / 2 ^ t) (next p)
    ∙ ap (λ t. score / t) (pow-suc 2 p)
    ∙ sym (div-div-eq-div-mul score (2 ^ p) 2)
  where
    next : (p : ℕ) → p + 1 ≡ suc p
    next p = omega arith

no_bits : (score p : ℕ) → score < 2 ^ 32 → 32 ≤ p → score / 2 ^ (p + 1) ≡ 0
no_bits score p h l =
    div-eq_of_lt
      (omega (arith, pow-le-pow_right {n = 2} (omega arith) {i = 32} {j = p + 1} (omega arith)))

-- A score of 32 bits that has decayed for some time lies between its halvings for the half-lives that
-- are over and one more, and is 0 after 32 half-lives.
pub decayed_bounds :
    (score elapsed : ℕ)
    → score < 2 ^ 32
    → (decayed score elapsed ≤ score / 2 ^ (elapsed / half_life_ms))
      × (score / 2 ^ (elapsed / half_life_ms + 1) ≤ decayed score elapsed)
unfolding decayed
decayed_bounds score elapsed h =
    let p = elapsed / half_life_ms in
    let halved = score / 2 ^ p in
    let small : halved < 2 ^ 32 = omega (arith, div-le_self score (2 ^ p)) in
    let half : score / 2 ^ (p + 1) ≡ halved / 2 = div_twice score p in
    let less = reduction-le halved (elapsed % half_life_ms) (omega arith) in
    elim (Bool-cases (leb 32 p)) [
      | inl long ↦ ground (arith, no_bits score p h)
      | inr short ↦ ground (arith, less, half)
    ]

pub decayed-le : (score elapsed : ℕ) → score < 2 ^ 32 → decayed score elapsed ≤ score
decayed-le score elapsed h =
    omega (arith, decayed_bounds score elapsed h, div-le_self score (2 ^ (elapsed / half_life_ms)))
