-- ===== src/Sched/Lag.antt =====
-- The lag of the background class: `eevdf_eligible` and `eevdf_update_lag` of sched.rs, lines 224
-- to 246. A lag is an `i64`, written as an integer; casts and sums wrap as release builds do.
use whisez_os.Prelude.{
  ℕ, ◌+◌, ◌*◌, ◌/◌, ◌-◌, ◌%◌, ◌^◌, ◌≤◌, ◌<◌, ◌≡◌, ap, ◌∙◌, Bool, true, false, ◌||◌, ◌==◌, ltb,
  if◌then◌else◌, arith,
}
use whisez_os.Prelude.Int.{
  ℤ, pos, negsuc, pos_part, neg_part, ◌+ℤ◌, ◌-ℤ◌, ◌≤ℤ◌, +ℤ_parts, -ℤ_parts, eq_of_parts,
}

unfoldable pub eevdf_eligible : ℤ → Bool
eevdf_eligible (pos n) = true
eevdf_eligible (negsuc n) = false

-- `negsuc n` is -(n + 1).
-- The bits of an `i64`, and the number that 64 bits stand for.
abbrev pub bits : ℤ → ℕ
bits (pos n) = n % 2 ^ 64
bits (negsuc n) = 2 ^ 64 - 1 - n % 2 ^ 64

abbrev pub of_bits : ℕ → ℤ
of_bits b = if ltb b (2 ^ 63) then pos b else negsuc (2 ^ 64 - 1 - b)

unfoldable pub eevdf_update_lag : ℤ → ℕ → ℕ → ℕ → ℤ
eevdf_update_lag lag ran_ns weight total_weight =
    if weight == 0 || total_weight == 0
    then lag
    else let fair = (ran_ns * weight / total_weight) % 2 ^ 64 in
      of_bits ((bits lag + fair + (2 ^ 64 - ran_ns % 2 ^ 64)) % 2 ^ 64)

fair-le : (r w t : ℕ) → w ≤ t → r * w / t ≤ r
fair-le r w t h = grind arith

fair_whole : (r t : ℕ) → 0 < t → r * t / t ≡ r
fair_whole r t h = grind arith

-- The new lag for a fair share `fair`, below the bounds at which a sum would wrap.
lag_step :
    (lag : ℤ) (fair ran_ns : ℕ)
    → fair ≤ ran_ns
    → ran_ns < 2 ^ 62
    → pos_part lag < 2 ^ 62
    → neg_part lag < 2 ^ 62
    → of_bits ((bits lag + fair % 2 ^ 64 + (2 ^ 64 - ran_ns % 2 ^ 64)) % 2 ^ 64)
      ≡ lag +ℤ pos fair -ℤ pos ran_ns
unfolding ◌+ℤ◌ ◌-ℤ◌
lag_step (pos a) fair ran_ns f r p n = ground arith
lag_step (negsuc a) fair ran_ns f r p n = ground arith

eevdf_update_lag_exact :
    (lag : ℤ) (ran_ns weight total_weight : ℕ)
    → 0 < weight
    → weight ≤ total_weight
    → ran_ns < 2 ^ 62
    → pos_part lag < 2 ^ 62
    → neg_part lag < 2 ^ 62
    → eevdf_update_lag lag ran_ns weight total_weight
      ≡ lag +ℤ pos (ran_ns * weight / total_weight) -ℤ pos ran_ns
unfolding eevdf_update_lag
eevdf_update_lag_exact lag ran_ns weight total_weight h k r p n =
    let both : (weight == 0 || total_weight == 0) ≡ false = ground arith in
    rw both (lag_step lag _ ran_ns (fair-le ran_ns weight total_weight k) r p n)

-- For a weight above 0 and no more than the whole, and a time and a lag below 2 ^ 62 in size: the
-- new lag is exactly the old one plus the fair share, rounded down, less the time run; it is no
-- more than the old one, and no less than that less the time run; and at the whole weight it is the
-- old one.
pub eevdf_update_lag_bounds :
    (lag : ℤ) (ran_ns weight total_weight : ℕ)
    → 0 < weight
    → weight ≤ total_weight
    → ran_ns < 2 ^ 62
    → pos_part lag < 2 ^ 62
    → neg_part lag < 2 ^ 62
    → (eevdf_update_lag lag ran_ns weight total_weight
        ≡ lag +ℤ pos (ran_ns * weight / total_weight) -ℤ pos ran_ns)
      × (eevdf_update_lag lag ran_ns weight total_weight ≤ℤ lag)
      × (lag ≤ℤ eevdf_update_lag lag ran_ns weight total_weight +ℤ pos ran_ns)
      × (weight ≡ total_weight → eevdf_update_lag lag ran_ns weight total_weight ≡ lag)
eevdf_update_lag_bounds lag ran_ns weight total_weight h k r p n =
    let fair = ran_ns * weight / total_weight in
    let f : fair ≤ ran_ns = fair-le ran_ns weight total_weight k in
    let e = eevdf_update_lag_exact lag ran_ns weight total_weight h k r p n in
    (
      e,
      rw e (omega (arith, +ℤ_parts, -ℤ_parts)),
      rw e (omega (arith, +ℤ_parts, -ℤ_parts)),
      λ same. rw e (
          omega (
            arith,
            ap (λ w. ran_ns * w / total_weight) same ∙ fair_whole ran_ns total_weight (omega arith),
            +ℤ_parts,
            -ℤ_parts,
            eq_of_parts,
          )),
    )
