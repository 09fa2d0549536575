-- ===== src/Pe/Overlaps.antt =====
-- The loops over the pairs of sections.
use whisez_os.Prelude.{
  ℕ, zero, suc, ◌+◌, ◌<◌, ◌≡◌, ◌⊎◌, inl, inr, refl, ap, ap₂, ◌∙◌, sym, true, false, some, List, [],
  ◌∷◌, arith, get_elem?, Bool-cases,
}
use whisez_os.Prelude.Results.{ok, err}
use whisez_os.Pe.{
  Section, overlapping_sections, overlap, check_against, check_from, check_no_overlap,
}

-- No two of the sections overlap.
abbrev pub NoOverlap : List Section → ℕ → Type 0
NoOverlap sections alignment =
    (i j : ℕ) (a b : Section)
    → i < j
    → get_elem? sections i ≡ some a
    → get_elem? sections j ≡ some b
    → overlap a b alignment ≡ false

-- The places of two that do.
pub record Clash (sections : List Section) (alignment i j : ℕ) : Type 0 where
  pub ordered : i < j
  pub a : Section
  pub b : Section
  pub at_i : get_elem? sections i ≡ some a
  pub at_j : get_elem? sections j ≡ some b
  pub clash : overlap a b alignment ≡ true

plus_zero : (j : ℕ) → j ≡ j + 0
plus_zero j = omega arith

zero_plus : (j : ℕ) → 0 + j ≡ j
zero_plus j = omega arith

plus_suc : (j k : ℕ) → j + 1 + k ≡ j + suc k
plus_suc j k = omega arith

some_eq : {x y : Section} → some x ≡ some y → x ≡ y
some_eq e = cc

check_against_lem :
    (alignment : ℕ) (a : Section) (i : ℕ) (bs : List Section) (j : ℕ)
    → ((check_against alignment a i bs j ≡ ok tt)
        × ((k : ℕ) (b : Section) → get_elem? bs k ≡ some b → overlap a b alignment ≡ false))
      ⊎ ((k : ℕ) × (b : Section) × (check_against alignment a i bs j
            ≡ err (overlapping_sections i (j + k)))
          × (get_elem? bs k ≡ some b)
          × (overlap a b alignment ≡ true))
unfolding check_against
check_against_lem alignment a i [] j = inl (refl, λ k b e. cc)
check_against_lem alignment a i (b ∷ bs) j = elim (Bool-cases (overlap a b alignment)) [
  | inl hit ↦ inr (0, b, rw hit (ap (λ n. err (overlapping_sections i n)) (plus_zero j)), refl, hit)
  | inr miss ↦ elim (check_against_lem alignment a i bs (j + 1)) [
    | inl (done, apart) ↦ inl (rw miss done, cases miss apart)
    | inr (k, c, failed, at, hit) ↦ inr (
      suc k,
      c,
      rw miss (failed ∙ ap (λ n. err (overlapping_sections i n)) (plus_suc j k)),
      at,
      hit,
    )
  ]
]
  where
    cases :
        overlap a b alignment ≡ false
        → ((k : ℕ) (c : Section) → get_elem? bs k ≡ some c → overlap a c alignment ≡ false)
        → (k : ℕ) (c : Section) → get_elem? (b ∷ bs) k ≡ some c
        → overlap a c alignment ≡ false
    cases miss apart zero c e = ap (λ s. overlap a s alignment) (some_eq (sym e)) ∙ miss
    cases miss apart (suc k) c e = apart k c e

check_from_lem :
    (alignment : ℕ) (sections : List Section) (i : ℕ)
    → ((check_from alignment sections i ≡ ok tt) × NoOverlap sections alignment)
      ⊎ ((p : ℕ) × (q : ℕ) × (check_from alignment sections i
            ≡ err (overlapping_sections (i + p) (i + q)))
          × Clash sections alignment p q)
unfolding check_from
check_from_lem alignment [] i = inl (refl, λ p q a b h e f. cc)
check_from_lem alignment (a ∷ rest) i = elim (check_against_lem alignment a i rest (i + 1)) [
  | inr (k, b, failed, at, hit) ↦ inr (
    0,
    suc k,
    rw failed (ap₂ (λ m n. err (overlapping_sections m n)) (plus_zero i) (plus_suc i k)),
    record { ordered = omega arith; a = a; b = b; at_i = refl; at_j = at; clash = hit },
  )
  | inl (done, apart) ↦ elim (check_from_lem alignment rest (i + 1)) [
    | inl (rest_done, rest_apart) ↦ inl (rw done rest_done, cases apart rest_apart)
    | inr (p, q, failed, c) ↦ inr (
      suc p,
      suc q,
      rw done (failed ∙ ap₂ (λ m n. err (overlapping_sections m n)) (plus_suc i p) (plus_suc i q)),
      record {
        ordered = omega (arith, c.ordered);
        a = c.a;
        b = c.b;
        at_i = c.at_i;
        at_j = c.at_j;
        clash = c.clash;
      },
    )
  ]
]
  where
    cases :
        ((k : ℕ) (c : Section) → get_elem? rest k ≡ some c → overlap a c alignment ≡ false)
        → NoOverlap rest alignment
        → NoOverlap (a ∷ rest) alignment
    cases apart rest_apart zero zero x y h e f = absurd (omega arith)
    cases apart rest_apart zero (suc q) x y h e f =
        ap (λ s. overlap s y alignment) (some_eq (sym e)) ∙ apart q y f
    cases apart rest_apart (suc p) zero x y h e f = absurd (omega arith)
    cases apart rest_apart (suc p) (suc q) x y h e f = rest_apart p q x y (omega arith) e f

-- The check passes, and then no two of the sections overlap, or it names the places of two that do.
pub check_no_overlap_lem :
    (sections : List Section) (alignment : ℕ)
    → ((check_no_overlap sections alignment ≡ ok tt) × NoOverlap sections alignment)
      ⊎ ((p : ℕ) × (q : ℕ) × (check_no_overlap sections alignment ≡ err (overlapping_sections p q))
          × Clash sections alignment p q)
unfolding check_no_overlap
check_no_overlap_lem sections alignment = elim (check_from_lem alignment sections 0) [
  | inl passed ↦ inl passed
  | inr (p, q, failed, c) ↦
      inr
        (p, q, failed ∙ ap₂ (λ m n. err (overlapping_sections m n)) (zero_plus p) (zero_plus q), c)
]
