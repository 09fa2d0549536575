-- ===== src/CapSet/Probe.antt =====
-- The probe loops of `insert` and `lookup` in cap.rs, one against the other.
use whisez_os.Prelude.{
  get_elem?-lt, ℕ, zero, suc, ◌+◌, ◌-◌, ◌%◌, ◌<◌, ◌≤◌, ◌≡◌, refl, ap, ◌∙◌, ◌≢◌, ◌⊎◌, inl, inr,
  Option, none, some, List, [], ◌∷◌, ◌==◌, arith, Bool-cases, length, get_elem?, set,
  get_elem?-set_self, get_elem?-set_ne,
}
use whisez_os.Cap.{Capability, handle}
use whisez_os.CapSet.{slots, Slots, CapSet, insert_loop, lookup_loop}

pub slot_cases {ℓ} :
    {A : Type ℓ} (o : Option (Option A))
    → (o ≡ none) ⊎ (o ≡ some none) ⊎ ((a : A) × (o ≡ some (some a)))
slot_cases none = inl refl
slot_cases (some none) = inr (inl refl)
slot_cases (some (some a)) = inr (inr (a, refl))

get_elem?-some {ℓ} : {A : Type ℓ} (xs : List A) (i : ℕ) → i < length xs → get_elem? xs i ≢ none
get_elem?-some [] i h = absurd (omega arith)
get_elem?-some (x ∷ xs) zero h = λ e. cc
get_elem?-some (x ∷ xs) (suc i) h = get_elem?-some xs i (omega arith)

get_elem?-at {ℓ} : {A : Type ℓ} (xs : List A) (i j : ℕ) → i ≡ j → get_elem? xs i ≡ get_elem? xs j
get_elem?-at xs i j e = ap (get_elem? xs) e

-- What `insert` leaves alone: every slot that was taken.
pub insert_loop_keeps :
    (fuel : ℕ) (s : CapSet) (c : Capability) (idx i : ℕ) (old : Capability) {t : CapSet} {h : ℕ}
    → insert_loop fuel s c idx ≡ some (t, h)
    → get_elem? s.entries i ≡ some (some old)
    → get_elem? t.entries i ≡ some (some old)
unfolding insert_loop
insert_loop_keeps zero s c idx i old e taken = cc
insert_loop_keeps (suc fuel) s c idx i old {t} {h} e taken = ground (
  arith,
  get_elem?-set_ne s.entries {i = idx} {j = i} (some c),
  insert_loop_keeps fuel s c ((idx + 1) % slots) i old {t = t} {h = h},
  get_elem?-at s.entries idx i,
)

-- A lookup that succeeds still does once more slots are taken.
pub lookup_loop_mono :
    (fuel : ℕ) (xs ys : Slots) (h idx : ℕ) {c : Capability}
    → ((i : ℕ) (c : Capability) → get_elem? xs i ≡ some (some c) → get_elem? ys i ≡ some (some c))
    → lookup_loop fuel xs h idx ≡ some c
    → lookup_loop fuel ys h idx ≡ some c
unfolding lookup_loop
lookup_loop_mono zero xs ys h idx keep e = cc
lookup_loop_mono (suc fuel) xs ys h idx {c} keep e = elim (slot_cases (get_elem? xs idx)) [
  | inl p ↦ ground arith
  | inr (inl p) ↦ ground arith
  | inr (inr (a, p)) ↦
      let q = keep idx a p in
      let rest = lookup_loop_mono fuel xs ys h ((idx + 1) % slots) {c = c} keep in
      elim (Bool-cases (handle a == h)) [ inl hit ↦ ground arith | inr miss ↦ ground (arith, rest) ]
]

-- Where `insert` stops, `lookup` of the same handle stops: with the token inserted, or the set was left
-- as it was because a token of that handle stands there.
pub lookup_of_insert :
    (fuel : ℕ) (s : CapSet) (c : Capability) (idx : ℕ) {t : CapSet} {h : ℕ}
    → insert_loop fuel s c idx ≡ some (t, h)
    → (lookup_loop fuel t.entries (handle c) idx ≡ some c)
      ⊎ ((t ≡ s)
          × ((found : Capability) × (lookup_loop fuel t.entries (handle c) idx ≡ some found)
              × (handle found ≡ handle c)))
unfolding insert_loop lookup_loop
lookup_of_insert zero s c idx e = cc
lookup_of_insert (suc fuel) s c idx {t} {h} e = elim (slot_cases (get_elem? s.entries idx)) [
  | inl p ↦ absurd (ground arith)
  | inr (inl p) ↦
      inl (ground (arith, get_elem?-set_self s.entries idx (some c) (get_elem?-lt s.entries idx p)))
  | inr (inr (a, p)) ↦ elim (Bool-cases (handle a == handle c)) [
    | inl hit ↦ inr (ground arith, (a, ground arith, ground arith))
    | inr miss ↦
        let kept = insert_loop_keeps (suc fuel) s c idx idx a e p in
        elim (lookup_of_insert fuel s c ((idx + 1) % slots) {t = t} {h = h} (ground arith)) [
          | inl own ↦ inl (ground (arith, kept))
          | inr (same, (found, l, m)) ↦ inr (same, (found, ground (arith, kept), m))
        ]
  ]
]

-- How many slots are taken.
abbrev pub occupied : Slots → ℕ
occupied [] = 0
occupied (none ∷ rest) = occupied rest
occupied (some c ∷ rest) = suc (occupied rest)

pub occupied-le : (xs : Slots) → occupied xs ≤ length xs
occupied-le [] = omega arith
occupied-le (none ∷ xs) = omega (arith, occupied-le xs)
occupied-le (some c ∷ xs) = omega (arith, occupied-le xs)

free_slot : (xs : Slots) → occupied xs < length xs → (j : ℕ) × (get_elem? xs j ≡ some none)
free_slot [] h = absurd (omega arith)
free_slot (none ∷ xs) h = (0, refl)
free_slot (some c ∷ xs) h = let (j, e) = free_slot xs (omega arith) in (suc j, e)

-- A loop that finds no place has seen a taken slot at each probe.
insert_loop_stuck :
    (fuel : ℕ) (s : CapSet) (c : Capability) (idx k : ℕ)
    → length s.entries ≡ slots
    → idx < slots
    → insert_loop fuel s c idx ≡ none
    → k < fuel
    → get_elem? s.entries ((idx + k) % slots) ≢ some none
unfolding insert_loop
insert_loop_stuck zero s c idx k n b e h = absurd (omega arith)
insert_loop_stuck (suc fuel) s c idx zero n b e h =
    let same = get_elem?-at s.entries ((idx + 0) % slots) idx (omega arith) in ground arith
insert_loop_stuck (suc fuel) s c idx (suc k) n b e h =
    let same =
      get_elem?-at s.entries (((idx + 1) % slots + k) % slots) ((idx + suc k) % slots)
        (omega arith) in
    let rest = insert_loop_stuck fuel s c ((idx + 1) % slots) k n (omega arith) in
    ground (arith, get_elem?-some s.entries idx)

-- With a slot free, one round for each slot is enough.
pub insert_loop_total :
    (s : CapSet) (c : Capability) (idx : ℕ)
    → length s.entries ≡ slots
    → idx < slots
    → occupied s.entries < slots
    → insert_loop slots s c idx ≢ none
insert_loop_total s c idx n b h e =
    let (j, free) = free_slot s.entries (omega arith) in
    let below = get_elem?-lt s.entries j free in
    let same = get_elem?-at s.entries ((idx + (j + slots - idx) % slots) % slots) j (omega arith) in
    insert_loop_stuck slots s c idx ((j + slots - idx) % slots) n b e (omega arith) (same ∙ free)

-- Filling a free slot takes one more.
pub occupied-set :
    (xs : Slots) (i : ℕ) (c : Capability)
    → get_elem? xs i ≡ some none
    → occupied (set xs i (some c)) ≡ suc (occupied xs)
occupied-set [] i c e = cc
occupied-set (x ∷ xs) zero c e = ground arith
occupied-set (none ∷ xs) (suc i) c e = occupied-set xs i c e
occupied-set (some d ∷ xs) (suc i) c e = ap suc (occupied-set xs i c e)
