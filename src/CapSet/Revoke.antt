-- ===== src/CapSet/Revoke.antt =====
-- `revoke_object` of cap.rs: what it clears, and what linear probing then loses.
use whisez_os.Prelude.{
  ℕ, zero, suc, ◌+◌, ◌%◌, ◌≡◌, refl, inl, inr, true, false, Option, none, some, [], ◌∷◌, ◌==◌,
  arith, Bool-cases, length, get_elem?,
}
use whisez_os.Cap.{Object, Capability, handle, object_eq}
use whisez_os.CapSet.{slots, Slots, CapSet, lookup_loop, lookup, names, revoke_loop, revoke_object}
use whisez_os.CapSet.Probe.{occupied, slot_cases}
use whisez_os.CapSet.Laws.{IsValid}

revoke_loop_counts :
    (object : Object) (xs : Slots)
    → (length (revoke_loop object xs).0 ≡ length xs)
      × (occupied (revoke_loop object xs).0 + (revoke_loop object xs).1 ≡ occupied xs)
unfolding revoke_loop names
revoke_loop_counts object [] = (refl, omega arith)
revoke_loop_counts object (none ∷ xs) = ground (arith, revoke_loop_counts object xs)
revoke_loop_counts object (some c ∷ xs) = ground (arith, revoke_loop_counts object xs)

-- Slot by slot: a slot that names the object is cleared, every other is as it was.
revoke_loop_at :
    (object : Object) (xs : Slots) (i : ℕ) (slot : Option Capability)
    → get_elem? xs i ≡ some slot
    → get_elem? (revoke_loop object xs).0 i
      ≡ some (elim (names object slot) [ true ↦ none | false ↦ slot ])
unfolding revoke_loop
revoke_loop_at object [] i slot e = cc
revoke_loop_at object (x ∷ xs) zero slot e = ground arith
revoke_loop_at object (x ∷ xs) (suc i) slot e = ground (arith, revoke_loop_at object xs i slot)

-- `revoke_object` keeps the set valid: `len` falls by exactly the tokens that it cleared.
pub revoke_object-IsValid :
    (s : CapSet) (object : Object) → IsValid s → IsValid (revoke_object s object).0
unfolding revoke_object
revoke_object-IsValid s object v = ground (arith, revoke_loop_counts object s.entries)

lookup_loop_held :
    (fuel : ℕ) (xs : Slots) (h idx : ℕ) {c : Capability}
    → lookup_loop fuel xs h idx ≡ some c
    → (i : ℕ) × (get_elem? xs i ≡ some (some c))
unfolding lookup_loop
lookup_loop_held zero xs h idx e = cc
lookup_loop_held (suc fuel) xs h idx {c} e = elim (slot_cases (get_elem? xs idx)) [
  | inl p ↦ absurd (ground arith)
  | inr (inl p) ↦ absurd (ground arith)
  | inr (inr (a, p)) ↦ elim (Bool-cases (handle a == h)) [
    | inl hit ↦ (idx, ground arith)
    | inr miss ↦ lookup_loop_held fuel xs h ((idx + 1) % slots) {c = c} (ground arith)
  ]
]

revoke_loop_left :
    (object : Object) (xs : Slots) (i : ℕ) {c : Capability}
    → get_elem? (revoke_loop object xs).0 i ≡ some (some c)
    → object_eq c.object object ≡ false
unfolding revoke_loop names
revoke_loop_left object [] i e = cc
revoke_loop_left object (none ∷ xs) zero e = cc
revoke_loop_left object (some d ∷ xs) zero {c} e = elim (Bool-cases (object_eq d.object object)) [
  | inl named ↦ absurd (ground arith)
  | inr other ↦ ground arith
]
revoke_loop_left object (none ∷ xs) (suc i) {c} e = revoke_loop_left object xs i {c = c} e
revoke_loop_left object (some d ∷ xs) (suc i) {c} e =
    revoke_loop_left object xs i {c = c} (ground arith)

-- After `revoke_object` no lookup, under any handle, returns a token that names the object.
pub lookup-revoke_object :
    (s : CapSet) (object : Object) (h : ℕ) {c : Capability}
    → lookup (revoke_object s object).0 h ≡ some c
    → object_eq c.object object ≡ false
unfolding lookup revoke_object
lookup-revoke_object s object h e =
    let (i, held) = lookup_loop_held slots (revoke_loop object s.entries).0 h (h % slots) e in
    revoke_loop_left object s.entries i held

-- The fault: where the slot at which the probes for a handle start holds a token of the object that
-- is revoked, the handle is not found afterwards, while any token of another object stands in its
-- slot still.
pub revoke_loses_probe_chain :
    (s : CapSet) (object : Object) (h i : ℕ) (first kept : Capability)
    → get_elem? s.entries (h % slots) ≡ some (some first)
    → object_eq first.object object ≡ true
    → get_elem? s.entries i ≡ some (some kept)
    → object_eq kept.object object ≡ false
    → (lookup (revoke_object s object).0 h ≡ none)
      × (get_elem? (revoke_object s object).0.entries i ≡ some (some kept))
unfolding lookup lookup_loop revoke_object names
revoke_loses_probe_chain s object h i first kept e m f n = ground (
  arith,
  revoke_loop_at object s.entries (h % slots) (some first),
  revoke_loop_at object s.entries i (some kept),
)
