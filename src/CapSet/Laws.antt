-- ===== src/CapSet/Laws.antt =====
-- What `insert` and `lookup` promise together, on sets that the operations of cap.rs can reach.
use whisez_os.Prelude.{
  ℕ, zero, suc, ◌+◌, ◌%◌, ◌≡◌, refl, subst, sym, ◌⊎◌, inl, inr, Option, none, some, ◌==◌, arith,
  Bool-cases, Option-cases, length, length-set, length-replicate, replicate,
}
use whisez_os.Cap.{Capability, handle}
use whisez_os.CapSet.{slots, CapSet, new, insert_loop, insert, lookup_loop, lookup}
use whisez_os.CapSet.Probe.{
  occupied, occupied-le, occupied-set, insert_loop_total, insert_loop_keeps, lookup_loop_mono,
  lookup_of_insert,
}

-- The table has 256 slots, and `len` counts those that are taken.
pub record IsValid (s : CapSet) : Type 0 where
  pub size : length s.entries ≡ slots
  pub counted : s.len ≡ occupied s.entries

occupied-replicate : (n : ℕ) → occupied (replicate n none) ≡ 0
occupied-replicate zero = refl
occupied-replicate (suc n) = occupied-replicate n

pub new-IsValid : IsValid new
unfolding new
new-IsValid = record {
  size = length-replicate {A = Option Capability} slots none;
  counted = sym (occupied-replicate slots);
}

insert_loop-IsValid :
    (fuel : ℕ) (s : CapSet) (c : Capability) (idx : ℕ) {t : CapSet} {h : ℕ}
    → IsValid s
    → insert_loop fuel s c idx ≡ some (t, h)
    → IsValid t
unfolding insert_loop
insert_loop-IsValid zero s c idx v e = cc
insert_loop-IsValid (suc fuel) s c idx {t} {h} v e = ground (
  arith,
  length-set s.entries idx (some c),
  occupied-set s.entries idx c,
  insert_loop-IsValid fuel s c ((idx + 1) % slots) {t = t} {h = h} v,
)

insert_loop-handle :
    (fuel : ℕ) (s : CapSet) (c : Capability) (idx : ℕ) {t : CapSet} {h : ℕ}
    → insert_loop fuel s c idx ≡ some (t, h)
    → h ≡ handle c
unfolding insert_loop
insert_loop-handle zero s c idx e = cc
insert_loop-handle (suc fuel) s c idx {t} {h} e =
    ground (arith, insert_loop-handle fuel s c ((idx + 1) % slots) {t = t} {h = h})

-- A set is full, and unchanged by `insert`, or the loop placed the token.
insert_cases :
    (s : CapSet) (c : Capability) {t : CapSet} {r : Option ℕ}
    → insert s c ≡ some (t, r)
    → ((s.len ≡ slots) × (t ≡ s) × (r ≡ none))
      ⊎ ((h : ℕ) × (insert_loop slots s c (handle c % slots) ≡ some (t, h)) × (r ≡ some h))
unfolding insert
insert_cases s c e = elim (Bool-cases (s.len == slots)) [
  | inl full ↦ inl (ground arith, ground arith, ground arith)
  | inr room ↦ elim (Option-cases (insert_loop slots s c (handle c % slots))) [
    | inl stuck ↦ absurd (ground arith)
    | inr (th, placed) ↦ inr (th.1, ground arith, ground arith)
  ]
]

-- The unbounded loop of `insert` always ends: on a valid set it has an answer.
pub insert_total :
    (s : CapSet) (c : Capability)
    → IsValid s
    → (t : CapSet) × (r : Option ℕ) × (insert s c ≡ some (t, r))
unfolding insert
insert_total s c v = elim (Option-cases (insert s c)) [
  | inl e ↦ absurd (
      ground (
        arith,
        occupied-le s.entries,
        insert_loop_total s c (handle c % slots) v.size (omega arith),
      ))
  | inr (tr, e) ↦ (tr.0, tr.1, e)
]

-- A valid set stays valid, whatever is inserted: `len` counts the slots taken.
pub insert-IsValid :
    (s : CapSet) (c : Capability) {t : CapSet} {r : Option ℕ}
    → IsValid s
    → insert s c ≡ some (t, r)
    → IsValid t
insert-IsValid s c v e = elim (insert_cases s c e) [
  | inl (full, same, _) ↦ subst IsValid (sym same) v
  | inr (h, placed, _) ↦ insert_loop-IsValid slots s c (handle c % slots) v placed
]

-- A token that `insert` accepted is the one that is found under the handle that it returned, unless the
-- set held a token of an equal handle: then that one is found, and the set is as before. What was found
-- before is found still.
pub lookup-insert :
    (s : CapSet) (c : Capability) {t : CapSet} {h : ℕ}
    → insert s c ≡ some (t, some h)
    → ((lookup t h ≡ some c)
        ⊎ ((t ≡ s)
            × ((found : Capability) × (lookup s h ≡ some found) × (handle found ≡ handle c))))
      × ((k : ℕ) (d : Capability) → lookup s k ≡ some d → lookup t k ≡ some d)
unfolding lookup
lookup-insert s c {t} {h} e = elim (insert_cases s c e) [
  | inl (_, _, r) ↦ absurd (cc)
  | inr (k, placed, r) ↦
      let same : h ≡ handle c =
        insert_loop-handle slots s c (handle c % slots) {t = t} (ground arith) in
      (
        elim (lookup_of_insert slots s c (handle c % slots) placed) [
          | inl own ↦ inl (rw same own)
          | inr (back, (found, l, m)) ↦ inr (
            back,
            (
              found,
              rw same (
                  subst
                    (λ u. lookup_loop slots u.entries (handle c) (handle c % slots) ≡ some found)
                    back l),
              m,
            ),
          )
        ],
        λ j d.
            lookup_loop_mono slots s.entries t.entries j (j % slots)
              (λ i old taken. insert_loop_keeps slots s c (handle c % slots) i old placed taken),
      )
]
