-- ===== src/Tests/Snapshots.antt =====
-- The pruning of nine days, with a sort by insertion.
use whisez_os.Prelude.{
  ℕ, zero, suc, ◌+◌, ◌≤◌, ◌≡◌, ◌≢◌, ◌⊎◌, inl, inr, refl, true, false, some, List, [], ◌∷◌, leb,
  arith, length, if◌then◌else◌, Bool-cases, min,
}
use whisez_os.Fs.{sparse_ptr}
use whisez_os.Fs.Snapshots.{
  Snapshot, daily, of_class, push_ids, prune_classes, prune_plan, plan_cap, retention_limits,
}
use whisez_os.Fs.Snapshots.Lists.{In, Distinct, Ascending}
use whisez_os.Fs.Snapshots.Doomed.{IsSort, IsOutdated, Within, ids, excess}
use whisez_os.Fs.Snapshots.Plan.{prune_plan_sound}

abbrev place : Snapshot → List Snapshot → List Snapshot
place s [] = s ∷ []
place s (x ∷ xs) =
    let rest = place s xs in if leb s.created_ms x.created_ms then s ∷ x ∷ xs else x ∷ rest

abbrev sort : List Snapshot → List Snapshot
sort [] = []
sort (x ∷ xs) = place x (sort xs)

length-place : (s : Snapshot) (xs : List Snapshot) → length (place s xs) ≡ suc (length xs)
length-place s [] = refl
length-place s (x ∷ xs) = ground (arith, length-place s xs)

length-sort : (xs : List Snapshot) → length (sort xs) ≡ length xs
length-sort [] = refl
length-sort (x ∷ xs) = omega (arith, length-place x (sort xs), length-sort xs)

place-In : (t s : Snapshot) (xs : List Snapshot) → In t (place s xs) → (t ≡ s) ⊎ In t xs
place-In t s [] i = i
place-In t s (x ∷ xs) i = elim (Bool-cases (leb s.created_ms x.created_ms)) [
  | inl before ↦ rw before at i
  | inr after ↦ past (place-In t s xs) (rw after at i)
]
  where
    past : (In t (place s xs) → (t ≡ s) ⊎ In t xs) → In t (x ∷ place s xs) → (t ≡ s) ⊎ In t (x ∷ xs)
    past below (inl e) = inr (inl e)
    past below (inr j) = elim (below j) [ inl e ↦ inl e | inr k ↦ inr (inr k) ]

In-place : (t s : Snapshot) (xs : List Snapshot) → (t ≡ s) ⊎ In t xs → In t (place s xs)
In-place t s [] i = i
In-place t s (x ∷ xs) i = elim (Bool-cases (leb s.created_ms x.created_ms)) [
  | inl before ↦ rw before i
  | inr after ↦ rw after (past (In-place t s xs) i)
]
  where
    past : ((t ≡ s) ⊎ In t xs → In t (place s xs)) → (t ≡ s) ⊎ In t (x ∷ xs) → In t (x ∷ place s xs)
    past below (inl e) = inr (below (inl e))
    past below (inr (inl e)) = inl e
    past below (inr (inr k)) = inr (below (inr k))

sort-In : (t : Snapshot) (xs : List Snapshot) → In t (sort xs) → In t xs
sort-In t [] i = i
sort-In t (x ∷ xs) i = elim (place-In t x (sort xs) i) [
  | inl e ↦ inl e
  | inr j ↦ inr (sort-In t xs j)
]

In-sort : (t : Snapshot) (xs : List Snapshot) → In t xs → In t (sort xs)
In-sort t [] i = i
In-sort t (x ∷ xs) (inl e) = In-place t x (sort xs) (inl e)
In-sort t (x ∷ xs) (inr j) = In-place t x (sort xs) (inr (In-sort t xs j))

place-Distinct :
    (s : Snapshot) (xs : List Snapshot)
    → ((t : Snapshot) → In t xs → t.id ≢ s.id)
    → Distinct xs
    → Distinct (place s xs)
place-Distinct s [] new d = (new, tt)
place-Distinct s (x ∷ xs) new (x_new, d) = elim (Bool-cases (leb s.created_ms x.created_ms)) [
  | inl before ↦ rw before (new, (x_new, d))
  | inr after ↦ rw after (apart, place-Distinct s xs (λ t i. new t (inr i)) d)
]
  where
    apart : (t : Snapshot) → In t (place s xs) → t.id ≢ x.id
    apart t i e = elim (place-In t s xs i) [
      | inl same ↦ new x (inl refl) (cc (same, e))
      | inr j ↦ x_new t j e
    ]

sort-Distinct : (xs : List Snapshot) → Distinct xs → Distinct (sort xs)
sort-Distinct [] d = tt
sort-Distinct (x ∷ xs) (x_new, d) =
    place-Distinct x (sort xs) (λ t i. x_new t (sort-In t xs i)) (sort-Distinct xs d)

place-Ascending : (s : Snapshot) (xs : List Snapshot) → Ascending xs → Ascending (place s xs)
place-Ascending s [] a = ((λ t i. absurd i), tt)
place-Ascending s (x ∷ xs) (low, a) = elim (Bool-cases (leb s.created_ms x.created_ms)) [
  | inl before ↦ rw before (first before, (low, a))
  | inr after ↦ rw after (later after, place-Ascending s xs a)
]
  where
    first :
        leb s.created_ms x.created_ms ≡ true
        → (t : Snapshot) → In t (x ∷ xs)
        → s.created_ms ≤ t.created_ms
    first before t (inl e) = ground arith
    first before t (inr i) = ground (arith, low t i)

    later :
        leb s.created_ms x.created_ms ≡ false
        → (t : Snapshot) → In t (place s xs)
        → x.created_ms ≤ t.created_ms
    later after t i = elim (place-In t s xs i) [ inl e ↦ ground arith | inr j ↦ low t j ]

sort-Ascending : (xs : List Snapshot) → Ascending (sort xs)
sort-Ascending [] = tt
sort-Ascending (x ∷ xs) = place-Ascending x (sort xs) (sort-Ascending xs)

sort-IsSort : IsSort sort
sort-IsSort = record {
  size = length-sort;
  adds_none = sort-In;
  loses_none = In-sort;
  repeats_none = sort-Distinct;
  ordered = sort-Ascending;
}

abbrev taken_on : ℕ → Snapshot
taken_on day = record {
  id = 100 + day;
  txg = day;
  created_ms = day;
  object_root = sparse_ptr;
  retention = daily;
}

-- Days with the identities of 101 and on, from the last back to the first.
abbrev days_before : ℕ → List Snapshot
days_before zero = []
days_before (suc n) = taken_on (suc n) ∷ days_before n

days_before-In : (n : ℕ) (t : Snapshot) → In t (days_before n) → t.id ≤ 100 + n
days_before-In zero t i = absurd i
days_before-In (suc n) t (inl e) = ground arith
days_before-In (suc n) t (inr i) = omega (arith, days_before-In n t i)

days_before-Distinct : (n : ℕ) → Distinct (days_before n)
days_before-Distinct zero = tt
days_before-Distinct (suc n) =
    ((λ t i e. absurd (omega (arith, days_before-In n t i, e))), days_before-Distinct n)

two_oldest : prune_plan sort (days_before 9) ≡ some (101 ∷ 102 ∷ [])
unfolding prune_plan prune_classes of_class push_ids
two_oldest = refl

prune_plan_sound_example :
    (doomed : List Snapshot) × ((101 ∷ 102 ∷ []) ≡ ids doomed)
    × Distinct doomed
    × Within retention_limits (days_before 9) doomed
    × (length doomed ≡ min plan_cap (excess retention_limits (days_before 9)))
    × ((s : Snapshot) → In s doomed → IsOutdated (days_before 9) doomed s)
prune_plan_sound_example =
    prune_plan_sound sort sort-IsSort (days_before 9) (days_before-Distinct 9) two_oldest
