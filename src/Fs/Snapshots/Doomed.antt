-- ===== src/Fs/Snapshots/Doomed.antt =====
-- What is asked of the snapshots that a plan deletes, and what the pushes to a plan do.
use whisez_os.Prelude.{
  ℕ, zero, suc, ◌+◌, ◌-◌, ◌≤◌, ◌<◌, ◌≡◌, ◌≢◌, ◌⊎◌, inl, inr, refl, ap, ◌∙◌, true, false, List, [],
  ◌∷◌, ◌++◌, arith, ltb, length, take, length-append,
}
use mathlib.Core.List.{append-nil, append_assoc}
use whisez_os.Fs.Snapshots.{Retention, manual, Snapshot, plan_cap, of_class, push_ids}
use whisez_os.Fs.Snapshots.Lists.{In, Distinct, Ascending, length-of_class_append, of_class-none}

abbrev pub ids : List Snapshot → List ℕ
ids [] = []
ids (s ∷ rest) = s.id ∷ ids rest

pub ids-append : (xs ys : List Snapshot) → ids (xs ++ ys) ≡ ids xs ++ ids ys
ids-append [] ys = refl
ids-append (x ∷ xs) ys = ap (λ r. x.id ∷ r) (ids-append xs ys)

pub length-ids : (xs : List Snapshot) → length (ids xs) ≡ length xs
length-ids [] = refl
length-ids (x ∷ xs) = ap suc (length-ids xs)

-- What is documented of `sort_unstable_by_key`, by the time of creation: the same elements, in ascending
-- order.
pub record IsSort (sort : List Snapshot → List Snapshot) : Type 0 where
  pub size : (xs : List Snapshot) → length (sort xs) ≡ length xs
  pub adds_none : (s : Snapshot) (xs : List Snapshot) → In s (sort xs) → In s xs
  pub loses_none : (s : Snapshot) (xs : List Snapshot) → In s xs → In s (sort xs)
  pub repeats_none : (xs : List Snapshot) → Distinct xs → Distinct (sort xs)
  pub ordered : (xs : List Snapshot) → Ascending (sort xs)

pub push_ids-take :
    (found : List Snapshot) (doomed : List ℕ) (n : ℕ)
    → length doomed + n ≡ plan_cap
    → push_ids doomed found ≡ doomed ++ ids (take n found)
unfolding push_ids
push_ids-take [] doomed zero h = rw append-nil
push_ids-take [] doomed (suc n) h = rw append-nil
push_ids-take (s ∷ rest) doomed zero h =
    let full : ltb (length doomed) plan_cap ≡ false = ground arith in
    rw full (push_ids-take rest doomed zero h)
push_ids-take (s ∷ rest) doomed (suc n) h =
    let room : ltb (length doomed) plan_cap ≡ true = ground arith in
    rw room (
      push_ids-take rest (doomed ++ s.id ∷ []) n
        (omega (arith, length-append doomed (s.id ∷ []), h))
      ∙ append_assoc doomed (s.id ∷ []) (ids (take n rest)))

-- How many snapshots the classes have over their limits.
abbrev pub excess : List (Retention × ℕ) → List Snapshot → ℕ
excess [] snapshots = 0
excess ((c, limit) ∷ limits) snapshots =
    (length (of_class c snapshots) - limit) + excess limits snapshots

-- Of no class more than it has over its limit.
abbrev pub Within : List (Retention × ℕ) → List Snapshot → List Snapshot → Type 0
Within [] snapshots doomed = Unit {0}
Within ((c, limit) ∷ limits) snapshots doomed =
    (length (of_class c doomed) ≤ length (of_class c snapshots) - limit)
    × Within limits snapshots doomed

abbrev pub HasClass : Retention → List (Retention × ℕ) → Type 0
HasClass r [] = ⊥
HasClass r ((c, limit) ∷ limits) = (r ≡ c) ⊎ HasClass r limits

abbrev pub ClassesDistinct : List (Retention × ℕ) → Type 0
ClassesDistinct [] = Unit {0}
ClassesDistinct ((c, limit) ∷ limits) = ¬ HasClass c limits × ClassesDistinct limits

pub Within-append :
    (limits : List (Retention × ℕ)) (snapshots xs ys : List Snapshot)
    → ((s : Snapshot) → In s xs → ¬ HasClass s.retention limits)
    → Within limits snapshots ys
    → Within limits snapshots (xs ++ ys)
Within-append [] snapshots xs ys others w = tt
Within-append ((c, limit) ∷ limits) snapshots xs ys others (w, ws) = (
  omega (
    arith,
    length-of_class_append c xs ys,
    ap length (of_class-none c xs (λ s i e. others s i (inl e))),
    w,
  ),
  Within-append limits snapshots xs ys (λ s i h. others s i (inr h)) ws,
)

-- A snapshot that is deleted is one of the list that its user did not make, and all of its class that are
-- older are deleted too.
pub record IsOutdated (snapshots doomed : List Snapshot) (s : Snapshot) : Type 0 where
  pub present : In s snapshots
  pub prunable : s.retention ≢ manual
  pub oldest_first :
      (t : Snapshot)
      → In t snapshots
      → t.retention ≡ s.retention
      → t.created_ms < s.created_ms
      → In t doomed
