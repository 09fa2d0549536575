-- ===== src/Fs/Snapshots/Lists.antt =====
-- Lists of snapshots: what `prune_plan` selects of them.
use whisez_os.Prelude.{
  ℕ, zero, suc, ◌+◌, ◌≤◌, ◌<◌, ◌≡◌, ◌≢◌, ◌⊎◌, inl, inr, refl, ap, sym, subst, ◌∙◌, true, List, [],
  ◌∷◌, ◌++◌, arith, length, take, Bool-cases,
}
use whisez_os.Fs.Snapshots.{Retention, Snapshot, retention_eq, of_class}

-- The snapshot is in the list.
abbrev pub In : Snapshot → List Snapshot → Type 0
In s [] = ⊥
In s (x ∷ xs) = (s ≡ x) ⊎ In s xs

-- No two have the same identity.
abbrev pub Distinct : List Snapshot → Type 0
Distinct [] = Unit {0}
Distinct (x ∷ xs) = ((s : Snapshot) → In s xs → s.id ≢ x.id) × Distinct xs

-- The earlier in the list, the earlier made.
abbrev pub Ascending : List Snapshot → Type 0
Ascending [] = Unit {0}
Ascending (x ∷ xs) = ((s : Snapshot) → In s xs → x.created_ms ≤ s.created_ms) × Ascending xs

pub In-append : (s : Snapshot) (xs ys : List Snapshot) → In s (xs ++ ys) → In s xs ⊎ In s ys
In-append s [] ys i = inr i
In-append s (x ∷ xs) ys (inl e) = inl (inl e)
In-append s (x ∷ xs) ys (inr i) = elim (In-append s xs ys i) [ inl j ↦ inl (inr j) | inr j ↦ inr j ]

pub In-left : (s : Snapshot) (xs ys : List Snapshot) → In s xs → In s (xs ++ ys)
In-left s [] ys i = absurd i
In-left s (x ∷ xs) ys (inl e) = inl e
In-left s (x ∷ xs) ys (inr i) = inr (In-left s xs ys i)

pub In-right : (s : Snapshot) (xs ys : List Snapshot) → In s ys → In s (xs ++ ys)
In-right s [] ys i = i
In-right s (x ∷ xs) ys i = inr (In-right s xs ys i)

pub In-take : (s : Snapshot) (n : ℕ) (xs : List Snapshot) → In s (take n xs) → In s xs
In-take s zero xs i = absurd i
In-take s (suc n) [] i = absurd i
In-take s (suc n) (x ∷ xs) (inl e) = inl e
In-take s (suc n) (x ∷ xs) (inr i) = inr (In-take s n xs i)

retention_eq→eq : (a b : Retention) → retention_eq a b ≡ true → a ≡ b
retention_eq→eq a b h = ground arith

retention_eq_self : (a : Retention) → retention_eq a a ≡ true
retention_eq_self a = ground arith

pub In-of_class :
    (c : Retention) (s : Snapshot) (xs : List Snapshot)
    → In s (of_class c xs)
    → In s xs × (s.retention ≡ c)
unfolding of_class
In-of_class c s [] i = absurd i
In-of_class c s (x ∷ xs) i = elim (Bool-cases (retention_eq x.retention c)) [
  | inl same ↦ hit (In-of_class c s xs) same (rw (same, of_class) at i)
  | inr other ↦
      let (in_rest, of_c) = In-of_class c s xs (rw (other, of_class) at i) in (inr in_rest, of_c)
]
  where
    hit :
        (In s (of_class c xs) → In s xs × (s.retention ≡ c))
        → retention_eq x.retention c ≡ true
        → In s (x ∷ of_class c xs)
        → In s (x ∷ xs) × (s.retention ≡ c)
    hit below same (inr j) = let (in_rest, of_c) = below j in (inr in_rest, of_c)
    hit below same (inl e) = (inl e, ap (λ t. t.retention) e ∙ retention_eq→eq x.retention c same)

pub of_class-In :
    (c : Retention) (s : Snapshot) (xs : List Snapshot)
    → In s xs
    → s.retention ≡ c
    → In s (of_class c xs)
unfolding of_class
of_class-In c s [] i e = absurd i
of_class-In c s (x ∷ xs) (inl here) e =
    let same : retention_eq x.retention c ≡ true =
      subst (λ t. retention_eq t.retention c ≡ true) here
        (subst (λ r. retention_eq s.retention r ≡ true) e (retention_eq_self s.retention)) in
    rw same (inl here)
of_class-In c s (x ∷ xs) (inr later) e =
    let below = of_class-In c s xs later e in
    elim (Bool-cases (retention_eq x.retention c)) [
      | inl same ↦ rw same (inr below)
      | inr other ↦ rw other below
    ]

pub Distinct-take : (n : ℕ) (xs : List Snapshot) → Distinct xs → Distinct (take n xs)
Distinct-take zero xs d = tt
Distinct-take (suc n) [] d = tt
Distinct-take (suc n) (x ∷ xs) (x_new, d) =
    ((λ s i. x_new s (In-take s n xs i)), Distinct-take n xs d)

pub Distinct-of_class :
    (c : Retention) (xs : List Snapshot) → Distinct xs → Distinct (of_class c xs)
unfolding of_class
Distinct-of_class c [] d = tt
Distinct-of_class c (x ∷ xs) (x_new, d) = elim (Bool-cases (retention_eq x.retention c)) [
  | inl same ↦ rw same ((λ s i. x_new s (In-of_class c s xs i).0), Distinct-of_class c xs d)
  | inr other ↦ rw other (Distinct-of_class c xs d)
]

-- Snapshots of one list with the same identity are the same.
same_id :
    (xs : List Snapshot) (s t : Snapshot) → Distinct xs → In s xs → In t xs → s.id ≡ t.id → s ≡ t
same_id [] s t d i j e = absurd i
same_id (x ∷ xs) s t (x_new, d) (inl a) (inl b) e = a ∙ sym b
same_id (x ∷ xs) s t (x_new, d) (inl a) (inr j) e = absurd (x_new t j (sym e ∙ ap (λ u. u.id) a))
same_id (x ∷ xs) s t (x_new, d) (inr i) (inl b) e = absurd (x_new s i (e ∙ ap (λ u. u.id) b))
same_id (x ∷ xs) s t (x_new, d) (inr i) (inr j) e = same_id xs s t d i j e

pub Distinct-append :
    (xs ys whole : List Snapshot)
    → Distinct whole
    → ((s : Snapshot) → In s xs → In s whole)
    → ((s : Snapshot) → In s ys → In s whole)
    → ((s : Snapshot) → In s xs → ¬ In s ys)
    → Distinct xs
    → Distinct ys
    → Distinct (xs ++ ys)
Distinct-append [] ys whole d left right apart dx dy = dy
Distinct-append (x ∷ xs) ys whole d left right apart (x_new, dx) dy = (
  (λ s i e. elim (In-append s xs ys i) [
    | inl j ↦ x_new s j e
    | inr j ↦
        let same : x ≡ s = same_id whole x s d (left x (inl refl)) (right s j) (sym e) in
        apart s (inl (sym same)) j
  ]),
  Distinct-append xs ys whole d (λ s i. left s (inr i)) right (λ s i. apart s (inr i)) dx dy,
)

-- What is older than one of the first elements of an ascending list is among them.
In-take_earlier :
    (n : ℕ) (xs : List Snapshot) (s t : Snapshot)
    → Ascending xs
    → In s (take n xs)
    → In t xs
    → t.created_ms < s.created_ms
    → In t (take n xs)
In-take_earlier zero xs s t a i j older = absurd i
In-take_earlier (suc n) [] s t a i j older = absurd i
In-take_earlier (suc n) (x ∷ xs) s t a i (inl e) older = inl e
In-take_earlier (suc n) (x ∷ xs) s t (low, a) (inl e) (inr j) older =
    absurd (omega (arith, low t j, ap (λ u. u.created_ms) e))
In-take_earlier (suc n) (x ∷ xs) s t (low, a) (inr i) (inr j) older =
    inr (In-take_earlier n xs s t a i j older)

Ascending-take : (n : ℕ) (xs : List Snapshot) → Ascending xs → Ascending (take n xs)
Ascending-take zero xs a = tt
Ascending-take (suc n) [] a = tt
Ascending-take (suc n) (x ∷ xs) (low, a) =
    ((λ s i. low s (In-take s n xs i)), Ascending-take n xs a)

pub In-take_older :
    (m n : ℕ) (xs : List Snapshot) (s t : Snapshot)
    → Ascending xs
    → In s (take m (take n xs))
    → In t xs
    → t.created_ms < s.created_ms
    → In t (take m (take n xs))
In-take_older m n xs s t a i j older =
    In-take_earlier m (take n xs) s t (Ascending-take n xs a) i
      (In-take_earlier n xs s t a (In-take s m (take n xs) i) j older) older

pub length-of_class_append :
    (c : Retention) (xs ys : List Snapshot)
    → length (of_class c (xs ++ ys)) ≡ length (of_class c xs) + length (of_class c ys)
unfolding of_class
length-of_class_append c [] ys = omega arith
length-of_class_append c (x ∷ xs) ys = ground (arith, length-of_class_append c xs ys)

pub length-of_class : (c : Retention) (xs : List Snapshot) → length (of_class c xs) ≤ length xs
unfolding of_class
length-of_class c [] = omega arith
length-of_class c (x ∷ xs) = ground (arith, length-of_class c xs)

pub of_class-none :
    (c : Retention) (xs : List Snapshot)
    → ((s : Snapshot) → In s xs → s.retention ≢ c)
    → of_class c xs ≡ []
unfolding of_class
of_class-none c [] h = refl
of_class-none c (x ∷ xs) h = elim (Bool-cases (retention_eq x.retention c)) [
  | inl same ↦ absurd (h x (inl refl) (retention_eq→eq x.retention c same))
  | inr other ↦ rw other (of_class-none c xs (λ s i. h s (inr i)))
]
