-- ===== src/Sched/Deadlines.antt =====
-- The interactive queue: kept in order of deadline, first come first served among equals.
use whisez_os.Prelude.{
  ℕ, ◌≤◌, ◌<◌, ◌≡◌, refl, ap, List, [], ◌∷◌, ◌++◌, arith, leb, ◌==◌, if◌then◌else◌, take, drop,
  Bool-cases, inl, inr,
}
use mathlib.Core.List.{Perm, append-nil}
use mathlib.Core.List.Perm
use whisez_os.Prelude.Results.{ok}
use whisez_os.Sched.{Entry, partition_point, enqueue}

-- Deadlines do not fall along the queue.
abbrev pub From : ℕ → List Entry → Type 0
From low [] = Unit {0}
From low ((d, t) ∷ rest) = (low ≤ d) × From d rest

abbrev pub IsOrdered : List Entry → Type 0
IsOrdered q = From 0 q

-- The place that `enqueue` finds, as a recursion over the queue.
abbrev place : ℕ → ℕ → List Entry → List Entry
place deadline t [] = (deadline, t) ∷ []
place deadline t ((d, u) ∷ rest) =
    if leb d deadline then (d, u) ∷ place deadline t rest else (deadline, t) ∷ (d, u) ∷ rest

split-place :
    (deadline t : ℕ) (q : List Entry)
    → take (partition_point deadline q) q ++ (deadline, t) ∷ drop (partition_point deadline q) q
      ≡ place deadline t q
unfolding partition_point
split-place deadline t [] = refl
split-place deadline t ((d, u) ∷ rest) = elim (Bool-cases (leb d deadline)) [
  | inl first ↦ rw first (ap (λ q. (d, u) ∷ q) (split-place deadline t rest))
  | inr later ↦ rw later
]

enqueue_lem :
    (q : List Entry) (t deadline : ℕ) {q' : List Entry}
    → enqueue q t deadline ≡ ok q'
    → q' ≡ place deadline t q
unfolding enqueue
enqueue_lem q t deadline e = ground (arith, split-place deadline t q)

place-From :
    (deadline t low : ℕ) (q : List Entry)
    → low ≤ deadline
    → From low q
    → From low (place deadline t q)
place-From deadline t low [] h o = (h, tt)
place-From deadline t low ((d, u) ∷ rest) h o = ground (arith, place-From deadline t d rest)

place-perm : (deadline t : ℕ) (q : List Entry) → Perm (place deadline t q) ((deadline, t) ∷ q)
place-perm deadline t [] = Perm.refl _
place-perm deadline t ((d, u) ∷ rest) = elim (Bool-cases (leb d deadline)) [
  | inl first ↦ rw first (
      Perm.trans (Perm.cons (d, u) (place-perm deadline t rest))
        (Perm.swap (deadline, t) (d, u) rest))
  | inr later ↦ rw later (Perm.refl _)
]

-- The threads that wait for a deadline, in the order of the queue.
abbrev pub waiting_for : ℕ → List Entry → List ℕ
waiting_for k [] = []
waiting_for k ((d, t) ∷ rest) = let more = waiting_for k rest in if d == k then t ∷ more else more

waiting_for_later : (k low : ℕ) (q : List Entry) → k < low → From low q → waiting_for k q ≡ []
waiting_for_later k low [] h o = refl
waiting_for_later k low ((d, t) ∷ rest) h o = ground (arith, waiting_for_later k d rest)

waiting_for-place :
    (k deadline t low : ℕ) (q : List Entry)
    → From low q
    → waiting_for k (place deadline t q) ≡ waiting_for k q ++ (if deadline == k then t ∷ [] else [])
waiting_for-place k deadline t low [] o = ground arith
waiting_for-place k deadline t low ((d, u) ∷ rest) o = elim (Bool-cases (leb d deadline)) [
  | inl first ↦ ground (arith, waiting_for-place k deadline t d rest o.1)
  | inr later ↦ ground (arith, waiting_for_later k d rest, append-nil (waiting_for k rest))
]

-- An accepted `enqueue` on an ordered queue keeps it in order of deadline, adds exactly the new
-- entry, and puts it behind all that wait for the same deadline.
pub enqueue-IsOrdered :
    (q : List Entry) (t deadline : ℕ) {q' : List Entry}
    → IsOrdered q
    → enqueue q t deadline ≡ ok q'
    → IsOrdered q'
      × Perm q' ((deadline, t) ∷ q)
      × ((k : ℕ) → waiting_for k q' ≡ waiting_for k q ++ (if deadline == k then t ∷ [] else []))
enqueue-IsOrdered q t deadline o e = rw (enqueue_lem q t deadline e) (
  place-From deadline t 0 q (omega arith) o,
  place-perm deadline t q,
  λ k. waiting_for-place k deadline t 0 q o,
)
