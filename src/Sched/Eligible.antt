-- ===== src/Sched/Eligible.antt =====
-- The background queue runs only threads that are owed service, the earliest deadline first.
use whisez_os.Prelude.{
  ℕ, ◌≤◌, ◌≡◌, refl, Bool, true, false, Option, none, some, List, [], ◌∷◌, arith, Bool-cases, inl,
  inr, ltb,
}
use mathlib.Core.List.{Perm}
use mathlib.Core.List.Perm
use whisez_os.Sched.Lag.{eevdf_eligible}
use whisez_os.Sched.{Waiting, take_eligible, pick_eligible}

-- No eligible entry has an earlier deadline.
abbrev pub NoneEarlier : ℕ → List Waiting → Type 0
NoneEarlier d [] = Unit {0}
NoneEarlier d (e ∷ q) = (eevdf_eligible e.lag ≡ true → d ≤ e.deadline) × NoneEarlier d q

abbrev pub NoneEligible : List Waiting → Type 0
NoneEligible [] = Unit {0}
NoneEligible (e ∷ q) = (eevdf_eligible e.lag ≡ false) × NoneEligible q

-- What a scan may answer.
abbrev pub Takes : List Waiting → Option (Waiting × List Waiting) → Type 0
Takes q none = NoneEligible q
Takes q (some (best, rest)) =
    (eevdf_eligible best.lag ≡ true) × NoneEarlier best.deadline q × Perm q (best ∷ rest)

NoneEarlier-mono : (d k : ℕ) (q : List Waiting) → k ≤ d → NoneEarlier d q → NoneEarlier k q
NoneEarlier-mono d k [] h n = tt
NoneEarlier-mono d k (e ∷ q) h n = (λ el. ground (arith, n.0 el), NoneEarlier-mono d k q h n.1)

NoneEligible-earlier : (d : ℕ) (q : List Waiting) → NoneEligible q → NoneEarlier d q
NoneEligible-earlier d [] n = tt
NoneEligible-earlier d (e ∷ q) n = (λ el. absurd (cc (n.0)), NoneEligible-earlier d q n.1)

pub take_eligible-Takes : (q : List Waiting) → Takes q (take_eligible q)
unfolding take_eligible
take_eligible-Takes [] = tt
take_eligible-Takes (e ∷ q) =
    go (take_eligible q) (take_eligible-Takes q) refl (eevdf_eligible e.lag) refl
  where
    go :
        (later : Option (Waiting × List Waiting))
        → Takes q later
        → take_eligible q ≡ later
        → (b : Bool) → eevdf_eligible e.lag ≡ b
        → Takes (e ∷ q) (take_eligible (e ∷ q))
    go none t h true el =
        rw (h, el, take_eligible)
          (el, (λ _. omega arith, NoneEligible-earlier e.deadline q t), Perm.refl (e ∷ q))
    go none t h false el = rw (h, el, take_eligible) (el, t)
    go (some (best, rest)) (ok, first, perm) h false el =
        rw (h, el, take_eligible)
          (
            ok,
            (λ bad. absurd (cc (el, bad)), first),
            Perm.trans (Perm.cons e perm) (Perm.swap best e rest),
          )
    go (some (best, rest)) (ok, first, perm) h true el =
        elim (Bool-cases (ltb best.deadline e.deadline)) [
          | inl strictly ↦
              rw (h, el, strictly, take_eligible)
                (
                  ok,
                  (λ _. ground arith, first),
                  Perm.trans (Perm.cons e perm) (Perm.swap best e rest),
                )
          | inr not_earlier ↦
              rw (h, el, not_earlier, take_eligible)
                (
                  el,
                  (
                    λ _. omega arith,
                    NoneEarlier-mono best.deadline e.deadline q (ground arith) first,
                  ),
                  Perm.refl (e ∷ q),
                )
        ]

-- What `pick_eligible` may answer: nothing, from a queue where every lag is negative, which it leaves
-- as it was; or the thread of an entry that is owed service, has the earliest deadline among those
-- that are, and is the one entry that is removed.
pub data Picks (q : List Waiting) : Option ℕ × List Waiting → Type 0 where
  idle : NoneEligible q → Picks q (none, q)
  run :
      (best : Waiting) (rest : List Waiting)
      → eevdf_eligible best.lag ≡ true
      → NoneEarlier best.deadline q
      → Perm q (best ∷ rest)
      → Picks q (some best.tid, rest)

-- `pick_eligible` either answers none, with the queue as it was and no entry of it eligible, or it
-- takes out an eligible entry whose deadline is the earliest among the eligible ones, and leaves the
-- others.
pub pick_eligible-Picks : (q : List Waiting) → Picks q (pick_eligible q)
unfolding pick_eligible
pick_eligible-Picks q = go (take_eligible q) (take_eligible-Takes q) refl
  where
    go :
        (o : Option (Waiting × List Waiting))
        → Takes q o
        → take_eligible q ≡ o
        → Picks q (pick_eligible q)
    go none t h = rw (h, pick_eligible) (idle t)
    go (some (best, rest)) (ok, first, perm) h = rw (h, pick_eligible) (run best rest ok first perm)
