-- ===== src/Sched/Admission/Interleaving.antt =====
-- Any number of admissions and releases at once, one atomic access at a time.
use whisez_os.Prelude.{
  ℕ, ◌+◌, ◌-◌, ◌*◌, ◌/◌, ◌%◌, ◌^◌, ◌≤◌, ◌<◌, ◌≡◌, ◌≢◌, refl, ap, ◌∙◌, Bool, List, [], ◌∷◌, ◌++◌,
  arith,
}
use whisez_os.Prelude.Results.{ok}
use whisez_os.Sched.Admission.{
  ceiling_ppm, share_ppm, refused, swapped, observed, admit_round, admit_realtime, release_realtime,
}

-- `pending` holds, for each thread inside the loop, its share and the value it saw last; `held` the
-- shares that were admitted and not released.
pub record Machine : Type 0 where
  pub word : ℕ
  pub pending : List (ℕ × ℕ)
  pub held : List ℕ

abbrev pub start : Machine
start = record { word = 0; pending = []; held = [] }

pub data Step (m : Machine) : Machine → Type 0 where
  enter :
      (budget period : ℕ)
      → period ≢ 0
      → Step m (record m { pending = (share_ppm budget period, m.word) ∷ m.pending })
  refuse :
      (xs ys : List (ℕ × ℕ)) (r c a b : ℕ) (spurious : Bool)
      → m.pending ≡ xs ++ (r, c) ∷ ys
      → admit_round r c m.word spurious ≡ refused a b
      → Step m (record m { pending = xs ++ ys })
  admit :
      (xs ys : List (ℕ × ℕ)) (r c new : ℕ) (spurious : Bool)
      → m.pending ≡ xs ++ (r, c) ∷ ys
      → admit_round r c m.word spurious ≡ swapped new
      → Step m (record { word = new; pending = xs ++ ys; held = r ∷ m.held })
  retry :
      (xs ys : List (ℕ × ℕ)) (r c seen : ℕ) (spurious : Bool)
      → m.pending ≡ xs ++ (r, c) ∷ ys
      → admit_round r c m.word spurious ≡ observed seen
      → Step m (record m { pending = xs ++ (r, seen) ∷ ys })
  release :
      (xs ys : List ℕ) (budget period : ℕ)
      → period ≢ 0
      → m.held ≡ xs ++ share_ppm budget period ∷ ys
      → Step m (record m { word = release_realtime budget period m.word; held = xs ++ ys })

pub data Reach : Machine → Type 0 where
  here : Reach start
  next : {m n : Machine} → Reach m → Step m n → Reach n

abbrev pub sum : List ℕ → ℕ
sum [] = 0
sum (x ∷ xs) = x + sum xs

pub sum-middle : (xs ys : List ℕ) (r : ℕ) → sum (xs ++ r ∷ ys) ≡ r + sum (xs ++ ys)
sum-middle [] ys r = refl
sum-middle (x ∷ xs) ys r = omega (arith, sum-middle xs ys r)

pub record IsSound (m : Machine) : Type 0 where
  pub accounted : m.word ≡ sum m.held
  pub capped : m.word ≤ ceiling_ppm

admit_round-swapped :
    (r c word new : ℕ) (spurious : Bool)
    → admit_round r c word spurious ≡ swapped new
    → (word ≡ c) × (new ≡ c + r) × (new ≤ ceiling_ppm)
unfolding admit_round
admit_round-swapped r c word new spurious e = ground arith

release_realtime-word :
    (b p word : ℕ) → p ≢ 0 → release_realtime b p word ≡ (word + 2 ^ 32 - share_ppm b p) % 2 ^ 32
unfolding release_realtime
release_realtime-word b p word h = ground arith

Step-IsSound : {m n : Machine} → Step m n → IsSound m → IsSound n
Step-IsSound (enter b p h) s = record { accounted = s.accounted; capped = s.capped }
Step-IsSound (refuse xs ys r c a b w p e) s = record { accounted = s.accounted; capped = s.capped }
Step-IsSound {m} (admit xs ys r c new w p e) s =
    let made = admit_round-swapped r c m.word new w e in
    record { accounted = omega arith; capped = omega arith }
Step-IsSound (retry xs ys r c seen w p e) s = record { accounted = s.accounted; capped = s.capped }
Step-IsSound {m} (release xs ys b p h e) s =
    let total = ap sum e ∙ sum-middle xs ys (share_ppm b p) in
    let less = release_realtime-word b p m.word h in
    record { accounted = omega arith; capped = omega arith }

-- However admissions and releases interleave, and however often a swap fails, the shared word is the
-- sum of the shares that are held and never passes the ceiling.
pub Reach-IsSound : {m : Machine} → Reach m → (m.word ≡ sum m.held) × (m.word ≤ ceiling_ppm)
Reach-IsSound r = let s = sound r in (s.accounted, s.capped)
  where
    sound : {m : Machine} → Reach m → IsSound m
    sound here = record { accounted = refl; capped = omega arith }
    sound (next before step) = Step-IsSound step (sound before)

-- The fault of the cast: where the share asked for, in parts per million, is a multiple of 2 ^ 32
-- and not 0, and its product does not saturate, the request is admitted and the shared word stays
-- as it is.
pub admit_realtime_truncates :
    (budget period word : ℕ)
    → period ≢ 0
    → word ≤ ceiling_ppm
    → budget * 1_000_000 < 2 ^ 64
    → 2 ^ 32 ≤ budget * 1_000_000 / period
    → (budget * 1_000_000 / period) % 2 ^ 32 ≡ 0
    → admit_realtime budget period word ≡ (word, ok tt)
unfolding admit_realtime
admit_realtime_truncates budget period word p w fits big cut = ground arith
