-- ===== src/Guard/Indicators/Windows.antt =====
-- What the search for a signature finds.
use whisez_os.Prelude.{
  ℕ, ◌+◌, ◌<◌, ◌≡◌, ◌↔◌, inl, inr, refl, ap, ap₂, sym, ◌∙◌, true, ◌&&◌, List, [], ◌∷◌, ◌++◌, leb,
  arith, length, take, drop, take-append-drop, length-append, Bool-cases,
}
use whisez_os.Guard.{bytes_eq, bytes_eq_iff}
use whisez_os.Guard.Indicators.{window_is, any_window, contains_joined}

take-append : (xs ys : List ℕ) → take (length xs) (xs ++ ys) ≡ xs
take-append [] ys = refl
take-append (x ∷ xs) ys = ap (λ t. x ∷ t) (take-append xs ys)

drop-append : (xs ys : List ℕ) → drop (length xs) (xs ++ ys) ≡ ys
drop-append [] ys = refl
drop-append (x ∷ xs) ys = drop-append xs ys

window_is_iff :
    (window first second : List ℕ)
    → (window_is window first second ≡ true) ↔ (window ≡ first ++ second)
unfolding window_is
window_is_iff window first second = (to, from)
  where
    to :
        (bytes_eq (take (length first) window) first
            && bytes_eq (drop (length first) window) second)
          ≡ true
        → window ≡ first ++ second
    to e =
        let a = (bytes_eq_iff (take (length first) window) first).0 (ground arith) in
        let b = (bytes_eq_iff (drop (length first) window) second).0 (ground arith) in
        sym (take-append-drop (length first) window) ∙ ap₂ (λ x y. x ++ y) a b

    from :
        window ≡ first ++ second
        → (bytes_eq (take (length first) window) first
            && bytes_eq (drop (length first) window) second)
          ≡ true
    from e =
        let a =
          (bytes_eq_iff (take (length first) window) first).1
            (ap (take (length first)) e ∙ take-append first second) in
        let b =
          (bytes_eq_iff (drop (length first) window) second).1
            (ap (drop (length first)) e ∙ drop-append first second) in
        ground arith

-- The signature stands in a text.
abbrev pub Occurs : List ℕ → List ℕ → Type 0
Occurs signature text = (before : List ℕ) × (after : List ℕ) × (text ≡ before ++ signature ++ after)

starts_iff :
    (xs first second : List ℕ)
    → ((leb (length first + length second) (length xs)
          && window_is (take (length first + length second) xs) first second)
        ≡ true)
      ↔ ((after : List ℕ) × (xs ≡ (first ++ second) ++ after))
starts_iff xs first second = (to, from)
  where
    width : length (first ++ second) ≡ length first + length second
    width = length-append first second

    to :
        (leb (length first + length second) (length xs)
            && window_is (take (length first + length second) xs) first second)
          ≡ true
        → (after : List ℕ) × (xs ≡ (first ++ second) ++ after)
    to e =
        let hit =
          (window_is_iff (take (length first + length second) xs) first second).0 (ground arith) in
        (
          drop (length first + length second) xs,
          sym (take-append-drop (length first + length second) xs)
              ∙ ap (λ w. w ++ drop (length first + length second) xs) hit,
        )

    from :
        (after : List ℕ) × (xs ≡ (first ++ second) ++ after)
        → (leb (length first + length second) (length xs)
            && window_is (take (length first + length second) xs) first second)
          ≡ true
    from (after, e) =
        let window =
          ap (λ n. take n xs) (sym width)
          ∙ ap (take (length (first ++ second))) e
          ∙ take-append (first ++ second) after in
        let hit = (window_is_iff (take (length first + length second) xs) first second).1 window in
        let long = ap length e ∙ length-append (first ++ second) after in ground (arith, width)

Occurs-any_window :
    (xs first second : List ℕ)
    → any_window xs (length first + length second) first second ≡ true
    → Occurs (first ++ second) xs
unfolding any_window
Occurs-any_window [] first second e = cc
Occurs-any_window (x ∷ xs) first second e =
    elim (Bool-cases (
      leb (length first + length second) (length (x ∷ xs))
      && window_is (take (length first + length second) (x ∷ xs)) first second)) [
        | inl here ↦ let (after, e') = (starts_iff (x ∷ xs) first second).0 here in ([], after, e')
        | inr later ↦
            let (before, after, e') = Occurs-any_window xs first second (ground arith) in
            (x ∷ before, after, ap (λ t. x ∷ t) e')
      ]

any_window-Occurs :
    (xs before first second after : List ℕ)
    → 0 < length first + length second
    → xs ≡ before ++ (first ++ second) ++ after
    → any_window xs (length first + length second) first second ≡ true
unfolding any_window
any_window-Occurs [] before first second after pos e = absurd (
    omega (
      arith,
      ap length e,
      length-append (before ++ (first ++ second)) after,
      length-append before (first ++ second),
      length-append first second,
    ))
any_window-Occurs (x ∷ xs) [] first second after pos e =
    let here = (starts_iff (x ∷ xs) first second).1 (after, e) in ground arith
any_window-Occurs (x ∷ xs) (b ∷ before) first second after pos e =
    let later = any_window-Occurs xs before first second after pos (ap (drop 1) e) in ground arith

-- The search finds a signature that is not empty exactly where its two halves stand one after the other.
pub contains_joined_iff :
    (haystack first second : List ℕ)
    → 0 < length first + length second
    → (contains_joined haystack first second ≡ true) ↔ Occurs (first ++ second) haystack
unfolding contains_joined
contains_joined_iff haystack first second pos = (
  λ e. Occurs-any_window haystack first second (ground arith),
  λ o.
      let (before, after, e) = o in
      let found = any_window-Occurs haystack before first second after pos e in ground arith,
)
