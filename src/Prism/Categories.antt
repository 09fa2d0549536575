-- ===== src/Prism/Categories.antt =====
-- The list of categories: `CategoryModel` of userland/prism/src/startmenu.rs. `delta` is a number of 32
-- bits with a sign, and the sum with it wraps.
use Prim.Native.String.{String}
use whisez_os.Prelude.{
  ℕ, suc, ◌+◌, ◌-◌, ◌^◌, ◌%◌, ◌≤◌, ◌<◌, ◌≡◌, Option, none, some, List, [], ◌∷◌, arith, leb, ltb,
  get_elem?, get_elem?-some, if◌then◌else◌,
}
use whisez_os.Prelude.Int.{ℤ, pos, negsuc, ◌+ℤ◌}

abbrev pub face_count : ℕ
face_count = 12

abbrev pub categories : List String
categories =
    "Security" ∷ "Games" ∷ "Development" ∷ "Network" ∷ "Forensics" ∷ "Media" ∷ "Office" ∷ "Graphics"
    ∷ "System" ∷ "Windows Apps" ∷ "Utilities" ∷ "Settings" ∷ []

-- A sum that is at least -2 ^ 31, in 32 bits with a sign.
unfoldable pub wrap_i32 : ℤ → ℤ
wrap_i32 (pos n) = if ltb n (2 ^ 31) then pos n else negsuc (2 ^ 32 - n - 1)
wrap_i32 (negsuc n) = negsuc n

-- `(sum % n + n) % n`: the first remainder has the sign of the sum.
unfoldable pub normalised : ℤ → ℕ
normalised (pos n) = (n % face_count + face_count) % face_count
normalised (negsuc n) = (face_count - suc n % face_count) % face_count

unfoldable pub step : ℕ → ℤ → ℕ
step selected delta = normalised (wrap_i32 (pos selected +ℤ delta))

-- The selection, and the answer.
unfoldable pub select : ℕ → ℕ → ℕ × Option String
select selected index =
    if leb face_count index then (selected, none) else (index, get_elem? categories index)

-- `none` stands for the panic of an index out of range.
unfoldable pub current : ℕ → Option String
current selected = get_elem? categories selected

normalised-lt : (z : ℤ) → normalised z < face_count
unfolding normalised
normalised-lt (pos n) = omega arith
normalised-lt (negsuc n) = omega arith

-- No step leaves the list, also one that wraps.
pub step-lt : (selected : ℕ) (delta : ℤ) → step selected delta < face_count
unfolding step
step-lt selected delta = normalised-lt (wrap_i32 (pos selected +ℤ delta))

-- After any step there is a current category.
pub current-step :
    (selected : ℕ) (delta : ℤ) → (name : String) × (current (step selected delta) ≡ some name)
unfolding current
current-step selected delta =
    get_elem?-some categories (step selected delta) (step-lt selected delta)

-- A step back undoes a step of which neither can wrap.
pub step-step :
    (selected n : ℕ)
    → selected < face_count
    → n + face_count + 1 ≤ 2 ^ 31
    → (step (step selected (pos (suc n))) (negsuc n) ≡ selected)
      × (step (step selected (negsuc n)) (pos (suc n)) ≡ selected)
unfolding step wrap_i32 normalised ◌+ℤ◌
step-step selected n h k = ground arith
