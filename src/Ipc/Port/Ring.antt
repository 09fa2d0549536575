-- ===== src/Ipc/Port/Ring.antt =====
-- What the slots of the ring hold, read from the tail on.
use whisez_os.Prelude.{
  ℕ, ◌+◌, ◌-◌, ◌%◌, ◌<◌, ◌≤◌, ◌≡◌, ap, ◌∙◌, Option, some, List, [], ◌∷◌, ◌++◌, arith, length,
  get_elem?, set, get_elem?-set_ne,
}
use whisez_os.Ipc.{Notification}
use whisez_os.Ipc.Port.{slots, u32}

-- The notifications stand in the ring, in order, from the counter value `at` on.
abbrev pub Window : List (Option Notification) → ℕ → List Notification → Type 0
Window ring at [] = Unit {0}
Window ring at (n ∷ q) =
    (get_elem? ring (at % slots) ≡ some (some n)) × Window ring (u32 (at + 1)) q

-- A write to a slot `d` places past the start of a window of at most `d` leaves the window.
pub Window-set :
    (ring : List (Option Notification)) (at j d : ℕ) (slot : Option Notification)
    (q : List Notification)
    → j ≡ (at + d) % slots
    → length q ≤ d
    → d < slots
    → Window ring at q
    → Window (set ring j slot) at q
Window-set ring at j d slot [] e h k w = tt
Window-set ring at j d slot (n ∷ q) e h k (first, rest) = (
  get_elem?-set_ne ring slot (λ same. absurd (omega arith)) ∙ first,
  Window-set ring (u32 (at + 1)) j (d - 1) slot q (omega arith) (omega arith) (omega arith) rest,
)

get_elem?-at {ℓ} : {A : Type ℓ} (xs : List A) {i j : ℕ} → i ≡ j → get_elem? xs i ≡ get_elem? xs j
get_elem?-at xs e = ap (get_elem? xs) e

pub Window-append :
    (ring : List (Option Notification)) (at : ℕ) (q : List Notification) (n : Notification)
    → Window ring at q
    → get_elem? ring ((at + length q) % slots) ≡ some (some n)
    → Window ring at (q ++ n ∷ [])
Window-append ring at [] n w e = (get_elem?-at ring (omega arith) ∙ e, tt)
Window-append ring at (m ∷ q) n (first, rest) e =
    (first, Window-append ring (u32 (at + 1)) q n rest (get_elem?-at ring (omega arith) ∙ e))
