-- ===== src/Ipc/Port/Refinement.antt =====
-- The port implements a bounded queue with a count of what it turned away.
use whisez_os.Prelude.{
  ℕ, ◌+◌, ◌%◌, ◌^◌, ◌<◌, ◌≤◌, ◌≡◌, ap, ◌∙◌, refl, subst, true, Option, none, some, List, [], ◌∷◌,
  ◌++◌, arith, length, get_elem?, set, get_elem?-set_self, length-set, length-append, leb,
  if◌then◌else◌, length-replicate, Bool-cases, inl, inr, leb→le,
}
use whisez_os.Prelude.Results.{Result, ok, err}
use whisez_os.Cap.{Capability, permits, right_send, right_receive}
use whisez_os.Ipc.{IpcError, overflow, Notification}
use whisez_os.Ipc.Port.{slots, u32, Port, new, post, try_recv, take_drop_count}
use whisez_os.Ipc.Port.Ring.{Window, Window-set, Window-append}

-- The contract: at most 256 notifications, oldest first, and how many were dropped.
pub record Queue : Type 0 where
  pub items : List Notification
  pub lost : ℕ

pub record Refines (p : Port) (q : Queue) : Type 0 where
  pub size : length p.ring ≡ slots
  pub head_word : p.head < 2 ^ 32
  pub tail_word : p.tail < 2 ^ 32
  pub span : p.head ≡ u32 (p.tail + length q.items)
  pub bounded : length q.items ≤ slots
  pub contents : Window p.ring p.tail q.items
  pub lost_count : p.dropped ≡ u32 q.lost

abbrev pub put : Queue → Notification → Queue × Result IpcError (Unit {0})
put q n =
    if leb slots (length q.items)
    then (record q { lost = q.lost + 1 }, err overflow)
    else (record q { items = q.items ++ n ∷ [] }, ok tt)

abbrev pub get : Queue → Queue × Result IpcError (Option Notification)
get q = elim q.items [ [] ↦ (q, ok none) | n ∷ rest ↦ (record q { items = rest }, ok (some n)) ]

pub new-Refines : Refines new (record { items = []; lost = 0 })
unfolding new
new-Refines = record {
  size = length-replicate {A = Option Notification} slots none;
  head_word = omega arith;
  tail_word = omega arith;
  span = omega arith;
  bounded = omega arith;
  contents = tt;
  lost_count = omega arith;
}

post_room :
    (p : Port) (q : Queue) (c : Capability) (n : Notification)
    → permits c right_send ≡ true
    → Refines p q
    → length q.items < slots
    → Refines (post p c n).0 (record q { items = q.items ++ n ∷ [] }) × ((post p c n).2 ≡ ok tt)
unfolding post
post_room p q c n h r room =
    let at = p.head % slots in
    let here = get_elem?-set_self p.ring at (some n) (omega arith) in
    let kept =
      Window-set p.ring p.tail at (length q.items) (some n) q.items (omega arith) (omega arith)
        (omega arith) r.contents in
    let grown =
      Window-append (set p.ring at (some n)) p.tail q.items n kept
        (ap (get_elem? (set p.ring at (some n))) (omega arith) ∙ here) in
    ground (arith, grown, length-set p.ring at (some n), length-append q.items (n ∷ []))

post_full :
    (p : Port) (q : Queue) (c : Capability) (n : Notification)
    → permits c right_send ≡ true
    → Refines p q
    → slots ≤ length q.items
    → Refines (post p c n).0 (record q { lost = q.lost + 1 }) × ((post p c n).2 ≡ err overflow)
unfolding post
post_full p q c n h r full = ground arith

-- A post by a holder of the right to send does what the bounded queue does.
pub post-Refines :
    (p : Port) (q : Queue) (c : Capability) (n : Notification)
    → permits c right_send ≡ true
    → Refines p q
    → Refines (post p c n).0 (put q n).0 × ((post p c n).2 ≡ (put q n).1)
post-Refines p q c n h r = elim (Bool-cases (leb slots (length q.items))) [
  | inl full ↦ rw full (post_full p q c n h r (omega (arith, leb→le)))
  | inr room ↦ rw room (post_room p q c n h r (ground arith))
]

try_recv_empty :
    (p : Port) (q : Queue) (c : Capability)
    → permits c right_receive ≡ true
    → Refines p q
    → q.items ≡ []
    → (try_recv p c).0 ≡ p × ((try_recv p c).1 ≡ ok none)
unfolding try_recv
try_recv_empty p q c h r e = ground (arith, ap length e)

try_recv-some :
    (p : Port) (q : Queue) (c : Capability) (n : Notification) (rest : List Notification)
    → permits c right_receive ≡ true
    → Refines p q
    → q.items ≡ n ∷ rest
    → Refines (try_recv p c).0 (record q { items = rest }) × ((try_recv p c).1 ≡ ok (some n))
unfolding try_recv
try_recv-some p q c n rest h r e =
    let w : Window p.ring p.tail (n ∷ rest) = subst (Window p.ring p.tail) e r.contents in
    let len = ap length e in
    let kept =
      Window-set p.ring (u32 (p.tail + 1)) (p.tail % slots) 255 none rest (omega arith)
        (omega arith) (omega arith) w.1 in
    ground (arith, w.0, kept, len, length-set p.ring (p.tail % slots) none)

-- A receive by a holder of the right to receive does what the bounded queue does.
pub try_recv-Refines :
    (p : Port) (q : Queue) (c : Capability)
    → permits c right_receive ≡ true
    → Refines p q
    → Refines (try_recv p c).0 (get q).0 × ((try_recv p c).1 ≡ (get q).1)
try_recv-Refines p q c h r = go q.items refl
  where
    go :
        (items : List Notification)
        → q.items ≡ items
        → Refines (try_recv p c).0 (get q).0 × ((try_recv p c).1 ≡ (get q).1)
    go [] e =
        let (same, result) = try_recv_empty p q c h r e in
        rw (e, same) (subst (λ xs. Refines p (record q { items = xs })) e r, result)
    go (n ∷ rest) e = rw e (try_recv-some p q c n rest h r e)

pub take_drop_count-Refines :
    (p : Port) (q : Queue)
    → Refines p q
    → Refines (take_drop_count p).0 (record q { lost = 0 }) × ((take_drop_count p).1 ≡ u32 q.lost)
unfolding take_drop_count
take_drop_count-Refines p q r = ground arith
