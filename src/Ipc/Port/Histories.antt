-- ===== src/Ipc/Port/Histories.antt =====
-- Any history of calls on a port, against the bounded queue.
use whisez_os.Prelude.{ℕ, ◌≡◌, refl, ap, ap₂, true, Option, List, [], ◌∷◌}
use whisez_os.Prelude.Results.{Result}
use whisez_os.Cap.{Capability, permits, right_send, right_receive}
use whisez_os.Ipc.{IpcError, Notification}
use whisez_os.Ipc.Port.{u32, Port, new, post, try_recv, take_drop_count}
use whisez_os.Ipc.Port.Refinement.{
  Queue, Refines, put, get, new-Refines, post-Refines, try_recv-Refines, take_drop_count-Refines,
}

pub data Call : Type 0 where
  posts : Notification → Call
  receives counts : Call

pub data Answer : Type 0 where
  posted : Result IpcError (Unit {0}) → Answer
  received : Result IpcError (Option Notification) → Answer
  counted : ℕ → Answer

abbrev pub step : Capability → Port → Call → Port × Answer
step c p (posts n) = let (p', _, r) = post p c n in (p', posted r)
step c p receives = let (p', r) = try_recv p c in (p', received r)
step c p counts = let (p', k) = take_drop_count p in (p', counted k)

abbrev pub queue_step : Queue → Call → Queue × Answer
queue_step q (posts n) = let (q', r) = put q n in (q', posted r)
queue_step q receives = let (q', r) = get q in (q', received r)
queue_step q counts = (record q { lost = 0 }, counted (u32 q.lost))

-- The answers of a history, in order.
abbrev pub answers : Capability → Port → List Call → List Answer
answers c p [] = []
answers c p (call ∷ calls) = let (p', a) = step c p call in a ∷ answers c p' calls

abbrev pub queue_answers : Queue → List Call → List Answer
queue_answers q [] = []
queue_answers q (call ∷ calls) = let (q', a) = queue_step q call in a ∷ queue_answers q' calls

module _ (c : Capability) (sends : permits c right_send ≡ true)
    (receives' : permits c right_receive ≡ true) where
  step-Refines :
      (p : Port) (q : Queue) (call : Call)
      → Refines p q
      → Refines (step c p call).0 (queue_step q call).0
        × ((step c p call).1 ≡ (queue_step q call).1)
  step-Refines p q (posts n) r = let (r', e) = post-Refines p q c n sends r in (r', ap posted e)
  step-Refines p q receives r =
      let (r', e) = try_recv-Refines p q c receives' r in (r', ap received e)
  step-Refines p q counts r = let (r', e) = take_drop_count-Refines p q r in (r', ap counted e)

  answers-Refines :
      (p : Port) (q : Queue) (calls : List Call)
      → Refines p q
      → answers c p calls ≡ queue_answers q calls
  answers-Refines p q [] r = refl
  answers-Refines p q (call ∷ calls) r =
      let (r', e) = step-Refines p q call r in
      ap₂ (λ a rest. a ∷ rest) e (answers-Refines (step c p call).0 (queue_step q call).0 calls r')

  -- On a new port, whatever calls are made and however often the counters wrap, a holder of both
  -- rights gets the answers of a queue of at most 256 notifications that turns away what does not fit.
  pub port_is_bounded_queue :
      (calls : List Call)
      → answers c new calls ≡ queue_answers (record { items = []; lost = 0 }) calls
  port_is_bounded_queue calls = answers-Refines new _ calls new-Refines
