-- ===== src/Ipc/Port.antt =====
-- The asynchronous port of ipc.rs, lines 221 to 316: a ring of 256 slots between two counters that
-- wrap at 2 ^ 32. The threads that `post` hands to `sched::wake_deferred` are part of its result.
-- Each operation is one step: what several producers at once do to the counters is not modelled.
pub mod Ring
pub mod Refinement
pub mod Histories
use whisez_os.Prelude.{
  ℕ, ◌+◌, ◌-◌, ◌%◌, ◌^◌, Bool, true, false, not, Option, none, some, List, [], ◌∷◌, ◌==◌, ltb, leb,
  if◌then◌else◌, get_elem?, set, replicate,
}
use whisez_os.Prelude.Results.{Result, ok, err}
use whisez_os.Cap.{Capability, permits, right_send, right_receive}
use whisez_os.Ipc.{IpcError, denied, overflow, Notification}

abbrev pub slots : ℕ
slots = 256

abbrev pub u32 : ℕ → ℕ
u32 n = n % 2 ^ 32

pub record Port : Type 0 where
  pub ring : List (Option Notification)
  pub head : ℕ  -- AtomicU32
  pub tail : ℕ  -- AtomicU32
  pub dropped : ℕ  -- AtomicU32
  pub waiter : Option ℕ

unfoldable pub new : Port
new = record { ring = replicate slots none; head = 0; tail = 0; dropped = 0; waiter = none }

-- The thread that is to be woken, if one is parked.
abbrev pub wakeups : Option ℕ → List ℕ
wakeups none = []
wakeups (some t) = t ∷ []

-- The new port, the deferred wakeups, and the result.
unfoldable pub post : Port → Capability → Notification → Port × List ℕ × Result IpcError (Unit {0})
post p c note =
    if not (permits c right_send)
    then (p, [], err denied)
    else if leb slots (u32 (p.head + 2 ^ 32 - p.tail))
    then (record p { dropped = u32 (p.dropped + 1) }, [], err overflow)
    else (
      record p { ring = set p.ring (p.head % slots) (some note); head = u32 (p.head + 1) },
      wakeups p.waiter,
      ok tt,
    )

-- `take` on the slot; a slot out of the ring's range does not occur, and reads as empty.
abbrev pub taken : Option (Option Notification) → Option Notification
taken none = none
taken (some slot) = slot

unfoldable pub try_recv : Port → Capability → Port × Result IpcError (Option Notification)
try_recv p c =
    if not (permits c right_receive)
    then (p, err denied)
    else if p.tail == p.head
    then (p, ok none)
    else (
      record p { ring = set p.ring (p.tail % slots) none; tail = u32 (p.tail + 1) },
      ok (taken (get_elem? p.ring (p.tail % slots))),
    )

unfoldable pub take_drop_count : Port → Port × ℕ
take_drop_count p = (record p { dropped = 0 }, p.dropped)
