-- ===== src/Sched.antt =====
-- The scheduler: kernel/spectre-kernel/src/sched.rs. The queues and the choice of the next thread
-- stand here; admission control is `Sched.Admission` and the lag of the background class `Sched.Lag`.
-- Threads, deadlines and slices are numbers, and a queue of the sources is the list of its entries.
pub mod Errors
pub mod Deadlines
pub mod Eligible
pub mod Choice
pub mod Admission
pub mod Lag
use whisez_os.Prelude.{
  ℕ, zero, suc, ◌+◌, ◌*◌, ◌^◌, ◌-◌, Bool, true, false, Option, none, some, List, [], ◌∷◌, ◌++◌,
  ◌==◌, ltb, leb, if◌then◌else◌, length, take, drop,
}
use whisez_os.Prelude.Results.{Result, ok, err}
use whisez_os.Prelude.Int.{ℤ}
use Lag.{eevdf_eligible}
use Errors.{SchedError, queue_full}

pub data Class : Type 0 where
  background interactive real_time : Class

abbrev pub base_slice_ns : ℕ
base_slice_ns = 6_000_000

unfoldable pub compute_deadline : ℕ → ℕ → ℕ
compute_deadline now_ns prio_ratio = now_ns + base_slice_ns * prio_ratio

-- A deadline and the thread that has it. The interactive queue holds 64 of these.
abbrev pub Entry : Type 0
Entry = ℕ × ℕ

abbrev pub interactive_cap : ℕ
interactive_cap = 64

-- `partition_point` of the standard library, on the test of `enqueue`: where the first entry with
-- a later deadline stands.
unfoldable pub partition_point : ℕ → List Entry → ℕ
partition_point deadline [] = 0
partition_point deadline ((d, t) ∷ rest) =
    let k = partition_point deadline rest in if leb d deadline then suc k else 0

unfoldable pub enqueue : List Entry → ℕ → ℕ → Result SchedError (List Entry)
unfolding partition_point
enqueue q tid deadline =
    let pos = partition_point deadline q in
    if ltb (length q) interactive_cap
    then ok (take pos q ++ (deadline, tid) ∷ drop pos q)
    else err queue_full

unfoldable pub pick_first : List Entry → Option ℕ × List Entry
pick_first [] = (none, [])
pick_first ((d, t) ∷ rest) = (some t, rest)

-- The background queue: lag, deadline and thread, unordered, 256 at most.
pub record Waiting : Type 0 where
  pub lag : ℤ
  pub deadline : ℕ
  pub tid : ℕ

abbrev pub background_cap : ℕ
background_cap = 256

unfoldable pub enqueue_background : List Waiting → ℕ → ℤ → ℕ → Result SchedError (List Waiting)
enqueue_background q tid lag deadline =
    if ltb (length q) background_cap
    then ok (q ++ record { lag = lag; deadline = deadline; tid = tid } ∷ [])
    else err queue_full

-- Whether the candidate found further back is strictly earlier: `min_by_key` keeps the first.
abbrev pub earlier : Waiting → Option (Waiting × List Waiting) → Bool
earlier e none = false
earlier e (some (best, rest)) = ltb best.deadline e.deadline

-- The eligible entry of the earliest deadline, and the queue without it.
unfoldable pub take_eligible : List Waiting → Option (Waiting × List Waiting)
take_eligible [] = none
take_eligible (e ∷ q) =
    let later = take_eligible q in
    let skipped : Option (Waiting × List Waiting) = elim later [
      | none ↦ none
      | some (best, rest) ↦ some (best, e ∷ rest)
    ] in
    if eevdf_eligible e.lag then (if earlier e later then skipped else some (e, q)) else skipped

unfoldable pub pick_eligible : List Waiting → Option ℕ × List Waiting
unfolding take_eligible
pick_eligible q = elim (take_eligible q) [
  | none ↦ (none, q)
  | some (best, rest) ↦ (some best.tid, rest)
]

pub record CpuContext : Type 0 where
  pub rt_queue : List Entry
  pub interactive_queue : List Entry
  pub background_queue : List Waiting

abbrev pub owned_by : (ℕ → Option ℕ) → ℕ → Option ℕ → Option ℕ
owned_by pid_of owner none = none
owned_by pid_of owner (some t) = elim (pid_of t) [
  | none ↦ none
  | some p ↦ if p == owner then some t else none
]

-- `isolated` is what `gamemode::isolated_owner` answers for this core, and `pid_of` is
-- `crate::thread::pid_of`.
unfoldable pub pick_next : (ℕ → Option ℕ) → Option ℕ → CpuContext → Option ℕ × CpuContext
unfolding pick_first pick_eligible
pick_next pid_of isolated cpu =
    let (rt, rt') = pick_first cpu.rt_queue in
    let (it, it') = pick_first cpu.interactive_queue in
    let (bg, bg') = pick_eligible cpu.background_queue in
    elim rt [
      | some t ↦ (some t, record cpu { rt_queue = rt' })
      | none ↦ elim isolated [
        | some owner ↦ (owned_by pid_of owner it, record cpu { interactive_queue = it' })
        | none ↦ elim it [
          | some t ↦ (some t, record cpu { interactive_queue = it' })
          | none ↦ (bg, record cpu { background_queue = bg' })
        ]
      ]
    ]

-- The affinity mask of the background class; the other classes are never restricted.
unfoldable pub set_class_affinity : Class → ℕ → ℕ → ℕ
set_class_affinity background mask affinity = mask
set_class_affinity _ mask affinity = affinity

unfoldable pub class_affinity : Class → ℕ → ℕ
class_affinity background affinity = affinity
class_affinity _ affinity = 2 ^ 64 - 1
