-- ===== src/Tests/Scheduling.antt =====
-- The queues, the choice of a thread, and admission.
use whisez_os.Prelude.{
  ℕ, suc, false, ◌*◌, ◌/◌, ◌≤◌, ◌≡◌, ◌++◌, refl, Option, none, some, List, [], ◌∷◌, arith, ◌==◌,
  if◌then◌else◌,
}
use whisez_os.Prelude.Int.{pos, negsuc, ◌+ℤ◌, ◌-ℤ◌, ◌≤ℤ◌}
use whisez_os.Prelude.Results.{ok}
use mathlib.Core.List.{Perm}
use whisez_os.Sched.{
  Entry, CpuContext, Waiting, enqueue, partition_point, pick_eligible, take_eligible, pick_next,
  pick_first,
}
use whisez_os.Sched.Deadlines.{IsOrdered, waiting_for, enqueue-IsOrdered}
use whisez_os.Sched.Eligible.{NoneEligible}
use whisez_os.Sched.Choice.{pick_next_work_conserving}
use whisez_os.Sched.Lag.{eevdf_eligible, eevdf_update_lag, eevdf_update_lag_bounds}
use whisez_os.Sched.Admission.{ceiling_ppm, share_ppm, admit_round, swapped}
use whisez_os.Sched.Admission.Interleaving.{
  start, Machine, enter, admit, Reach, here, next, sum, Reach-IsSound,
}

abbrev two_waiting : List Entry
two_waiting = (10, 1) ∷ (20, 2) ∷ []

enqueue_between : enqueue two_waiting 3 10 ≡ ok ((10, 1) ∷ (10, 3) ∷ (20, 2) ∷ [])
unfolding enqueue partition_point
enqueue_between = refl

enqueue-IsOrdered_example :
    IsOrdered ((10, 1) ∷ (10, 3) ∷ (20, 2) ∷ [])
    × Perm ((10, 1) ∷ (10, 3) ∷ (20, 2) ∷ []) ((10, 3) ∷ two_waiting)
    × ((k : ℕ)
        → waiting_for k ((10, 1) ∷ (10, 3) ∷ (20, 2) ∷ [])
          ≡ waiting_for k two_waiting ++ (if 10 == k then 3 ∷ [] else []))
enqueue-IsOrdered_example =
    enqueue-IsOrdered two_waiting 3 10 (omega arith, (omega arith, tt)) enqueue_between

abbrev background : List Waiting
background =
    record { lag = negsuc 4; deadline = 5; tid = 1 }
    ∷ record { lag = pos 2; deadline = 9; tid = 2 }
    ∷ []

abbrev idle_cpu : CpuContext
idle_cpu = record {
  rt_queue = [];
  interactive_queue = [];
  background_queue = record { lag = negsuc 4; deadline = 5; tid = 1 } ∷ [];
}

-- Thread t belongs to process t.
abbrev own_process : ℕ → Option ℕ
own_process t = some t

nothing_runs : (pick_next own_process none idle_cpu).0 ≡ none
unfolding pick_next pick_first pick_eligible take_eligible eevdf_eligible
nothing_runs = refl

pick_next_work_conserving_example :
    (idle_cpu.rt_queue ≡ [])
    × (idle_cpu.interactive_queue ≡ [])
    × NoneEligible idle_cpu.background_queue
pick_next_work_conserving_example = pick_next_work_conserving own_process idle_cpu nothing_runs

abbrev busy_cpu : CpuContext
busy_cpu = record { rt_queue = []; interactive_queue = two_waiting; background_queue = [] }

eevdf_update_lag_bounds_example :
    (eevdf_update_lag (pos 5) 100 1 4 ≡ pos 5 +ℤ pos (100 * 1 / 4) -ℤ pos 100)
    × (eevdf_update_lag (pos 5) 100 1 4 ≤ℤ pos 5)
    × (pos 5 ≤ℤ eevdf_update_lag (pos 5) 100 1 4 +ℤ pos 100)
    × (suc 0 ≡ 4 → eevdf_update_lag (pos 5) 100 1 4 ≡ pos 5)
eevdf_update_lag_bounds_example =
    eevdf_update_lag_bounds (pos 5) 100 1 4 (omega arith) (omega arith) (omega arith) (omega arith)
      (omega arith)

-- One thread asks for half of a processor, and is admitted.
abbrev asks : Machine
asks = record start { pending = (share_ppm 5 10, 0) ∷ [] }

abbrev holds : Machine
holds = record { word = 500_000; pending = []; held = share_ppm 5 10 ∷ [] }

first_round : admit_round (share_ppm 5 10) 0 0 false ≡ swapped 500_000
unfolding admit_round share_ppm
first_round = refl

admitted : Reach holds
admitted =
    next {m = asks} {n = holds} (next here (enter 5 10 (λ e. cc)))
      (admit [] [] (share_ppm 5 10) 0 500_000 false refl first_round)

Reach-IsSound_example : (holds.word ≡ sum holds.held) × (holds.word ≤ ceiling_ppm)
Reach-IsSound_example = Reach-IsSound admitted
