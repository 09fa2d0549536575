-- ===== src/Sched/Choice.antt =====
-- The choice of the next thread: `pick_next` of sched.rs.
use whisez_os.Prelude.{
  ℕ, ◌≡◌, subst, Option-cases, Option, none, some, List, [], ◌∷◌, arith, ◌≢◌, ◌==◌, Bool-cases, inl,
  inr,
}
use whisez_os.Sched.{Entry, CpuContext, Waiting, pick_next, take_eligible}
use whisez_os.Sched.Eligible.{NoneEligible, Takes, take_eligible-Takes}

take_none : (q : List Waiting) → take_eligible q ≡ none → NoneEligible q
take_none q e = subst (Takes q) e (take_eligible-Takes q)

-- On a core that no game owns, no thread is chosen only if the real-time and the interactive queue
-- are empty and no thread of the background queue is eligible.
pub pick_next_work_conserving :
    (pid_of : ℕ → Option ℕ) (cpu : CpuContext)
    → (pick_next pid_of none cpu).0 ≡ none
    → (cpu.rt_queue ≡ []) × (cpu.interactive_queue ≡ []) × NoneEligible cpu.background_queue
unfolding pick_next
pick_next_work_conserving pid_of cpu e =
    (ground arith, ground arith, take_none cpu.background_queue (ground arith))

-- The fault of isolation: on a core that a game owns, with no real-time thread, if the first
-- interactive thread is not of the game then nothing is chosen, the thread has left the interactive
-- queue, and the background queue is as before.
pub isolated_core_loses_thread :
    (pid_of : ℕ → Option ℕ) (owner d t : ℕ) (rest : List Entry) (cpu : CpuContext)
    → cpu.rt_queue ≡ []
    → cpu.interactive_queue ≡ (d, t) ∷ rest
    → pid_of t ≢ some owner
    → (pick_next pid_of (some owner) cpu).0 ≡ none
      × ((pick_next pid_of (some owner) cpu).1.interactive_queue ≡ rest)
      × ((pick_next pid_of (some owner) cpu).1.background_queue ≡ cpu.background_queue)
unfolding pick_next
isolated_core_loses_thread pid_of owner d t rest cpu r q foreign = elim (Option-cases (pid_of t)) [
  | inl nobody ↦ ground arith
  | inr (p, e) ↦ elim (Bool-cases (p == owner)) [
    | inl same ↦ absurd (foreign (ground arith))
    | inr other ↦ ground arith
  ]
]
