-- ===== src/Sched/Admission.antt =====
-- Real-time admission control: sched.rs, lines 159 to 218. The utilisation is one shared word, in
-- parts per million, that a compare-and-swap loop moves.
pub mod Interleaving
use whisez_os.Prelude.{
  ℕ, ◌+◌, ◌-◌, ◌*◌, ◌/◌, ◌%◌, ◌^◌, Bool, true, false, ◌&&◌, not, ◌==◌, ltb, if◌then◌else◌, min,
}
use whisez_os.Prelude.Results.{Result, ok, err}
use whisez_os.Sched.Errors.{SchedError, rt_admission_refused}

abbrev pub ceiling_ppm : ℕ
ceiling_ppm = 700_000

abbrev pub u32_max : ℕ
u32_max = 2 ^ 32 - 1

-- The share that is asked for: a saturating product, and a cast to `u32` that cuts.
unfoldable pub share_ppm : ℕ → ℕ → ℕ
share_ppm budget_ns period_ns = (min (budget_ns * 1_000_000) (2 ^ 64 - 1) / period_ns) % 2 ^ 32

-- One round of the loop, for a share asked, the value seen last and the shared word: the refusal,
-- the new word, or the value seen instead. The swap is weak, so it may fail with no reason.
pub data Round : Type 0 where
  refused : ℕ → ℕ → Round
  swapped : ℕ → Round
  observed : ℕ → Round

unfoldable pub admit_round : ℕ → ℕ → ℕ → Bool → Round
admit_round requested current word spurious =
    let new = min (current + requested) u32_max in
    if ltb ceiling_ppm new
    then refused requested (ceiling_ppm - current)
    else if (word == current) && not spurious
    then swapped new
    else observed word

abbrev pub settle : ℕ → Round → ℕ × Result SchedError (Unit {0})
settle word (refused r a) = (word, err (rt_admission_refused r a))
settle word (swapped new) = (new, ok tt)
settle word (observed v) = (word, ok tt)

-- `admit_realtime` when nothing else runs: the first round decides.
unfoldable pub admit_realtime : ℕ → ℕ → ℕ → ℕ × Result SchedError (Unit {0})
unfolding admit_round share_ppm
admit_realtime budget_ns period_ns word =
    if period_ns == 0
    then (word, err (rt_admission_refused 0 0))
    else settle word (admit_round (share_ppm budget_ns period_ns) word word false)

-- `fetch_sub` wraps.
unfoldable pub release_realtime : ℕ → ℕ → ℕ → ℕ
unfolding share_ppm
release_realtime budget_ns period_ns word =
    if period_ns == 0 then word else (word + 2 ^ 32 - share_ppm budget_ns period_ns) % 2 ^ 32
