-- ===== src/GameMode/Answers.antt =====
-- How the calls of Game Mode end: an error that changes nothing, or the state that is set.
use whisez_os.Prelude.{
  ℕ, zero, suc, ◌+◌, ◌≤◌, ◌<◌, ◌≡◌, ◌⊎◌, inl, inr, refl, Option, List, [], false, arith, ltb,
  bit_or, ◌^◌, Bool-cases, Option-cases,
}
use whisez_os.Prelude.Bits.{bit_or-lt, pow_lt_pow}
use whisez_os.Prelude.Results.{Result, ok, err}
use whisez_os.Cap.{Capability, permits, right_game_mode}
use whisez_os.Sched.{set_class_affinity}
use whisez_os.GameMode.{
  GameModeError, Machine, GameModeRequest, denied, not_active, already_active, too_many_cores,
  Effect, boot, allocate_from, allocate_physical_cores, max_cores, isolate, enter, restore, leave,
}
use whisez_os.GameMode.Cores.{IsTopology}

pub restore-boot : (m : Machine) → restore m ≡ boot
unfolding restore set_class_affinity
restore-boot m = refl

pub allocate_from-lt :
    (sibling : ℕ → Option ℕ) (total count k mask n : ℕ)
    → IsTopology sibling total
    → total ≤ 64
    → k < total
    → mask < 2 ^ 64
    → allocate_from sibling count k mask n < 2 ^ 64
unfolding allocate_from
allocate_from-lt sibling total count zero mask n top t h small = small
allocate_from-lt sibling total count (suc k) mask n top t h small =
    let taken = bit_or mask (2 ^ suc k) in
    let taken_lt = bit_or-lt 64 mask (2 ^ suc k) small (pow_lt_pow 64 (suc k) (omega arith)) in
    elim (Option-cases (sibling (suc k))) [
      | inl alone ↦ ground (
        arith,
        taken_lt,
        allocate_from-lt sibling total count k mask n top t,
        allocate_from-lt sibling total count k taken (n + 1) top t,
      )
      | inr (s, pair) ↦ ground (
        arith,
        taken_lt,
        bit_or-lt 64 taken (2 ^ s) taken_lt
            (pow_lt_pow 64 s (omega (arith, top.in_range (suc k) s pair))),
        allocate_from-lt sibling total count k mask n top t,
        allocate_from-lt sibling total count k taken (n + 1) top t,
        allocate_from-lt sibling total count k (bit_or taken (2 ^ s)) (n + 2) top t,
      )
    ]

-- An answer that is an error, and nothing else.
abbrev pub Refuses :
    {A : Type 0} → Machine → Machine × List Effect × Result GameModeError A → Type 0
Refuses m (m', effects, r) = (m' ≡ m) × (effects ≡ []) × ((x : GameModeError) × (r ≡ err x))

pub enter_outcome :
    (sibling : ℕ → Option ℕ) (m : Machine) (c : Capability) (req : GameModeRequest) (total : ℕ)
    → Refuses m (enter sibling m c req total)
      ⊎ ((m.active ≡ false)
          × (req.requested_cores ≤ max_cores total)
          × ((enter sibling m c req total).0
              ≡ isolate m (allocate_physical_cores sibling req.requested_cores total) req.game)
          × ((enter sibling m c req total).2
              ≡ ok (record {
                isolated_mask = allocate_physical_cores sibling req.requested_cores total;
                core_count = req.requested_cores;
                direct_scanout = req.direct_scanout;
              })))
unfolding enter
enter_outcome sibling m c req total = elim (Bool-cases (permits c right_game_mode)) [
  | inr refused ↦ inl (ground arith, ground arith, (denied, ground arith))
  | inl permitted ↦ elim (Bool-cases m.active) [
    | inl taken ↦ inl (ground arith, ground arith, (already_active m.owner_pid, ground arith))
    | inr free ↦ elim (Bool-cases (ltb (max_cores total) req.requested_cores)) [
      | inl too_many ↦ inl (
        ground arith,
        ground arith,
        (too_many_cores req.requested_cores (max_cores total), ground arith),
      )
      | inr fits ↦ inr (free, ground arith, ground arith, ground arith)
    ]
  ]
]

pub leave_outcome :
    (m : Machine) (c : Capability)
    → Refuses m (leave m c) ⊎ (((leave m c).0 ≡ restore m) × ((leave m c).2 ≡ ok tt))
unfolding leave
leave_outcome m c = elim (Bool-cases (permits c right_game_mode)) [
  | inr refused ↦ inl (ground arith, ground arith, (denied, ground arith))
  | inl permitted ↦ elim (Bool-cases m.active) [
    | inl taken ↦ inr (ground arith, ground arith)
    | inr free ↦ inl (ground arith, ground arith, (not_active, ground arith))
  ]
]
