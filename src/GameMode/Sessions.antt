-- ===== src/GameMode/Sessions.antt =====
-- Histories of Game Mode: whoever calls, in whatever order, the machine is isolated whole or not at all.
use whisez_os.Prelude.{
  ℕ, ◌-◌, ◌≤◌, ◌<◌, ◌≡◌, inl, inr, refl, sym, subst, Bool, true, not, Option, none, some, [], ◌∷◌,
  arith, if◌then◌else◌, Bool-cases,
}
use whisez_os.Prelude.Bits.{bit, has_bit, bit_compl}
use whisez_os.Prelude.Results.{Result, ok, err}
use whisez_os.Cap.{Capability, permits, right_game_mode}
use whisez_os.Sched.{set_class_affinity}
use whisez_os.GameMode.{
  GameModeError, restore_default_profile, release_direct_scanout, game_mode_recovered, Machine,
  GameModeRequest, GameModeGrant, already_active, boot, allocate_from, allocate_physical_cores,
  max_cores, isolate, enter, restore, leave, watchdog_tick, isolated_owner,
}
use whisez_os.GameMode.Cores.{IsTopology, IsAllocation, allocate_physical_cores-IsAllocation}
use whisez_os.GameMode.Answers.{
  restore-boot, allocate_from-lt, Refuses, enter_outcome, leave_outcome,
}

-- A game holds the machine: it owns it, its cores are those it was granted, an allocation within the
-- limit, the sweeps of the vault are deferred, the background class may run on the other cores alone,
-- and no one can enter.
pub record IsIsolated (sibling : ℕ → Option ℕ) (total game mask : ℕ) (m : Machine) : Type 0 where
  pub active : m.active ≡ true
  pub owned : m.owner_pid ≡ game
  pub granted : m.isolated_mask ≡ mask
  pub count : ℕ
  pub within : count ≤ max_cores total
  pub allocated : IsAllocation sibling total count mask
  pub deferred : m.sweeps_deferred ≡ true
  pub apart : (i : ℕ) → i < 64 → bit m.background_affinity i ≡ not (bit mask i)
  pub alone : (c : Capability) (req : GameModeRequest) → Refuses m (enter sibling m c req total)

-- Who holds the machine, and the cores that it was granted, as far as the answers tell.
abbrev pub Holder : Type 0
Holder = Option (ℕ × ℕ)

abbrev pub after_enter : Holder → ℕ → Result GameModeError GameModeGrant → Holder
after_enter h game (ok g) = some (game, g.isolated_mask)
after_enter h game (err x) = h

abbrev pub after_leave : Holder → Result GameModeError (Unit {0}) → Holder
after_leave h (ok _) = none
after_leave h (err x) = h

abbrev pub after_tick : (ℕ → Bool) → Holder → Holder
after_tick alive none = none
after_tick alive (some (game, mask)) = if alive game then some (game, mask) else none

-- Calls in a row, by whomever, each with its request or with the processes alive at the time, and who
-- holds the machine after them.
pub data Reach (sibling : ℕ → Option ℕ) (total : ℕ) : Holder → Machine → Type 0 where
  here : Reach sibling total none boot
  enters :
      {h : Holder} {m : Machine} (c : Capability) (req : GameModeRequest)
      → Reach sibling total h m
      → Reach sibling total
          (after_enter h req.game (enter sibling m c req total).2)
          (enter sibling m c req total).0
  leaves :
      {h : Holder} {m : Machine} (c : Capability)
      → Reach sibling total h m
      → Reach sibling total (after_leave h (leave m c).2) (leave m c).0
  ticks :
      {h : Holder} {m : Machine} (alive : ℕ → Bool)
      → Reach sibling total h m
      → Reach sibling total (after_tick alive h) (watchdog_tick alive m).0

-- The machine as its holder has it.
abbrev pub Held : (ℕ → Option ℕ) → ℕ → Holder → Machine → Type 0
Held sibling total none m = m ≡ boot
Held sibling total (some (game, mask)) m = IsIsolated sibling total game mask m

module _ (sibling : ℕ → Option ℕ) (total : ℕ) (top : IsTopology sibling total)
    (some_core : 0 < total) (few : total ≤ 64) where
  isolate-alone :
      (m : Machine) (mask game : ℕ) (c : Capability) (req : GameModeRequest)
      → Refuses (isolate m mask game) (enter sibling (isolate m mask game) c req total)
  unfolding isolate
  isolate-alone m mask game c req = elim (enter_outcome sibling (isolate m mask game) c req total) [
    | inl refused ↦ refused
    | inr (free, r1, r2, r3) ↦ absurd (cc)
  ]

  isolate-IsIsolated :
      (m : Machine) (count game : ℕ)
      → count ≤ max_cores total
      → let mask = allocate_physical_cores sibling count total in
        IsIsolated sibling total game mask (isolate m mask game)
  unfolding isolate set_class_affinity max_cores allocate_physical_cores
  isolate-IsIsolated m count game h = record {
    active = refl;
    owned = refl;
    granted = refl;
    count = count;
    within = h;
    allocated =
        allocate_physical_cores-IsAllocation sibling total top count (omega (arith, some_core));
    deferred = refl;
    apart = λ i l.
        bit_compl 64 (allocate_from sibling count (total - 1) 0 0) i
          (allocate_from-lt sibling total count (total - 1) 0 0 top few (omega arith) (omega arith))
          l;
    alone = isolate-alone m (allocate_physical_cores sibling count total) game;
  }

  enter-Held :
      (h : Holder) (m : Machine) (c : Capability) (req : GameModeRequest)
      → Held sibling total h m
      → Held sibling total
          (after_enter h req.game (enter sibling m c req total).2)
          (enter sibling m c req total).0
  enter-Held h m c req k = elim (enter_outcome sibling m c req total) [
    | inl (same, _, (x, r)) ↦ rw (same, r) k
    | inr (_, within, set, r) ↦
        rw (set, r) (isolate-IsIsolated m req.requested_cores req.game within)
  ]

  leave-Held :
      (h : Holder) (m : Machine) (c : Capability)
      → Held sibling total h m
      → Held sibling total (after_leave h (leave m c).2) (leave m c).0
  leave-Held h m c k = elim (leave_outcome m c) [
    | inl (same, _, (x, r)) ↦ rw (same, r) k
    | inr (back, r) ↦ rw (back, r) (restore-boot m)
  ]

  tick-Held :
      (h : Holder) (m : Machine) (alive : ℕ → Bool)
      → Held sibling total h m
      → Held sibling total (after_tick alive h) (watchdog_tick alive m).0
  unfolding watchdog_tick
  tick-Held none m alive k = ground arith
  tick-Held (some (game, mask)) m alive k = elim (Bool-cases (alive game)) [
    | inl lives ↦
        let same : (watchdog_tick alive m).0 ≡ m = ground (arith, k.active, k.owned) in
        rw (lives, same) k
    | inr dead ↦
        let back : (watchdog_tick alive m).0 ≡ restore m = ground (arith, k.active, k.owned) in
        rw (dead, back) (restore-boot m)
  ]

  -- On a topology of pairs, with 1 to 64 cores: after any calls of `enter`, `leave` and the watchdog the
  -- machine is as it was at boot if no game holds it: none has entered, or the one that had has left or
  -- died. Else the last game that entered owns it: its cores are those of its grant, no more than the
  -- limit and one, core 0 not among them, with each core its sibling unless that is core 0, the background
  -- class may run on exactly the other cores, the sweeps are deferred, and every `enter` is refused and
  -- changes nothing.
  pub Reach-IsIsolated :
      {h : Holder} {m : Machine} → Reach sibling total h m → Held sibling total h m
  Reach-IsIsolated here = refl
  Reach-IsIsolated (enters {h} {m} c req r) = enter-Held h m c req (Reach-IsIsolated r)
  Reach-IsIsolated (leaves {h} {m} c r) = leave-Held h m c (Reach-IsIsolated r)
  Reach-IsIsolated (ticks {h} {m} alive r) = tick-Held h m alive (Reach-IsIsolated r)

enter_accepted :
    (sibling : ℕ → Option ℕ) (m : Machine) (c : Capability) (req : GameModeRequest) (total : ℕ)
    {g : GameModeGrant}
    → (enter sibling m c req total).2 ≡ ok g
    → (enter sibling m c req total).0 ≡ isolate m g.isolated_mask req.game
unfolding enter
enter_accepted sibling m c req total {g} entered = ground arith

-- What holds of a machine that a game has entered.
Session :
    (ℕ → Option ℕ) → Capability → GameModeRequest → ℕ → ℕ → (ℕ → Bool) → ℕ → ℕ → Machine → Type 0
Session sibling d other total cpu alive mask game m =
    (isolated_owner m cpu ≡ (if has_bit mask cpu then some game else none))
    × (enter sibling m d other total ≡ (m, [], err (already_active game)))
    × (leave m d ≡ (boot, restore_default_profile ∷ release_direct_scanout ∷ [], ok tt))
    × (watchdog_tick alive m ≡ (
        if alive game then (m, []) else (
          boot,
          restore_default_profile ∷ release_direct_scanout ∷ game_mode_recovered game ∷ [],
        )))

isolate-Session :
    (sibling : ℕ → Option ℕ) (d : Capability) (other : GameModeRequest) (total cpu : ℕ)
    (alive : ℕ → Bool) (mask game : ℕ) (m : Machine)
    → permits d right_game_mode ≡ true
    → Session sibling d other total cpu alive mask game (isolate m mask game)
unfolding Session enter isolate isolated_owner leave watchdog_tick set_class_affinity
isolate-Session sibling d other total cpu alive mask game m permitted =
    (ground arith, ground arith, ground arith, ground arith)

-- A game that has entered owns exactly the cores of its grant, for the scheduler; a second game is refused
-- with its name, changes nothing and calls nothing; a holder of the right that leaves, and the watchdog once
-- the game is dead, bring the machine back as it was at boot, restore the profile of the network and release
-- the screen, which the watchdog reports as well; while the game lives the watchdog does nothing.
pub enter_session :
    (sibling : ℕ → Option ℕ) (m : Machine) (c d : Capability) (req other : GameModeRequest)
    (total cpu : ℕ) (alive : ℕ → Bool) {g : GameModeGrant}
    → permits d right_game_mode ≡ true
    → (enter sibling m c req total).2 ≡ ok g
    → let m' = (enter sibling m c req total).0 in
      (isolated_owner m' cpu ≡ (if has_bit g.isolated_mask cpu then some req.game else none))
      × (enter sibling m' d other total ≡ (m', [], err (already_active req.game)))
      × (leave m' d ≡ (boot, restore_default_profile ∷ release_direct_scanout ∷ [], ok tt))
      × (watchdog_tick alive m' ≡ (
          if alive req.game then (m', []) else (
            boot,
            restore_default_profile ∷ release_direct_scanout ∷ game_mode_recovered req.game ∷ [],
          )))
unfolding Session
enter_session sibling m c d req other total cpu alive {g} permitted entered =
    subst (Session sibling d other total cpu alive g.isolated_mask req.game)
      (sym (enter_accepted sibling m c req total entered))
      (isolate-Session sibling d other total cpu alive g.isolated_mask req.game m permitted)
