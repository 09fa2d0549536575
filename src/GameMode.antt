-- ===== src/GameMode.antt =====
-- Game Mode: kernel/spectre-kernel/src/gamemode.rs, with the two statics of other modules that it sets:
-- `vault::SWEEPS_DEFERRED` and `sched::BACKGROUND_AFFINITY`. What it calls in `net`, `gpu`, `compact`,
-- `notify` and `percpu`, which are not in the repository, is a list of effects, in order. Each call is
-- one step. The topology is the argument `sibling`, and cores are numbered below 64.
pub mod Cores
pub mod Answers
pub mod Sessions
use whisez_os.Prelude.{
  ℕ, zero, suc, ◌+◌, ◌-◌, ◌*◌, ◌/◌, ◌^◌, bit_or, Bool, true, false, not, ◌&&◌, ◌||◌, Option, none,
  some, List, [], ◌∷◌, ◌++◌, ◌==◌, ltb, leb, if◌then◌else◌, min, max,
}
use whisez_os.Prelude.Bits.{has_bit}
use whisez_os.Prelude.Results.{Result, ok, err}
use whisez_os.Cap.{Capability, permits, right_game_mode}
use whisez_os.Sched.{background, set_class_affinity}

pub data GameModeError : Type 0 where
  denied not_active : GameModeError
  already_active : ℕ → GameModeError
  too_many_cores : ℕ → ℕ → GameModeError

pub record GameModeRequest : Type 0 where
  pub game : ℕ
  pub requested_cores : ℕ
  pub direct_scanout : Bool
  pub network_profile : Bool

pub record GameModeGrant : Type 0 where
  pub isolated_mask : ℕ
  pub core_count : ℕ
  pub direct_scanout : Bool

pub record Machine : Type 0 where
  pub isolated_mask : ℕ
  pub owner_pid : ℕ
  pub active : Bool
  pub sweeps_deferred : Bool
  pub background_affinity : ℕ

abbrev pub all_cores : ℕ
all_cores = 2 ^ 64 - 1

abbrev pub boot : Machine
boot = record {
  isolated_mask = 0;
  owner_pid = 0;
  active = false;
  sweeps_deferred = false;
  background_affinity = all_cores;
}

pub data Effect : Type 0 where
  migrate_all_except : ℕ → ℕ → Effect
  apply_low_latency_profile request_direct_scanout request_contiguous game_mode_recovered :
      ℕ → Effect
  restore_default_profile release_direct_scanout : Effect

-- The loop over the cores from `core` down to 1; with enough cores assigned it breaks off.
unfoldable pub allocate_from : (ℕ → Option ℕ) → ℕ → ℕ → ℕ → ℕ → ℕ
allocate_from sibling count zero mask assigned = mask
allocate_from sibling count (suc k) mask assigned =
    let rest = λ (m n : ℕ). allocate_from sibling count k m n in
    let taken : ℕ = bit_or mask (2 ^ suc k) in
    if leb count assigned
    then mask
    else if has_bit mask (suc k)
    then rest mask assigned
    else elim (sibling (suc k)) [
      | none ↦ rest taken (assigned + 1)
      | some s ↦
          if not (s == 0) && not (has_bit taken s)
          then rest (bit_or taken (2 ^ s)) (assigned + 2)
          else rest taken (assigned + 1)
    ]

unfoldable pub allocate_physical_cores : (ℕ → Option ℕ) → ℕ → ℕ → ℕ
unfolding allocate_from
allocate_physical_cores sibling count total = allocate_from sibling count (total - 1) 0 0

-- `total_cores as f32 * 0.75`, cut to an integer: exact where the number of cores is below 2 ^ 22.
unfoldable pub max_cores : ℕ → ℕ
max_cores total = min (max (total * 3 / 4) 1) (total - 1)

unfoldable pub migrate_from : ℕ → ℕ → ℕ → ℕ → List Effect
migrate_from zero cpu mask owner = []
migrate_from (suc n) cpu mask owner =
    let rest = migrate_from n (cpu + 1) mask owner in
    if has_bit mask cpu then migrate_all_except cpu owner ∷ rest else rest

unfoldable pub migrate_off : ℕ → ℕ → List Effect
unfolding migrate_from
migrate_off mask owner = migrate_from 64 0 mask owner

abbrev pub when : Bool → Effect → List Effect
when true e = e ∷ []
when false e = []

-- What `enter` sets: the statics of the module, the flag of the vault and the background affinity.
unfoldable pub isolate : Machine → ℕ → ℕ → Machine
isolate m mask game = record {
  isolated_mask = mask;
  owner_pid = game;
  active = true;
  sweeps_deferred = true;
  background_affinity = set_class_affinity background (all_cores - mask) m.background_affinity;
}

unfoldable pub enter :
    (ℕ → Option ℕ)
    → Machine
    → Capability
    → GameModeRequest
    → ℕ
    → Machine × List Effect × Result GameModeError GameModeGrant
unfolding max_cores isolate
enter sibling m cap_token req total =
    let mask = allocate_physical_cores sibling req.requested_cores total in
    if not (permits cap_token right_game_mode)
    then (m, [], err denied)
    else if m.active
    then (m, [], err (already_active m.owner_pid))
    else if ltb (max_cores total) req.requested_cores
    then (m, [], err (too_many_cores req.requested_cores (max_cores total)))
    else (
      isolate m mask req.game,
      migrate_off mask req.game
          ++ (when req.network_profile (apply_low_latency_profile req.game)
              ++ (when req.direct_scanout (request_direct_scanout req.game)
                  ++ request_contiguous req.game ∷ [])),
      ok (record {
        isolated_mask = mask;
        core_count = req.requested_cores;
        direct_scanout = req.direct_scanout;
      }),
    )

-- What `leave` and the watchdog restore.
unfoldable pub restore : Machine → Machine
restore m = record {
  isolated_mask = 0;
  owner_pid = 0;
  active = false;
  sweeps_deferred = false;
  background_affinity = set_class_affinity background all_cores m.background_affinity;
}

unfoldable pub leave :
    Machine → Capability → Machine × List Effect × Result GameModeError (Unit {0})
unfolding restore
leave m cap_token =
    if not (permits cap_token right_game_mode)
    then (m, [], err denied)
    else if not m.active
    then (m, [], err not_active)
    else (restore m, restore_default_profile ∷ release_direct_scanout ∷ [], ok tt)

-- `alive` is `thread::process_alive`.
unfoldable pub watchdog_tick : (ℕ → Bool) → Machine → Machine × List Effect
unfolding restore
watchdog_tick alive m =
    if not m.active
    then (m, [])
    else if not (alive m.owner_pid)
    then (
      restore m,
      restore_default_profile ∷ release_direct_scanout ∷ game_mode_recovered m.owner_pid ∷ [],
    )
    else (m, [])

unfoldable pub isolated_owner : Machine → ℕ → Option ℕ
isolated_owner m cpu =
    if not m.active then none else if has_bit m.isolated_mask cpu then some m.owner_pid else none
