-- ===== src/Tests/Games.antt =====
-- Game Mode on a machine of two pairs of cores.
use whisez_os.Prelude.{
  ℕ, zero, suc, ◌<◌, ◌≡◌, refl, true, false, Option, none, some, [], ◌∷◌, arith, if◌then◌else◌,
}
use whisez_os.Prelude.Bits.{has_bit, has_all}
use whisez_os.Prelude.Results.{ok, err}
use whisez_os.Cap.{Capability, endpoint, permits, right_game_mode}
use whisez_os.GameMode.{
  GameModeRequest, restore_default_profile, release_direct_scanout, game_mode_recovered, boot,
  already_active, enter, leave, watchdog_tick, isolated_owner, allocate_physical_cores,
  allocate_from, max_cores,
}
use whisez_os.GameMode.Cores.{IsTopology}
use whisez_os.GameMode.Sessions.{here, enters, Held, after_enter, Reach-IsIsolated, enter_session}

abbrev pair : ℕ → Option ℕ
pair zero = some 1
pair (suc zero) = some 0
pair (suc (suc zero)) = some 3
pair (suc (suc (suc zero))) = some 2
pair _ = none

pair-in_range : (i s : ℕ) → pair i ≡ some s → s < 4
pair-in_range zero s e = ground arith
pair-in_range (suc zero) s e = ground arith
pair-in_range (suc (suc zero)) s e = ground arith
pair-in_range (suc (suc (suc zero))) s e = ground arith
pair-in_range (suc (suc (suc (suc i)))) s e = ground arith

pair-symmetric : (i s : ℕ) → pair i ≡ some s → pair s ≡ some i
pair-symmetric zero s e = ground arith
pair-symmetric (suc zero) s e = ground arith
pair-symmetric (suc (suc zero)) s e = ground arith
pair-symmetric (suc (suc (suc zero))) s e = ground arith
pair-symmetric (suc (suc (suc (suc i)))) s e = ground arith

pair-IsTopology : IsTopology pair 4
pair-IsTopology = record { in_range = pair-in_range; symmetric = pair-symmetric }

allocated : allocate_physical_cores pair 2 4 ≡ 12
unfolding allocate_physical_cores allocate_from has_bit
allocated = refl

abbrev player : Capability
player = record { token = 9; object = endpoint 1; rights = right_game_mode }

abbrev request : GameModeRequest
request = record { game = 42; requested_cores = 2; direct_scanout = true; network_profile = false }

player_permitted : permits player right_game_mode ≡ true
unfolding permits has_all
player_permitted = refl

entered :
    (enter pair boot player request 4).2
    ≡ ok (record { isolated_mask = 12; core_count = 2; direct_scanout = true })
unfolding enter allocate_physical_cores allocate_from has_bit permits has_all max_cores
entered = refl

Reach-IsIsolated_example :
    Held pair 4
      (after_enter none 42 (enter pair boot player request 4).2)
      (enter pair boot player request 4).0
Reach-IsIsolated_example =
    Reach-IsIsolated pair 4 pair-IsTopology (omega arith) (omega arith) (enters player request here)

enter_session_example :
    let m = (enter pair boot player request 4).0 in
    (isolated_owner m 3 ≡ (if has_bit 12 3 then some 42 else none))
    × (enter pair m player request 4 ≡ (m, [], err (already_active 42)))
    × (leave m player ≡ (boot, restore_default_profile ∷ release_direct_scanout ∷ [], ok tt))
    × (watchdog_tick (λ p. false) m
        ≡ (boot, restore_default_profile ∷ release_direct_scanout ∷ game_mode_recovered 42 ∷ []))
enter_session_example =
    enter_session pair boot player player request request 4 3 (λ p. false) player_permitted entered
