-- ===== src/Fs/Snapshots.antt =====
-- The pruning of snapshots: layout.rs, lines 329 to 380. `sort_unstable_by_key` of the standard library
-- is the argument `sort`: what it does with equal keys is open. The vectors have fixed capacities: more
-- than 128 snapshots of one class panic, which is `none`, and a push to a full plan is ignored.
pub mod Lists
pub mod Doomed
pub mod Plan
use whisez_os.Prelude.{
  ℕ, ◌-◌, Bool, true, false, Option, none, some, List, [], ◌∷◌, ◌++◌, ltb, leb, if◌then◌else◌,
  length, take,
}
use whisez_os.Fs.{BlockPtr}

pub data Retention : Type 0 where
  hourly daily weekly monthly manual : Retention

pub record Snapshot : Type 0 where
  pub id : ℕ
  pub txg : ℕ
  pub created_ms : ℕ
  pub object_root : BlockPtr
  pub retention : Retention

abbrev pub retention_eq : Retention → Retention → Bool
retention_eq hourly hourly = true
retention_eq daily daily = true
retention_eq weekly weekly = true
retention_eq monthly monthly = true
retention_eq manual manual = true
retention_eq _ _ = false

abbrev pub retention_limits : List (Retention × ℕ)
retention_limits = (hourly, 24) ∷ (daily, 7) ∷ (weekly, 4) ∷ (monthly, 12) ∷ []

abbrev pub class_cap : ℕ
class_cap = 128

abbrev pub plan_cap : ℕ
plan_cap = 64

unfoldable pub of_class : Retention → List Snapshot → List Snapshot
of_class c [] = []
of_class c (s ∷ rest) =
    let more = of_class c rest in if retention_eq s.retention c then s ∷ more else more

unfoldable pub push_ids : List ℕ → List Snapshot → List ℕ
push_ids doomed [] = doomed
push_ids doomed (s ∷ rest) =
    push_ids (if ltb (length doomed) plan_cap then doomed ++ s.id ∷ [] else doomed) rest

module _ (sort : List Snapshot → List Snapshot) where
  unfoldable pub prune_classes : List (Retention × ℕ) → List Snapshot → List ℕ → Option (List ℕ)
  prune_classes [] snapshots doomed = some doomed
  prune_classes ((c, limit) ∷ limits) snapshots doomed =
      let found = of_class c snapshots in
      let excess = length found - limit in
      let rest = prune_classes limits snapshots (push_ids doomed (take excess (sort found))) in
      if leb (length found) class_cap then rest else none

  unfoldable pub prune_plan : List Snapshot → Option (List ℕ)
  unfolding prune_classes
  prune_plan snapshots = prune_classes retention_limits snapshots []
