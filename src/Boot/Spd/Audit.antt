-- ===== src/Boot/Spd/Audit.antt =====
-- The outcome of the audit.
use whisez_os.Prelude.{
  ℕ, ◌+◌, ◌-◌, ◌^◌, ◌≤◌, ◌<◌, ◌≡◌, ◌≢◌, inl, inr, refl, Bool, true, false, List, [], ◌∷◌, arith,
  Bool-cases, ltb, min,
}
use whisez_os.Prelude.Results.{Result, ok, err}
use whisez_os.Boot.Spd.{
  Module, SmBus, MemoryFault, no_modules_detected, below_minimum, map_mismatch, audit, enumerate,
  min_ram_bytes, map_tolerance_bytes,
}
use whisez_os.Boot.Spd.Capacities.{
  InSlots, installed, spd_total-installed, InSlots-installed, enumerate-InSlots,
}

-- What the audit says of the modules, the firmware's map and whether the bus could be reached.
pub data Verdict (ms : List Module) (map : ℕ) : Bool → Result MemoryFault ℕ → Type 0 where
  empty : ms ≡ [] → Verdict ms map true (err no_modules_detected)
  hidden :
      map + map_tolerance_bytes < installed ms
      → Verdict ms map true (err (map_mismatch (installed ms) map))
  small :
      (bus : Bool)
      → (bus ≡ true → (ms ≢ []) × (installed ms ≤ map + map_tolerance_bytes))
      → map < min_ram_bytes
      → Verdict ms map bus (err (below_minimum map min_ram_bytes))
  enough :
      ms ≢ []
      → installed ms ≤ map + map_tolerance_bytes
      → min_ram_bytes ≤ map
      → Verdict ms map true (ok map)
  unseen : min_ram_bytes ≤ map → Verdict ms map false (ok map)

-- The audit of modules in the eight slots, which a sum of 64 bits holds, has a verdict on every branch.
pub audit-Verdict :
    (ms : List Module) (map : ℕ) (bus : Bool)
    → InSlots 0 8 ms
    → Verdict ms map bus (audit ms map bus)
unfolding audit
audit-Verdict ms map false h = elim (Bool-cases (ltb map min_ram_bytes)) [
  | inl low ↦ rw low (small false (λ e. cc) (ground arith))
  | inr high ↦ rw high (unseen (ground arith))
]
audit-Verdict [] map true h = empty refl
audit-Verdict (m ∷ ms) map true h =
    let total = spd_total-installed 0 (m ∷ ms) h in
    let some_module : m ∷ ms ≢ [] = λ e. cc in
    let fits = InSlots-installed 0 8 (m ∷ ms) h in
    elim (Bool-cases (ltb (min (map + map_tolerance_bytes) (2 ^ 64 - 1)) (installed (m ∷ ms)))) [
      | inl gap ↦ rw (total, gap) (hidden (ground arith))
      | inr near ↦
          let close : installed (m ∷ ms) ≤ map + map_tolerance_bytes = ground arith in
          elim (Bool-cases (ltb map min_ram_bytes)) [
            | inl low ↦
                rw (total, near, low) (small true (λ e. (some_module, close)) (ground arith))
            | inr high ↦ rw (total, near, high) (enough some_module close (ground arith))
          ]
    ]

-- What `enumerate` finds on any bus is audited so.
pub audit-enumerate :
    {B : Type 0} (bus : SmBus B) (b : B) (map : ℕ)
    → Verdict (enumerate bus b).0 map true (audit (enumerate bus b).0 map true)
audit-enumerate bus b map = audit-Verdict (enumerate bus b).0 map true (enumerate-InSlots bus b)
