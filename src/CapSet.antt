-- ===== src/CapSet.antt =====
-- The per-process capability set: `CapSet` of kernel/spectre-kernel/src/cap.rs, lines 153 to 217.
-- An open-addressed table of 256 slots with linear probing. The loop of `insert` has no bound in
-- the source: here it has one round of fuel for each slot, and `none` means that it ran out.
pub mod Probe
pub mod Laws
pub mod Revoke
pub mod Histories
use whisez_os.Prelude.{
  ℕ, zero, suc, ◌+◌, ◌-◌, ◌%◌, Bool, true, false, Option, none, some, List, [], ◌∷◌, ◌==◌,
  if◌then◌else◌, get_elem?, set, replicate,
}
use whisez_os.Cap.{Object, object_eq, Capability, handle}

abbrev pub slots : ℕ
slots = 256

abbrev pub Slots : Type 0
Slots = List (Option Capability)

pub record CapSet : Type 0 where
  pub entries : Slots
  pub len : ℕ

unfoldable pub new : CapSet
new = record { entries = replicate slots none; len = 0 }

-- One call of the loop body for each probe; the result is the new set and the handle.
unfoldable pub insert_loop : ℕ → CapSet → Capability → ℕ → Option (CapSet × ℕ)
insert_loop zero s cap idx = none
insert_loop (suc fuel) s cap idx = elim (get_elem? s.entries idx) [
  | none ↦ none
  | some none ↦
      some (record { entries = set s.entries idx (some cap); len = s.len + 1 }, handle cap)
  | some (some existing) ↦
      let rest = insert_loop fuel s cap ((idx + 1) % slots) in
      if handle existing == handle cap then some (s, handle cap) else rest
]

-- The outer option is the fuel of the loop, the inner one the result of the source.
unfoldable pub insert : CapSet → Capability → Option (CapSet × Option ℕ)
insert s cap =
    if s.len == slots then some (s, none) else elim (insert_loop slots s cap (handle cap % slots)) [
      | none ↦ none
      | some (t, h) ↦ some (t, some h)
    ]

unfoldable pub lookup_loop : ℕ → Slots → ℕ → ℕ → Option Capability
lookup_loop zero entries h idx = none
lookup_loop (suc fuel) entries h idx = elim (get_elem? entries idx) [
  | none ↦ none
  | some none ↦ none
  | some (some cap) ↦
      let rest = lookup_loop fuel entries h ((idx + 1) % slots) in
      if handle cap == h then some cap else rest
]

unfoldable pub lookup : CapSet → ℕ → Option Capability
lookup s h = lookup_loop slots s.entries h (h % slots)

unfoldable pub names : Object → Option Capability → Bool
names object none = false
names object (some c) = object_eq c.object object

-- The loop of `revoke_object` over the slots: what is left, and how many were cleared.
unfoldable pub revoke_loop : Object → Slots → Slots × ℕ
revoke_loop object [] = ([], 0)
revoke_loop object (slot ∷ rest) =
    let (rest', revoked) = revoke_loop object rest in
    if names object slot then (none ∷ rest', revoked + 1) else (slot ∷ rest', revoked)

unfoldable pub revoke_object : CapSet → Object → CapSet × ℕ
revoke_object s object =
    let (entries', revoked) = revoke_loop object s.entries in
    (record { entries = entries'; len = s.len - revoked }, revoked)
