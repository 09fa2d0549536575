-- ===== src/Arch/Idt/Gates.antt =====
-- What a gate says when it is read back.
use whisez_os.Prelude.{
  ℕ, zero, suc, ◌+◌, ◌*◌, ◌/◌, ◌%◌, ◌^◌, ◌≤◌, ◌<◌, ◌≡◌, refl, ap, ◌∙◌, bit_or, bit_and, not, ◌==◌,
  true, arith, if◌then◌else◌,
}
use whisez_os.Prelude.Bits.{or_fields}
use whisez_os.Prelude.Results.{ok, err}
use whisez_os.Arch.Idt.{
  GateKind, interrupt, trap, type_bits, GateDescriptor, gate_new, handler_address, is_present,
  gate_dpl, gate_kind, gate_ist_index, bad_ist_index,
}

-- The attributes of a gate, of the two kinds and the four privileges.
attr : GateKind → ℕ → ℕ
attr kind d = bit_or (bit_or 0x80 (d * 2 ^ 5)) (type_bits kind)

kind_of : ℕ → GateKind
kind_of a = if a % 16 == 0xF then trap else interrupt

attr_fields :
    (kind : GateKind) (d : ℕ)
    → d < 4
    → (not (bit_and (attr kind d) 0x80 == 0) ≡ true)
      × ((attr kind d / 2 ^ 5) % 4 ≡ d)
      × (kind_of (attr kind d) ≡ kind)
unfolding attr kind_of
attr_fields interrupt zero h = (refl, refl, refl)
attr_fields interrupt (suc zero) h = (refl, refl, refl)
attr_fields interrupt (suc (suc zero)) h = (refl, refl, refl)
attr_fields interrupt (suc (suc (suc zero))) h = (refl, refl, refl)
attr_fields interrupt (suc (suc (suc (suc d)))) h = absurd (omega arith)
attr_fields trap zero h = (refl, refl, refl)
attr_fields trap (suc zero) h = (refl, refl, refl)
attr_fields trap (suc (suc zero)) h = (refl, refl, refl)
attr_fields trap (suc (suc (suc zero))) h = (refl, refl, refl)
attr_fields trap (suc (suc (suc (suc d)))) h = absurd (omega arith)

-- What a gate tells when it is read back.
pub record Decodes (g : GateDescriptor) (handler selector : ℕ) (kind : GateKind) (dpl ist : ℕ)
    : Type 0 where
  pub address : handler_address g ≡ handler
  pub kept_selector : g.selector ≡ selector
  pub present : is_present g ≡ true
  pub privilege : gate_dpl g ≡ dpl
  pub kept_kind : gate_kind g ≡ kind
  pub stack : gate_ist_index g ≡ ist
  pub clear : g.ist < 8

address_back :
    (a : ℕ)
    → a < 2 ^ 64
    → bit_or (bit_or (a % 2 ^ 16) ((a / 2 ^ 16) % 2 ^ 16 * 2 ^ 16)) ((a / 2 ^ 32) % 2 ^ 32 * 2 ^ 32)
      ≡ a
address_back a h =
    let low = or_fields 16 (a % 2 ^ 16) ((a / 2 ^ 16) % 2 ^ 16) (omega arith) in
    let high =
      or_fields 32 (a % 2 ^ 16 + (a / 2 ^ 16) % 2 ^ 16 * 2 ^ 16) ((a / 2 ^ 32) % 2 ^ 32)
        (omega arith) in
    ap (λ x. bit_or x ((a / 2 ^ 32) % 2 ^ 32 * 2 ^ 32)) low ∙ high ∙ omega arith

-- A gate is refused when its stack index is above 7, and else it gives back all that it was made of: the
-- address of the handler from its three fields, the selector, the kind, the privilege and the stack.
pub gate_new-Decodes :
    (handler selector : ℕ) (kind : GateKind) (dpl ist_index : ℕ)
    → handler < 2 ^ 64
    → dpl < 4
    → (7 < ist_index → gate_new handler selector kind dpl ist_index ≡ err (bad_ist_index ist_index))
      × (ist_index ≤ 7
          → (g : GateDescriptor) × (gate_new handler selector kind dpl ist_index ≡ ok g)
            × Decodes g handler selector kind dpl ist_index)
unfolding gate_new handler_address is_present gate_dpl gate_kind gate_ist_index attr kind_of
gate_new-Decodes handler selector kind dpl ist_index h d =
    let same : dpl % 4 ≡ dpl = omega arith in
    let (present, privilege, back) = attr_fields kind (dpl % 4) (omega arith) in
    (
      λ l. ground arith,
      λ l. (
        record {
          offset_low = handler % 2 ^ 16;
          selector = selector;
          ist = ist_index % 8;
          type_attr = bit_or (bit_or 0x80 ((dpl % 4) * 2 ^ 5)) (type_bits kind);
          offset_mid = (handler / 2 ^ 16) % 2 ^ 16;
          offset_high = (handler / 2 ^ 32) % 2 ^ 32;
          reserved = 0;
        },
        ground arith,
        record {
          address = address_back handler h;
          kept_selector = refl;
          present = present;
          privilege = privilege ∙ same;
          kept_kind = back;
          stack = omega arith;
          clear = omega arith;
        },
      ),
    )
