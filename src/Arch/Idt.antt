-- ===== src/Arch/Idt.antt =====
-- The interrupt descriptor table: arch/idt.rs, with the selectors that it takes from arch/gdt.rs. A vector
-- is a number below 256, as its type has it in the source.
pub mod Gates
pub mod Guarded
use whisez_os.Prelude.{
  ℕ, zero, suc, ◌+◌, ◌*◌, ◌/◌, ◌%◌, ◌^◌, bit_and, bit_or, Bool, true, false, not, ◌&&◌, ◌||◌,
  Option, none, some, List, [], ◌∷◌, ◌-◌, ◌==◌, ltb, leb, if◌then◌else◌, get_elem?, set, replicate,
}
use whisez_os.Prelude.Bits.{has_bit}
use whisez_os.Prelude.Results.{Result, ok, err, ◌>>=◌}

abbrev pub vector_count : ℕ
vector_count = 256

abbrev pub breakpoint : ℕ
breakpoint = 3

abbrev pub double_fault : ℕ
double_fault = 8

abbrev pub machine_check : ℕ
machine_check = 18

abbrev pub first_device : ℕ
first_device = 32

unfoldable pub pushes_error_code : ℕ → Bool
pushes_error_code v =
    v == double_fault || v == 10 || v == 11 || v == 12 || v == 13 || v == 14 || v == 17 || v == 21

unfoldable pub is_abort : ℕ → Bool
is_abort v = v == double_fault || v == machine_check

pub data IdtError : Type 0 where
  bad_ist_index unsafe_user_gate non_canonical_handler reserved_vector : ℕ → IdtError

pub data GateKind : Type 0 where
  interrupt trap : GateKind

abbrev pub type_bits : GateKind → ℕ
type_bits interrupt = 0xE
type_bits trap = 0xF

pub record GateDescriptor : Type 0 where
  pub offset_low : ℕ
  pub selector : ℕ
  pub ist : ℕ
  pub type_attr : ℕ
  pub offset_mid : ℕ
  pub offset_high : ℕ
  pub reserved : ℕ

abbrev pub missing : GateDescriptor
missing = record {
  offset_low = 0;
  selector = 0;
  ist = 0;
  type_attr = 0;
  offset_mid = 0;
  offset_high = 0;
  reserved = 0;
}

unfoldable pub gate_new : ℕ → ℕ → GateKind → ℕ → ℕ → Result IdtError GateDescriptor
gate_new handler selector kind dpl ist_index =
    if ltb 7 ist_index
    then err (bad_ist_index ist_index)
    else ok (record {
      offset_low = handler % 2 ^ 16;
      selector = selector;
      ist = ist_index % 8;
      type_attr = bit_or (bit_or 0x80 ((dpl % 4) * 2 ^ 5)) (type_bits kind);
      offset_mid = (handler / 2 ^ 16) % 2 ^ 16;
      offset_high = (handler / 2 ^ 32) % 2 ^ 32;
      reserved = 0;
    })

unfoldable pub handler_address : GateDescriptor → ℕ
handler_address g = bit_or (bit_or g.offset_low (g.offset_mid * 2 ^ 16)) (g.offset_high * 2 ^ 32)

unfoldable pub is_present : GateDescriptor → Bool
is_present g = not (bit_and g.type_attr 0x80 == 0)

unfoldable pub gate_dpl : GateDescriptor → ℕ
gate_dpl g = (g.type_attr / 2 ^ 5) % 4

unfoldable pub gate_kind : GateDescriptor → GateKind
gate_kind g = if g.type_attr % 16 == 0xF then trap else interrupt

unfoldable pub gate_ist_index : GateDescriptor → ℕ
gate_ist_index g = g.ist % 8

-- The gates, one for each vector.
abbrev pub Idt : Type 0
Idt = List GateDescriptor

unfoldable pub new : Idt
new = replicate vector_count missing

-- A call that fails changes nothing.
unfoldable pub set_handler : Idt → ℕ → ℕ → ℕ → GateKind → ℕ → Result IdtError Idt
unfolding gate_new
set_handler idt v handler selector kind ist_index =
    gate_new handler selector kind 0 ist_index >>= λ g. ok (set idt v g)

unfoldable pub set_user_invokable_handler : Idt → ℕ → ℕ → ℕ → GateKind → Result IdtError Idt
unfolding gate_new
set_user_invokable_handler idt v handler selector kind =
    if not (v == breakpoint)
    then err (unsafe_user_gate v)
    else gate_new handler selector kind 3 0 >>= λ g. ok (set idt v g)

unfoldable pub set_device_handler : Idt → ℕ → ℕ → ℕ → Result IdtError Idt
unfolding set_handler
set_device_handler idt v handler selector =
    if ltb v first_device
    then err (reserved_vector v)
    else set_handler idt v handler selector interrupt 0

abbrev pub is_reserved : ℕ → Bool
is_reserved v = v == 9 || v == 15 || (leb 22 v && leb v 27) || (leb 29 v && leb v 31)

unfoldable pub present_at : Idt → ℕ → Bool
unfolding is_present
present_at idt v = elim (get_elem? idt v) [ none ↦ false | some g ↦ is_present g ]

-- The filter over the vectors from `v` on, with `n` of them to come.
unfoldable pub missing_from : Idt → ℕ → ℕ → List ℕ
unfolding present_at
missing_from idt zero v = []
missing_from idt (suc n) v =
    let rest = missing_from idt n (v + 1) in
    if not (is_reserved v) && not (present_at idt v) then v ∷ rest else rest

unfoldable pub missing_exception_vectors : Idt → List ℕ
unfolding missing_from
missing_exception_vectors idt = missing_from idt 32 0

unfoldable pub limit : ℕ
limit = (vector_count * 16 - 1) % 2 ^ 16

-- The error code of a page fault, bit by bit.
unfoldable pub protection_violation : ℕ → Bool
protection_violation e = has_bit e 0

unfoldable pub caused_by_write : ℕ → Bool
caused_by_write e = has_bit e 1

unfoldable pub from_user_mode : ℕ → Bool
from_user_mode e = has_bit e 2

unfoldable pub reserved_bit_set : ℕ → Bool
reserved_bit_set e = has_bit e 3

unfoldable pub instruction_fetch : ℕ → Bool
instruction_fetch e = has_bit e 4

unfoldable pub shadow_stack : ℕ → Bool
shadow_stack e = has_bit e 6

unfoldable pub is_demand_pageable : ℕ → Bool
unfolding protection_violation reserved_bit_set shadow_stack
is_demand_pageable e =
    not (protection_violation e) && not (reserved_bit_set e) && not (shadow_stack e)
