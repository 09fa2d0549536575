-- ===== src/Arch/Gdt.antt =====
-- Segment descriptors and the task state segment: arch/gdt.rs.
pub mod Layout
use whisez_os.Prelude.{
  ℕ, zero, suc, ◌+◌, ◌-◌, ◌*◌, ◌/◌, ◌%◌, ◌^◌, bit_and, bit_or, Bool, true, false, not, ◌&&◌, ◌||◌,
  Option, none, some, List, [], ◌∷◌, ◌==◌, ltb, leb, if◌then◌else◌, get_elem?, set, replicate, take,
}
use whisez_os.Prelude.Bits.{has_bit}
use whisez_os.Prelude.Results.{Result, ok, err, ◌>>=◌, ◌>>◌, ok_or}

-- The bits of the access byte.
abbrev pub rw_access : ℕ
rw_access = 2

abbrev pub executable : ℕ
executable = 8

abbrev pub user_segment : ℕ
user_segment = 16

abbrev pub dpl_ring3 : ℕ
dpl_ring3 = 96

abbrev pub present_access : ℕ
present_access = 128

abbrev pub tss_available : ℕ
tss_available = 0x9

abbrev pub long_mode : ℕ
long_mode = 2

abbrev pub db_32bit : ℕ
db_32bit = 4

abbrev pub granularity : ℕ
granularity = 8

pub data GdtError : Type 0 where
  long_mode_with_32bit_default table_full : GdtError
  sysret_ordering : ℕ → ℕ → GdtError
  bad_ist_index : ℕ → GdtError

unfoldable pub segment : ℕ → ℕ → Result GdtError ℕ
segment access_byte flags_nibble =
    if not (bit_and flags_nibble long_mode == 0) && not (bit_and flags_nibble db_32bit == 0)
    then err long_mode_with_32bit_default
    else ok (
        bit_or
          (bit_or (bit_or (bit_or 0 (access_byte * 2 ^ 40)) (flags_nibble % 16 * 2 ^ 52)) 0xFFFF)
          (0xF * 2 ^ 48))

-- `expect`: none is its panic.
abbrev pub expect : Result GdtError ℕ → Option ℕ
expect (ok d) = some d
expect (err e) = none

unfoldable pub kernel_code : Option ℕ
unfolding segment
kernel_code = expect (
    segment (bit_or (bit_or (bit_or present_access user_segment) executable) rw_access)
      (bit_or long_mode granularity))

unfoldable pub kernel_data : Option ℕ
unfolding segment
kernel_data = expect (segment (bit_or (bit_or present_access user_segment) rw_access) granularity)

unfoldable pub user_code : Option ℕ
unfolding segment
user_code = expect (
    segment
      (bit_or (bit_or (bit_or (bit_or present_access user_segment) executable) rw_access) dpl_ring3)
      (bit_or long_mode granularity))

unfoldable pub user_data : Option ℕ
unfolding segment
user_data =
    expect (
      segment (bit_or (bit_or (bit_or present_access user_segment) rw_access) dpl_ring3)
        granularity)

unfoldable pub descriptor_dpl : ℕ → ℕ
descriptor_dpl d = (d / 2 ^ 45) % 4

unfoldable pub descriptor_is_present : ℕ → Bool
descriptor_is_present d = has_bit d 47

unfoldable pub is_long_mode_code : ℕ → Bool
is_long_mode_code d = has_bit d 43 && has_bit d 53

-- The two halves of the descriptor of the task state segment.
unfoldable pub tss : ℕ → ℕ → ℕ × ℕ
tss base limit =
    let low0 : ℕ = bit_or 0 (limit % 2 ^ 16) in
    let low1 : ℕ = bit_or low0 (base % 2 ^ 24 * 2 ^ 16) in
    let low2 : ℕ = bit_or low1 (bit_or present_access tss_available * 2 ^ 40) in
    let low3 : ℕ = bit_or low2 ((limit / 2 ^ 16) % 16 * 2 ^ 48) in
    let low4 : ℕ = bit_or low3 ((base / 2 ^ 24) % 2 ^ 8 * 2 ^ 56) in
    (low4, (base / 2 ^ 32) % 2 ^ 32)

unfoldable pub selector_new : ℕ → ℕ → ℕ
selector_new index rpl = bit_or (index * 8 % 2 ^ 16) (rpl % 4)

unfoldable pub selector_index : ℕ → ℕ
selector_index s = s / 8

unfoldable pub selector_rpl : ℕ → ℕ
selector_rpl s = s % 4

unfoldable pub selector_offset : ℕ → ℕ
selector_offset s = bit_and s (2 ^ 16 - 1 - 7)

pub record GdtLayout : Type 0 where
  pub kernel_code : ℕ
  pub kernel_data : ℕ
  pub user_data : ℕ
  pub user_code : ℕ
  pub tss : ℕ
  pub sysret_base : ℕ

unfoldable pub validate_layout : GdtLayout → Result GdtError (Unit {0})
unfolding selector_offset
validate_layout l =
    let expected_data : ℕ = (l.sysret_base + 8) % 2 ^ 16 in
    let expected_code : ℕ = (l.sysret_base + 16) % 2 ^ 16 in
    if not (selector_offset l.user_data == expected_data)
      || not (selector_offset l.user_code == expected_code)
    then err (sysret_ordering expected_data expected_code)
    else ok tt

-- Without its reserved fields, which are zero.
pub record Tss : Type 0 where
  pub privilege_stack_table : List ℕ
  pub interrupt_stack_table : List ℕ
  pub iomap_base : ℕ

-- The bytes of the packed structure: 4 + 3 * 8 + 8 + 7 * 8 + 8 + 2 + 2.
abbrev pub tss_size : ℕ
tss_size = 104

unfoldable pub tss_new : Tss
tss_new = record {
  privilege_stack_table = replicate 3 0;
  interrupt_stack_table = replicate 7 0;
  iomap_base = tss_size % 2 ^ 16;
}

unfoldable pub set_ist : Tss → ℕ → ℕ → Result GdtError Tss
set_ist t index stack_top =
    if index == 0 || ltb 7 index
    then err (bad_ist_index index)
    else ok (record t { interrupt_stack_table = set t.interrupt_stack_table (index - 1) stack_top })

-- None is the panic of an index past the table, which its length rules out.
unfoldable pub ist : Tss → ℕ → Result GdtError (Option ℕ)
ist t index =
    if index == 0 || ltb 7 index
    then err (bad_ist_index index)
    else ok (get_elem? t.interrupt_stack_table (index - 1))

pub record GdtBuilder : Type 0 where
  pub entries : List ℕ
  pub len : ℕ

abbrev pub capacity : ℕ
capacity = 8

unfoldable pub builder_new : GdtBuilder
builder_new = record { entries = replicate capacity 0; len = 1 }

unfoldable pub push : GdtBuilder → ℕ → Result GdtError (GdtBuilder × ℕ)
unfolding selector_new
push b d =
    if leb capacity b.len
    then err table_full
    else ok (record { entries = set b.entries b.len d; len = b.len + 1 }, selector_new b.len 0)

-- The pushes of `build`, with the four segments at hand.
unfoldable pub lay_out : ℕ → ℕ → ℕ → ℕ → ℕ → Result GdtError (GdtBuilder × GdtLayout)
unfolding builder_new push tss selector_new selector_index validate_layout
lay_out tss_base code data_d udata ucode = do
  p0 ← push builder_new code
  p1 ← push p0.0 data_d
  let sysret_base = p1.0.len % 2 ^ 16 * 8 - 8
  p2 ← push p1.0 udata
  p3 ← push p2.0 ucode
  let halves = tss tss_base (tss_size - 1)
  p4 ← push p3.0 halves.0
  p5 ← push p4.0 halves.1
  let layout : GdtLayout = record {
    kernel_code = p0.1;
    kernel_data = p1.1;
    user_data = selector_new (selector_index p2.1) 3;
    user_code = selector_new (selector_index p3.1) 3;
    tss = p4.1;
    sysret_base = sysret_base;
  }
  validate_layout layout
  ok (p5.0, layout)

-- None is the panic of an `expect`.
unfoldable pub build : ℕ → Option (Result GdtError (GdtBuilder × GdtLayout))
unfolding kernel_code kernel_data user_code user_data lay_out
build tss_base = elim kernel_code [
  | none ↦ none
  | some code ↦ elim kernel_data [
    | none ↦ none
    | some data_d ↦ elim user_data [
      | none ↦ none
      | some udata ↦ elim user_code [
        | none ↦ none
        | some ucode ↦ some (lay_out tss_base code data_d udata ucode)
      ]
    ]
  ]
]

-- `entries`.
unfoldable pub built_entries : GdtBuilder → List ℕ
built_entries b = take b.len b.entries

unfoldable pub gdt_limit : GdtBuilder → ℕ
gdt_limit b = (b.len * 8 - 1) % 2 ^ 16
