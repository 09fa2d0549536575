-- ===== src/Pe.antt =====
-- The loader of executables: userland/winbridge/src/pe.rs. A file is the list of its bytes. What is
-- read of it lies within 2 ^ 64 bytes, so that offsets do not wrap.
mod Format
pub mod Reads
pub mod Overlaps
pub mod Sections
pub mod Images
unfoldable pub use Format.*
use whisez_os.Prelude.{
  ℕ, zero, suc, ◌+◌, ◌-◌, ◌*◌, ◌%◌, ◌^◌, bit_and, max, Bool, true, false, not, ◌&&◌, ◌||◌, Option,
  none, some, List, [], ◌∷◌, ◌++◌, ◌==◌, ltb, leb, if◌then◌else◌, length, take, drop,
}
use whisez_os.Prelude.Results.{Result, ok, err, ◌>>=◌, ◌>>◌, guard, ok_or}

abbrev pub checked_add : ℕ → ℕ → Option ℕ
checked_add a b = if ltb (a + b) (2 ^ 64) then some (a + b) else none

unfoldable pub validate_section : Section → OptionalHeader → ℕ → ℕ → Result PeError (Unit {0})
validate_section s opt file_len index = do
  raw_end ← ok_or (checked_add s.pointer_to_raw_data s.size_of_raw_data) (bad_section index)
  guard (leb raw_end file_len) (bad_section index)
  virt_end ←
      ok_or (checked_add s.virtual_address (max s.virtual_size s.size_of_raw_data))
        (bad_section index)
  guard (leb virt_end opt.size_of_image) (bad_section index)
  guard (leb opt.size_of_headers s.virtual_address) (bad_section index)

abbrev pub max_sections : ℕ
max_sections = 96

-- A push to a full list is lost.
abbrev pub push : List Section → Section → List Section
push sections s = if ltb (length sections) max_sections then sections ++ s ∷ [] else sections

abbrev pub is_wx : Section → Bool
is_wx s = elim (protection s) [ ok p ↦ false | err e ↦ true ]

-- The loop over the section headers, with `n` of them to come.
unfoldable pub parse_sections :
    List ℕ → OptionalHeader → ℕ → ℕ → ℕ → List Section → Bool → Result PeError (List Section × Bool)
unfolding read_section validate_section
parse_sections b opt sec_off zero i sections had_wx = ok (sections, had_wx)
parse_sections b opt sec_off (suc n) i sections had_wx = do
  section ← read_section b (sec_off + i * 40)
  validate_section section opt (length b) i
  parse_sections b opt sec_off n (i + 1) (push sections section) (had_wx || is_wx section)

-- `v & !(align - 1)`, on 32 and on 64 bits.
unfoldable pub align_down : ℕ → ℕ → ℕ
align_down v align = bit_and v (2 ^ 32 - 1 - (align - 1))

unfoldable pub align_up_u64 : ℕ → ℕ → ℕ
align_up_u64 v align = bit_and ((v + align - 1) % 2 ^ 64) (2 ^ 64 - 1 - (align - 1))

unfoldable pub start_of : Section → ℕ → ℕ
unfolding align_down
start_of s alignment = align_down s.virtual_address alignment

unfoldable pub end_of : Section → ℕ → ℕ
unfolding align_up_u64
end_of s alignment =
    align_up_u64 (s.virtual_address + max s.virtual_size s.size_of_raw_data) alignment

abbrev pub overlap : Section → Section → ℕ → Bool
overlap a b alignment =
    ltb (start_of a alignment) (end_of b alignment)
    && ltb (start_of b alignment) (end_of a alignment)

-- The inner loop, at the sections from `j` on.
unfoldable pub check_against : ℕ → Section → ℕ → List Section → ℕ → Result PeError (Unit {0})
check_against alignment a i [] j = ok tt
check_against alignment a i (b ∷ bs) j =
    let rest = check_against alignment a i bs (j + 1) in
    if overlap a b alignment then err (overlapping_sections i j) else rest

-- The outer loop, at the sections from `i` on.
unfoldable pub check_from : ℕ → List Section → ℕ → Result PeError (Unit {0})
unfolding check_against
check_from alignment [] i = ok tt
check_from alignment (a ∷ rest) i = do
  check_against alignment a i rest (i + 1)
  check_from alignment rest (i + 1)

unfoldable pub check_no_overlap : List Section → ℕ → Result PeError (Unit {0})
unfolding check_from
check_no_overlap sections alignment = check_from alignment sections 0

-- A power of two below 2 ^ k.
abbrev pub pow_upto : ℕ → ℕ → Bool
pow_upto zero v = false
pow_upto (suc k) v = (v == 2 ^ k) || pow_upto k v

-- Of a word of 32 bits.
abbrev pub is_power_of_two : ℕ → Bool
is_power_of_two v = pow_upto 32 v

-- The tests on the optional header.
unfoldable pub check_optional : OptionalHeader → Result PeError (Unit {0})
check_optional opt = do
  guard
      (is_power_of_two opt.section_alignment
        && is_power_of_two opt.file_alignment
        && leb opt.file_alignment opt.section_alignment)
      truncated_header
  guard (ltb opt.address_of_entry_point opt.size_of_image) truncated_header

-- `size_of::<CoffHeader>()`.
abbrev pub coff_size : ℕ
coff_size = 20

unfoldable pub parse : List ℕ → Result PeError ParsedImage
unfolding read_coff read_optional check_optional parse_sections check_no_overlap
parse b = do
  guard (leb 0x40 (length b)) not_pe
  dos ← read_u16 b 0
  guard (dos == dos_magic) not_pe
  pe_offset ← read_u32 b 0x3C
  guard (leb (pe_offset + 24) (length b)) truncated_header
  signature ← read_u32 b pe_offset
  guard (signature == pe_magic) not_pe
  coff ← read_coff b (pe_offset + 4)
  guard (coff.machine == machine_amd64) (wrong_machine coff.machine)
  guard (leb coff.number_of_sections max_sections) truncated_header
  guard (leb 112 coff.size_of_optional_header) truncated_header
  let opt_off = pe_offset + 4 + coff_size
  magic ← read_u16 b opt_off
  guard (magic == opt_magic_pe32plus) (wrong_machine coff.machine)
  optional ← read_optional b opt_off magic
  check_optional optional
  found ←
      parse_sections b optional (opt_off + coff.size_of_optional_header) coff.number_of_sections 0
        [] false
  check_no_overlap found.0 optional.section_alignment
  ok (record {
    coff = coff;
    optional = optional;
    sections = found.0;
    bytes = b;
    aslr_opt_out = bit_and optional.dll_characteristics dll_dynamic_base == 0;
    had_wx_section = found.1;
  })
