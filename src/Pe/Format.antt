-- ===== src/Pe/Format.antt =====
-- The headers of an executable, the protection of a section, and how they are read: pe.rs, the types of
-- its lines 27 to 160, the reads at its end, and the reads of headers within `parse`.
use whisez_os.Prelude.{
  ℕ, ◌+◌, ◌*◌, bit_and, Bool, not, ◌&&◌, List, [], ◌∷◌, ◌==◌, leb, if◌then◌else◌, length, take,
  drop,
}
use whisez_os.Prelude.Results.{Result, ok, err, ◌>>=◌, ◌>>◌, guard}

abbrev pub dos_magic : ℕ
dos_magic = 0x5A4D

abbrev pub pe_magic : ℕ
pe_magic = 0x4550

abbrev pub opt_magic_pe32plus : ℕ
opt_magic_pe32plus = 0x20B

abbrev pub machine_amd64 : ℕ
machine_amd64 = 0x8664

pub data PeError : Type 0 where
  not_pe truncated_header bad_image_base not_relocatable : PeError
  wrong_machine unsupported_subsystem : ℕ → PeError
  bad_section write_execute : ℕ → PeError
  overlapping_sections : ℕ → ℕ → PeError

pub record CoffHeader : Type 0 where
  pub machine : ℕ
  pub number_of_sections : ℕ
  pub time_date_stamp : ℕ
  pub pointer_to_symbol_table : ℕ
  pub number_of_symbols : ℕ
  pub size_of_optional_header : ℕ
  pub characteristics : ℕ

pub record OptionalHeader : Type 0 where
  pub magic : ℕ
  pub image_base : ℕ
  pub section_alignment : ℕ
  pub file_alignment : ℕ
  pub size_of_image : ℕ
  pub size_of_headers : ℕ
  pub address_of_entry_point : ℕ
  pub subsystem : ℕ
  pub dll_characteristics : ℕ

abbrev pub dll_dynamic_base : ℕ
dll_dynamic_base = 0x40

pub record Section : Type 0 where
  pub name : List ℕ
  pub virtual_size : ℕ
  pub virtual_address : ℕ
  pub size_of_raw_data : ℕ
  pub pointer_to_raw_data : ℕ
  pub characteristics : ℕ

abbrev pub scn_mem_execute : ℕ
scn_mem_execute = 0x20000000

abbrev pub scn_mem_read : ℕ
scn_mem_read = 0x40000000

abbrev pub scn_mem_write : ℕ
scn_mem_write = 0x80000000

pub record Protection : Type 0 where
  pub read : Bool
  pub write : Bool
  pub execute : Bool

unfoldable pub protection : Section → Result (Unit {0}) Protection
protection s =
    let read = not (bit_and s.characteristics scn_mem_read == 0) in
    let write = not (bit_and s.characteristics scn_mem_write == 0) in
    let execute = not (bit_and s.characteristics scn_mem_execute == 0) in
    if write && execute
    then err tt
    else ok (record { read = read; write = write; execute = execute })

pub record ParsedImage : Type 0 where
  pub coff : CoffHeader
  pub optional : OptionalHeader
  pub sections : List Section
  pub bytes : List ℕ
  pub aslr_opt_out : Bool
  pub had_wx_section : Bool

-- `from_le_bytes`.
unfoldable pub le_value : List ℕ → ℕ
le_value [] = 0
le_value (b ∷ bs) = b + 256 * le_value bs

-- The word of `n` bytes at an offset.
unfoldable pub read_word : ℕ → List ℕ → ℕ → Result PeError ℕ
unfolding le_value
read_word n b off =
    if leb (off + n) (length b) then ok (le_value (take n (drop off b))) else err truncated_header

abbrev pub read_u16 : List ℕ → ℕ → Result PeError ℕ
read_u16 b off = read_word 2 b off

abbrev pub read_u32 : List ℕ → ℕ → Result PeError ℕ
read_u32 b off = read_word 4 b off

abbrev pub read_u64 : List ℕ → ℕ → Result PeError ℕ
read_u64 b off = read_word 8 b off

unfoldable pub read_coff : List ℕ → ℕ → Result PeError CoffHeader
read_coff b coff_off = do
  machine ← read_u16 b coff_off
  number_of_sections ← read_u16 b (coff_off + 2)
  time_date_stamp ← read_u32 b (coff_off + 4)
  pointer_to_symbol_table ← read_u32 b (coff_off + 8)
  number_of_symbols ← read_u32 b (coff_off + 12)
  size_of_optional_header ← read_u16 b (coff_off + 16)
  characteristics ← read_u16 b (coff_off + 18)
  ok (record {
    machine = machine;
    number_of_sections = number_of_sections;
    time_date_stamp = time_date_stamp;
    pointer_to_symbol_table = pointer_to_symbol_table;
    number_of_symbols = number_of_symbols;
    size_of_optional_header = size_of_optional_header;
    characteristics = characteristics;
  })

unfoldable pub read_optional : List ℕ → ℕ → ℕ → Result PeError OptionalHeader
read_optional b opt_off magic = do
  address_of_entry_point ← read_u32 b (opt_off + 16)
  image_base ← read_u64 b (opt_off + 24)
  section_alignment ← read_u32 b (opt_off + 32)
  file_alignment ← read_u32 b (opt_off + 36)
  size_of_image ← read_u32 b (opt_off + 56)
  size_of_headers ← read_u32 b (opt_off + 60)
  subsystem ← read_u16 b (opt_off + 68)
  dll_characteristics ← read_u16 b (opt_off + 70)
  ok (record {
    magic = magic;
    image_base = image_base;
    section_alignment = section_alignment;
    file_alignment = file_alignment;
    size_of_image = size_of_image;
    size_of_headers = size_of_headers;
    address_of_entry_point = address_of_entry_point;
    subsystem = subsystem;
    dll_characteristics = dll_characteristics;
  })

-- The next section header: the test of its end, its name and its fields.
unfoldable pub read_section : List ℕ → ℕ → Result PeError Section
read_section b off = do
  guard (leb (off + 40) (length b)) truncated_header
  virtual_size ← read_u32 b (off + 8)
  virtual_address ← read_u32 b (off + 12)
  size_of_raw_data ← read_u32 b (off + 16)
  pointer_to_raw_data ← read_u32 b (off + 20)
  characteristics ← read_u32 b (off + 36)
  ok (record {
    name = take 8 (drop off b);
    virtual_size = virtual_size;
    virtual_address = virtual_address;
    size_of_raw_data = size_of_raw_data;
    pointer_to_raw_data = pointer_to_raw_data;
    characteristics = characteristics;
  })
