-- ===== src/Tests/Images.antt =====
-- An executable of two sections, one of them writable and executable.
use whisez_os.Prelude.{
  ℕ, ◌≡◌, refl, Bool, true, false, ◌&&◌, List, [], ◌∷◌, ◌++◌, arith, ltb, replicate, Bool-cases,
  inl, inr, ltb→lt,
}
use whisez_os.Prelude.Results.{ok}
use whisez_os.Vault.{le_bytes}
use whisez_os.Pe.{
  Section, CoffHeader, OptionalHeader, ParsedImage, parse, read_word, le_value, read_coff,
  read_optional, read_section, validate_section, check_optional, parse_sections, check_no_overlap,
  check_from, check_against, start_of, end_of, align_down, align_up_u64, protection, machine_amd64,
}
use whisez_os.Pe.Reads.{IsBytes}
use whisez_os.Pe.Images.{IsSafe, parse-IsSafe}

abbrev text : Section
text = record {
  name = 0x2E ∷ 0x74 ∷ 0 ∷ 0 ∷ 0 ∷ 0 ∷ 0 ∷ 0 ∷ [];
  virtual_size = 0x1800;
  virtual_address = 0x1000;
  size_of_raw_data = 8;
  pointer_to_raw_data = 280;
  characteristics = 0xE0000020;
}

abbrev data_section : Section
data_section = record {
  name = 0x2E ∷ 0x64 ∷ 0 ∷ 0 ∷ 0 ∷ 0 ∷ 0 ∷ 0 ∷ [];
  virtual_size = 4;
  virtual_address = 0x3000;
  size_of_raw_data = 8;
  pointer_to_raw_data = 288;
  characteristics = 0xC0000040;
}

abbrev section_bytes : Section → List ℕ
section_bytes s =
    s.name
    ++ (le_bytes 4 s.virtual_size
        ++ (le_bytes 4 s.virtual_address
            ++ (le_bytes 4 s.size_of_raw_data
                ++ (le_bytes 4 s.pointer_to_raw_data
                    ++ (replicate 12 0 ++ le_bytes 4 s.characteristics)))))

abbrev coff : CoffHeader
coff = record {
  machine = machine_amd64;
  number_of_sections = 2;
  time_date_stamp = 7;
  pointer_to_symbol_table = 0;
  number_of_symbols = 0;
  size_of_optional_header = 112;
  characteristics = 0x22;
}

abbrev optional : OptionalHeader
optional = record {
  magic = 0x20B;
  image_base = 0x140000000;
  section_alignment = 0x1000;
  file_alignment = 8;
  size_of_image = 0x4000;
  size_of_headers = 0x1000;
  address_of_entry_point = 0x1010;
  subsystem = 3;
  dll_characteristics = 0x40;
}

abbrev file : List ℕ
file =
    0x4D
    ∷ 0x5A
    ∷ (replicate 58 0
        ++ (le_bytes 4 0x40
            ++ (0x50
                ∷ 0x45
                ∷ 0
                ∷ 0
                ∷ (le_bytes 2 machine_amd64
                    ++ (le_bytes 2 2
                        ++ (le_bytes 4 7
                            ++ (replicate 8 0
                                ++ (le_bytes 2 112
                                    ++ (le_bytes 2 0x22
                                        ++ (le_bytes 2 0x20B
                                            ++ (replicate 14 0
                                                ++ (le_bytes 4 0x1010
                                                    ++ (replicate 4 0
                                                        ++ (le_bytes 8 0x140000000
                                                            ++ (le_bytes 4 0x1000
                                                            ++ (le_bytes 4 8
                                                            ++ (replicate 16 0
                                                            ++ (le_bytes 4 0x4000
                                                            ++ (le_bytes 4 0x1000
                                                            ++ (replicate 4 0
                                                            ++ (le_bytes 2 3
                                                            ++ (le_bytes 2 0x40
                                                            ++ (replicate 40 0
                                                            ++ (section_bytes text
                                                            ++ (section_bytes data_section
                                                            ++ replicate 16
                                                            1)))))))))))))))))))))))))

below : List ℕ → Bool
below [] = true
below (b ∷ bs) = ltb b 256 && below bs

below-IsBytes : (bs : List ℕ) → below bs ≡ true → IsBytes bs
unfolding below
below-IsBytes [] h = tt
below-IsBytes (b ∷ bs) h = elim (Bool-cases (ltb b 256)) [
  | inl small ↦ (ltb→lt b 256 small, below-IsBytes bs (ground arith))
  | inr large ↦ absurd (ground arith)
]

file_below : below file ≡ true
unfolding below
file_below = refl

abbrev image : ParsedImage
image = record {
  coff = coff;
  optional = optional;
  sections = text ∷ data_section ∷ [];
  bytes = file;
  aslr_opt_out = false;
  had_wx_section = true;
}

parsed : parse file ≡ ok image
unfolding parse read_word le_value read_coff read_optional read_section validate_section
    check_optional parse_sections check_no_overlap check_from check_against start_of end_of
    align_down align_up_u64 protection
parsed = refl

parse-IsSafe_example : IsSafe file image
parse-IsSafe_example = parse-IsSafe file (below-IsBytes file file_below) parsed
