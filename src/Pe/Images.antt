-- ===== src/Pe/Images.antt =====
-- What holds of an image that is parsed.
use whisez_os.Prelude.{
  ℕ, ◌+◌, ◌≤◌, ◌<◌, ◌≡◌, inl, inr, refl, ◌∙◌, sym, subst, bit_and, Bool, true, false, ◌&&◌, some,
  List, [], arith, leb, ◌==◌, length, get_elem?, leb→le,
}
use whisez_os.Prelude.Results.{Result, ok, err, ok_injective, bind_ok, guard_ok}
use whisez_os.Pe.{
  PeError, overlapping_sections, CoffHeader, OptionalHeader, Section, ParsedImage, read_u16,
  read_u32, read_coff, read_optional, parse_sections, max_sections, start_of, end_of,
  is_power_of_two, check_optional, check_no_overlap, parse, machine_amd64, truncated_header,
  coff_size, dll_dynamic_base, opt_magic_pe32plus, wrong_machine, not_pe, dos_magic, pe_magic,
}
use whisez_os.Pe.Reads.{IsBytes, Pages, section-Pages}
use whisez_os.Pe.Overlaps.{NoOverlap, check_no_overlap_lem}
use whisez_os.Pe.Sections.{IsPlaced, any_wx, AllPlaced-get_elem?, Found, all_sections-ok}

-- An image that may be mapped: for the right machine, with the sections that it declares, its entry inside,
-- each section in the file and in the image, on pages of its own, and the writable code reported.
pub record IsSafe (b : List ℕ) (img : ParsedImage) : Type 0 where
  pub whole : img.bytes ≡ b
  pub machine : img.coff.machine ≡ machine_amd64
  pub counted : length img.sections ≡ img.coff.number_of_sections
  pub few : length img.sections ≤ max_sections
  pub entry : img.optional.address_of_entry_point < img.optional.size_of_image
  pub placed :
      (i : ℕ) (s : Section) → get_elem? img.sections i ≡ some s → IsPlaced img.optional (length b) s
  pub pages :
      (i : ℕ) (s : Section)
      → get_elem? img.sections i ≡ some s
      → let alignment = img.optional.section_alignment in
        Pages s alignment (start_of s alignment) (end_of s alignment)
  pub apart : NoOverlap img.sections img.optional.section_alignment
  pub reported : img.had_wx_section ≡ any_wx img.sections

check_optional-ok :
    (opt : OptionalHeader) {u : Unit {0}}
    → check_optional opt ≡ ok u
    → (is_power_of_two opt.section_alignment ≡ true)
      × (opt.address_of_entry_point < opt.size_of_image)
unfolding check_optional
check_optional-ok opt e =
    guard_ok
      (is_power_of_two opt.section_alignment
        && is_power_of_two opt.file_alignment
        && leb opt.file_alignment opt.section_alignment)
      truncated_header _ e (λ powers e. (ground arith, ground arith))

no_clash :
    (ss : List Section) (alignment : ℕ)
    → check_no_overlap ss alignment ≡ ok tt
    → NoOverlap ss alignment
no_clash ss alignment e = elim (check_no_overlap_lem ss alignment) [
  | inl (passed, apart) ↦ apart
  | inr (p, q, failed, clash) ↦ absurd (contradiction (sym e ∙ failed))
]
  where
    contradiction :
        {p q : ℕ} → ◌≡◌ {A = Result PeError (Unit {0})} (ok tt) (err (overlapping_sections p q)) → ⊥
    contradiction e = cc

eq_of_test : (a b : ℕ) → (a == b) ≡ true → a ≡ b
eq_of_test a b e = ground arith

-- The image that is put together at the end.
assembled :
    (b : List ℕ) (coff : CoffHeader) (optional : OptionalHeader) (found : List Section × Bool)
    (aslr_opt_out : Bool)
    → coff.machine ≡ machine_amd64
    → coff.number_of_sections ≤ max_sections
    → is_power_of_two optional.section_alignment ≡ true
    → optional.address_of_entry_point < optional.size_of_image
    → Found optional (length b) coff.number_of_sections found
    → NoOverlap found.0 optional.section_alignment
    → IsSafe b (record {
      coff = coff;
      optional = optional;
      sections = found.0;
      bytes = b;
      aslr_opt_out = aslr_opt_out;
      had_wx_section = found.1;
    })
assembled b coff optional found aslr_opt_out amd few power entry f apart =
    let placed =
      λ (i : ℕ) (s : Section). AllPlaced-get_elem? optional (length b) found.0 i s f.placed in
    record {
      whole = refl;
      machine = amd;
      counted = f.counted;
      few = omega (arith, f.counted);
      entry = entry;
      placed = placed;
      pages = λ i s e.
          let p = placed i s e in
          section-Pages s optional.section_alignment power p.address_word p.size_word p.raw_word;
      apart = apart;
      reported = f.flagged;
    }

-- A file of bytes that is parsed gives an image that may be mapped.
pub parse-IsSafe : (b : List ℕ) {img : ParsedImage} → IsBytes b → parse b ≡ ok img → IsSafe b img
unfolding parse
parse-IsSafe b {img} bytes e = guard_ok (leb 0x40 (length b)) not_pe _ e (λ long e.
    bind_ok (read_u16 b 0) _ e (λ dos dos_e e. guard_ok (dos == dos_magic) not_pe _ e (λ is_dos e.
      bind_ok (read_u32 b 0x3C) _ e (λ pe_offset offset_e e.
        guard_ok (leb (pe_offset + 24) (length b)) truncated_header _ e (λ inside e.
          bind_ok (read_u32 b pe_offset) _ e (λ signature signature_e e.
            guard_ok (signature == pe_magic) not_pe _ e (λ signed e.
              bind_ok (read_coff b (pe_offset + 4)) _ e (λ coff coff_e e.
                guard_ok (coff.machine == machine_amd64) (wrong_machine coff.machine) _ e (λ amd e.
                  guard_ok (leb coff.number_of_sections max_sections) truncated_header _ e (λ few e.
                    guard_ok (leb 112 coff.size_of_optional_header) truncated_header _ e (λ large e.
                      bind_ok (read_u16 b (pe_offset + 4 + coff_size)) _ e (λ magic magic_e e.
                        guard_ok (magic == opt_magic_pe32plus) (wrong_machine coff.machine) _ e
                          (λ plus e.
                            bind_ok (read_optional b (pe_offset + 4 + coff_size) magic) _ e
                              (λ optional optional_e e.
                                bind_ok (check_optional optional) _ e (λ checked checked_e e.
                                  bind_ok
                                    (parse_sections b optional
                                      (pe_offset + 4 + coff_size + coff.size_of_optional_header)
                                      coff.number_of_sections 0 [] false)
                                    _ e
                                    (λ found found_e e.
                                      bind_ok (check_no_overlap found.0 optional.section_alignment)
                                        _ e
                                        (λ clear clear_e e.
                                          let f =
                                            all_sections-ok b optional
                                              (pe_offset + 4 + coff_size
                                                + coff.size_of_optional_header)
                                              coff.number_of_sections bytes
                                              (leb→le coff.number_of_sections max_sections few)
                                              found_e in
                                          let (power, entry) =
                                            check_optional-ok optional checked_e in
                                          subst (IsSafe b) (ok_injective e) (
                                            assembled b coff optional found
                                              (bit_and optional.dll_characteristics dll_dynamic_base
                                                == 0)
                                              (eq_of_test coff.machine machine_amd64 amd)
                                              (leb→le coff.number_of_sections max_sections few)
                                              power entry f
                                              (no_clash found.0 optional.section_alignment
                                                clear_e)))))))))))))))))))
