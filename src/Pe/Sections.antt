-- ===== src/Pe/Sections.antt =====
-- What holds of the sections that are read.
use whisez_os.Prelude.{
  ℕ, zero, suc, ◌+◌, ◌*◌, ◌≤◌, ◌<◌, ◌^◌, ◌≡◌, refl, ap, ◌∙◌, sym, subst, max, Bool, false, ◌||◌,
  some, List, [], ◌∷◌, ◌++◌, arith, leb, length, length-append, get_elem?, leb→le,
}
use whisez_os.Prelude.Results.{ok, ok_or, ok_injective, bind_ok, guard_ok}
use whisez_os.Pe.{
  PeError, bad_section, OptionalHeader, Section, read_u32, read_section, validate_section,
  checked_add, parse_sections, push, is_wx, max_sections, truncated_header,
}
use whisez_os.Pe.Reads.{IsBytes, read_word-lt}

-- A section that passes: its words are of 32 bits, its data lies in the file, and it lies in the image,
-- above the headers.
pub record IsPlaced (opt : OptionalHeader) (file_len : ℕ) (s : Section) : Type 0 where
  pub address_word : s.virtual_address < 2 ^ 32
  pub size_word : s.virtual_size < 2 ^ 32
  pub raw_word : s.size_of_raw_data < 2 ^ 32
  pub in_file : s.pointer_to_raw_data + s.size_of_raw_data ≤ file_len
  pub in_image : s.virtual_address + max s.virtual_size s.size_of_raw_data ≤ opt.size_of_image
  pub past_headers : opt.size_of_headers ≤ s.virtual_address

some_injective : {x y : Section} → some x ≡ some y → x ≡ y
some_injective e = cc

abbrev Words : Section → Type 0
Words s = (s.virtual_address < 2 ^ 32) × (s.virtual_size < 2 ^ 32) × (s.size_of_raw_data < 2 ^ 32)

sum_ok : (a b : ℕ) (e : PeError) {v : ℕ} → ok_or (checked_add a b) e ≡ ok v → a + b ≡ v
sum_ok a b e {v} h = ground arith

read_section-Words :
    (b : List ℕ) (off : ℕ) {s : Section} → IsBytes b → read_section b off ≡ ok s → Words s
unfolding read_section
read_section-Words b off {s} bytes e =
    guard_ok (leb (off + 40) (length b)) truncated_header _ e (λ inside e.
      bind_ok (read_u32 b (off + 8)) _ e (λ vs vs_e e.
        bind_ok (read_u32 b (off + 12)) _ e (λ va va_e e.
          bind_ok (read_u32 b (off + 16)) _ e (λ rs rs_e e.
            bind_ok (read_u32 b (off + 20)) _ e (λ pr pr_e e.
              bind_ok (read_u32 b (off + 36)) _ e (λ ch ch_e e. subst Words (ok_injective e) (
                read_word-lt 4 b (off + 12) bytes va_e,
                read_word-lt 4 b (off + 8) bytes vs_e,
                read_word-lt 4 b (off + 16) bytes rs_e,
              )))))))

validate_section-ok :
    (s : Section) (opt : OptionalHeader) (file_len i : ℕ)
    → validate_section s opt file_len i ≡ ok tt
    → (s.pointer_to_raw_data + s.size_of_raw_data ≤ file_len)
      × (s.virtual_address + max s.virtual_size s.size_of_raw_data ≤ opt.size_of_image)
      × (opt.size_of_headers ≤ s.virtual_address)
unfolding validate_section
validate_section-ok s opt file_len i e =
    bind_ok (ok_or (checked_add s.pointer_to_raw_data s.size_of_raw_data) _) _ e (λ raw_end raw_e e.
      guard_ok (leb raw_end file_len) (bad_section i) _ e (λ in_file e.
        bind_ok (ok_or (checked_add s.virtual_address (max s.virtual_size s.size_of_raw_data)) _) _
          e
          (λ virt_end virt_e e.
            guard_ok (leb virt_end opt.size_of_image) (bad_section i) _ e (λ in_image e. (
              omega (
                arith,
                sum_ok s.pointer_to_raw_data s.size_of_raw_data (bad_section i) raw_e,
                leb→le raw_end file_len in_file,
              ),
              omega (
                arith,
                sum_ok s.virtual_address (max s.virtual_size s.size_of_raw_data) (bad_section i)
                    virt_e,
                leb→le virt_end opt.size_of_image in_image,
              ),
              leb→le opt.size_of_headers s.virtual_address (ground arith),
            )))))

-- Some section is writable and executable.
abbrev pub any_wx : List Section → Bool
any_wx [] = false
any_wx (s ∷ ss) = is_wx s || any_wx ss

any_wx-append : (ss : List Section) (s : Section) → any_wx (ss ++ s ∷ []) ≡ (any_wx ss || is_wx s)
any_wx-append [] s = ground arith
any_wx-append (x ∷ ss) s = ground (arith, any_wx-append ss s)

-- All the sections are placed.
unfoldable pub AllPlaced : OptionalHeader → ℕ → List Section → Type 0
AllPlaced opt file_len [] = Unit {0}
AllPlaced opt file_len (s ∷ ss) = IsPlaced opt file_len s × AllPlaced opt file_len ss

AllPlaced-append :
    (opt : OptionalHeader) (file_len : ℕ) (ss : List Section) (s : Section)
    → AllPlaced opt file_len ss
    → IsPlaced opt file_len s
    → AllPlaced opt file_len (ss ++ s ∷ [])
unfolding AllPlaced
AllPlaced-append opt file_len [] s all p = (p, tt)
AllPlaced-append opt file_len (x ∷ ss) s all p = (all.0, AllPlaced-append opt file_len ss s all.1 p)

pub AllPlaced-get_elem? :
    (opt : OptionalHeader) (file_len : ℕ) (ss : List Section) (i : ℕ) (s : Section)
    → AllPlaced opt file_len ss
    → get_elem? ss i ≡ some s
    → IsPlaced opt file_len s
unfolding AllPlaced
AllPlaced-get_elem? opt file_len [] i s all e = cc
AllPlaced-get_elem? opt file_len (x ∷ ss) zero s all e =
    subst (IsPlaced opt file_len) (some_injective e) all.0
AllPlaced-get_elem? opt file_len (x ∷ ss) (suc i) s all e =
    AllPlaced-get_elem? opt file_len ss i s all.1 e

-- What the loop has found.
pub record Found (opt : OptionalHeader) (file_len count : ℕ) (r : List Section × Bool)
    : Type 0 where
  pub counted : length r.0 ≡ count
  pub placed : AllPlaced opt file_len r.0
  pub flagged : r.1 ≡ any_wx r.0

parse_sections-ok :
    (b : List ℕ) (opt : OptionalHeader) (sec_off n i : ℕ) (ss : List Section) (wx : Bool)
    (count : ℕ) {r : List Section × Bool}
    → IsBytes b
    → count + n ≤ max_sections
    → Found opt (length b) count (ss, wx)
    → parse_sections b opt sec_off n i ss wx ≡ ok r
    → Found opt (length b) (count + n) r
unfolding parse_sections
parse_sections-ok b opt sec_off zero i ss wx count {r} bytes room f e =
    subst (Found opt (length b) (count + 0)) (ok_injective e)
      (subst (λ c. Found opt (length b) c (ss, wx)) (omega arith) f)
parse_sections-ok b opt sec_off (suc n) i ss wx count {r} bytes room f e =
    bind_ok (read_section b (sec_off + i * 40)) _ e (λ s s_e e.
      bind_ok (validate_section s opt (length b) i) _ e (λ done valid e.
        let (va, vs, rs) = read_section-Words b (sec_off + i * 40) bytes s_e in
        let (in_file, in_image, past) = validate_section-ok s opt (length b) i valid in
        let pushed : push ss s ≡ ss ++ s ∷ [] = ground (arith, f.counted) in
        let grown : Found opt (length b) (count + 1) (ss ++ s ∷ [], wx || is_wx s) = record {
          counted = omega (arith, length-append ss (s ∷ []), f.counted);
          placed = AllPlaced-append opt (length b) ss s f.placed (record {
            address_word = va;
            size_word = vs;
            raw_word = rs;
            in_file = in_file;
            in_image = in_image;
            past_headers = past;
          });
          flagged = ap (λ w. w || is_wx s) f.flagged ∙ sym (any_wx-append ss s);
        } in
        let next =
          subst (λ x. Found opt (length b) (count + 1) (x, wx || is_wx s)) (sym pushed) grown in
        subst (λ c. Found opt (length b) c r) (omega arith)
          (parse_sections-ok b opt sec_off n (i + 1) (push ss s) (wx || is_wx s) (count + 1) bytes
            (omega arith) next e)))

-- The whole loop finds as many sections as are declared.
pub all_sections-ok :
    (b : List ℕ) (opt : OptionalHeader) (sec_off n : ℕ) {r : List Section × Bool}
    → IsBytes b
    → n ≤ max_sections
    → parse_sections b opt sec_off n 0 [] false ≡ ok r
    → Found opt (length b) n r
unfolding AllPlaced
all_sections-ok b opt sec_off n {r} bytes few e =
    subst (λ c. Found opt (length b) c r) (omega arith)
      (parse_sections-ok b opt sec_off n 0 [] false 0 bytes (omega arith)
        (record { counted = refl; placed = tt; flagged = refl }) e)
