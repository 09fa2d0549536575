-- ===== src/Arch/Gdt/Layout.antt =====
-- What the table that `build` makes holds.
use whisez_os.Prelude.{
  ◌-◌, ℕ, ◌+◌, ◌*◌, ◌/◌, ◌%◌, ◌^◌, ◌≤◌, ◌<◌, ◌≡◌, ◌≢◌, refl, ap, ◌∙◌, bit_or, Bool, true, false,
  some, arith, get_elem?, length, set, ◌⊎◌, inl, inr, Bool-cases, get_elem?-set_self,
  get_elem?-set_ne, ltb, ◌==◌, ◌||◌,
}
use whisez_os.Prelude.Bits.{or_fields, or_zero, has_bit}
use whisez_os.Prelude.Results.{ok, err}
use whisez_os.Arch.Gdt.{
  GdtBuilder, GdtLayout, Tss, segment, kernel_code, kernel_data, user_code, user_data,
  descriptor_dpl, descriptor_is_present, is_long_mode_code, tss, selector_new, selector_index,
  selector_rpl, selector_offset, validate_layout, builder_new, push, lay_out, build, built_entries,
  gdt_limit, tss_size, set_ist, ist, bad_ist_index,
}

-- The fields that the processor reads of the two halves.
abbrev pub base_of : ℕ × ℕ → ℕ
base_of (low, high) = (low / 2 ^ 16) % 2 ^ 24 + (low / 2 ^ 56) % 2 ^ 8 * 2 ^ 24 + high * 2 ^ 32

abbrev pub limit_of : ℕ × ℕ → ℕ
limit_of (low, high) = low % 2 ^ 16 + (low / 2 ^ 48) % 16 * 2 ^ 16

abbrev pub type_of : ℕ × ℕ → ℕ
type_of (low, high) = (low / 2 ^ 40) % 2 ^ 8

tss_low :
    (base limit : ℕ)
    → (tss base limit).0
      ≡ limit % 2 ^ 16
        + base % 2 ^ 24 * 2 ^ 16
        + 137 * 2 ^ 40
        + (limit / 2 ^ 16) % 16 * 2 ^ 48
        + (base / 2 ^ 24) % 2 ^ 8 * 2 ^ 56
unfolding tss
tss_low base limit =
    let x0 = limit % 2 ^ 16 in
    let b1 = base % 2 ^ 24 in
    let b3 = (limit / 2 ^ 16) % 16 in
    let b4 = (base / 2 ^ 24) % 2 ^ 8 in
    let x1 = x0 + b1 * 2 ^ 16 in
    let x2 = x1 + 137 * 2 ^ 40 in
    let x3 = x2 + b3 * 2 ^ 48 in
    let e0 = or_zero x0 x0 (omega arith) in
    let e1 = ap (λ x. bit_or x (b1 * 2 ^ 16)) e0 ∙ or_fields 16 x0 b1 (omega arith) in
    let e2 = ap (λ x. bit_or x (137 * 2 ^ 40)) e1 ∙ or_fields 40 x1 137 (omega arith) in
    let e3 = ap (λ x. bit_or x (b3 * 2 ^ 48)) e2 ∙ or_fields 48 x2 b3 (omega arith) in
    ap (λ x. bit_or x (b4 * 2 ^ 56)) e3 ∙ or_fields 56 x3 b4 (omega arith)

-- The base, the limit and the type of the state segment come back from the fields of its descriptor.
pub tss_fields :
    (base limit : ℕ)
    → base < 2 ^ 64
    → limit < 2 ^ 20
    → (base_of (tss base limit) ≡ base)
      × (limit_of (tss base limit) ≡ limit)
      × (type_of (tss base limit) ≡ 0x89)
unfolding tss
tss_fields base limit b l = omega (arith, tss_low base limit)

-- The descriptor that a selector names in a table has the access byte given, is present, for a ring, and
-- is 64-bit code or not.
pub record Names (b : GdtBuilder) (selector ring access : ℕ) (code : Bool) : Type 0 where
  descriptor : ℕ
  typed : (descriptor / 2 ^ 40) % 2 ^ 8 ≡ access
  found : get_elem? (built_entries b) (selector_index selector) ≡ some descriptor
  present : descriptor_is_present descriptor ≡ true
  privilege : descriptor_dpl descriptor ≡ ring
  requested : selector_rpl selector ≡ ring
  is_code : is_long_mode_code descriptor ≡ code

-- A table that the processor can run with.
pub record IsRunnable (tss_base : ℕ) (b : GdtBuilder) (l : GdtLayout) : Type 0 where
  pub null_first : get_elem? (built_entries b) 0 ≡ some 0
  pub kernel_code : Names b l.kernel_code 0 0x9A true
  pub kernel_data : Names b l.kernel_data 0 0x92 false
  pub user_data : Names b l.user_data 3 0xF2 false
  pub user_code : Names b l.user_code 3 0xFA true
  pub sysret_data : selector_offset l.user_data ≡ l.sysret_base + 8
  pub sysret_code : selector_offset l.user_code ≡ l.sysret_base + 16
  pub low : ℕ
  pub high : ℕ
  pub state_low : get_elem? (built_entries b) (selector_index l.tss) ≡ some low
  pub state_high : get_elem? (built_entries b) (selector_index l.tss + 1) ≡ some high
  pub state_type : type_of (low, high) ≡ 0x89
  pub state_base : base_of (low, high) ≡ tss_base
  pub state_limit : limit_of (low, high) ≡ tss_size - 1
  pub bytes : gdt_limit b + 1 ≡ 8 * length (built_entries b)

-- For any base of 64 bits `build` panics nowhere and makes a table that passes its own check: the null
-- descriptor first, the code (readable) and data (writable) of the kernel in ring 0 and of user programs in
-- ring 3, all present, each selector with the privilege of its descriptor, the selectors of user programs
-- where SYSRET takes them from, and the state segment in two slots that say that it is present and of the
-- type of an available 64-bit one, and give its base and its limit back.
pub build-IsRunnable :
    (tss_base : ℕ)
    → tss_base < 2 ^ 64
    → (b : GdtBuilder) × (l : GdtLayout) × (build tss_base ≡ some (ok (b, l)))
      × IsRunnable tss_base b l
unfolding build kernel_code kernel_data user_code user_data segment lay_out builder_new push
    selector_new selector_index validate_layout selector_offset built_entries gdt_limit selector_rpl
    descriptor_dpl descriptor_is_present is_long_mode_code has_bit
build-IsRunnable tss_base h =
    let (base, limit, type) = tss_fields tss_base (tss_size - 1) h (omega arith) in
    (
      _,
      _,
      refl,
      record {
        null_first = refl;
        kernel_code = record {
          descriptor = _;
          typed = refl;
          found = refl;
          present = refl;
          privilege = refl;
          requested = refl;
          is_code = refl;
        };
        kernel_data = record {
          descriptor = _;
          typed = refl;
          found = refl;
          present = refl;
          privilege = refl;
          requested = refl;
          is_code = refl;
        };
        user_data = record {
          descriptor = _;
          typed = refl;
          found = refl;
          present = refl;
          privilege = refl;
          requested = refl;
          is_code = refl;
        };
        user_code = record {
          descriptor = _;
          typed = refl;
          found = refl;
          present = refl;
          privilege = refl;
          requested = refl;
          is_code = refl;
        };
        sysret_data = refl;
        sysret_code = refl;
        low = (tss tss_base (tss_size - 1)).0;
        high = (tss tss_base (tss_size - 1)).1;
        state_low = refl;
        state_high = refl;
        state_type = type;
        state_base = base;
        state_limit = limit;
        bytes = refl;
      },
    )

at_least_one : (x : ℕ) → (x == 0 || ltb 7 x) ≡ false → 1 ≤ x
at_least_one x e = ground arith

-- A stack that is set for an index from 1 to 7 is the one that is read back, and the others stay; any other
-- index is refused by both.
pub ist-set_ist :
    (t : Tss) (index other stack_top : ℕ)
    → length t.interrupt_stack_table ≡ 7
    → ((t' : Tss) × (set_ist t index stack_top ≡ ok t')
        × (ist t' index ≡ ok (some stack_top))
        × (index ≢ other → ist t' other ≡ ist t other))
      ⊎ ((set_ist t index stack_top ≡ err (bad_ist_index index))
          × (ist t index ≡ err (bad_ist_index index)))
unfolding set_ist ist
ist-set_ist t index other stack_top h = elim (Bool-cases (index == 0 || ltb 7 index)) [
  | inl bad ↦ inr (rw bad refl, rw bad refl)
  | inr good ↦
      let inside : index - 1 < length t.interrupt_stack_table = ground (arith, h) in
      let found = get_elem?-set_self t.interrupt_stack_table (index - 1) stack_top inside in
      inl (
        record t { interrupt_stack_table = set t.interrupt_stack_table (index - 1) stack_top },
        rw good refl,
        rw good (ap ok found),
        λ differs. elim (Bool-cases (other == 0 || ltb 7 other)) [
          | inl refused ↦ rw refused refl
          | inr fits ↦
              let some_index = at_least_one index good in
              let some_other = at_least_one other fits in
              rw fits (
                ap ok (
                  get_elem?-set_ne t.interrupt_stack_table stack_top
                    (λ same. differs (omega (arith, same, some_index, some_other)))))
        ],
      )
]
