-- ===== src/Arch/Paging/Protection.antt =====
-- W^X and the split of the address space: what `validate` and `Entry::new` make sure of.
use whisez_os.Prelude.{
  ℕ, ◌*◌, ◌/◌, ◌^◌, ◌<◌, ◌≡◌, refl, ap, sym, ◌∙◌, true, false, ◌||◌, ◌==◌, bit_or, arith,
}
use whisez_os.Prelude.Bits.{bit, bit-bit_or, bit-pow, bit_above, has_all-bit, low_bit_zero}
use whisez_os.Prelude.Results.{ok, err}
use whisez_os.Arch.Addr.{PagingMode, is_page_aligned, is_kernel_half}
use whisez_os.Arch.Paging.{
  write_execute, PageSize, contains, validate, entry_new, leaf_flags, present_bit, writable_bit,
  user_bit, huge_bit, no_execute_bit, TableAccess, map_page,
}

pub contains-bit : (w k : ℕ) → contains w k ≡ bit w k
unfolding contains
contains-bit w k = has_all-bit w k

-- A frame of the physical address space has none of the flag bits set.
frame_has_no_flag : (frame k : ℕ) → is_page_aligned frame ≡ true → k < 12 → bit frame k ≡ false
unfolding is_page_aligned
frame_has_no_flag frame k a h =
    let whole : frame ≡ frame / 4096 * 2 ^ 12 = ground arith in
    ap (λ f. bit f k) whole ∙ low_bit_zero 12 (frame / 4096) k h

frame_has_no_high_flag : (frame : ℕ) → frame < 2 ^ 52 → bit frame 63 ≡ false
frame_has_no_high_flag frame b = bit_above 52 frame 63 b (omega arith)

entry_new-ok :
    (frame flags : ℕ) {e : ℕ}
    → entry_new frame flags ≡ ok e
    → (is_page_aligned frame ≡ true) × (e ≡ bit_or frame flags)
unfolding entry_new
entry_new-ok frame flags e = ground arith

-- The flags that restrict an access.
pub data Restricts : ℕ → Type 0 where
  writing : {k : ℕ} → k ≡ writable_bit → Restricts k
  user : {k : ℕ} → k ≡ user_bit → Restricts k
  executing : {k : ℕ} → k ≡ no_execute_bit → Restricts k

frame_unrestricted :
    (frame k : ℕ)
    → is_page_aligned frame ≡ true
    → frame < 2 ^ 52
    → Restricts k
    → bit frame k ≡ false
frame_unrestricted frame k a b (writing e) = frame_has_no_flag frame k a (omega arith)
frame_unrestricted frame k a b (user e) = frame_has_no_flag frame k a (omega arith)
frame_unrestricted frame k a b (executing e) = ap (bit frame) e ∙ frame_has_no_high_flag frame b

leaf_flags-bit :
    (flags terminal k : ℕ) → Restricts k → bit (leaf_flags flags terminal) k ≡ bit flags k
unfolding leaf_flags
leaf_flags-bit flags terminal k r =
    let p = bit-bit_or flags (2 ^ present_bit) k in
    let h = bit-bit_or (bit_or flags (2 ^ present_bit)) (2 ^ huge_bit) k in
    let z = bit-pow present_bit k in
    let s = bit-pow huge_bit k in let (n, m) = distinct r in ground arith
  where
    distinct : Restricts k → (present_bit == k) ≡ false × ((huge_bit == k) ≡ false)
    distinct (writing e) = ground arith
    distinct (user e) = ground arith
    distinct (executing e) = ground arith

-- The entry that `map_page` writes for a frame is writable, open to user code or not executable
-- exactly as the flags that were asked for.
leaf_entry_flags :
    (frame flags terminal k : ℕ) {e : ℕ}
    → frame < 2 ^ 52
    → entry_new frame (leaf_flags flags terminal) ≡ ok e
    → Restricts k
    → contains e k ≡ contains flags k
leaf_entry_flags frame flags terminal k {e} b made r =
    let (aligned, whole) = entry_new-ok frame (leaf_flags flags terminal) {e = e} made in
    let split = bit-bit_or frame (leaf_flags flags terminal) k in
    let f = frame_unrestricted frame k aligned b r in
    let l = leaf_flags-bit flags terminal k r in
    contains-bit e k
    ∙ ap (λ w. bit w k) whole
    ∙ split
    ∙ ap (λ x. x || bit (leaf_flags flags terminal) k) f
    ∙ l
    ∙ sym (contains-bit flags k)

-- For a frame below 2 ^ 52, flags that `validate` accepts make no entry that is writable and
-- executable, and none that is open to user code at an address of the kernel's half.
pub validated_entry_safe :
    (virt frame flags terminal : ℕ) (mode : PagingMode) {e : ℕ}
    → frame < 2 ^ 52
    → validate flags virt mode ≡ ok tt
    → entry_new frame (leaf_flags flags terminal) ≡ ok e
    → ((contains e writable_bit ≡ true) → contains e no_execute_bit ≡ true)
      × ((contains e user_bit ≡ true) → is_kernel_half virt mode ≡ false)
unfolding validate
validated_entry_safe virt frame flags terminal mode {e} b v made =
    let w = leaf_entry_flags frame flags terminal writable_bit {e = e} b made (writing refl) in
    let u = leaf_entry_flags frame flags terminal user_bit {e = e} b made (user refl) in
    let x = leaf_entry_flags frame flags terminal no_execute_bit {e = e} b made (executing refl) in
    (λ h. ground arith, λ h. ground arith)

-- Flags that are writable and executable are refused, whatever the tables hold.
pub map_page_refuses :
    {S : Type 0} (access : TableAccess S) (s : S) (root virt frame flags : ℕ) (size : PageSize)
    (mode : PagingMode)
    → (contains flags writable_bit ≡ true) × (contains flags no_execute_bit ≡ false)
    → map_page access s root virt frame flags size mode ≡ err write_execute
unfolding map_page validate
map_page_refuses access s root virt frame flags size mode h = ground arith
