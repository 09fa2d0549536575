-- ===== src/Arch/Paging.antt =====
-- Page tables: arch/paging.rs. An entry is the number of its 64 bits, flags included. The tables
-- themselves are behind the trait `TableAccess` in the source, and an interface here.
pub mod Protection
pub mod Walks
pub mod Unmap
use whisez_os.Prelude.{
  ℕ, zero, suc, ◌+◌, ◌-◌, ◌*◌, ◌/◌, ◌%◌, ◌^◌, bit_or, bit_and, Bool, true, false, not, ◌&&◌, ◌||◌,
  Option, none, some, ◌==◌, ltb, leb, if◌then◌else◌, ◌≡◌, ◌≢◌,
}
use whisez_os.Prelude.Bits.{has_all, has_bit}
use whisez_os.Prelude.Results.{Result, ok, err, ◌>>=◌, ok_or}
use whisez_os.Arch.Addr.{
  PagingMode, levels, is_page_aligned, table_index, is_kernel_half, phys_new, page_shift,
}

-- The bits of `PageFlags` that the module's code reads or sets.
abbrev pub present_bit : ℕ
present_bit = 0

abbrev pub writable_bit : ℕ
writable_bit = 1

abbrev pub user_bit : ℕ
user_bit = 2

abbrev pub huge_bit : ℕ
huge_bit = 7

abbrev pub no_execute_bit : ℕ
no_execute_bit = 63

pub data PageError : Type 0 where
  write_execute user_mapping_in_kernel_half already_mapped not_mapped out_of_frames : PageError
  invalid_huge_page : ℕ → PageError
  misaligned : PageError

pub data PageSize : Type 0 where
  small large huge : PageSize

unfoldable pub bytes : PageSize → ℕ
bytes small = 4096
bytes large = 2 * 1024 * 1024
bytes huge = 1024 * 1024 * 1024

unfoldable pub terminal_level : PageSize → ℕ
terminal_level small = 1
terminal_level large = 2
terminal_level huge = 3

-- `x & alignment_mask()`, for the sizes are powers of two.
unfoldable pub offset_in : PageSize → ℕ → ℕ
unfolding bytes
offset_in size x = x % bytes size

unfoldable pub contains : ℕ → ℕ → Bool
contains flags k = has_all flags (2 ^ k)

unfoldable pub validate : ℕ → ℕ → PagingMode → Result PageError (Unit {0})
unfolding contains
validate flags virt mode =
    let executable = not (contains flags no_execute_bit) in
    if contains flags writable_bit && executable
    then err write_execute
    else if contains flags user_bit && is_kernel_half virt mode
    then err user_mapping_in_kernel_half
    else ok tt

unfoldable pub intermediate : Bool → ℕ
intermediate user =
    let f : ℕ = bit_or (2 ^ present_bit) (2 ^ writable_bit) in
    if user then bit_or f (2 ^ user_bit) else f

unfoldable pub entry_new : ℕ → ℕ → Result PageError ℕ
entry_new frame flags =
    if not (is_page_aligned frame) then err misaligned else ok (bit_or frame flags)

unfoldable pub is_present : ℕ → Bool
is_present e = has_bit e present_bit

-- `self.0 & ADDR_MASK`: bits 12 to 51.
unfoldable pub entry_frame : ℕ → ℕ
entry_frame e = (e % 2 ^ 52) - e % 2 ^ 12

unfoldable pub is_leaf : ℕ → ℕ → Result PageError Bool
unfolding is_present contains
is_leaf e level =
    if not (is_present e)
    then ok false
    else if level == 1
    then ok true
    else if level == 2 || level == 3
    then ok (contains e huge_bit)
    else if level == 4 || level == 5
    then (if contains e huge_bit then err (invalid_huge_page level) else ok false)
    else err (invalid_huge_page level)

unfoldable pub size_at : ℕ → Result PageError PageSize
size_at level =
    if level == 1
    then ok small
    else if level == 2
    then ok large
    else if level == 3
    then ok huge
    else err (invalid_huge_page level)

-- `S` is what the tables are kept in. Reading a table that is not there is `none`.
pub record TableAccess (S : Type 0) : Type 0 where
  pub read_entry : S → ℕ → ℕ → Option ℕ
  pub write_entry : S → ℕ → ℕ → ℕ → Result PageError S
  pub alloc_table : S → Option (ℕ × S)

pub record Translation : Type 0 where
  pub frame : ℕ
  pub entry : ℕ  -- the entry, whose flags the source keeps
  pub size : PageSize
  pub phys : ℕ

abbrev pub occupied : Option ℕ → Bool
occupied none = false
occupied (some e) = is_present e

unfoldable pub leaf_flags : ℕ → ℕ → ℕ
leaf_flags flags terminal =
    let f = bit_or flags (2 ^ present_bit) in if ltb 1 terminal then bit_or f (2 ^ huge_bit) else f

module _ {S : Type 0} (access : TableAccess S) where
  open access use {read_entry, write_entry, alloc_table}

  unfoldable pub leaf_translation : ℕ → ℕ → ℕ → Result PageError Translation
  unfolding offset_in
  leaf_translation virt entry level = size_at level >>= λ size.
      elim (phys_new (entry_frame entry + offset_in size virt)) [
        | ok phys ↦
            ok (record { frame = entry_frame entry; entry = entry; size = size; phys = phys })
        | err _ ↦ err misaligned
      ]

  -- The loop over the levels from `level` down.
  unfoldable pub translate_from : S → ℕ → PagingMode → ℕ → ℕ → Result PageError Translation
  translate_from s virt mode zero table = err not_mapped
  translate_from s virt mode (suc level) table =
      let rest = λ (t : ℕ). translate_from s virt mode level t in
      do
        index ← ok_or (table_index virt (suc level) mode) not_mapped
        entry ← ok_or (read_entry s table index) not_mapped
        if not (is_present entry)
            then err not_mapped
            else is_leaf entry (suc level) >>= λ leaf.
                if leaf then leaf_translation virt entry (suc level) else rest (entry_frame entry)

  unfoldable pub translate : S → ℕ → ℕ → PagingMode → Result PageError Translation
  translate s root virt mode = translate_from s virt mode (levels mode) root

  -- The walk of `map_page` over the levels above the terminal one, with the tables it makes.
  unfoldable pub descend : ℕ → PagingMode → Bool → ℕ → ℕ → S → ℕ → Result PageError (S × ℕ)
  descend virt mode user terminal zero s table = ok (s, table)
  descend virt mode user terminal (suc level) s table =
      let rest = λ (s' : S) (t : ℕ). descend virt mode user terminal level s' t in
      if leb (suc level) terminal then ok (s, table) else do
        index ← ok_or (table_index virt (suc level) mode) not_mapped
        entry ← ok_or (read_entry s table index) not_mapped
        if is_present entry
            then (is_leaf entry (suc level) >>= λ leaf.
                if leaf then err already_mapped else rest s (entry_frame entry))
            else elim (alloc_table s) [
              | none ↦ err out_of_frames
              | some (fresh, s') ↦ entry_new fresh (intermediate user) >>= λ e.
                  write_entry s' table index e >>= λ s''. rest s'' fresh
            ]

  unfoldable pub write_leaf : ℕ → ℕ → ℕ → PagingMode → ℕ → S → ℕ → Result PageError S
  unfolding leaf_flags
  write_leaf virt frame flags mode terminal s table = do
    index ← ok_or (table_index virt terminal mode) not_mapped
    if occupied (read_entry s table index)
        then err already_mapped
        else entry_new frame (leaf_flags flags terminal) >>= λ e. write_entry s table index e

  unfoldable pub map_page : S → ℕ → ℕ → ℕ → ℕ → PageSize → PagingMode → Result PageError S
  unfolding offset_in
  map_page s root virt frame flags size mode = validate flags virt mode >>= λ _.
      if not (offset_in size virt == 0) || not (offset_in size frame == 0)
      then err misaligned
      else descend virt mode (contains flags user_bit) (terminal_level size) (levels mode) s root
        >>= λ (s', table). write_leaf virt frame flags mode (terminal_level size) s' table

  unfoldable pub clear_leaf : S → ℕ → ℕ → ℕ → ℕ → Result PageError (S × ℕ × PageSize)
  clear_leaf s table index entry level = do
    size ← size_at level
    s' ← write_entry s table index 0
    ok (s', entry_frame entry, size)

  unfoldable pub unmap_from : S → ℕ → PagingMode → ℕ → ℕ → Result PageError (S × ℕ × PageSize)
  unmap_from s virt mode zero table = err not_mapped
  unmap_from s virt mode (suc level) table =
      let rest = λ (t : ℕ). unmap_from s virt mode level t in
      do
        index ← ok_or (table_index virt (suc level) mode) not_mapped
        entry ← ok_or (read_entry s table index) not_mapped
        if not (is_present entry)
            then err not_mapped
            else is_leaf entry (suc level) >>= λ leaf.
                if leaf
                then clear_leaf s table index entry (suc level)
                else rest (entry_frame entry)

  unfoldable pub unmap_page : S → ℕ → ℕ → PagingMode → Result PageError (S × ℕ × PageSize)
  unmap_page s root virt mode = unmap_from s virt mode (levels mode) root

-- Frames spanned by a byte range; the sum wraps, as in the release build.
unfoldable pub frames_spanned : ℕ → ℕ → ℕ
frames_spanned start len =
    if len == 0
    then 0
    else let last = ((start + len - 1) % 2 ^ 64) / 2 ^ page_shift in
      (last + 2 ^ 64 - start / 2 ^ page_shift + 1) % 2 ^ 64
