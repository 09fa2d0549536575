-- ===== src/Tests/Tables.antt =====
-- Page tables in a memory that is a function: a page of 1 GiB at address 0.
use whisez_os.Prelude.{ℕ, ◌≡◌, refl, true, false, ◌&&◌, none, some, ◌==◌, if◌then◌else◌, arith}
use whisez_os.Prelude.Bits.{has_all, has_bit}
use whisez_os.Prelude.Results.{ok, err}
use whisez_os.Arch.Addr.{
  level4, levels, table_index, is_kernel_half, sign_bit, virt_bits, phys_new, is_page_aligned,
  offset_in_page,
}
use whisez_os.Arch.Paging.{
  already_mapped, not_mapped, small, huge, bytes, offset_in, contains, writable_bit, no_execute_bit,
  user_bit, validate, entry_new, leaf_flags, is_present, is_leaf, size_at, entry_frame, TableAccess,
  Translation, leaf_translation, translate_from, translate, map_page, clear_leaf, unmap_from,
  unmap_page,
}
use whisez_os.Arch.Paging.Protection.{validated_entry_safe}
use whisez_os.Arch.Paging.Walks.{map_page_no_overwrite}
use whisez_os.Arch.Paging.Unmap.{IsMemory, Cleared, unmap_page-translate}

abbrev Memory : Type 0
Memory = ℕ → ℕ → ℕ

abbrev write : Memory → ℕ → ℕ → ℕ → Memory
write s table index e t i = if (t == table) && (i == index) then e else s t i

abbrev memory : TableAccess Memory
memory = record {
  read_entry = λ s table index. some (s table index);
  write_entry = λ s table index e. ok (write s table index e);
  alloc_table = λ s. none;
}

memory-IsMemory : IsMemory memory
memory-IsMemory = record {
  written = λ s s' table index e h. ground arith;
  others = λ s s' table index e t i h. ground arith;
}

-- The root, at 0x1000, leads to the table at 0x2000, whose first entry is a leaf.
abbrev tables : Memory
tables = write (write (λ t i. 0) 0x1000 0 0x2003) 0x2000 0 0x4000_0083

unmapped :
    unmap_page memory tables 0x1000 0 level4 ≡ ok (write tables 0x2000 0 0, 0x4000_0000, huge)
unfolding unmap_page unmap_from clear_leaf levels table_index is_present is_leaf size_at entry_frame
    contains has_all has_bit
unmapped = refl

unmap_page-translate_example :
    (translate memory (write tables 0x2000 0 0) 0x1000 0 level4 ≡ err not_mapped)
    × Cleared memory memory-IsMemory tables (write tables 0x2000 0 0)
unmap_page-translate_example =
    unmap_page-translate memory memory-IsMemory tables (write tables 0x2000 0 0) 0x1000 0
      0x4000_0000 huge level4 unmapped

abbrev one_gib : Translation
one_gib = record { frame = 0x4000_0000; entry = 0x4000_0083; size = huge; phys = 0x4000_5000 }

translated : translate memory tables 0x1000 0x5000 level4 ≡ ok one_gib
unfolding translate translate_from leaf_translation levels table_index is_present is_leaf size_at
    entry_frame contains has_all has_bit offset_in bytes phys_new
translated = refl

-- Present, writable, not executable.
accepted : validate 0x8000_0000_0000_0003 0x5000 level4 ≡ ok tt
unfolding validate contains has_all is_kernel_half sign_bit virt_bits
accepted = refl

page_aligned : offset_in small 0x5000 ≡ 0
unfolding offset_in bytes
page_aligned = refl

frame_aligned : offset_in small 0x9000 ≡ 0
unfolding offset_in bytes
frame_aligned = refl

map_page_no_overwrite_example :
    map_page memory tables 0x1000 0x5000 0x9000 0x8000_0000_0000_0003 small level4
    ≡ err already_mapped
map_page_no_overwrite_example =
    map_page_no_overwrite memory tables 0x1000 0x5000 0x9000 0x8000_0000_0000_0003 small level4
      translated accepted page_aligned frame_aligned

made : entry_new 0x9000 (leaf_flags 0x8000_0000_0000_0003 1) ≡ ok 0x8000_0000_0000_9003
unfolding entry_new leaf_flags is_page_aligned offset_in_page
made = refl

validated_entry_safe_example :
    (contains 0x8000_0000_0000_9003 writable_bit ≡ true
      → contains 0x8000_0000_0000_9003 no_execute_bit ≡ true)
    × (contains 0x8000_0000_0000_9003 user_bit ≡ true → is_kernel_half 0x5000 level4 ≡ false)
validated_entry_safe_example =
    validated_entry_safe 0x5000 0x9000 0x8000_0000_0000_0003 1 level4 (omega arith) accepted made
