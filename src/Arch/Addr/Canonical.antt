-- ===== src/Arch/Addr/Canonical.antt =====
-- Canonical addresses, and what the indices of a walk say of an address.
use whisez_os.Prelude.{ℕ, ◌+◌, ◌*◌, ◌^◌, ◌≤◌, ◌<◌, ◌≡◌, ◌↔◌, ◌⊎◌, true, none, some, arith}
use whisez_os.Arch.Addr.{
  PagingMode, level4, level5, sign_bit, page_size, is_canonical, is_kernel_half, table_index,
  offset_in_page, from_indices_sign_extended, align_up, is_page_aligned,
}

-- The canonical addresses are the two halves: below the sign bit, and from its extension up. Which half
-- it is, `is_kernel_half` tells.
pub is_canonical_halves :
    (addr : ℕ) (mode : PagingMode)
    → addr < 2 ^ 64
    → ((is_canonical addr mode ≡ true)
        ↔ ((addr < 2 ^ sign_bit mode) ⊎ (2 ^ 64 ≤ addr + 2 ^ sign_bit mode)))
      × (is_canonical addr mode ≡ true → (is_kernel_half addr mode ≡ true) ↔ (2 ^ 63 ≤ addr))
unfolding is_canonical is_kernel_half
is_canonical_halves addr level4 h = (ground arith, λ c. ground arith)
is_canonical_halves addr level5 h = (ground arith, λ c. ground arith)

abbrev index : ℕ → ℕ → PagingMode → ℕ
index addr level mode = elim (table_index addr level mode) [ none ↦ 0 | some i ↦ i ]

-- The address without its sign extension, from the indices of a walk.
abbrev pub from_walk : ℕ → PagingMode → ℕ
from_walk addr level4 =
    index addr 4 level4 * 2 ^ 39
    + index addr 3 level4 * 2 ^ 30
    + index addr 2 level4 * 2 ^ 21
    + index addr 1 level4 * 2 ^ 12
    + offset_in_page addr
from_walk addr level5 =
    index addr 5 level5 * 2 ^ 48
    + index addr 4 level5 * 2 ^ 39
    + index addr 3 level5 * 2 ^ 30
    + index addr 2 level5 * 2 ^ 21
    + index addr 1 level5 * 2 ^ 12
    + offset_in_page addr

-- The indices of all levels and the offset in the page determine a canonical address: extending the
-- sign of what they add up to gives it back.
pub table_index_walk :
    (addr : ℕ) (mode : PagingMode)
    → addr < 2 ^ 64
    → is_canonical addr mode ≡ true
    → from_indices_sign_extended (from_walk addr mode) mode ≡ addr
unfolding is_canonical from_indices_sign_extended offset_in_page table_index
table_index_walk addr level4 h c = ground arith
table_index_walk addr level5 h c = ground arith

-- `align_up` gives the next page boundary; above the last one it stays at that, and does not wrap.
pub align_up_bounds :
    (addr : ℕ)
    → addr < 2 ^ 64
    → (is_page_aligned (align_up addr) ≡ true)
      × (align_up addr < addr + page_size)
      × (align_up addr < 2 ^ 64)
      × ((addr ≤ align_up addr) ⊎ (2 ^ 64 < addr + page_size))
unfolding align_up is_page_aligned
align_up_bounds addr h = ground arith
