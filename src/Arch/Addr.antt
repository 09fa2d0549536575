-- ===== src/Arch/Addr.antt =====
-- Physical and virtual addresses: arch/addr.rs. An address is the number of its 64 bits.
pub mod Canonical
use whisez_os.Prelude.{
  ℕ, zero, suc, ◌+◌, ◌-◌, ◌*◌, ◌/◌, ◌%◌, ◌^◌, Bool, true, false, not, ◌||◌, Option, none, some,
  ◌==◌, ltb, if◌then◌else◌, min,
}
use whisez_os.Prelude.Results.{Result, ok, err}

pub data PagingMode : Type 0 where
  level4 level5 : PagingMode

unfoldable pub virt_bits : PagingMode → ℕ
virt_bits level4 = 48
virt_bits level5 = 57

unfoldable pub sign_bit : PagingMode → ℕ
unfolding virt_bits
sign_bit mode = virt_bits mode - 1

unfoldable pub levels : PagingMode → ℕ
levels level4 = 4
levels level5 = 5

abbrev pub page_size : ℕ
page_size = 4096

abbrev pub page_shift : ℕ
page_shift = 12

abbrev pub max_phys_bits : ℕ
max_phys_bits = 52

pub data AddrError : Type 0 where
  non_canonical phys_too_wide misaligned : ℕ → AddrError

unfoldable pub phys_new : ℕ → Result AddrError ℕ
phys_new addr = if addr / 2 ^ max_phys_bits == 0 then ok addr else err (phys_too_wide addr)

unfoldable pub frame_number : ℕ → ℕ
frame_number addr = addr / 2 ^ page_shift

-- `addr & (PAGE_SIZE - 1)`.
unfoldable pub offset_in_page : ℕ → ℕ
offset_in_page addr = addr % page_size

unfoldable pub is_page_aligned : ℕ → Bool
unfolding offset_in_page
is_page_aligned addr = offset_in_page addr == 0

-- `addr & !(PAGE_SIZE - 1)`.
unfoldable pub align_down : ℕ → ℕ
align_down addr = addr - addr % page_size

-- The sum saturates at the largest word.
unfoldable pub align_up : ℕ → ℕ
unfolding align_down
align_up addr = align_down (min (addr + (page_size - 1)) (2 ^ 64 - 1))

-- `((a << s) as i64 >> s) as u64`: the arithmetic shift fills with the sign.
unfoldable pub sign_extend : ℕ → ℕ → ℕ
sign_extend shift addr =
    let up = (addr * 2 ^ shift) % 2 ^ 64 in
    if ltb up (2 ^ 63) then up / 2 ^ shift else up / 2 ^ shift + (2 ^ 64 - 2 ^ (64 - shift))

unfoldable pub is_canonical : ℕ → PagingMode → Bool
unfolding sign_extend virt_bits
is_canonical addr mode = sign_extend (64 - virt_bits mode) addr == addr

unfoldable pub virt_new : ℕ → PagingMode → Result AddrError ℕ
unfolding is_canonical
virt_new addr mode = if not (is_canonical addr mode) then err (non_canonical addr) else ok addr

unfoldable pub from_indices_sign_extended : ℕ → PagingMode → ℕ
unfolding sign_extend virt_bits
from_indices_sign_extended addr mode = sign_extend (64 - virt_bits mode) addr

unfoldable pub table_index : ℕ → ℕ → PagingMode → Option ℕ
unfolding levels
table_index addr level mode =
    if level == 0 || ltb (levels mode) level
    then none
    else some ((addr / 2 ^ (page_shift + 9 * (level - 1))) % 512)

unfoldable pub is_kernel_half : ℕ → PagingMode → Bool
unfolding sign_bit
is_kernel_half addr mode = (addr / 2 ^ sign_bit mode) % 2 == 1
