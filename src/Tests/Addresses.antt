-- ===== src/Tests/Addresses.antt =====
-- Addresses.
use whisez_os.Prelude.{◌≡◌, refl, true, arith}
use whisez_os.Arch.Addr.{level4, virt_bits, sign_extend, is_canonical, from_indices_sign_extended}
use whisez_os.Arch.Addr.Canonical.{from_walk, table_index_walk}

kernel_base : is_canonical 0xffff_8000_1234_5678 level4 ≡ true
unfolding is_canonical sign_extend virt_bits
kernel_base = refl

table_index_walk_example :
    from_indices_sign_extended (from_walk 0xffff_8000_1234_5678 level4) level4
    ≡ 0xffff_8000_1234_5678
table_index_walk_example = table_index_walk 0xffff_8000_1234_5678 level4 (omega arith) kernel_base
