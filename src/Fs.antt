-- ===== src/Fs.antt =====
-- The on-disk layout of SpectreFS: fs/spectrefs/src/layout.rs. The block pointer stands here; the
-- pointer tree, the rotation of uberblocks and the pruning of snapshots are the children.
pub mod Tree
pub mod Uberblocks
pub mod Snapshots
use whisez_os.Prelude.{
  ℕ, ◌+◌, ◌-◌, ◌*◌, ◌/◌, ◌^◌, ◌≤◌, ◌<◌, ◌≡◌, Bool, not, ◌&&◌, List, true, false, arith, ltb,
  replicate, ◌↔◌,
}
use whisez_os.Prelude.Bits.{has_all}

abbrev pub block_size : ℕ
block_size = 4096

abbrev pub flag_sparse : ℕ
flag_sparse = 2 ^ 2

pub record BlockPtr : Type 0 where
  pub lba : ℕ
  pub birth_txg : ℕ
  pub checksum : List ℕ  -- 32 bytes
  pub logical_size : ℕ
  pub physical_size : ℕ
  pub flags : ℕ
  pub refcount : ℕ

unfoldable pub sparse_ptr : BlockPtr
sparse_ptr = record {
  lba = 0;
  birth_txg = 0;
  checksum = replicate 32 0;
  logical_size = 0;
  physical_size = 0;
  flags = flag_sparse;
  refcount = 0;
}

unfoldable pub is_sparse : BlockPtr → Bool
is_sparse p = has_all p.flags flag_sparse

unfoldable pub is_stale : BlockPtr → ℕ → Bool
unfolding is_sparse
is_stale p current_txg = not (is_sparse p) && ltb current_txg p.birth_txg

-- `usize::div_ceil` by the block size.
abbrev pub blocks_for : ℕ → ℕ
blocks_for n = (n + (block_size - 1)) / block_size

unfoldable pub should_keep_compression : ℕ → ℕ → Bool
should_keep_compression logical physical = ltb (blocks_for physical) (blocks_for logical)

-- Compression is kept exactly when it frees a whole block: when there is a number of blocks that holds
-- the compressed bytes and not the plain ones.
pub should_keep_compression_saves :
    (logical physical : ℕ)
    → (should_keep_compression logical physical ≡ true)
      ↔ ((n : ℕ) × (physical ≤ n * block_size) × (n * block_size < logical))
unfolding should_keep_compression
should_keep_compression_saves logical physical =
    (λ h. (blocks_for physical, ground arith, ground arith), λ (n, fits, over). ground arith)
