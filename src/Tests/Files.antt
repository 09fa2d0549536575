-- ===== src/Tests/Files.antt =====
-- Blocks and uberblocks.
use whisez_os.Prelude.{
  ℕ, ◌*◌, ◌≤◌, ◌<◌, ◌≡◌, ◌⊎◌, refl, Option, none, some, List, [], ◌∷◌, set, replicate,
}
use whisez_os.Fs.{sparse_ptr}
use whisez_os.Fs.Tree.{
  max_file_size, indirect, out_of_range, locate_block, block_at, IsPlace, locate_block_sound,
}
use whisez_os.Fs.Uberblocks.{
  Uberblock, magic_word, version_word, blake3, compute_checksum, verify_checksum, is_valid,
  next_slot, select_newest_valid,
}
use whisez_os.Fs.Uberblocks.Commit.{Verifies, commit_mounts}

locate_block_sound_example :
    (20 * 4096 < max_file_size → IsPlace (locate_block 20) × (block_at (locate_block 20) ≡ 20))
    × (max_file_size ≤ 20 * 4096 → locate_block 20 ≡ out_of_range)
    × (IsPlace (indirect 8) → locate_block 20 ≡ indirect 8)
locate_block_sound_example = locate_block_sound 20 (indirect 8)

abbrev block_of : ℕ → Uberblock
block_of txg = record {
  magic = magic_word;
  version = version_word;
  volume_id = 1;
  txg = txg;
  object_root = sparse_ptr;
  snapshot_root = sparse_ptr;
  dedup_root = sparse_ptr;
  timestamp_ms = 0;
  self_checksum = replicate 32 0;
}

-- Half of one commit and half of another.
abbrev torn_block : Uberblock
torn_block = record (block_of 6) { timestamp_ms = 7 }

abbrev bytes_of : Uberblock → List ℕ
bytes_of u = u.txg ∷ []

abbrev volume : List (Option Uberblock)
volume = some (block_of 4) ∷ some (block_of 5) ∷ none ∷ none ∷ []

newest : select_newest_valid bytes_of volume ≡ some (block_of 5)
unfolding select_newest_valid is_valid verify_checksum compute_checksum blake3
newest = refl

commit_mounts_example :
    let mounted =
      select_newest_valid bytes_of (set volume (next_slot (block_of 5)) (some torn_block)) in
    (Verifies bytes_of torn_block × (5 < torn_block.txg) × (mounted ≡ some torn_block))
    ⊎ ((Verifies bytes_of torn_block → torn_block.txg ≤ 5)
        × ((v : Uberblock) × (mounted ≡ some v) × (v.txg ≡ 5)))
commit_mounts_example = commit_mounts bytes_of volume (block_of 5) torn_block newest refl refl
