-- ===== src/Fs/Tree.antt =====
-- The pointer tree of a file: layout.rs, lines 225 to 327. Twelve direct pointers and four levels of
-- indirect blocks of 256 pointers each.
use whisez_os.Prelude.{ℕ, ◌+◌, ◌-◌, ◌*◌, ◌/◌, ◌%◌, ◌≤◌, ◌<◌, ◌≡◌, arith, ltb, if◌then◌else◌}

abbrev pub pointers_per_block : ℕ
pointers_per_block = 4096 / 16

abbrev pub direct_count : ℕ
direct_count = 12

unfoldable pub max_file_size : ℕ
max_file_size =
    let p : ℕ = pointers_per_block in (12 + p + p * p + p * p * p + p * p * p * p) * 4096

pub data BlockLocation : Type 0 where
  direct : ℕ → BlockLocation
  indirect : ℕ → BlockLocation
  double_indirect : ℕ → ℕ → BlockLocation
  triple_indirect : ℕ → ℕ → ℕ → BlockLocation
  quad_indirect : ℕ → ℕ → ℕ → ℕ → BlockLocation
  out_of_range : BlockLocation

unfoldable pub locate_block : ℕ → BlockLocation
locate_block block_index =
    let single : ℕ = pointers_per_block in
    let double : ℕ = single * single in
    let triple : ℕ = double * single in
    let i1 : ℕ = block_index - direct_count in
    let i2 : ℕ = i1 - single in
    let i3 : ℕ = i2 - double in
    let i4 : ℕ = i3 - triple in
    if ltb block_index direct_count
    then direct block_index
    else if ltb i1 single
    then indirect i1
    else if ltb i2 double
    then double_indirect (i2 / single) (i2 % single)
    else if ltb i3 triple
    then triple_indirect (i3 / double) ((i3 / single) % single) (i3 % single)
    else if ltb i4 (triple * single)
    then quad_indirect (i4 / triple) ((i4 / double) % single) ((i4 / single) % single) (i4 % single)
    else out_of_range

-- The blocks in the order in which the tree holds them: the number of the block at a location, and
-- which locations there are.
abbrev pub block_at : BlockLocation → ℕ
block_at (direct i) = i
block_at (indirect a) = 12 + a
block_at (double_indirect b a) = 12 + 256 + (b * 256 + a)
block_at (triple_indirect c b a) = 12 + 256 + 256 * 256 + ((c * 256 + b) * 256 + a)
block_at (quad_indirect d c b a) =
    12 + 256 + 256 * 256 + 256 * 256 * 256 + (((d * 256 + c) * 256 + b) * 256 + a)
block_at out_of_range = 12 + 256 + 256 * 256 + 256 * 256 * 256 + 256 * 256 * 256 * 256

abbrev pub IsPlace : BlockLocation → Type 0
IsPlace (direct i) = i < 12
IsPlace (indirect a) = a < 256
IsPlace (double_indirect b a) = (b < 256) × (a < 256)
IsPlace (triple_indirect c b a) = (c < 256) × (b < 256) × (a < 256)
IsPlace (quad_indirect d c b a) = (d < 256) × (c < 256) × (b < 256) × (a < 256)
IsPlace out_of_range = ⊥

-- Every place of the tree is where its block is located.
locate_block_at : (l : BlockLocation) → IsPlace l → locate_block (block_at l) ≡ l
unfolding locate_block
locate_block_at (direct i) h = ground arith
locate_block_at (indirect a) h = ground arith
locate_block_at (double_indirect b a) h = ground arith
locate_block_at (triple_indirect c b a) h = ground arith
locate_block_at (quad_indirect d c b a) h = ground arith
locate_block_at out_of_range h = absurd h

-- Every block that a file of the largest size has is located at a place of the tree, and is the
-- block that stands there; every later one is out of range; and every place of the tree is where
-- its block is located: no pointer is unused, and no two blocks share one.
pub locate_block_sound :
    (b : ℕ) (l : BlockLocation)
    → (b * 4096 < max_file_size → IsPlace (locate_block b) × (block_at (locate_block b) ≡ b))
      × (max_file_size ≤ b * 4096 → locate_block b ≡ out_of_range)
      × (IsPlace l → locate_block (block_at l) ≡ l)
unfolding locate_block max_file_size
locate_block_sound b l = (λ h. ground arith, λ h. ground arith, locate_block_at l)
