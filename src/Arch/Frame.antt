-- ===== src/Arch/Frame.antt =====
-- The physical frame allocator: arch/frame.rs. One bit for each frame, in words of 64, set if the frame
-- is in use. Indexing past the bitmap panics in the source: that is the error `index_panic` here.
pub mod Bitmap
pub mod Alloc
pub mod Release
pub mod Contiguous
pub mod Statistics
use whisez_os.Prelude.{
  ℕ, zero, suc, ◌+◌, ◌-◌, ◌*◌, ◌/◌, ◌%◌, ◌^◌, bit_or, bit_and, Bool, true, false, not, ◌||◌, Option,
  none, some, List, [], ◌∷◌, ◌==◌, ltb, leb, if◌then◌else◌, length, get_elem?, set, min, max,
  replicate,
}
use whisez_os.Prelude.Bits.{has_bit}
use whisez_os.Prelude.Results.{Result, ok, err, ◌>>=◌}
use whisez_os.Arch.Addr.{phys_new, page_size, page_shift, frame_number}

abbrev pub frames_per_word : ℕ
frames_per_word = 64

abbrev pub full_word : ℕ
full_word = 2 ^ 64 - 1

pub data FrameError : Type 0 where
  out_of_memory : FrameError
  fragmented : ℕ → ℕ → FrameError
  out_of_range double_free : ℕ → FrameError
  bad_region index_panic : FrameError

pub record Region : Type 0 where
  pub start : ℕ
  pub len : ℕ

pub record FrameAllocator : Type 0 where
  pub bitmap : List ℕ
  pub base_frame : ℕ
  pub frame_count : ℕ
  pub used : ℕ
  pub next_hint : ℕ

unfoldable pub words_for : ℕ → ℕ
words_for frame_count = (frame_count + 63) / frames_per_word

-- `fill` keeps the length of the storage that the caller gives.
unfoldable pub new : ℕ → ℕ → ℕ → FrameAllocator
new words base_frame frame_count = record {
  bitmap = replicate words full_word;
  base_frame = base_frame;
  frame_count = frame_count;
  used = frame_count;
  next_hint = 0;
}

unfoldable pub index_of : FrameAllocator → ℕ → Result FrameError (ℕ × ℕ)
index_of a frame =
    if ltb frame a.base_frame || leb (a.base_frame + a.frame_count) frame
    then err (out_of_range frame)
    else let offset = frame - a.base_frame in
      ok (offset / frames_per_word, offset % frames_per_word)

abbrev pub set_bit : ℕ → ℕ → ℕ
set_bit w k = bit_or w (2 ^ k)

abbrev pub clear_bit : ℕ → ℕ → ℕ
clear_bit w k = bit_and w (2 ^ 64 - 1 - 2 ^ k)

abbrev pub word_at : FrameAllocator → ℕ → Result FrameError ℕ
word_at a w = elim (get_elem? a.bitmap w) [ none ↦ err index_panic | some x ↦ ok x ]

unfoldable pub is_used : FrameAllocator → ℕ → Result FrameError Bool
unfolding index_of
is_used a frame = index_of a frame >>= λ (word, k). word_at a word >>= λ x. ok (has_bit x k)

unfoldable pub set_used : FrameAllocator → ℕ → Result FrameError FrameAllocator
unfolding index_of
set_used a frame = index_of a frame >>= λ (word, k). word_at a word >>= λ x.
    if not (has_bit x k)
    then ok (record a { bitmap = set a.bitmap word (set_bit x k); used = a.used + 1 })
    else ok a

unfoldable pub set_free : FrameAllocator → ℕ → Result FrameError FrameAllocator
unfolding index_of
set_free a frame = index_of a frame >>= λ (word, k). word_at a word >>= λ x.
    if has_bit x k
    then ok (record a { bitmap = set a.bitmap word (clear_bit x k); used = a.used - 1 })
    else ok a

-- `(!word).trailing_zeros()`, over the 64 bits.
unfoldable pub trailing_ones : ℕ → ℕ → ℕ
trailing_ones zero w = 0
trailing_ones (suc n) w = let rest = trailing_ones n (w / 2) in if w % 2 == 1 then suc rest else 0

-- The loop of `alloc` over `n` words from `w` on, to the first free frame's offset; it breaks off at a
-- free bit past the last frame.
unfoldable pub scan : List ℕ → ℕ → ℕ → ℕ → Option ℕ
scan bitmap frame_count zero w = none
scan bitmap frame_count (suc n) w =
    let rest = scan bitmap frame_count n (w + 1) in
    elim (get_elem? bitmap w) [
      | none ↦ none
      | some word ↦
          let offset = w * frames_per_word + trailing_ones 64 word in
          if word == full_word then rest else if leb frame_count offset then none else some offset
    ]

-- The two passes: from the hint's word to the end, and from the start to the hint's word.
unfoldable pub find_free : FrameAllocator → Option ℕ
find_free a =
    let start_word = a.next_hint / frames_per_word in
    let words = length a.bitmap in
    let again = scan a.bitmap a.frame_count (min start_word words) 0 in
    elim (scan a.bitmap a.frame_count (words - start_word) start_word) [
      | some offset ↦ some offset
      | none ↦ again
    ]

abbrev pub address_of : ℕ → Result FrameError ℕ
address_of frame = elim (phys_new ((frame * 2 ^ page_shift) % 2 ^ 64)) [
  | ok addr ↦ ok addr
  | err _ ↦ err (out_of_range frame)
]

-- The bit is set before the address is made, so the state changes also where that fails.
unfoldable pub alloc : FrameAllocator → FrameAllocator × Result FrameError ℕ
alloc a = elim (find_free a) [
  | none ↦ (a, err out_of_memory)
  | some offset ↦
      let w = offset / frames_per_word in
      let word : ℕ = elim (get_elem? a.bitmap w) [ none ↦ 0 | some x ↦ x ] in
      (
        record a {
          bitmap = set a.bitmap w (set_bit word (offset % frames_per_word));
          used = a.used + 1;
          next_hint = offset + 1;
        },
        address_of (a.base_frame + offset),
      )
]

abbrev pub lower_hint : FrameAllocator → ℕ → FrameAllocator
lower_hint a offset = if ltb offset a.next_hint then record a { next_hint = offset } else a

unfoldable pub free : FrameAllocator → ℕ → FrameAllocator × Result FrameError (Unit {0})
unfolding is_used set_free
free a addr =
    let frame = frame_number addr in
    elim (is_used a frame) [
      | err e ↦ (a, err e)
      | ok false ↦ (a, err (double_free frame))
      | ok true ↦ elim (set_free a frame) [
        | err e ↦ (a, err e)
        | ok a' ↦ (lower_hint a' (frame - a.base_frame), ok tt)
      ]
    ]

-- The loops of `add_region` and `reserve_region` over `n` frames: an error on one frame is passed over.
unfoldable pub free_frames_from : ℕ → FrameAllocator → ℕ → ℕ → FrameAllocator × ℕ
free_frames_from zero a frame added = (a, added)
free_frames_from (suc n) a frame added = elim (set_free a frame) [
  | ok a' ↦ free_frames_from n a' (frame + 1) (added + 1)
  | err e ↦ free_frames_from n a (frame + 1) added
]

unfoldable pub add_region : FrameAllocator → Region → FrameAllocator × ℕ
unfolding free_frames_from
add_region a region =
    let first = (region.start + (page_size - 1)) / page_size in
    let last = (region.start + region.len) / page_size in
    free_frames_from (max last first - first) a first 0

unfoldable pub reserve_frames_from : ℕ → FrameAllocator → ℕ → ℕ → FrameAllocator × ℕ
reserve_frames_from zero a frame reserved = (a, reserved)
reserve_frames_from (suc n) a frame reserved = elim (set_used a frame) [
  | ok a' ↦ reserve_frames_from n a' (frame + 1) (reserved + 1)
  | err e ↦ reserve_frames_from n a (frame + 1) reserved
]

unfoldable pub reserve_region : FrameAllocator → Region → FrameAllocator × ℕ
unfolding reserve_frames_from
reserve_region a region =
    let first = region.start / page_size in
    let last = (region.start + region.len + (page_size - 1)) / page_size in
    reserve_frames_from (last - first) a first 0

unfoldable pub free_frames : FrameAllocator → ℕ
free_frames a = a.frame_count - a.used
