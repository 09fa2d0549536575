-- ===== src/Arch/Frame/Contiguous.antt =====
-- Runs of frames: the part of arch/frame.rs from `alloc_contiguous` to `free_contiguous`.
-- The loops of the source end because their frame grows; here they have fuel. `none` means that it ran out,
-- or that a sum passed 2 ^ 64 and the kernel panicked: overflow checks are on in its release build.
pub mod Masks
pub mod FirstUsed
pub mod Runs
pub mod Frees
use whisez_os.Prelude.{
  ℕ, zero, suc, ◌+◌, ◌-◌, ◌*◌, ◌/◌, ◌%◌, ◌^◌, bit_and, Bool, true, false, not, ◌&&◌, Option, none,
  some, ◌==◌, ltb, leb, if◌then◌else◌, min, max,
}
use whisez_os.Prelude.Results.{Result, ok, err}
use whisez_os.Arch.Addr.{frame_number}
use whisez_os.Arch.Frame.{
  frames_per_word, full_word, FrameError, bad_region, fragmented, double_free, FrameAllocator,
  index_of, word_at, set_used, set_free, is_used, address_of, lower_hint,
}

-- Whether a sum is a number of 64 bits.
abbrev pub fits : ℕ → Bool
fits n = ltb n (2 ^ 64)

-- `u64::trailing_zeros`, over the low bits.
unfoldable pub trailing_zeros : ℕ → ℕ → ℕ
trailing_zeros zero w = 0
trailing_zeros (suc n) w = let rest = trailing_zeros n (w / 2) in if w % 2 == 1 then 0 else suc rest

-- The bits of a word from `bit` on, as many as remain of the run.
unfoldable pub mask : ℕ → ℕ → ℕ
mask remaining bit =
    if leb 64 remaining then full_word else ((2 ^ remaining - 1) * 2 ^ bit) % 2 ^ 64

-- One round of the loop of `first_used_in`: the answer, or the frame where it goes on.
pub data Look : Type 0 where
  found : ℕ → Look
  go_on : ℕ → Look

unfoldable pub look : ℕ → ℕ → ℕ → ℕ → Look
unfolding mask
look w frame bit end =
    let remaining : ℕ = min (end - frame) (frames_per_word - bit) in
    let masked : ℕ = bit_and w (mask remaining bit) in
    if w == 0
    then go_on (frame + (frames_per_word - bit))
    else if not (masked == 0)
    then found (frame - bit + trailing_zeros 64 masked)
    else go_on (frame + remaining)

unfoldable pub first_used_loop : ℕ → FrameAllocator → ℕ → ℕ → Option (Result FrameError (Option ℕ))
first_used_loop zero a frame end = none
first_used_loop (suc fuel) a frame end =
    let rest = λ (f : ℕ). first_used_loop fuel a f end in
    if ltb frame end
    then elim (index_of a frame) [
      | err e ↦ some (err e)
      | ok (word, bit) ↦ elim (word_at a word) [
        | err e ↦ some (err e)
        | ok w ↦ elim (look w frame bit end) [
          | found f ↦ some (ok (some f))
          | go_on f ↦ if fits f then rest f else none
        ]
      ]
    ]
    else some (ok none)

-- Each round goes on by a frame at least, so one round more than there are frames is enough.
unfoldable pub first_used_in : FrameAllocator → ℕ → ℕ → Option (Result FrameError (Option ℕ))
unfolding first_used_loop
first_used_in a start count =
    if fits (start + count) then first_used_loop (suc count) a start (start + count) else none

-- `u64::next_multiple_of`, for a divisor that is not 0. It panics where the multiple does not fit.
abbrev pub next_multiple_of : ℕ → ℕ → ℕ
next_multiple_of x align = (x + (align - 1)) / align * align

-- `set_used(f)?` for each of the frames.
unfoldable pub mark_run : ℕ → FrameAllocator → ℕ → FrameAllocator × Result FrameError (Unit {0})
mark_run zero a frame = (a, ok tt)
mark_run (suc n) a frame = elim (set_used a frame) [
  | err e ↦ (a, err e)
  | ok a' ↦ mark_run n a' (frame + 1)
]

abbrev pub after_marking :
    ℕ → FrameAllocator × Result FrameError (Unit {0}) → FrameAllocator × Result FrameError ℕ
after_marking candidate (a, ok _) = (a, address_of candidate)
after_marking candidate (a, err e) = (a, err e)

unfoldable pub run_loop :
    ℕ → FrameAllocator → ℕ → ℕ → ℕ → ℕ → Option (FrameAllocator × Result FrameError ℕ)
run_loop zero a count align best candidate = none
run_loop (suc fuel) a count align best candidate =
    let rest = λ (b c : ℕ). run_loop fuel a count align b c in
    if not (fits (candidate + count) && fits (a.base_frame + a.frame_count))
    then none
    else if leb (candidate + count) (a.base_frame + a.frame_count)
    then elim (first_used_in a candidate count) [
      | none ↦ none
      | some (err e) ↦ some (a, err e)
      | some (ok none) ↦ some (after_marking candidate (mark_run count a candidate))
      | some (ok (some blocker)) ↦
          if fits (next_multiple_of (blocker + 1) align)
          then rest (max best (blocker - candidate)) (next_multiple_of (blocker + 1) align)
          else none
    ]
    else some (a, err (fragmented count best))

-- The candidates grow, so one round more than there are frames is enough. The assertion that the alignment
-- is a power of two is one of debug builds.
unfoldable pub alloc_contiguous :
    FrameAllocator → ℕ → ℕ → Option (FrameAllocator × Result FrameError ℕ)
unfolding run_loop
alloc_contiguous a count align_frames =
    let align : ℕ = max align_frames 1 in
    if count == 0
    then some (a, err bad_region)
    else if fits (next_multiple_of a.base_frame align)
    then run_loop (suc a.frame_count) a count align 0 (next_multiple_of a.base_frame align)
    else none

-- The two passes of `free_contiguous`: the first frame that is free or an error, then the writes.
unfoldable pub check_run : ℕ → FrameAllocator → ℕ → Result FrameError (Unit {0})
check_run zero a frame = ok tt
check_run (suc n) a frame = elim (is_used a frame) [
  | err e ↦ err e
  | ok false ↦ err (double_free frame)
  | ok true ↦ check_run n a (frame + 1)
]

unfoldable pub clear_run : ℕ → FrameAllocator → ℕ → FrameAllocator × Result FrameError (Unit {0})
clear_run zero a frame = (a, ok tt)
clear_run (suc n) a frame = elim (set_free a frame) [
  | err e ↦ (a, err e)
  | ok a' ↦ clear_run n a' (frame + 1)
]

abbrev pub after_clearing :
    ℕ
    → FrameAllocator × Result FrameError (Unit {0})
    → FrameAllocator × Result FrameError (Unit {0})
after_clearing first (a, ok _) = (lower_hint a (first - a.base_frame), ok tt)
after_clearing first (a, err e) = (a, err e)

unfoldable pub free_run : FrameAllocator → ℕ → ℕ → FrameAllocator × Result FrameError (Unit {0})
unfolding check_run clear_run
free_run a addr count =
    let first : ℕ = frame_number addr in
    let cleared = clear_run count a first in
    elim (check_run count a first) [ err e ↦ (a, err e) | ok _ ↦ after_clearing first cleared ]

-- None is the panic of the sum.
unfoldable pub free_contiguous :
    FrameAllocator → ℕ → ℕ → Option (FrameAllocator × Result FrameError (Unit {0}))
free_contiguous a addr count =
    if fits (frame_number addr + count) then some (free_run a addr count) else none
