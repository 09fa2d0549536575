-- ===== src/Tests/Frames.antt =====
-- An allocator of 64 frames from frame 16 on, of which the third is free.
use whisez_os.Prelude.{some, ◌≤◌, ℕ, ◌+◌, ◌<◌, ◌≡◌, ◌⊎◌, refl, true, [], ◌∷◌, arith}
use whisez_os.Prelude.Results.{Result, ok, err}
use whisez_os.Arch.Addr.{frame_number, phys_new}
use whisez_os.Arch.Frame.Contiguous.{alloc_contiguous}
use whisez_os.Arch.Frame.Contiguous.Runs.{Outcome, alloc_contiguous-Outcome}
use whisez_os.Arch.Frame.{
  FrameError, FrameAllocator, alloc, free, out_of_memory, address_of, find_free, scan,
  trailing_ones,
}
use whisez_os.Arch.Frame.Bitmap.{used_at}
use whisez_os.Arch.Frame.Alloc.{IsCovered, Takes, alloc-Takes}
use whisez_os.Arch.Frame.Release.{IsManaged, free_undoes_alloc}

abbrev frames : FrameAllocator
frames = record {
  bitmap = 0xffff_ffff_ffff_fffb ∷ [];
  base_frame = 16;
  frame_count = 64;
  used = 63;
  next_hint = 0;
}

frames-IsCovered : IsCovered frames
frames-IsCovered = record { words = (omega arith, tt); covers = omega arith }

alloc-Takes_example :
    ((alloc frames ≡ (frames, err out_of_memory))
      × ((o : ℕ) → o < 64 → used_at frames.bitmap o ≡ true))
    ⊎ ((o : ℕ) × Takes frames (alloc frames).0 o × ((alloc frames).1 ≡ address_of (16 + o)))
alloc-Takes_example = alloc-Takes frames frames-IsCovered

managed : IsManaged frames (frame_number 0x11000)
unfolding IsManaged frame_number
managed = (omega arith, omega arith)

third : (alloc frames).1 ≡ ok 0x12000
unfolding alloc find_free scan trailing_ones phys_new
third = refl

free_undoes_alloc_example :
    ((free (alloc frames).0 0x12000).1 ≡ ok tt)
    × ((p : ℕ) → used_at (free (alloc frames).0 0x12000).0.bitmap p ≡ used_at frames.bitmap p)
    × ((free (alloc frames).0 0x12000).0.used ≡ 63)
free_undoes_alloc_example = free_undoes_alloc frames 0x12000 frames-IsCovered (omega arith) third

-- Frames 16 to 23, of which 18, 20 and 21 are free.
abbrev eight : FrameAllocator
eight = record {
  bitmap = 0xffff_ffff_ffff_ffcb ∷ [];
  base_frame = 16;
  frame_count = 8;
  used = 5;
  next_hint = 0;
}

eight-IsCovered : IsCovered eight
eight-IsCovered = record { words = (omega arith, tt); covers = omega arith }

alloc_contiguous-Outcome_example :
    (r : FrameAllocator × Result FrameError ℕ) × (alloc_contiguous eight 2 2 ≡ some r)
    × Outcome eight 2 2 r
alloc_contiguous-Outcome_example =
    alloc_contiguous-Outcome eight 2 2 eight-IsCovered (omega arith) (omega arith)

above : 16 ≤ frame_number 0x16000
unfolding frame_number
above = omega arith

below : frame_number 0x16000 + 2 ≤ 16 + 8
unfolding frame_number
below = omega arith
