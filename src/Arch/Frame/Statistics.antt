-- ===== src/Arch/Frame/Statistics.antt =====
-- The statistics of the frame allocator: arch/frame.rs, lines 353 to 387.
use whisez_os.Prelude.{
  ℕ, zero, suc, ◌+◌, ◌-◌, ◌*◌, ◌/◌, ◌%◌, ◌≤◌, ◌<◌, ◌^◌, ◌≡◌, refl, ap, ◌∙◌, sym, subst, max, Bool,
  true, false, arith, ◌==◌, if◌then◌else◌, get_elem?-some, length, Bool-cases, inl, inr, dec_le,
  ℕ_discrete,
}
use whisez_os.Prelude.Bits.{has_bit, has_bit-bit}
use whisez_os.Prelude.Results.{Result, ok, ◌>>=◌, bind_ok, ok_injective}
use whisez_os.Arch.Frame.{FrameAllocator, FrameError, frames_per_word, word_at, free_frames}
use whisez_os.Arch.Frame.Bitmap.{used_at}
use whisez_os.Arch.Frame.Alloc.{IsCovered}

-- The loop over the offsets, with `n` of them to come. An index past the bitmap panics.
unfoldable pub free_run_loop : ℕ → FrameAllocator → ℕ → ℕ → ℕ → Result FrameError ℕ
free_run_loop zero a offset best current = ok best
free_run_loop (suc n) a offset best current = do
  w ← word_at a (offset / frames_per_word)
  elim (has_bit w (offset % frames_per_word)) [
    | true ↦ free_run_loop n a (offset + 1) best 0
    | false ↦ free_run_loop n a (offset + 1) (max best (current + 1)) (current + 1)
  ]

unfoldable pub largest_free_run : FrameAllocator → Result FrameError ℕ
unfolding free_run_loop
largest_free_run a = free_run_loop a.frame_count a 0 0 0

unfoldable pub fragmentation_percent : FrameAllocator → Result FrameError ℕ
unfolding largest_free_run free_frames
fragmentation_percent a =
    let free : ℕ = free_frames a in
    if free == 0
    then ok 0
    else largest_free_run a >>= λ largest. ok (((free - largest) * 100 / free) % 2 ^ 32)

-- A run of free frames from `start` on.
abbrev pub IsFreeRun : FrameAllocator → ℕ → ℕ → Type 0
IsFreeRun a start len = (i : ℕ) → start ≤ i → i < start + len → used_at a.bitmap i ≡ false

-- The longest run of free frames in range, and one of that length.
pub record IsLargest (a : FrameAllocator) (stop best : ℕ) : Type 0 where
  pub start : ℕ
  pub in_range : start + best ≤ stop
  pub attained : IsFreeRun a start best
  pub largest : (s len : ℕ) → s + len ≤ stop → IsFreeRun a s len → len ≤ best

-- Between two rounds: the run that ends here is the longest that does.
record Scanned (a : FrameAllocator) (offset best current : ℕ) : Type 0 where
  so_far : IsLargest a offset best
  fits : current ≤ offset
  ending : IsFreeRun a (offset - current) current
  longest : (s : ℕ) → s ≤ offset → IsFreeRun a s (offset - s) → offset - s ≤ current

word_at-used_at :
    (a : FrameAllocator) (o : ℕ) {w : ℕ}
    → word_at a (o / frames_per_word) ≡ ok w
    → has_bit w (o % frames_per_word) ≡ used_at a.bitmap o
word_at-used_at a o {w} e = ground (arith, has_bit-bit w (o % frames_per_word))

clash : {b : Bool} → b ≡ true → b ≡ false → ⊥
clash t f = cc

Scanned-used :
    (a : FrameAllocator) (offset best current : ℕ)
    → used_at a.bitmap offset ≡ true
    → Scanned a offset best current
    → Scanned a (offset + 1) best 0
Scanned-used a offset best current taken k = record {
  so_far = record {
    start = k.so_far.start;
    in_range = omega (arith, k.so_far.in_range);
    attained = k.so_far.attained;
    largest = λ s len h r. elim (dec_le (s + len) offset) [
      | yes before ↦ k.so_far.largest s len before r
      | no here ↦ elim (ℕ_discrete len 0) [
        | yes empty ↦ omega (arith, empty)
        | no some_frame ↦ absurd (clash taken (r offset (omega arith) (omega arith)))
      ]
    ];
  };
  fits = omega arith;
  ending = λ i l u. absurd (omega arith);
  longest = λ s h r. elim (dec_le s offset) [
    | yes before ↦ absurd (clash taken (r offset before (omega arith)))
    | no here ↦ omega arith
  ];
}

Scanned-free :
    (a : FrameAllocator) (offset best current : ℕ)
    → used_at a.bitmap offset ≡ false
    → Scanned a offset best current
    → Scanned a (offset + 1) (max best (current + 1)) (current + 1)
Scanned-free a offset best current free k = record {
  so_far = elim (dec_le (current + 1) best) [
    | yes shorter ↦ record {
      start = k.so_far.start;
      in_range = omega (arith, k.so_far.in_range);
      attained = λ i l u. k.so_far.attained i l (omega arith);
      largest = bound;
    }
    | no longer ↦ record {
      start = offset - current;
      in_range = omega (arith, k.fits);
      attained = λ i l u. run i l (omega arith);
      largest = bound;
    }
  ];
  fits = omega (arith, k.fits);
  ending = λ i l u. run i (omega arith) (omega (arith, k.fits));
  longest = λ s h r. elim (dec_le s offset) [
    | yes before ↦ omega (arith, k.longest s before (λ i l u. r i l (omega arith)))
    | no here ↦ omega arith
  ];
}
  where
    run : (i : ℕ) → offset - current ≤ i → i < offset + 1 → used_at a.bitmap i ≡ false
    run i l u = elim (ℕ_discrete i offset) [
      | yes here ↦ ap (used_at a.bitmap) here ∙ free
      | no before ↦ k.ending i l (omega (arith, k.fits))
    ]

    bound : (s len : ℕ) → s + len ≤ offset + 1 → IsFreeRun a s len → len ≤ max best (current + 1)
    bound s len h r = elim (dec_le (s + len) offset) [
      | yes before ↦ omega (arith, k.so_far.largest s len before r)
      | no here ↦ elim (ℕ_discrete len 0) [
        | yes empty ↦ omega (arith, empty)
        | no some_frame ↦ omega (arith, k.longest s (omega arith) (λ i l u. r i l (omega arith)))
      ]
    ]

free_run_loop-IsLargest :
    (n : ℕ) (a : FrameAllocator) (offset best current : ℕ) {r : ℕ}
    → Scanned a offset best current
    → free_run_loop n a offset best current ≡ ok r
    → IsLargest a (offset + n) r
unfolding free_run_loop
free_run_loop-IsLargest zero a offset best current {r} k e =
    subst (λ s. IsLargest a s r) (omega arith)
      (subst (IsLargest a offset) (ok_injective e) k.so_far)
free_run_loop-IsLargest (suc n) a offset best current {r} k e =
    bind_ok (word_at a (offset / frames_per_word)) _ e (λ w w_e e.
      let same = word_at-used_at a offset w_e in
      let branch : Bool → Result FrameError ℕ = λ b. elim b [
        | true ↦ free_run_loop n a (offset + 1) best 0
        | false ↦ free_run_loop n a (offset + 1) (max best (current + 1)) (current + 1)
      ] in
      subst (λ s. IsLargest a s r) (omega arith)
        (elim (Bool-cases (has_bit w (offset % frames_per_word))) [
          | inl used ↦
              free_run_loop-IsLargest n a (offset + 1) best 0
                (Scanned-used a offset best current (sym same ∙ used) k) (sym (ap branch used) ∙ e)
          | inr free ↦
              free_run_loop-IsLargest n a (offset + 1) (max best (current + 1)) (current + 1)
                (Scanned-free a offset best current (sym same ∙ free) k) (sym (ap branch free) ∙ e)
        ]))

start_of_scan : (a : FrameAllocator) → Scanned a 0 0 0
start_of_scan a = record {
  so_far = record {
    start = 0;
    in_range = omega arith;
    attained = λ i l u. absurd (omega arith);
    largest = λ s len h r. omega arith;
  };
  fits = omega arith;
  ending = λ i l u. absurd (omega arith);
  longest = λ s h r. omega arith;
}

word_at-total :
    (a : FrameAllocator) (o : ℕ)
    → o < length a.bitmap * 64
    → (w : ℕ) × (word_at a (o / frames_per_word) ≡ ok w)
word_at-total a o h =
    let (w, found) = get_elem?-some a.bitmap (o / frames_per_word) (omega arith) in
    (w, ground (arith, found))

free_run_loop-total :
    (n : ℕ) (a : FrameAllocator) (offset best current : ℕ)
    → offset + n ≤ length a.bitmap * 64
    → (r : ℕ) × (free_run_loop n a offset best current ≡ ok r)
unfolding free_run_loop
free_run_loop-total zero a offset best current h = (best, refl)
free_run_loop-total (suc n) a offset best current h =
    let (w, found) = word_at-total a offset (omega arith) in
    let branch : Bool → Result FrameError ℕ = λ b. elim b [
      | true ↦ free_run_loop n a (offset + 1) best 0
      | false ↦ free_run_loop n a (offset + 1) (max best (current + 1)) (current + 1)
    ] in
    let step =
      ap (λ (x : Result FrameError ℕ). x >>= λ v. branch (has_bit v (offset % frames_per_word)))
        found in
    elim (Bool-cases (has_bit w (offset % frames_per_word))) [
      | inl used ↦
          let (r, done) = free_run_loop-total n a (offset + 1) best 0 (omega arith) in
          (r, step ∙ ap branch used ∙ done)
      | inr free ↦
          let (r, done) =
            free_run_loop-total n a (offset + 1) (max best (current + 1)) (current + 1)
              (omega arith) in
          (r, step ∙ ap branch free ∙ done)
    ]

-- On an allocator whose bitmap covers its frames `largest_free_run` answers, and its answer is the length of
-- a run of free frames in range, and none is longer.
pub largest_free_run-IsLargest :
    (a : FrameAllocator)
    → IsCovered a
    → (r : ℕ) × (largest_free_run a ≡ ok r) × IsLargest a a.frame_count r
unfolding largest_free_run
largest_free_run-IsLargest a c =
    let (r, done) = free_run_loop-total a.frame_count a 0 0 0 (omega (arith, c.covers)) in
    (
      r,
      done,
      subst (λ s. IsLargest a s r) (omega arith)
          (free_run_loop-IsLargest a.frame_count a 0 0 0 (start_of_scan a) done),
    )
