-- ===== src/Arch/Frame/Contiguous/Runs.antt =====
-- `alloc_contiguous`: the run that it takes, and what it means that it finds none.
use whisez_os.Prelude.{
  ℕ, zero, suc, ◌+◌, ◌-◌, ◌*◌, ◌/◌, ◌%◌, ◌^◌, ◌≤◌, ◌<◌, ◌≡◌, ◌⊎◌, inl, inr, refl, ap, ◌∙◌, sym,
  subst, true, false, ◌&&◌, Option, none, some, ltb, leb, if◌then◌else◌, max, arith, Bool-cases,
  set, length-set, dec_le, dec_lt, ℕ_discrete,
}
use whisez_os.Prelude.Results.{Result, ok, err}
use whisez_os.Prelude.Bits.{has_bit, has_bit-bit}
use native.Mathlib.Nat.{lt-div-mul-add, div-lt_iff_lt-mul}
use whisez_os.Arch.Frame.{FrameAllocator, FrameError, set_used, set_bit, fragmented, address_of}
use whisez_os.Arch.Frame.Bitmap.{
  used_at, AllWords-get, AllWords-set, set_bit-lt, used_at-set, bit-set_bit,
}
use whisez_os.Arch.Frame.Alloc.{IsCovered}
use whisez_os.Arch.Frame.Release.{IsManaged, index_of_managed, word_of}
use whisez_os.Arch.Frame.Contiguous.{
  next_multiple_of, mark_run, run_loop, alloc_contiguous, first_used_in,
}
use whisez_os.Arch.Frame.Contiguous.FirstUsed.{IsFirst, frame_used, first_used_in-IsFirst}

-- `after` has the frames at the offsets from `low` on, as many as `n`, in use, and the others as in `before`.
pub record Marks (before after : FrameAllocator) (low n : ℕ) : Type 0 where
  pub marked :
      (q : ℕ)
      → used_at after.bitmap q
        ≡ (if leb low q && ltb q (low + n) then true else used_at before.bitmap q)
  pub same_base : after.base_frame ≡ before.base_frame
  pub same_count : after.frame_count ≡ before.frame_count
  pub covered : IsCovered after

set_used-Marks :
    (a : FrameAllocator) (frame : ℕ)
    → IsCovered a
    → IsManaged a frame
    → (a' : FrameAllocator) × (set_used a frame ≡ ok a') × Marks a a' (frame - a.base_frame) 1
unfolding set_used
set_used-Marks a frame c h =
    let o : ℕ = frame - a.base_frame in
    let (x, p) = word_of a frame c h in
    let y = set_bit x (o % 64) in
    let y_lt = set_bit-lt x (o % 64) (AllWords-get a.bitmap (o / 64) c.words p) (omega arith) in
    let in_use : has_bit x (o % 64) ≡ true → used_at a.bitmap o ≡ true =
      λ u. ground (arith, has_bit-bit x (o % 64)) in
    elim (Bool-cases (has_bit x (o % 64))) [
      | inl already ↦ (
        a,
        ground (arith, index_of_managed a frame h),
        record {
          marked = λ q. elim (ℕ_discrete o q) [
            | yes same ↦ ground (arith, in_use already, ap (used_at a.bitmap) same)
            | no other ↦ ground arith
          ];
          same_base = refl;
          same_count = refl;
          covered = c;
        },
      )
      | inr fresh ↦ (
        record a { bitmap = set a.bitmap (o / 64) y; used = a.used + 1 },
        ground (arith, index_of_managed a frame h),
        record {
          marked = λ q. ground (
            arith,
            used_at-set a.bitmap o q x y true p (λ i l. ground (arith, bit-set_bit x (o % 64) i)),
          );
          same_base = refl;
          same_count = refl;
          covered = record {
            words = AllWords-set a.bitmap (o / 64) y y_lt c.words;
            covers = omega (arith, c.covers, length-set a.bitmap (o / 64) y);
          };
        },
      )
    ]

mark_run-Marks :
    (n : ℕ) (a : FrameAllocator) (frame : ℕ)
    → IsCovered a
    → a.base_frame ≤ frame
    → frame + n ≤ a.base_frame + a.frame_count
    → ((mark_run n a frame).1 ≡ ok tt) × Marks a (mark_run n a frame).0 (frame - a.base_frame) n
unfolding mark_run IsManaged
mark_run-Marks zero a frame c low high =
    (refl, record { marked = λ q. ground arith; same_base = refl; same_count = refl; covered = c })
mark_run-Marks (suc n) a frame c low high =
    let (a', e, m) = set_used-Marks a frame c (low, omega arith) in
    let (r, ms) =
      mark_run-Marks n a' (frame + 1) m.covered (omega (arith, m.same_base))
        (omega (arith, m.same_base, m.same_count)) in
    let step : mark_run (suc n) a frame ≡ mark_run n a' (frame + 1) = ground (arith, e) in
    subst (λ t. (t.1 ≡ ok tt) × Marks a t.0 (frame - a.base_frame) (suc n)) (sym step)
      (
        r,
        record {
          marked = λ q. ground (arith, m.marked q, ms.marked q, m.same_base);
          same_base = ms.same_base ∙ m.same_base;
          same_count = ms.same_count ∙ m.same_count;
          covered = ms.covered;
        },
      )

abbrev pub IsMultiple : ℕ → ℕ → Type 0
IsMultiple align c = (k : ℕ) × (c ≡ k * align)

next_multiple_of-ge : (x align : ℕ) → 0 < align → x ≤ next_multiple_of x align
next_multiple_of-ge x align h = omega (arith, lt-div-mul-add {a = x + (align - 1)} {b = align} h)

next_multiple_of-lt : (x align : ℕ) → 0 < align → next_multiple_of x align < x + align
next_multiple_of-lt x align h = grind arith

next_multiple_of-le :
    (x align k : ℕ) → 0 < align → x ≤ k * align → next_multiple_of x align ≤ k * align
next_multiple_of-le x align k h l =
    let up : x + (align - 1) < suc k * align = grind arith in
    let below : (x + (align - 1)) / align < suc k =
      (div-lt_iff_lt-mul {k = align} {x = x + (align - 1)} {y = suc k} h).1 up in
    grind arith

-- Some frame of the run is in use.
abbrev pub IsBlocked : FrameAllocator → ℕ → ℕ → Type 0
IsBlocked a c count = (f : ℕ) × (c ≤ f) × (f < c + count) × (frame_used a f ≡ true)

-- No aligned candidate in range is free.
abbrev pub NoRun : FrameAllocator → ℕ → ℕ → Type 0
NoRun a count align =
    (c : ℕ)
    → IsMultiple align c
    → a.base_frame ≤ c
    → c + count ≤ a.base_frame + a.frame_count
    → IsBlocked a c count

-- An aligned run in range that was free, and now is in use.
pub record TakesRun (a after : FrameAllocator) (count align c : ℕ) : Type 0 where
  pub aligned : IsMultiple align c
  pub above : a.base_frame ≤ c
  pub below : c + count ≤ a.base_frame + a.frame_count
  pub was_free : (f : ℕ) → c ≤ f → f < c + count → frame_used a f ≡ false
  pub marks : Marks a after (c - a.base_frame) count

abbrev pub Outcome : FrameAllocator → ℕ → ℕ → FrameAllocator × Result FrameError ℕ → Type 0
Outcome a count align (after, r) =
    ((best : ℕ) × (r ≡ err (fragmented count best)) × (after ≡ a) × NoRun a count align)
    ⊎ ((c : ℕ) × (r ≡ address_of c) × TakesRun a after count align c)

run_loop_lem :
    (fuel : ℕ) (a : FrameAllocator) (count align best candidate : ℕ)
    → IsCovered a
    → 0 < count
    → 0 < align
    → a.base_frame ≤ candidate
    → IsMultiple align candidate
    → a.base_frame + a.frame_count < candidate + fuel
    → 0 < fuel
    → candidate ≤ a.base_frame + a.frame_count + align
    → a.base_frame + a.frame_count + align + count + 64 ≤ 2 ^ 64
    → ((c : ℕ) → IsMultiple align c → a.base_frame ≤ c → c < candidate → IsBlocked a c count)
    → (r : FrameAllocator × Result FrameError ℕ) × (run_loop fuel a count align best candidate
        ≡ some r)
      × Outcome a count align r
unfolding run_loop
run_loop_lem zero a count align best candidate c some_count h low m enough some_fuel near small
      earlier =
    absurd (omega arith)
run_loop_lem (suc fuel) a count align best candidate c some_count h low m enough some_fuel near
      small earlier =
    elim (dec_le (candidate + count) (a.base_frame + a.frame_count)) [
      | no past ↦ (
        (a, err (fragmented count best)),
        ground arith,
        inl (best, refl, refl, λ d md above below. earlier d md above (omega arith)),
      )
      | yes fits ↦
          let (found, e, first) =
            first_used_in-IsFirst a candidate count c low fits (omega arith) in
          go (λ b next. run_loop_lem fuel a count align b next c some_count h) fits found e first
    ]
  where
    go :
        ((b next : ℕ)
          → a.base_frame ≤ next
          → IsMultiple align next
          → a.base_frame + a.frame_count < next + fuel
          → 0 < fuel
          → next ≤ a.base_frame + a.frame_count + align
          → a.base_frame + a.frame_count + align + count + 64 ≤ 2 ^ 64
          → ((d : ℕ) → IsMultiple align d → a.base_frame ≤ d → d < next → IsBlocked a d count)
          → (r : FrameAllocator × Result FrameError ℕ) × (run_loop fuel a count align b next
              ≡ some r)
            × Outcome a count align r)
        → candidate + count ≤ a.base_frame + a.frame_count
        → (found : Option ℕ) → first_used_in a candidate count ≡ some (ok found)
        → IsFirst (frame_used a) candidate (candidate + count) found
        → (r : FrameAllocator × Result FrameError ℕ) × (run_loop
              (suc fuel)
              a
              count
              align
              best
              candidate
            ≡ some r)
          × Outcome a count align r
    go later fits none e clear =
        let (ok_run, marks) = mark_run-Marks count a candidate c low fits in
        (
          ((mark_run count a candidate).0, address_of candidate),
          ground (arith, e, ok_run),
          inr (
            candidate,
            refl,
            record { aligned = m; above = low; below = fits; was_free = clear; marks = marks },
          ),
        )
    go later fits (some blocker) e first =
        let next : ℕ = next_multiple_of (blocker + 1) align in
        let grows = next_multiple_of-ge (blocker + 1) align h in
        let near_next : next ≤ a.base_frame + a.frame_count + align =
          omega (arith, next_multiple_of-lt (blocker + 1) align h, first.1) in
        let blocked : (d : ℕ)
            → IsMultiple align d
            → a.base_frame ≤ d
            → d < next
            → IsBlocked a d count =
          λ d (k, at) above before. elim (dec_lt d candidate) [
            | yes seen ↦ earlier d (k, at) above seen
            | no new ↦ elim (dec_le d blocker) [
              | yes inside ↦ (blocker, inside, omega (arith, first.1), first.2)
              | no beyond ↦
                  absurd (omega (arith, next_multiple_of-le (blocker + 1) align k h (omega arith)))
            ]
          ] in
        let (r, runs, out) =
          later (max best (blocker - candidate)) next (omega (arith, first.0))
            ((blocker + 1 + (align - 1)) / align, refl) (omega (arith, first.0)) (omega arith)
            near_next small blocked in
        (r, ground (arith, e, runs), out)

-- On an allocator whose bitmap covers its frames, for a count above 0, where the end of its frames, the
-- count and the alignment sum to no more than 2 ^ 64 - 64, `alloc_contiguous` ends and does not panic. It
-- answers `fragmented`, changes nothing, and every aligned run of the count in range has a frame in use; or
-- it takes an aligned run in range all of whose frames were free, puts exactly these in use, and answers
-- with its address.
pub alloc_contiguous-Outcome :
    (a : FrameAllocator) (count align_frames : ℕ)
    → IsCovered a
    → 0 < count
    → a.base_frame + a.frame_count + max align_frames 1 + count + 64 ≤ 2 ^ 64
    → (r : FrameAllocator × Result FrameError ℕ) × (alloc_contiguous a count align_frames ≡ some r)
      × Outcome a count (max align_frames 1) r
unfolding alloc_contiguous
alloc_contiguous-Outcome a count align_frames c h small =
    let align : ℕ = max align_frames 1 in
    let first : ℕ = next_multiple_of a.base_frame align in
    let grows = next_multiple_of-ge a.base_frame align (omega arith) in
    let near = next_multiple_of-lt a.base_frame align (omega arith) in
    let (r, runs, out) =
      run_loop_lem (suc a.frame_count) a count align 0 first c h (omega arith) grows
        ((a.base_frame + (align - 1)) / align, refl) (omega arith) (omega arith) (omega arith) small
        (λ d (k, at) above before.
          absurd (
            omega (arith, next_multiple_of-le a.base_frame align k (omega arith) (omega arith)))) in
    (r, ground (arith, runs), out)

-- A count so large that the end of the first candidate passes 2 ^ 64 is not answered: the kernel panics.
pub alloc_contiguous-panics :
    (a : FrameAllocator) (count align_frames : ℕ)
    → 0 < count
    → 2 ^ 64 ≤ next_multiple_of a.base_frame (max align_frames 1) + count
    → alloc_contiguous a count align_frames ≡ none
unfolding alloc_contiguous run_loop
alloc_contiguous-panics a count align_frames h large = ground arith
