-- ===== src/Arch/Frame/Contiguous/Frees.antt =====
-- `free_contiguous` looks at the whole run before it writes.
use whisez_os.Prelude.{
  ℕ, zero, suc, ◌+◌, ◌-◌, ◌/◌, ◌%◌, ◌≤◌, ◌<◌, ◌≡◌, ◌⊎◌, inl, inr, refl, ap, ◌∙◌, sym, subst, true,
  false, ◌&&◌, ltb, leb, if◌then◌else◌, arith, Bool-cases, set, length-set, ℕ_discrete,
}
use whisez_os.Prelude.Results.{ok, err}
use whisez_os.Prelude.Bits.{has_bit, has_bit-bit}
use whisez_os.Arch.Addr.{frame_number}
use whisez_os.Arch.Frame.{FrameAllocator, set_free, clear_bit, double_free, lower_hint}
use whisez_os.Arch.Frame.Bitmap.{
  used_at, AllWords-get, AllWords-set, clear_bit-lt, used_at-set, bit-clear_bit,
}
use whisez_os.Arch.Frame.Alloc.{IsCovered}
use whisez_os.Arch.Frame.Release.{IsManaged, index_of_managed, is_used_managed, word_of}
use whisez_os.Arch.Frame.Contiguous.{check_run, clear_run, free_run}
use whisez_os.Arch.Frame.Contiguous.FirstUsed.{frame_used}

-- `after` has the frames at the offsets from `low` on, as many as `n`, free, and the others as in `before`.
pub record Clears (before after : FrameAllocator) (low n : ℕ) : Type 0 where
  pub cleared :
      (q : ℕ)
      → used_at after.bitmap q
        ≡ (if leb low q && ltb q (low + n) then false else used_at before.bitmap q)
  pub same_base : after.base_frame ≡ before.base_frame
  pub same_count : after.frame_count ≡ before.frame_count
  pub covered : IsCovered after

set_free-Clears :
    (a : FrameAllocator) (frame : ℕ)
    → IsCovered a
    → IsManaged a frame
    → (a' : FrameAllocator) × (set_free a frame ≡ ok a') × Clears a a' (frame - a.base_frame) 1
unfolding set_free
set_free-Clears a frame c h =
    let o : ℕ = frame - a.base_frame in
    let (x, p) = word_of a frame c h in
    let y = clear_bit x (o % 64) in
    let y_lt = clear_bit-lt x (o % 64) (AllWords-get a.bitmap (o / 64) c.words p) in
    let is_free : has_bit x (o % 64) ≡ false → used_at a.bitmap o ≡ false =
      λ u. ground (arith, has_bit-bit x (o % 64)) in
    elim (Bool-cases (has_bit x (o % 64))) [
      | inr already ↦ (
        a,
        ground (arith, index_of_managed a frame h),
        record {
          cleared = λ q. elim (ℕ_discrete o q) [
            | yes same ↦ ground (arith, is_free already, ap (used_at a.bitmap) same)
            | no other ↦ ground arith
          ];
          same_base = refl;
          same_count = refl;
          covered = c;
        },
      )
      | inl in_use ↦ (
        record a { bitmap = set a.bitmap (o / 64) y; used = a.used - 1 },
        ground (arith, index_of_managed a frame h),
        record {
          cleared = λ q. ground (
            arith,
            used_at-set a.bitmap o q x y false p
                (λ i l. ground (arith, bit-clear_bit x (o % 64) i (omega arith) l)),
          );
          same_base = refl;
          same_count = refl;
          covered = record {
            words = AllWords-set a.bitmap (o / 64) y y_lt c.words;
            covers = omega (arith, c.covers, length-set a.bitmap (o / 64) y);
          };
        },
      )
    ]

clear_run-Clears :
    (n : ℕ) (a : FrameAllocator) (frame : ℕ)
    → IsCovered a
    → a.base_frame ≤ frame
    → frame + n ≤ a.base_frame + a.frame_count
    → ((clear_run n a frame).1 ≡ ok tt) × Clears a (clear_run n a frame).0 (frame - a.base_frame) n
unfolding clear_run IsManaged
clear_run-Clears zero a frame c low high =
    (refl, record { cleared = λ q. ground arith; same_base = refl; same_count = refl; covered = c })
clear_run-Clears (suc n) a frame c low high =
    let (a', e, m) = set_free-Clears a frame c (low, omega arith) in
    let (r, ms) =
      clear_run-Clears n a' (frame + 1) m.covered (omega (arith, m.same_base))
        (omega (arith, m.same_base, m.same_count)) in
    let step : clear_run (suc n) a frame ≡ clear_run n a' (frame + 1) = ground (arith, e) in
    subst (λ t. (t.1 ≡ ok tt) × Clears a t.0 (frame - a.base_frame) (suc n)) (sym step)
      (
        r,
        record {
          cleared = λ q. ground (arith, m.cleared q, ms.cleared q, m.same_base);
          same_base = ms.same_base ∙ m.same_base;
          same_count = ms.same_count ∙ m.same_count;
          covered = ms.covered;
        },
      )

lower_hint-Clears :
    (before after : FrameAllocator) (low n o : ℕ)
    → Clears before after low n
    → Clears before (lower_hint after o) low n
lower_hint-Clears before after low n o m = elim (Bool-cases (ltb o after.next_hint)) [
  | inl lower ↦
      subst (λ t. Clears before t low n) (sym (lowered lower))
        (record {
          cleared = m.cleared;
          same_base = m.same_base;
          same_count = m.same_count;
          covered = record { words = m.covered.words; covers = m.covered.covers };
        })
  | inr kept ↦ subst (λ t. Clears before t low n) (sym (left kept)) m
]
  where
    lowered : ltb o after.next_hint ≡ true → lower_hint after o ≡ record after { next_hint = o }
    lowered e = ground (arith, e)

    left : ltb o after.next_hint ≡ false → lower_hint after o ≡ after
    left e = ground (arith, e)

-- What the first pass answers.
Checked : FrameAllocator → ℕ → ℕ → Type 0
Checked a frame n =
    ((f : ℕ) × (frame ≤ f)
      × (f < frame + n)
      × (frame_used a f ≡ false)
      × (check_run n a frame ≡ err (double_free f)))
    ⊎ (((f : ℕ) → frame ≤ f → f < frame + n → frame_used a f ≡ true)
        × (check_run n a frame ≡ ok tt))

check_run-Checked :
    (n : ℕ) (a : FrameAllocator) (frame : ℕ)
    → IsCovered a
    → a.base_frame ≤ frame
    → frame + n ≤ a.base_frame + a.frame_count
    → Checked a frame n
unfolding check_run IsManaged Checked
check_run-Checked zero a frame c low high = inr (λ f l u. absurd (omega arith), refl)
check_run-Checked (suc n) a frame c low high =
    let reads = is_used_managed a frame c (low, omega arith) in
    elim (Bool-cases (frame_used a frame)) [
      | inr f ↦ inl (frame, omega arith, omega arith, f, ground (arith, reads))
      | inl u ↦ elim (check_run-Checked n a (frame + 1) c (omega arith) (omega arith)) [
        | inl (f, l, h, is_free, e) ↦
            inl (f, omega arith, omega arith, is_free, ground (arith, reads))
        | inr (all, e) ↦ inr (
          λ f l h. elim (ℕ_discrete frame f) [
            | yes same ↦ ap (frame_used a) (sym same) ∙ u
            | no other ↦ all f (omega arith) (omega arith)
          ],
          ground (arith, reads),
        )
      ]
    ]

-- On an allocator whose bitmap covers its frames, for a run within its range, `free_run`, that is `free_contiguous`
-- where the sum does not panic, either
-- answers `double_free` with a frame of the run that is free, and changes nothing; or every frame of
-- the run is in use, and it answers ok and frees exactly these.
pub free_run-Clears :
    (a : FrameAllocator) (addr count : ℕ)
    → IsCovered a
    → a.base_frame ≤ frame_number addr
    → frame_number addr + count ≤ a.base_frame + a.frame_count
    → ((f : ℕ) × (frame_number addr ≤ f)
        × (f < frame_number addr + count)
        × (frame_used a f ≡ false)
        × (free_run a addr count ≡ (a, err (double_free f))))
      ⊎ (((f : ℕ) → frame_number addr ≤ f → f < frame_number addr + count → frame_used a f ≡ true)
          × ((free_run a addr count).1 ≡ ok tt)
          × Clears a (free_run a addr count).0 (frame_number addr - a.base_frame) count)
unfolding free_run Checked
free_run-Clears a addr count c low high =
    elim (check_run-Checked count a (frame_number addr) c low high) [
      | inl (f, l, h, is_free, e) ↦ inl (f, l, h, is_free, ground (arith, e))
      | inr (all, e) ↦
          let (r, m) = clear_run-Clears count a (frame_number addr) c low high in
          inr (
            all,
            ground (arith, e, r),
            subst (λ t. Clears a t (frame_number addr - a.base_frame) count) (sym (ends e r))
                (lower_hint-Clears a (clear_run count a (frame_number addr)).0
                  (frame_number addr - a.base_frame) count _ m),
          )
    ]
  where
    ends :
        check_run count a (frame_number addr) ≡ ok tt
        → (clear_run count a (frame_number addr)).1 ≡ ok tt
        → (free_run a addr count).0
          ≡ lower_hint
              (clear_run count a (frame_number addr)).0
              (frame_number addr - (clear_run count a (frame_number addr)).0.base_frame)
    ends e r = ground (arith, e, r)
