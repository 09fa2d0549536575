-- ===== src/Arch/Frame/Contiguous/FirstUsed.antt =====
-- `first_used_in` looks at words, and finds what a look at each frame would.
use whisez_os.Prelude.{
  ℕ, zero, suc, ◌+◌, ◌-◌, ◌/◌, ◌%◌, ◌^◌, ◌≤◌, ◌<◌, ◌≡◌, ◌⊎◌, inl, inr, refl, ap, ◌∙◌, sym, bit_and,
  Bool, true, false, ◌&&◌, Option, none, some, ◌==◌, ltb, leb, min, arith, subst, Bool-cases,
  get_elem?, dec_le, dec_lt,
}
use whisez_os.Prelude.Results.{ok}
use whisez_os.Prelude.Bits.{bit, bit-bit_and, bit_and-le, bit_zero}
use whisez_os.Arch.Frame.{FrameAllocator, word_at}
use whisez_os.Arch.Frame.Bitmap.{used_at, AllWords-get}
use whisez_os.Arch.Frame.Alloc.{IsCovered}
use whisez_os.Arch.Frame.Release.{IsManaged, index_of_managed, word_of}
use whisez_os.Arch.Frame.Contiguous.Masks.{trailing_zeros-clear, trailing_zeros-set, bit-mask}
use whisez_os.Arch.Frame.Contiguous.{
  trailing_zeros, mask, Look, found, go_on, look, first_used_loop, first_used_in,
}

-- The answer is the first of the numbers from `low` to below `high` that passes the test.
abbrev pub IsFirst : (ℕ → Bool) → ℕ → ℕ → Option ℕ → Type 0
IsFirst test low high none = (f : ℕ) → low ≤ f → f < high → test f ≡ false
IsFirst test low high (some g) =
    (low ≤ g) × (g < high) × (test g ≡ true) × ((f : ℕ) → low ≤ f → f < g → test f ≡ false)

IsFirst-skip :
    (test : ℕ → Bool) (low mid high : ℕ) (r : Option ℕ)
    → low ≤ mid
    → ((f : ℕ) → low ≤ f → f < mid → f < high → test f ≡ false)
    → IsFirst test mid high r
    → IsFirst test low high r
IsFirst-skip test low mid high none h clear i =
    λ f l u. elim (dec_le mid f) [ yes above ↦ i f above u | no below ↦ clear f l (omega arith) u ]
IsFirst-skip test low mid high (some g) h clear i = (
  omega (arith, i.0),
  i.1,
  i.2,
  λ f l u. elim (dec_le mid f) [
    | yes above ↦ i.3 f above u
    | no below ↦ clear f l (omega arith) (omega (arith, i.1))
  ],
)

-- One round, on the word where the frame stands: what it passes over is free, and what it finds is the
-- first frame in use.
LookSound : (ℕ → Bool) → ℕ → ℕ → Look → Type 0
LookSound test frame end (found f) =
    (frame ≤ f) × (f < end) × (test f ≡ true) × ((g : ℕ) → frame ≤ g → g < f → test g ≡ false)
LookSound test frame end (go_on f) =
    (frame < f) × (f < end + 64) × ((g : ℕ) → frame ≤ g → g < f → g < end → test g ≡ false)

look-LookSound :
    (test : ℕ → Bool) (w frame b end : ℕ)
    → w < 2 ^ 64
    → b < 64
    → b ≤ frame
    → frame < end
    → ((d : ℕ) → b + d < 64 → test (frame + d) ≡ bit w (b + d))
    → LookSound test frame end (look w frame b end)
unfolding look LookSound
look-LookSound test w frame b end small h k l same =
    let remaining : ℕ = min (end - frame) (64 - b) in
    let masked : ℕ = bit_and w (mask remaining b) in
    let bits : (i : ℕ) → i < 64 → bit masked i ≡ (bit w i && (leb b i && ltb i (b + remaining))) =
      λ i u.
        bit-bit_and w (mask remaining b) i
        ∙ ap (λ t. bit w i && t) (bit-mask remaining b i h (omega arith) u) in
    let at : (g : ℕ) → frame ≤ g → g < frame + (64 - b) → test g ≡ bit w (b + (g - frame)) =
      λ g lo hi. ap test (back g lo) ∙ same (g - frame) (omega arith) in
    elim (Bool-cases (w == 0)) as (λ _. LookSound test frame end (look w frame b end)) [
      | inl z ↦
          let ends : look w frame b end ≡ go_on (frame + (64 - b)) = ground arith in
          subst (LookSound test frame end) (sym ends) (
            omega arith,
            omega arith,
            λ g lo hi e. ground (arith, at g lo hi, bit_zero (b + (g - frame))),
          )
      | inr nz ↦
          elim (Bool-cases (masked == 0)) as (λ _. LookSound test frame end (look w frame b end)) [
            | inl mz ↦
                let ends : look w frame b end ≡ go_on (frame + remaining) = ground arith in
                subst (LookSound test frame end) (sym ends) (
                  omega arith,
                  omega arith,
                  λ g lo hi e. ground (
                    arith,
                    at g lo (omega arith),
                    bits (b + (g - frame)) (omega arith),
                    bit_zero (b + (g - frame)),
                  ),
                )
            | inr some_bit ↦
                let t : ℕ = trailing_zeros 64 masked in
                let ends : look w frame b end ≡ found (frame - b + t) = ground arith in
                let (lt, hit) =
                  trailing_zeros-set 64 masked
                    (omega (arith, bit_and-le 64 w (mask remaining b) small)) (λ e. ground arith) in
                let inside : (bit w t ≡ true) × (b ≤ t) × (t < b + remaining) =
                  ground (arith, bits t lt) in
                let place : b + (frame - b + t - frame) ≡ t = omega arith in
                subst (LookSound test frame end) (sym ends) (
                  omega arith,
                  omega arith,
                  at (frame - b + t) (omega arith) (omega arith) ∙ ap (bit w) place ∙ inside.0,
                  λ g lo hi. ground (
                    arith,
                    at g lo (omega arith),
                    bits (b + (g - frame)) (omega arith),
                    trailing_zeros-clear 64 masked (b + (g - frame)) (omega arith),
                  ),
                )
          ]
    ]
  where
    back : (g : ℕ) → frame ≤ g → g ≡ frame + (g - frame)
    back g lo = omega arith

-- Whether a frame of an allocator is in use.
abbrev pub frame_used : FrameAllocator → ℕ → Bool
frame_used a frame = used_at a.bitmap (frame - a.base_frame)

Look-cases : (l : Look) → ((f : ℕ) × (l ≡ found f)) ⊎ ((f : ℕ) × (l ≡ go_on f))
Look-cases (found f) = inl (f, refl)
Look-cases (go_on f) = inr (f, refl)

look_at :
    (a : FrameAllocator) (frame end w : ℕ)
    → IsCovered a
    → a.base_frame ≤ frame
    → frame < end
    → get_elem? a.bitmap ((frame - a.base_frame) / 64) ≡ some w
    → LookSound (frame_used a) frame end (look w frame ((frame - a.base_frame) % 64) end)
look_at a frame end w c low inside p =
    look-LookSound (frame_used a) w frame ((frame - a.base_frame) % 64) end
      (AllWords-get a.bitmap ((frame - a.base_frame) / 64) c.words p) (omega arith) (omega arith)
      inside
      (λ d h. ground (arith, ap (get_elem? a.bitmap) (same_word d h), ap (bit w) (place d h)))
  where
    same_word :
        (d : ℕ)
        → (frame - a.base_frame) % 64 + d < 64
        → (frame + d - a.base_frame) / 64 ≡ (frame - a.base_frame) / 64
    same_word d h = omega arith

    place :
        (d : ℕ)
        → (frame - a.base_frame) % 64 + d < 64
        → (frame + d - a.base_frame) % 64 ≡ (frame - a.base_frame) % 64 + d
    place d h = omega arith

first_used_loop_lem :
    (fuel : ℕ) (a : FrameAllocator) (frame end : ℕ)
    → IsCovered a
    → a.base_frame ≤ frame
    → end ≤ a.base_frame + a.frame_count
    → end < frame + fuel
    → 0 < fuel
    → end + 64 ≤ 2 ^ 64
    → (r : Option ℕ) × (first_used_loop fuel a frame end ≡ some (ok r))
      × IsFirst (frame_used a) frame end r
unfolding first_used_loop IsManaged LookSound
first_used_loop_lem zero a frame end c low high enough some_fuel small = absurd (omega arith)
first_used_loop_lem (suc fuel) a frame end c low high enough some_fuel small =
    elim (dec_lt frame end) [
      | no done ↦ (none, ground arith, λ f l u. absurd (omega arith))
      | yes inside ↦
          let o : ℕ = frame - a.base_frame in
          let managed : IsManaged a frame = (low, omega arith) in
          let (w, p) = word_of a frame c managed in
          let reads : word_at a (o / 64) ≡ ok w = ground arith in
          let sound = look_at a frame end w c low inside p in
          elim (Look-cases (look w frame (o % 64) end)) [
            | inl (f, e) ↦
                let hit : LookSound (frame_used a) frame end (found f) =
                  subst (LookSound (frame_used a) frame end) e sound in
                (some f, ground (arith, index_of_managed a frame managed, reads), hit)
            | inr (f, e) ↦
                let passed : LookSound (frame_used a) frame end (go_on f) =
                  subst (LookSound (frame_used a) frame end) e sound in
                let (r, runs, first) =
                  first_used_loop_lem fuel a f end c (omega arith) high (omega arith) (omega arith)
                    small in
                (
                  r,
                  ground (arith, index_of_managed a frame managed, reads, runs),
                  IsFirst-skip (frame_used a) frame f end r (omega arith) passed.2 first,
                )
          ]
    ]

-- On an allocator whose bitmap covers its frames, for a run within its range that ends 64 frames or more
-- below 2 ^ 64, `first_used_in` ends and
-- answers the first frame of the run that is in use, or none if all of them are free.
pub first_used_in-IsFirst :
    (a : FrameAllocator) (start count : ℕ)
    → IsCovered a
    → a.base_frame ≤ start
    → start + count ≤ a.base_frame + a.frame_count
    → start + count + 64 ≤ 2 ^ 64
    → (r : Option ℕ) × (first_used_in a start count ≡ some (ok r))
      × IsFirst (frame_used a) start (start + count) r
unfolding first_used_in
first_used_in-IsFirst a start count c low high small =
    let (r, runs, first) =
      first_used_loop_lem (suc count) a start (start + count) c low high (omega arith) (omega arith)
        small in
    (r, ground (arith, runs), first)
