-- ===== src/Arch/Frame/Alloc.antt =====
-- `alloc`: the search by words finds a free frame exactly when there is one, and takes that frame alone.
use whisez_os.Prelude.{
  ℕ, zero, suc, ◌+◌, ◌-◌, ◌*◌, ◌/◌, ◌%◌, ◌^◌, ◌≤◌, ◌<◌, ◌≡◌, ◌≢◌, ◌⊎◌, refl, ap, ◌∙◌, sym, true,
  false, none, some, List, arith, ◌==◌, if◌then◌else◌, Bool-cases, Option-cases, inl, inr, length,
  get_elem?, set, min, length-set, subst, get_elem?-none_above, ℕ_discrete, dec_le,
}
use whisez_os.Prelude.Bits.{bit, bit_compl, bit_zero}
use native.Mathlib.Nat.{pow-suc}
use whisez_os.Arch.Frame.{
  full_word, set_bit, trailing_ones, FrameAllocator, scan, find_free, alloc, address_of,
  out_of_memory,
}
use whisez_os.Prelude.Results.{err}
use whisez_os.Arch.Frame.Bitmap.{
  used_at, AllWords, AllWords-get, AllWords-set, set_bit-lt, used_at-set, bit-set_bit,
}

trailing_ones-le : (n w : ℕ) → trailing_ones n w ≤ n
unfolding trailing_ones
trailing_ones-le zero w = omega arith
trailing_ones-le (suc n) w = ground (arith, trailing_ones-le n (w / 2))

trailing_ones-set : (n w i : ℕ) → i < trailing_ones n w → bit w i ≡ true
unfolding trailing_ones bit
trailing_ones-set zero w i h = absurd (omega arith)
trailing_ones-set (suc n) w zero h = ground arith
trailing_ones-set (suc n) w (suc i) h = trailing_ones-set n (w / 2) i (ground arith)

trailing_ones_odd :
    (n w : ℕ) → (w % 2 == 1) ≡ true → trailing_ones (suc n) w ≡ suc (trailing_ones n (w / 2))
unfolding trailing_ones
trailing_ones_odd n w h = ground arith

trailing_ones_even : (n w : ℕ) → (w % 2 == 1) ≡ false → trailing_ones (suc n) w ≡ 0
unfolding trailing_ones
trailing_ones_even n w h = ground arith

trailing_ones-clear : (n w : ℕ) → trailing_ones n w < n → bit w (trailing_ones n w) ≡ false
unfolding bit
trailing_ones-clear zero w h = absurd (omega arith)
trailing_ones-clear (suc n) w h =
    elim (Bool-cases (w % 2 == 1)) as (λ _. bit w (trailing_ones (suc n) w) ≡ false) [
      | inl odd ↦
          ap (bit w) (trailing_ones_odd n w odd)
          ∙ trailing_ones-clear n (w / 2) (omega (arith, trailing_ones_odd n w odd))
      | inr even ↦ ap (bit w) (trailing_ones_even n w even) ∙ even
    ]

trailing_ones-full : (n w : ℕ) → w < 2 ^ n → trailing_ones n w ≡ n → w ≡ 2 ^ n - 1
unfolding trailing_ones
trailing_ones-full zero w h e = omega arith
trailing_ones-full (suc n) w h e =
    ground (arith, pow-suc 2 n, trailing_ones-full n (w / 2) (omega (arith, pow-suc 2 n)))

trailing_ones-lt : (w : ℕ) → w < 2 ^ 64 → w ≢ full_word → trailing_ones 64 w < 64
trailing_ones-lt w h ne = ground (arith, trailing_ones-le 64 w, trailing_ones-full 64 w h)

pub full_word-bit : (i : ℕ) → i < 64 → bit full_word i ≡ true
full_word-bit i h = ground (arith, bit_compl 64 0 i (omega arith) h, bit_zero i)

-- What the search returns is a free frame in range.
scan_hit :
    (ws : List ℕ) (count n w o : ℕ)
    → AllWords ws
    → scan ws count n w ≡ some o
    → (o < count) × (used_at ws o ≡ false)
unfolding scan
scan_hit ws count zero w o a e = cc
scan_hit ws count (suc n) w o a e = elim (Option-cases (get_elem? ws w)) [
  | inl p ↦ absurd (ground arith)
  | inr (x, p) ↦ elim (Bool-cases (x == full_word)) [
    | inl q ↦ scan_hit ws count n (w + 1) o a (ground arith)
    | inr q ↦
        let lt = trailing_ones-lt x (AllWords-get ws w a p) (ground arith) in
        let t = trailing_ones 64 x in
        let at : o ≡ w * 64 + t = ground arith in
        let word : o / 64 ≡ w = omega arith in
        let place : o % 64 ≡ t = omega arith in
        (
          ground arith,
          ground (arith, ap (get_elem? ws) word, ap (bit x) place, trailing_ones-clear 64 x lt),
        )
  ]
]

-- Where it finds none, every frame of the words that it was to look at is in use.
scan_miss :
    (ws : List ℕ) (count n w o : ℕ)
    → AllWords ws
    → scan ws count n w ≡ none
    → w * 64 ≤ o
    → o < (w + n) * 64
    → o < count
    → used_at ws o ≡ true
unfolding scan
scan_miss ws count zero w o a e low high lt = absurd (omega arith)
scan_miss ws count (suc n) w o a e low high lt = elim (Option-cases (get_elem? ws w)) [
  | inl p ↦ elim (ℕ_discrete (o / 64) w) [
    | yes same ↦ ground (arith, ap (get_elem? ws) same)
    | no differs ↦ ground (arith, get_elem?-none_above ws w (o / 64) p (omega arith))
  ]
  | inr (x, p) ↦ elim (ℕ_discrete (o / 64) w) [
    | yes same ↦ elim (Bool-cases (x == full_word)) [
      | inl q ↦ ground (arith, ap (get_elem? ws) same, full_word-bit (o % 64) (omega arith))
      | inr q ↦
          ground (arith, ap (get_elem? ws) same, trailing_ones-set 64 x (o % 64) (ground arith))
    ]
    | no differs ↦ elim (Bool-cases (x == full_word)) [
      | inl q ↦ scan_miss ws count n (w + 1) o a (ground arith) (omega arith) (omega arith) lt
      | inr q ↦
          absurd (ground (arith, trailing_ones-le 64 x, trailing_ones-lt x (AllWords-get ws w a p)))
    ]
  ]
]

-- The bitmap has a word for each frame in range, and the hint stands where `alloc` or `free` left it.
pub record IsCovered (a : FrameAllocator) : Type 0 where
  pub words : AllWords a.bitmap
  pub covers : a.frame_count ≤ length a.bitmap * 64

pub find_free-hit :
    (a : FrameAllocator) (o : ℕ)
    → IsCovered a
    → find_free a ≡ some o
    → (o < a.frame_count) × (used_at a.bitmap o ≡ false)
unfolding find_free
find_free-hit a o c e =
    let start = a.next_hint / 64 in
    let words = length a.bitmap in
    elim (Option-cases (scan a.bitmap a.frame_count (words - start) start)) [
      | inl p ↦ scan_hit a.bitmap a.frame_count (min start words) 0 o c.words (ground arith)
      | inr (o', p) ↦ scan_hit a.bitmap a.frame_count (words - start) start o c.words (ground arith)
    ]

pub find_free-miss :
    (a : FrameAllocator) (o : ℕ)
    → IsCovered a
    → find_free a ≡ none
    → o < a.frame_count
    → used_at a.bitmap o ≡ true
unfolding find_free
find_free-miss a o c e lt =
    let start = a.next_hint / 64 in
    let words = length a.bitmap in
    elim (Option-cases (scan a.bitmap a.frame_count (words - start) start)) [
      | inl p ↦ elim (dec_le (start * 64) o) [
        | yes high ↦
            scan_miss a.bitmap a.frame_count (words - start) start o c.words p high
              (omega (arith, c.covers)) lt
        | no low ↦
            scan_miss a.bitmap a.frame_count (min start words) 0 o c.words (ground arith)
              (omega arith) (omega (arith, c.covers)) lt
      ]
      | inr (o', p) ↦ absurd (ground arith)
    ]

-- `after` is `before` with the frame at the offset, which was free and in range, in use.
pub record Takes (before after : FrameAllocator) (o : ℕ) : Type 0 where
  pub in_range : o < before.frame_count
  pub was_free : used_at before.bitmap o ≡ false
  pub marked : (p : ℕ) → used_at after.bitmap p ≡ (if o == p then true else used_at before.bitmap p)
  pub counted : after.used ≡ before.used + 1
  pub hinted : after.next_hint ≡ o + 1
  pub same_range : (after.base_frame ≡ before.base_frame) × (after.frame_count ≡ before.frame_count)
  pub covered : IsCovered after

used_at-word :
    (ws : List ℕ) (o : ℕ)
    → used_at ws o ≡ false
    → (x : ℕ) × (get_elem? ws (o / 64) ≡ some x) × (bit x (o % 64) ≡ false)
used_at-word ws o e = elim (Option-cases (get_elem? ws (o / 64))) [
  | inl p ↦ absurd (ground arith)
  | inr (x, p) ↦ (x, p, ground arith)
]

alloc_at : (a : FrameAllocator) (o : ℕ) → IsCovered a → find_free a ≡ some o → Takes a (alloc a).0 o
unfolding alloc
alloc_at a o c e =
    let (lt, clear) = find_free-hit a o c e in
    let (x, p, bit_clear) = used_at-word a.bitmap o clear in
    let y = set_bit x (o % 64) in
    let y_lt = set_bit-lt x (o % 64) (AllWords-get a.bitmap (o / 64) c.words p) (omega arith) in
    let written = set a.bitmap (o / 64) y in
    let result : (alloc a).0 ≡ record a { bitmap = written; used = a.used + 1; next_hint = o + 1 } =
      ground arith in
    subst (λ r. Takes a r o) (sym result)
      (record {
        in_range = lt;
        was_free = clear;
        marked = λ q.
            used_at-set a.bitmap o q x y true p (λ i h. ground (arith, bit-set_bit x (o % 64) i));
        counted = refl;
        hinted = refl;
        same_range = (refl, refl);
        covered = record {
          words = AllWords-set a.bitmap (o / 64) y y_lt c.words;
          covers = omega (arith, c.covers, length-set a.bitmap (o / 64) y);
        };
      })

-- On an allocator whose bitmap covers its frames, `alloc` either answers `out_of_memory`, changes nothing
-- and every frame in range is in use, or it takes one frame that was free and in range, marks that frame
-- alone, counts it, and answers with its address.
pub alloc-Takes :
    (a : FrameAllocator)
    → IsCovered a
    → ((alloc a ≡ (a, err out_of_memory))
        × ((o : ℕ) → o < a.frame_count → used_at a.bitmap o ≡ true))
      ⊎ ((o : ℕ) × Takes a (alloc a).0 o × ((alloc a).1 ≡ address_of (a.base_frame + o)))
unfolding alloc
alloc-Takes a c = elim (Option-cases (find_free a)) [
  | inl p ↦ inl (ground arith, λ o lt. find_free-miss a o c p lt)
  | inr (o, p) ↦ inr (o, alloc_at a o c p, ground arith)
]
