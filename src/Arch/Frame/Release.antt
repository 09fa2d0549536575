-- ===== src/Arch/Frame/Release.antt =====
-- `free`, and `alloc` followed by `free`.
use whisez_os.Prelude.{
  ℕ, ◌+◌, ◌-◌, ◌/◌, ◌%◌, ◌^◌, ◌≤◌, ◌<◌, ◌≡◌, ◌⊎◌, refl, ap, ◌∙◌, sym, subst, true, false, some,
  arith, ◌==◌, if◌then◌else◌, Bool-cases, inl, inr, get_elem?, get_elem?-some, set, min, length-set,
}
use whisez_os.Prelude.Results.{ok, err}
use whisez_os.Prelude.Bits.{has_bit-bit}
use whisez_os.Arch.Addr.{frame_number, phys_new}
use whisez_os.Arch.Frame.{
  clear_bit, FrameAllocator, index_of, is_used, set_free, free, double_free, alloc, address_of,
}
use whisez_os.Arch.Frame.Bitmap.{
  used_at, AllWords-get, AllWords-set, clear_bit-lt, used_at-set, bit-clear_bit,
}
use whisez_os.Arch.Frame.Alloc.{IsCovered, alloc-Takes}

unfoldable pub IsManaged : FrameAllocator → ℕ → Type 0
IsManaged a frame = (a.base_frame ≤ frame) × (frame < a.base_frame + a.frame_count)

pub index_of_managed :
    (a : FrameAllocator) (frame : ℕ)
    → IsManaged a frame
    → index_of a frame ≡ ok ((frame - a.base_frame) / 64, (frame - a.base_frame) % 64)
unfolding index_of IsManaged
index_of_managed a frame h = ground arith

pub word_of :
    (a : FrameAllocator) (frame : ℕ)
    → IsCovered a
    → IsManaged a frame
    → (x : ℕ) × (get_elem? a.bitmap ((frame - a.base_frame) / 64) ≡ some x)
unfolding IsManaged
word_of a frame c h =
    get_elem?-some a.bitmap ((frame - a.base_frame) / 64) (omega (arith, c.covers, h.0, h.1))

pub is_used_managed :
    (a : FrameAllocator) (frame : ℕ)
    → IsCovered a
    → IsManaged a frame
    → is_used a frame ≡ ok (used_at a.bitmap (frame - a.base_frame))
unfolding is_used
is_used_managed a frame c h =
    let (x, p) = word_of a frame c h in
    ground (arith, index_of_managed a frame h, has_bit-bit x ((frame - a.base_frame) % 64))

-- `after` is `before` with the frame at the offset, which was in use, free.
pub record Releases (before after : FrameAllocator) (o : ℕ) : Type 0 where
  pub was_used : used_at before.bitmap o ≡ true
  pub cleared :
      (p : ℕ) → used_at after.bitmap p ≡ (if o == p then false else used_at before.bitmap p)
  pub counted : after.used ≡ before.used - 1
  pub hinted : after.next_hint ≡ min before.next_hint o
  pub covered : IsCovered after

free_used :
    (a : FrameAllocator) (addr : ℕ)
    → IsCovered a
    → IsManaged a (frame_number addr)
    → used_at a.bitmap (frame_number addr - a.base_frame) ≡ true
    → Releases a (free a addr).0 (frame_number addr - a.base_frame) × ((free a addr).1 ≡ ok tt)
unfolding free set_free
free_used a addr c h u =
    let o = frame_number addr - a.base_frame in
    let (x, p) = word_of a (frame_number addr) c h in
    let y = clear_bit x (o % 64) in
    let x_lt = AllWords-get a.bitmap (o / 64) c.words p in
    let written = set a.bitmap (o / 64) y in
    let result : (free a addr)
        ≡ (record a { bitmap = written; used = a.used - 1; next_hint = min a.next_hint o }, ok tt) =
      ground (
        arith,
        is_used_managed a (frame_number addr) c h,
        index_of_managed a (frame_number addr) h,
        has_bit-bit x (o % 64),
      ) in
    subst (λ r. Releases a r.0 o × (r.1 ≡ ok tt)) (sym result)
      (
        record {
          was_used = u;
          cleared = λ q.
              used_at-set a.bitmap o q x y false p
                (λ i l. ground (arith, bit-clear_bit x (o % 64) i (omega arith) l));
          counted = refl;
          hinted = refl;
          covered = record {
            words = AllWords-set a.bitmap (o / 64) y (clear_bit-lt x (o % 64) x_lt) c.words;
            covers = omega (arith, c.covers, length-set a.bitmap (o / 64) y);
          };
        },
        refl,
      )

-- On an allocator whose bitmap covers its frames, `free` of a frame in range that is free answers
-- `double_free` and changes nothing; of one in use it answers ok, and clears, and counts, that frame alone.
pub free-Releases :
    (a : FrameAllocator) (addr : ℕ)
    → IsCovered a
    → IsManaged a (frame_number addr)
    → ((used_at a.bitmap (frame_number addr - a.base_frame) ≡ false)
        × (free a addr ≡ (a, err (double_free (frame_number addr)))))
      ⊎ (Releases a (free a addr).0 (frame_number addr - a.base_frame) × ((free a addr).1 ≡ ok tt))
unfolding free
free-Releases a addr c h = elim (Bool-cases (used_at a.bitmap (frame_number addr - a.base_frame))) [
  | inl u ↦ inr (free_used a addr c h u)
  | inr f ↦ inl (f, ground (arith, is_used_managed a (frame_number addr) c h))
]

address_frame :
    (frame addr : ℕ) → frame < 2 ^ 40 → address_of frame ≡ ok addr → frame_number addr ≡ frame
unfolding frame_number phys_new
address_frame frame addr h e = ground arith

-- Where the frames lie below the 52 bits of a physical address, freeing what `alloc` answered is answered
-- with ok, and brings back the set of frames in use and their count.
pub free_undoes_alloc :
    (a : FrameAllocator) (addr : ℕ)
    → IsCovered a
    → a.base_frame + a.frame_count ≤ 2 ^ 40
    → (alloc a).1 ≡ ok addr
    → ((free (alloc a).0 addr).1 ≡ ok tt)
      × ((p : ℕ) → used_at (free (alloc a).0 addr).0.bitmap p ≡ used_at a.bitmap p)
      × ((free (alloc a).0 addr).0.used ≡ a.used)
unfolding IsManaged
free_undoes_alloc a addr c small e = elim (alloc-Takes a c) [
  | inl (r, all) ↦ absurd (ground arith)
  | inr (o, t, r) ↦
      let frame = address_frame (a.base_frame + o) addr (omega (arith, t.in_range)) (sym r ∙ e) in
      let place : frame_number addr - (alloc a).0.base_frame ≡ o =
        omega (arith, t.same_range.0, frame) in
      let managed : IsManaged (alloc a).0 (frame_number addr) = (
        omega (arith, t.same_range.0, frame),
        omega (arith, t.same_range.0, t.same_range.1, frame, t.in_range),
      ) in
      let in_use : used_at (alloc a).0.bitmap (frame_number addr - (alloc a).0.base_frame) ≡ true =
        ground (arith, ap (used_at (alloc a).0.bitmap) place, t.marked o) in
      let (g, answer) = free_used (alloc a).0 addr t.covered managed in_use in
      (
        answer,
        λ p. ground (arith, t.marked p, t.was_free, g.cleared p, ap (used_at a.bitmap) place),
        omega (arith, t.counted, g.counted),
      )
]
