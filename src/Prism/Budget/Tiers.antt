-- ===== src/Prism/Budget/Tiers.antt =====
-- How the quality changes.
use whisez_os.Prelude.{ℕ, ◌+◌, ◌≤◌, ◌<◌, ◌≡◌, true, false, List, [], ◌∷◌, arith, length}
use whisez_os.Prism.Budget.{
  Quality, full, high, medium, low, minimal, lower, raise, Budget, Floats, shed_threshold,
  recover_threshold, record_frame, record_frames, shed_cooldown_frames,
}

unfoldable pub rank : Quality → ℕ
rank full = 4
rank high = 3
rank medium = 2
rank low = 1
rank minimal = 0

rank-lower : (q : Quality) → rank q ≤ rank (lower q) + 1
unfolding rank lower
rank-lower full = omega arith
rank-lower high = omega arith
rank-lower medium = omega arith
rank-lower low = omega arith
rank-lower minimal = omega arith

rank-raise : (q : Quality) → rank q ≤ rank (raise q)
unfolding rank raise
rank-raise full = omega arith
rank-raise high = omega arith
rank-raise medium = omega arith
rank-raise low = omega arith
rank-raise minimal = omega arith

abbrev pub AllWithin : ℕ → List ℕ → Type 0
AllWithin bound [] = Unit {0}
AllWithin bound (cost ∷ costs) = (cost ≤ bound) × AllWithin bound costs

module _ {F : Type 0} (floats : Floats F) where
  -- A frame within the cooldown sheds nothing and takes one off it.
  record_frame_keeps :
      (b : Budget) (cost : ℕ)
      → 1 < b.shed_cooldown
      → (rank b.quality ≤ rank (record_frame floats b cost).quality)
        × ((record_frame floats b cost).shed_cooldown + 1 ≡ b.shed_cooldown)
  unfolding record_frame
  record_frame_keeps b cost h = ground (arith, rank-raise b.quality)

  -- A frame sheds one tier at most, and only with a cooldown of sixteen frames after it.
  record_frame-sheds :
      (b : Budget) (cost : ℕ)
      → (rank b.quality ≤ rank (record_frame floats b cost).quality + 1)
        × (rank (record_frame floats b cost).quality < rank b.quality
            → (record_frame floats b cost).shed_cooldown ≡ shed_cooldown_frames)
  unfolding record_frame
  record_frame-sheds b cost = ground (arith, rank-raise b.quality, rank-lower b.quality)

  record_frames_keeps :
      (costs : List ℕ) (b : Budget)
      → length costs < b.shed_cooldown
      → rank b.quality ≤ rank (record_frames floats costs b).quality
  unfolding record_frames
  record_frames_keeps [] b h = omega arith
  record_frames_keeps (cost ∷ costs) b h =
      let (keeps, left) = record_frame_keeps b cost (omega arith) in
      omega (arith, record_frames_keeps costs (record_frame floats b cost) (omega arith))

  -- Quality does not cascade: a frame sheds one tier at most, and the fifteen frames after one that
  -- sheds shed nothing, whatever they cost.
  pub sheds_once :
      (b : Budget) (cost : ℕ) (costs : List ℕ)
      → length costs < 16
      → let b' = record_frame floats b cost in
        (rank b.quality ≤ rank b'.quality + 1)
        × (rank b'.quality < rank b.quality
            → rank b'.quality ≤ rank (record_frames floats costs b').quality)
  sheds_once b cost costs h =
      let (one, shed) = record_frame-sheds b cost in
      (
        one,
        λ fewer. record_frames_keeps costs (record_frame floats b cost) (omega (arith, shed fewer)),
      )

  -- A frame whose average is far below the budget: no shedding, and towards the recovery of a tier.
  abbrev pub IsCalm : ℕ → ℕ → Type 0
  IsCalm target ema =
      (floats.less (shed_threshold floats) (floats.ratio ema target) ≡ false)
      × (floats.less (floats.ratio ema target) (recover_threshold floats) ≡ true)
