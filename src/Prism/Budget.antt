-- ===== src/Prism/Budget.antt =====
-- The governor of the frame budget: `Budget` and `Quality` of userland/prism/src/anim.rs. Floats
-- are the parameter `floats`.
pub mod Tiers
use whisez_os.Prelude.{
  ℕ, zero, suc, ◌+◌, ◌-◌, ◌*◌, ◌/◌, ◌%◌, ◌^◌, Bool, true, false, List, [], ◌∷◌, ◌==◌, leb,
  if◌then◌else◌, max,
}

pub data Quality : Type 0 where
  full high medium low minimal : Quality

unfoldable pub lower : Quality → Quality
lower full = high
lower high = medium
lower medium = low
lower low = minimal
lower minimal = minimal

unfoldable pub raise : Quality → Quality
raise minimal = low
raise low = medium
raise medium = high
raise high = full
raise full = full

pub record Budget : Type 0 where
  pub target_frame_ns : ℕ
  pub ema_cost_ns : ℕ
  pub quality : Quality
  pub stable_frames : ℕ
  pub shed_cooldown : ℕ

abbrev pub recovery_frames : ℕ
recovery_frames = 120

abbrev pub shed_cooldown_frames : ℕ
shed_cooldown_frames = 16

unfoldable pub new : ℕ → Budget
new refresh_hz = record {
  target_frame_ns = 1000000000 / max refresh_hz 1;
  ema_cost_ns = 0;
  quality = full;
  stable_frames = 0;
  shed_cooldown = 0;
}

unfoldable pub averaged : Budget → ℕ → ℕ
averaged b cost_ns =
    if b.ema_cost_ns == 0 then cost_ns else (b.ema_cost_ns * 7 % 2 ^ 64 + cost_ns) % 2 ^ 64 / 8

-- The operations of `f32` that the governor uses: `ratio` is the quotient of two numbers as floats, and
-- `hundredths` the literal of so many hundredths.
pub record Floats (F : Type 0) : Type 0 where
  pub ratio : ℕ → ℕ → F
  pub hundredths : ℕ → F
  pub less : F → F → Bool

module _ {F : Type 0} (floats : Floats F) where
  abbrev pub shed_threshold : F
  shed_threshold = floats.hundredths 80

  abbrev pub recover_threshold : F
  recover_threshold = floats.hundredths 55

  -- The frame, with the average.
  unfoldable pub judge : Budget → ℕ → Budget
  judge b ema =
      let ratio = floats.ratio ema b.target_frame_ns in
      let cooldown = b.shed_cooldown - 1 in
      let stable = (b.stable_frames + 1) % 2 ^ 32 in
      if floats.less shed_threshold ratio
      then record b {
        ema_cost_ns = ema;
        quality = if cooldown == 0 then lower b.quality else b.quality;
        stable_frames = 0;
        shed_cooldown = if cooldown == 0 then shed_cooldown_frames else cooldown;
      }
      else if floats.less ratio recover_threshold
      then record b {
        ema_cost_ns = ema;
        quality = if leb recovery_frames stable then raise b.quality else b.quality;
        stable_frames = if leb recovery_frames stable then 0 else stable;
        shed_cooldown = cooldown;
      }
      else record b { ema_cost_ns = ema; stable_frames = 0; shed_cooldown = cooldown }

  unfoldable pub record_frame : Budget → ℕ → Budget
  unfolding judge
  record_frame b cost_ns = judge b (averaged b cost_ns)

  -- One frame after the other.
  unfoldable pub record_frames : List ℕ → Budget → Budget
  record_frames [] b = b
  record_frames (cost ∷ costs) b = record_frames costs (record_frame b cost)

unfoldable pub apply_reduce_motion : Budget → Budget
apply_reduce_motion b = record b { quality = minimal }
