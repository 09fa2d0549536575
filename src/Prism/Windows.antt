-- ===== src/Prism/Windows.antt =====
-- The life of a window: userland/prism/src/wm.rs, and `Animation` of anim.rs. The value of an
-- animation is the parameter `value_at`, of its curve, its repetition, its ends, the time elapsed and
-- its duration; times are nanoseconds. What is only drawn (rectangles, depth, badges) is left out.
pub mod Lifecycle
use whisez_os.Prelude.{
  ℕ, zero, suc, ◌+◌, ◌-◌, ◌*◌, Bool, true, false, not, ◌||◌, ◌&&◌, Option, none, some, List, [],
  ◌∷◌, ◌==◌, leb, if◌then◌else◌, length,
}

pub data Repeat : Type 0 where
  once loop alternate : Repeat

-- The operations and literals of `f32` that `request` uses. `scale` is the duration times a part of it, cut
-- to a number; `clamp` is `f32::clamp`, of a value, the least and the greatest.
pub record Floats (F C : Type 0) : Type 0 where
  pub zero_f : F
  pub one_f : F
  pub least_part : F
  pub sub : F → F → F
  pub clamp : F → F → F → F
  pub scale : ℕ → F → ℕ
  pub value_at : C → Repeat → F → F → ℕ → ℕ → F
  pub spectre_out : C
  pub spectre_in : C
  pub spectre_in_out : C
  pub linear : C

pub data LifecycleState : Type 0 where
  opening normal dragging minimising minimised restoring closing gone : LifecycleState

abbrev pub ns_from_ms : ℕ → ℕ
ns_from_ms ms = ms * 1000000

abbrev pub open_ns : ℕ
open_ns = ns_from_ms 280

abbrev pub close_ns : ℕ
close_ns = ns_from_ms 340

abbrev pub minimise_ns : ℕ
minimise_ns = ns_from_ms 380

abbrev pub restore_ns : ℕ
restore_ns = ns_from_ms 300

pub record Animation (F C : Type 0) : Type 0 where
  pub start_ns : ℕ
  pub duration_ns : ℕ
  pub curve : C
  pub from : F
  pub to : F
  pub repeat : Repeat

pub record Transition (F C : Type 0) : Type 0 where
  pub kind : LifecycleState
  pub progress : Animation F C

pub record Window (F C : Type 0) : Type 0 where
  pub id : ℕ
  pub state : LifecycleState
  pub focused : Bool
  pub transition : Option (Transition F C)

unfoldable pub is_once : Repeat → Bool
is_once once = true
is_once loop = false
is_once alternate = false

unfoldable pub is_complete : {F C : Type 0} → Animation F C → ℕ → Bool
is_complete a now_ns = is_once a.repeat && leb a.duration_ns (now_ns - a.start_ns)

-- The table of `request`: from a state, to a state.
unfoldable pub is_valid : LifecycleState → LifecycleState → Bool
is_valid opening normal = true
is_valid opening closing = true
is_valid opening dragging = true
is_valid normal dragging = true
is_valid normal minimising = true
is_valid normal closing = true
is_valid dragging normal = true
is_valid dragging closing = true
is_valid minimising minimised = true
is_valid minimising restoring = true
is_valid minimising closing = true
is_valid minimised restoring = true
is_valid minimised closing = true
is_valid restoring normal = true
is_valid restoring minimising = true
is_valid restoring closing = true
is_valid closing gone = true
is_valid from to = false

unfoldable pub shrinks : LifecycleState → Bool
shrinks closing = true
shrinks minimising = true
shrinks target = false

-- What a state becomes when its transition is complete.
unfoldable pub completed : LifecycleState → LifecycleState
completed opening = normal
completed restoring = normal
completed minimising = minimised
completed closing = gone
completed other = other

unfoldable pub is_gone : LifecycleState → Bool
is_gone gone = true
is_gone state = false

module _ {F C : Type 0} (floats : Floats F C) where
  unfoldable pub sample : Animation F C → ℕ → F
  sample a now_ns =
      if a.duration_ns == 0
      then a.to
      else floats.value_at a.curve a.repeat a.from a.to (now_ns - a.start_ns) a.duration_ns

  unfoldable pub new : ℕ → ℕ → Window F C
  new id now_ns = record {
    id = id;
    state = opening;
    focused = true;
    transition = some (record {
      kind = opening;
      progress = record {
        start_ns = now_ns;
        duration_ns = open_ns;
        curve = floats.spectre_out;
        from = floats.zero_f;
        to = floats.one_f;
        repeat = once;
      };
    });
  }

  unfoldable pub current_progress : Window F C → ℕ → F
  current_progress w now_ns = elim w.transition [
    | none ↦ floats.one_f
    | some t ↦ sample t.progress now_ns
  ]

  unfoldable pub duration_and_curve : LifecycleState → ℕ × C
  duration_and_curve opening = (restore_ns, floats.spectre_out)
  duration_and_curve restoring = (restore_ns, floats.spectre_out)
  duration_and_curve closing = (close_ns, floats.spectre_in)
  duration_and_curve minimising = (minimise_ns, floats.spectre_in_out)
  duration_and_curve target = (0, floats.linear)

  -- The transition that `request` starts, if the state has a duration.
  unfoldable pub start : Window F C → LifecycleState → ℕ → Option (Transition F C)
  start w target now_ns =
      let progress = current_progress w now_ns in
      let (duration, curve) = duration_and_curve target in
      let remaining = if shrinks target then progress else floats.sub floats.one_f progress in
      if duration == 0
      then none
      else some (record {
        kind = target;
        progress = record {
          start_ns = now_ns;
          duration_ns =
              floats.scale duration (floats.clamp remaining floats.least_part floats.one_f);
          curve = curve;
          from = progress;
          to = if shrinks target then floats.zero_f else floats.one_f;
          repeat = once;
        };
      })

  unfoldable pub request : Window F C → LifecycleState → ℕ → Window F C × Bool
  request w target now_ns =
      if not (is_valid w.state target)
      then (w, false)
      else (record w { state = target; transition = start w target now_ns }, true)

module _ {F C : Type 0} where
  unfoldable pub advance : Window F C → ℕ → Option (Transition F C) → Window F C × Bool
  advance w now_ns none = (w, w.focused)
  advance w now_ns (some t) =
      if not (is_complete t.progress now_ns)
      then (w, true)
      else (record w { state = completed t.kind; transition = none }, true)

  unfoldable pub tick : Window F C → ℕ → Window F C × Bool
  tick w now_ns = advance w now_ns w.transition

  unfoldable pub needs_redraw : List (Window F C) → ℕ → List (Window F C) × Bool
  needs_redraw [] now_ns = ([], false)
  needs_redraw (w ∷ ws) now_ns =
      let (w', redraw) = tick w now_ns in
      let (ws', rest) = needs_redraw ws now_ns in (w' ∷ ws', redraw || rest)

  unfoldable pub retain : List (Window F C) → List (Window F C)
  retain [] = []
  retain (w ∷ ws) = let rest = retain ws in if is_gone w.state then rest else w ∷ rest

  unfoldable pub reap : List (Window F C) → List (Window F C) × ℕ
  reap ws = (retain ws, length ws - length (retain ws))
