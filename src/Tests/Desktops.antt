-- ===== src/Tests/Desktops.antt =====
-- The desktop with numbers for floats, which count hundredths.
use whisez_os.Prelude.{
  ℕ, ◌+◌, ◌-◌, ◌*◌, ◌≤◌, ◌<◌, ◌≡◌, ◌≢◌, true, false, [], ◌∷◌, ltb, leb, min, max, arith, ◌/◌,
  if◌then◌else◌,
}
use whisez_os.Prism.Windows.{
  Floats, close_ns, closing, gone, LifecycleState, Window, new, request, tick, retain,
}
use whisez_os.Prism.Windows.Lifecycle.{closing_time, closing_ends}
use whisez_os.Prism.Budget
use whisez_os.Prism.Budget.{new as new_budget, low, record_frame, record_frames}
use whisez_os.Prism.Budget.Tiers.{rank, sheds_once}

abbrev floats : Floats ℕ ℕ
floats = record {
  zero_f = 0;
  one_f = 100;
  sub = λ x y. x - y;
  least_part = 15;
  clamp = λ x low high. min (max x low) high;
  scale = λ d x. d * x / 100;
  value_at = λ c repeat from to elapsed duration. from;
  spectre_out = 0;
  spectre_in = 1;
  spectre_in_out = 2;
  linear = 3;
}

abbrev opened : Window ℕ ℕ
opened = new floats 1 0

opening_ne_closing : opened.state ≢ closing
unfolding new
opening_ne_closing e = cc

opening_ne_gone : opened.state ≢ gone
unfolding new
opening_ne_gone e = cc

closing_ends_example :
    let w = (request floats opened closing 10).0 in
    ((request floats opened closing 10).1 ≡ true)
    × ((target : LifecycleState) (at : ℕ) → target ≢ gone → request floats w target at ≡ (w, false))
    × (retain ((tick w (10 + close_ns)).0 ∷ [])
        ≡ (if leb (closing_time floats opened 10) (10 + close_ns - 10) then [] else w ∷ []))
closing_ends_example =
    closing_ends floats opened 10 (10 + close_ns) opening_ne_closing opening_ne_gone

-- Quotients of numbers, cut to hundredths.
abbrev quotients : Budget.Floats ℕ
quotients = record {
  ratio = λ ema target. ema * 100 / target;
  hundredths = λ n. n;
  less = λ x y. ltb x y;
}

sheds_once_example :
    let b = record_frame quotients (new_budget 60) 20000000 in
    (rank (new_budget 60).quality ≤ rank b.quality + 1)
    × (rank b.quality < rank (new_budget 60).quality
        → rank b.quality ≤ rank (record_frames quotients (20000000 ∷ 30000000 ∷ []) b).quality)
sheds_once_example =
    sheds_once quotients (new_budget 60) 20000000 (20000000 ∷ 30000000 ∷ []) (omega arith)

-- Half of a frame at 60 Hz.
abbrev half : ℕ
half = 8333333
