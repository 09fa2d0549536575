-- ===== src/Prism/Windows/Lifecycle.antt =====
-- The states that windows reach.
use whisez_os.Prelude.{
  ℕ, ◌-◌, ◌≡◌, ◌≢◌, inl, inr, refl, ap, sym, subst, ◌∙◌, Bool, true, false, not, Option, none, some,
  [], ◌∷◌, leb, Bool-cases, if◌then◌else◌,
}
use whisez_os.Prism.Windows.{
  close_ns, Floats, LifecycleState, opening, normal, dragging, minimising, minimised, restoring,
  closing, gone, Transition, Window, once, is_once, is_complete, is_valid, shrinks, completed, new,
  current_progress, duration_and_curve, start, request, advance, tick, is_gone, retain,
}

-- A state with a transition of its own, and one without.
unfoldable pub moves : LifecycleState → Bool
moves opening = true
moves minimising = true
moves restoring = true
moves closing = true
moves other = false

completed_rests : (k : LifecycleState) → moves k ≡ true → moves (completed k) ≡ false
unfolding moves completed
completed_rests opening m = refl
completed_rests minimising m = refl
completed_rests restoring m = refl
completed_rests closing m = refl
completed_rests normal m = cc
completed_rests dragging m = cc
completed_rests minimised m = cc
completed_rests gone m = cc

module _ {F C : Type 0} where
  -- A transition is that of the state and ends, and only states that are at rest have none.
  abbrev pub Coherent : LifecycleState → Option (Transition F C) → Type 0
  Coherent state none = moves state ≡ false
  Coherent state (some t) = (t.kind ≡ state) × (moves state ≡ true) × (t.progress.repeat ≡ once)

  abbrev pub IsCoherent : Window F C → Type 0
  IsCoherent w = Coherent w.state w.transition

  advance-IsCoherent :
      (w : Window F C) (now : ℕ) (x : Option (Transition F C))
      → IsCoherent w
      → Coherent w.state x
      → IsCoherent (advance w now x).0
  unfolding advance
  advance-IsCoherent w now none c d = c
  advance-IsCoherent w now (some t) c (kind, moving, ends) =
      elim (Bool-cases (is_complete t.progress now)) [
        | inr u ↦ rw (advance, u) c
        | inl d ↦ rw (advance, d) (completed_rests t.kind (ap moves kind ∙ moving))
      ]

  tick-IsCoherent : (w : Window F C) (now : ℕ) → IsCoherent w → IsCoherent (tick w now).0
  unfolding tick
  tick-IsCoherent w now c = advance-IsCoherent w now w.transition c c

module _ {F C : Type 0} (floats : Floats F C) where
  start-Coherent :
      (w : Window F C) (target : LifecycleState) (now : ℕ)
      → Coherent target (start floats w target now)
  unfolding start duration_and_curve moves
  start-Coherent w opening now = (refl, refl, refl)
  start-Coherent w restoring now = (refl, refl, refl)
  start-Coherent w closing now = (refl, refl, refl)
  start-Coherent w minimising now = (refl, refl, refl)
  start-Coherent w normal now = refl
  start-Coherent w dragging now = refl
  start-Coherent w minimised now = refl
  start-Coherent w gone now = refl

  request-IsCoherent :
      (w : Window F C) (target : LifecycleState) (now : ℕ)
      → IsCoherent w
      → IsCoherent (request floats w target now).0
  unfolding request
  request-IsCoherent w target now c = elim (Bool-cases (is_valid w.state target)) [
    | inl v ↦ rw v (start-Coherent w target now)
    | inr v ↦ rw v c
  ]

  -- What the desktop and its user do to a window.
  pub data Reach (w : Window F C) : Window F C → Type 0 where
    here : Reach w w
    requested :
        {v : Window F C} (target : LifecycleState) (now : ℕ)
        → Reach w v
        → Reach w (request floats v target now).0
    ticked : {v : Window F C} (now : ℕ) → Reach w v → Reach w (tick v now).0

  Reach-keeps : {w v : Window F C} → IsCoherent w → Reach w v → IsCoherent v
  Reach-keeps c here = c
  Reach-keeps c (requested target now r) = request-IsCoherent _ target now (Reach-keeps c r)
  Reach-keeps c (ticked now r) = tick-IsCoherent _ now (Reach-keeps c r)

  new-IsCoherent : (id now : ℕ) → IsCoherent (new floats id now)
  unfolding new moves
  new-IsCoherent id now = (refl, refl, refl)

  -- However it is used, a window that was opened is animated towards the state it is in, by an
  -- animation that ends, or is at rest in a state that needs none.
  pub Reach-IsCoherent : (id now : ℕ) (w : Window F C) → Reach (new floats id now) w → IsCoherent w
  Reach-IsCoherent id now w r = Reach-keeps (new-IsCoherent id now) r

  closing_is_valid : (s : LifecycleState) → s ≢ closing → s ≢ gone → is_valid s closing ≡ true
  unfolding is_valid
  closing_is_valid opening h k = refl
  closing_is_valid normal h k = refl
  closing_is_valid dragging h k = refl
  closing_is_valid minimising h k = refl
  closing_is_valid minimised h k = refl
  closing_is_valid restoring h k = refl
  closing_is_valid closing h k = absurd (h refl)
  closing_is_valid gone h k = absurd (k refl)

  closing_refuses : (target : LifecycleState) → target ≢ gone → is_valid closing target ≡ false
  unfolding is_valid
  closing_refuses opening h = refl
  closing_refuses normal h = refl
  closing_refuses dragging h = refl
  closing_refuses minimising h = refl
  closing_refuses minimised h = refl
  closing_refuses restoring h = refl
  closing_refuses closing h = refl
  closing_refuses gone h = absurd (h refl)

  request_accepted :
      (w : Window F C) (target : LifecycleState) (now : ℕ)
      → is_valid w.state target ≡ true
      → request floats w target now
        ≡ (record w { state = target; transition = start floats w target now }, true)
  unfolding request
  request_accepted w target now v =
      ap
        (λ b.
          if not b
          then (w, false)
          else (record w { state = target; transition = start floats w target now }, true))
        v

  request_refused :
      (w : Window F C) (target : LifecycleState) (now : ℕ)
      → is_valid w.state target ≡ false
      → request floats w target now ≡ (w, false)
  unfolding request
  request_refused w target now v =
      ap
        (λ b.
          if not b
          then (w, false)
          else (record w { state = target; transition = start floats w target now }, true))
        v

  -- The time that closing takes: that of the whole, by the part of the way that is left.
  abbrev pub closing_time : Window F C → ℕ → ℕ
  closing_time w now =
      floats.scale close_ns
        (floats.clamp (current_progress floats w now) floats.least_part floats.one_f)

  -- The window is reaped exactly from the frame on at which that time is over.
  gone_after :
      (w : Window F C) (now later : ℕ)
      → let w' = record w { state = closing; transition = start floats w closing now } in
        retain ((tick w' later).0 ∷ [])
        ≡ (if leb (closing_time w now) (later - now) then [] else w' ∷ [])
  unfolding tick advance start duration_and_curve is_complete is_once retain is_gone completed
      shrinks
  gone_after w now later = elim (Bool-cases (leb (closing_time w now) (later - now))) [
    | inl over ↦ rw over refl
    | inr runs ↦ rw runs refl
  ]

  -- A window can be closed from every state but closing and gone. It then takes no other request but to be
  -- gone; the frames before its closing time is over leave it as it is, on the list, and at any frame from
  -- then on it is gone, and reaped.
  pub closing_ends :
      (w : Window F C) (now later : ℕ)
      → w.state ≢ closing
      → w.state ≢ gone
      → let w' = (request floats w closing now).0 in
        ((request floats w closing now).1 ≡ true)
        × ((target : LifecycleState) (at : ℕ)
            → target ≢ gone
            → request floats w' target at ≡ (w', false))
        × (retain ((tick w' later).0 ∷ [])
            ≡ (if leb (closing_time w now) (later - now) then [] else w' ∷ []))
  closing_ends w now later h k =
      let w' = record w { state = closing; transition = start floats w closing now } in
      subst
        (λ r.
          (r.1 ≡ true)
          × ((target : LifecycleState) (at : ℕ)
              → target ≢ gone
              → request floats r.0 target at ≡ (r.0, false))
          × (retain ((tick r.0 later).0 ∷ [])
              ≡ (if leb (closing_time w now) (later - now) then [] else r.0 ∷ [])))
        (sym (request_accepted w closing now (closing_is_valid w.state h k)))
        (
          refl,
          (λ target at ne. request_refused w' target at (closing_refuses target ne)),
          gone_after w now later,
        )
