-- ===== src/Shield/Observing.antt =====
-- Observations by a process that has no credits yet.
use whisez_os.Prelude.{
  ℕ, ◌+◌, ◌-◌, ◌*◌, ◌/◌, ◌%◌, ◌≤◌, ◌<◌, ◌^◌, ◌≡◌, refl, ap, ◌∙◌, true, List, [], ◌∷◌, arith, leb,
  ◌==◌, if◌then◌else◌, Bool-cases, inl, inr, min, length, ◌++◌,
}
use native.Mathlib.Nat.{div-one, mul-le-mul}
use whisez_os.Shield.Decay.{decayed-le}
use whisez_os.Shield.{
  Behaviour, enumerate_user_documents, ProcessProfile, DeclaredRole, Observation, Verdict,
  suspend_and_ask, alert, watch, clean, ComboName, ransomware_encrypt_loop, observe, decay, decayed,
  remember, check_from, points, combinations, settle, weight, verdict, new_profile,
}

abbrev pub seen_at : Behaviour → ℕ → Observation
seen_at b t = record { behaviour = b; timestamp_ms = t }

weight-le : (b : Behaviour) → weight b ≤ 45
unfolding weight
weight-le enumerate_user_documents = omega arith
weight-le _ = omega arith

points-le : (role : DeclaredRole) (b : Behaviour) → points role b ≤ 45
points-le role b = grind (arith, weight-le b)

-- A process without credits.
abbrev profile : DeclaredRole → List Observation → ℕ → ℕ → ProcessProfile
profile role history score t = record {
  role = role;
  history = history;
  score = score;
  last_decay_ms = t;
  credited = [];
}

pub decayed_now : (score : ℕ) → decayed score 0 ≡ score
unfolding decayed
decayed_now score = ground (arith, div-one score)

zero_of : (n : ℕ) → (n == 0) ≡ true → n ≡ 0
zero_of n e = ground arith

decay-profile :
    (role : DeclaredRole) (history : List Observation) (score t now_ms : ℕ)
    → t ≤ now_ms
    → decay (profile role history score t) now_ms
      ≡ profile role history (decayed score (now_ms - t)) now_ms
unfolding decay
decay-profile role history score t now_ms h = elim (Bool-cases (now_ms - t == 0)) [
  | inl still ↦
      let same : t ≡ now_ms = omega (arith, zero_of (now_ms - t) still) in
      let none_left : now_ms - t ≡ 0 = omega (arith, zero_of (now_ms - t) still) in
      rw (none_left, decayed_now score, same) refl
  | inr later ↦ elim (Bool-cases (decayed score (now_ms - t) == 0)) [
    | inl gone ↦ rw (later, gone) refl
    | inr left ↦ rw (later, left) refl
  ]
]

pub decayed_within :
    (score elapsed : ℕ)
    → elapsed < 300_000
    → decayed score elapsed ≡ score - (score * elapsed / 600_000) % 2 ^ 32
unfolding decayed
decayed_within score elapsed h =
    let whole : elapsed / 300_000 ≡ 0 = omega arith in
    let rest : elapsed % 300_000 ≡ elapsed = omega arith in rw (whole, rest, div-one score) refl

self-le : (n : ℕ) → n ≤ n
self-le n = omega arith

-- The score after some of a half-life, to the fraction that the source cuts off.
pub decayed-near :
    (c score elapsed : ℕ)
    → score ≤ c
    → elapsed < 300_000
    → 600_000 * score ≤ 600_000 * decayed score elapsed + c * elapsed
decayed-near c score elapsed h l =
    let most = mul-le-mul h (self-le elapsed) in omega (arith, decayed_within score elapsed l, most)

remember_few :
    (history : List Observation) (o : Observation)
    → length history < 128
    → remember history o ≡ history ++ o ∷ []
unfolding remember
remember_few history o few = ground arith

-- The verdict of a score.
unfoldable pub graded : ℕ → Verdict
graded n =
    if leb 110 n
    then suspend_and_ask
    else if leb 60 n
    then alert
    else if leb 25 n
    then watch
    else clean

module _ (role : DeclaredRole) (history : List Observation) (score t : ℕ) (b : Behaviour)
    (now_ms : ℕ) (h : t ≤ now_ms) (few : length history < 128) where
  -- The history with the observation.
  abbrev later : List Observation
  later = history ++ record { behaviour = b; timestamp_ms = now_ms } ∷ []

  -- An observation by a process without credits.
  observe_first :
      (r : List ComboName × ℕ)
      → check_from combinations later now_ms [] 0 ≡ r
      → observe (profile role history score t) b now_ms
        ≡ settle (profile role history (decayed score (now_ms - t)) now_ms) later b r
  unfolding observe
  observe_first r found =
      let o : Observation = record { behaviour = b; timestamp_ms = now_ms } in
      let q = profile role history (decayed score (now_ms - t)) now_ms in
      ap
        (λ (p : ProcessProfile).
          settle p (remember p.history o) b
            (check_from combinations (remember p.history o) now_ms p.credited 0))
        (decay-profile role history score t now_ms h)
      ∙ ap (λ hist. settle q hist b (check_from combinations hist now_ms [] 0))
          (remember_few history o few)
      ∙ ap (settle q later b) found

  -- One that completes no combination.
  observe_quiet :
      score < 200
      → check_from combinations later now_ms [] 0 ≡ ([], 0)
      → (observe (profile role history score t) b now_ms).0
        ≡ profile role later (decayed score (now_ms - t) + points role b) now_ms
  unfolding settle
  observe_quiet low quiet =
      ap (λ (r : ProcessProfile × Verdict). r.0) (observe_first ([], 0) quiet)
      ∙ ap (λ n. profile role later n now_ms)
          (omega (arith, decayed-le score (now_ms - t) (omega arith), points-le role b))

  -- One that completes the ransomware combination.
  observe_ransomware :
      score < 200
      → check_from combinations later now_ms [] 0 ≡ (ransomware_encrypt_loop ∷ [], 70)
      → (observe (profile role history score t) b now_ms).1
        ≡ graded (decayed score (now_ms - t) + points role b + 70)
  unfolding settle verdict graded
  observe_ransomware low found =
      let least : min (min (decayed score (now_ms - t) + points role b) (2 ^ 32 - 1) + 70)
            (2 ^ 32 - 1)
          ≡ decayed score (now_ms - t) + points role b + 70 =
        omega (arith, decayed-le score (now_ms - t) (omega arith), points-le role b) in
      ap (λ (r : ProcessProfile × Verdict). r.1)
        (observe_first (ransomware_encrypt_loop ∷ [], 70) found)
      ∙ ap graded least

new_profile-profile : (role : DeclaredRole) (t : ℕ) → new_profile role t ≡ profile role [] 0 t
unfolding new_profile
new_profile-profile role t = refl

-- What a new process is told after four observations.
abbrev pub verdict_of_four :
    DeclaredRole → Behaviour → Behaviour → Behaviour → Behaviour → ℕ → ℕ → ℕ → ℕ → Verdict
verdict_of_four role b0 b1 b2 b3 t0 t1 t2 t3 =
    (observe (observe (observe (observe (new_profile role t0) b0 t0).0 b1 t1).0 b2 t2).0 b3 t3).1

-- Four observations of which the last alone completes a combination, the ransomware loop.
pub four_graded :
    (role : DeclaredRole) (b0 b1 b2 b3 : Behaviour) (t0 t1 t2 t3 : ℕ)
    → t0 ≤ t1
    → t1 ≤ t2
    → t2 ≤ t3
    → let h0 = seen_at b0 t0 ∷ [] in
      let h1 = seen_at b0 t0 ∷ seen_at b1 t1 ∷ [] in
      let h2 = seen_at b0 t0 ∷ seen_at b1 t1 ∷ seen_at b2 t2 ∷ [] in
      let s0 = decayed 0 (t0 - t0) + points role b0 in
      let s1 = decayed s0 (t1 - t0) + points role b1 in
      let s2 = decayed s1 (t2 - t1) + points role b2 in
      check_from combinations h0 t0 [] 0 ≡ ([], 0)
      → check_from combinations h1 t1 [] 0 ≡ ([], 0)
      → check_from combinations h2 t2 [] 0 ≡ ([], 0)
      → check_from combinations
          (seen_at b0 t0 ∷ seen_at b1 t1 ∷ seen_at b2 t2 ∷ seen_at b3 t3 ∷ [])
          t3
          []
          0
        ≡ (ransomware_encrypt_loop ∷ [], 70)
      → s0 < 200
      → s1 < 200
      → s2 < 200
      → verdict_of_four role b0 b1 b2 b3 t0 t1 t2 t3
        ≡ graded (decayed s2 (t3 - t2) + points role b3 + 70)
four_graded role b0 b1 b2 b3 t0 t1 t2 t3 a b c one two three four low0 low1 low2 =
    let h0 = seen_at b0 t0 ∷ [] in
    let h1 = seen_at b0 t0 ∷ seen_at b1 t1 ∷ [] in
    let h2 = seen_at b0 t0 ∷ seen_at b1 t1 ∷ seen_at b2 t2 ∷ [] in
    let s0 = decayed 0 (t0 - t0) + points role b0 in
    let s1 = decayed s0 (t1 - t0) + points role b1 in
    let s2 = decayed s1 (t2 - t1) + points role b2 in
    let first = observe_quiet role [] 0 t0 b0 t0 (self-le t0) (omega arith) (omega arith) one in
    let second = observe_quiet role h0 s0 t0 b1 t1 a (omega arith) low0 two in
    let third = observe_quiet role h1 s1 t1 b2 t2 b (omega arith) low1 three in
    let last = observe_ransomware role h2 s2 t2 b3 t3 c (omega arith) low2 four in
    let end3 = λ (p : ProcessProfile). (observe p b3 t3).1 in
    let end2 = λ (p : ProcessProfile). end3 (observe p b2 t2).0 in
    let end1 = λ (p : ProcessProfile). end2 (observe p b1 t1).0 in
    ap (λ (p : ProcessProfile). end1 (observe p b0 t0).0) (new_profile-profile role t0)
    ∙ ap end1 first
    ∙ ap end2 second
    ∙ ap end3 third
    ∙ last
