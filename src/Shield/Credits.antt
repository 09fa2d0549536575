-- ===== src/Shield/Credits.antt =====
-- What the history and the credits of a process can hold.
use whisez_os.Prelude.{
  ℕ, ◌+◌, ◌-◌, ◌*◌, ◌≤◌, ◌<◌, ◌^◌, ◌≡◌, inl, inr, refl, ap, false, not, ◌&&◌, ◌||◌, List, [], ◌∷◌,
  ◌++◌, arith, ◌==◌, if◌then◌else◌, length, drop, length-append, length-drop, Bool-cases, sym,
  subst,
}
use whisez_os.Shield.Decay.{decayed-le}
use whisez_os.Shield.{
  Behaviour, Combination, ComboName, ransomware_encrypt_loop, credential_exfiltration,
  code_injection, persistent_implant, Observation, ProcessProfile, combinations, contains_name,
  all_present, check_from, name_tag, remember, decay, decayed, observe, history_cap, points,
}

-- No combination is credited twice.
abbrev pub NoRepeat : List ComboName → Type 0
NoRepeat [] = Unit {0}
NoRepeat (n ∷ ns) = (contains_name ns n ≡ false) × NoRepeat ns

count_name : ComboName → List ComboName → ℕ
count_name n [] = 0
count_name n (m ∷ ms) = (if name_tag m == name_tag n then 1 else 0) + count_name n ms

contains_name-false :
    (ns : List ComboName) (n : ComboName) → contains_name ns n ≡ false → count_name n ns ≡ 0
unfolding contains_name count_name
contains_name-false [] n h = refl
contains_name-false (m ∷ ms) n h = ground (arith, contains_name-false ms n)

contains_name_same :
    (ns : List ComboName) (m n : ComboName)
    → name_tag m ≡ name_tag n
    → contains_name ns m ≡ contains_name ns n
unfolding contains_name
contains_name_same [] m n e = refl
contains_name_same (k ∷ ks) m n e = ground (arith, contains_name_same ks m n)

count_name-le : (ns : List ComboName) (n : ComboName) → NoRepeat ns → count_name n ns ≤ 1
unfolding count_name
count_name-le [] n d = omega arith
count_name-le (m ∷ ms) n d =
    ground (arith, count_name-le ms n, contains_name_same ms m n, contains_name-false ms n)

-- What the combinations of a list are worth together.
unfoldable pub worth : List ComboName → ℕ
worth [] = 0
worth (ransomware_encrypt_loop ∷ ns) = 70 + worth ns
worth (credential_exfiltration ∷ ns) = 45 + worth ns
worth (code_injection ∷ ns) = 40 + worth ns
worth (persistent_implant ∷ ns) = 55 + worth ns

worth-count :
    (ns : List ComboName)
    → (worth ns
        ≡ 70 * count_name ransomware_encrypt_loop ns
          + 45 * count_name credential_exfiltration ns
          + 40 * count_name code_injection ns
          + 55 * count_name persistent_implant ns)
      × (length ns
          ≡ count_name ransomware_encrypt_loop ns
            + count_name credential_exfiltration ns
            + count_name code_injection ns
            + count_name persistent_implant ns)
unfolding worth count_name
worth-count [] = (omega arith, omega arith)
worth-count (ransomware_encrypt_loop ∷ ns) = let ih = worth-count ns in omega arith
worth-count (credential_exfiltration ∷ ns) = let ih = worth-count ns in omega arith
worth-count (code_injection ∷ ns) = let ih = worth-count ns in omega arith
worth-count (persistent_implant ∷ ns) = let ih = worth-count ns in omega arith

-- There are four names, so there is room for all of them.
few_names : (ns : List ComboName) → NoRepeat ns → (length ns ≤ 4) × (worth ns ≤ 210)
few_names ns d = omega (
  arith,
  worth-count ns,
  count_name-le ns ransomware_encrypt_loop d,
  count_name-le ns credential_exfiltration d,
  count_name-le ns code_injection d,
  count_name-le ns persistent_implant d,
)

contains_name-append :
    (ns : List ComboName) (m n : ComboName)
    → contains_name (ns ++ m ∷ []) n ≡ (contains_name ns n || (name_tag m == name_tag n))
unfolding contains_name
contains_name-append [] m n = ground arith
contains_name-append (k ∷ ks) m n = ground (arith, contains_name-append ks m n)

NoRepeat-append :
    (ns : List ComboName) (n : ComboName)
    → NoRepeat ns
    → contains_name ns n ≡ false
    → NoRepeat (ns ++ n ∷ [])
unfolding contains_name
NoRepeat-append [] n d h = (refl, tt)
NoRepeat-append (m ∷ ms) n d h =
    (ground (arith, contains_name-append ms n m), NoRepeat-append ms n d.1 (ground arith))

worth-append :
    (ns : List ComboName) (n : ComboName) → worth (ns ++ n ∷ []) ≡ worth ns + worth (n ∷ [])
unfolding worth
worth-append [] n = omega arith
worth-append (ransomware_encrypt_loop ∷ ns) n = omega (arith, worth-append ns n)
worth-append (credential_exfiltration ∷ ns) n = omega (arith, worth-append ns n)
worth-append (code_injection ∷ ns) n = omega (arith, worth-append ns n)
worth-append (persistent_implant ∷ ns) n = omega (arith, worth-append ns n)

-- The bonus of each combination is what its name is worth.
IsPriced : List Combination → Type 0
IsPriced [] = Unit {0}
IsPriced (c ∷ cs) = (c.bonus ≡ worth (c.name ∷ [])) × IsPriced cs

abbrev Earned : List ComboName → ℕ → List ComboName × ℕ → Type 0
Earned credited bonus (credited', bonus') =
    NoRepeat credited' × (worth credited' + bonus ≡ worth credited + bonus')

check_from_lem :
    (cs : List Combination) (history : List Observation) (now_ms : ℕ) (credited : List ComboName)
    (bonus : ℕ)
    → IsPriced cs
    → NoRepeat credited
    → Earned credited bonus (check_from cs history now_ms credited bonus)
unfolding check_from IsPriced
check_from_lem [] history now_ms credited bonus priced d = (d, refl)
check_from_lem (c ∷ cs) history now_ms credited bonus priced d =
    let fires =
      not (contains_name credited c.name) && all_present history now_ms c.window_ms c.required in
    elim (Bool-cases fires) [
      | inr quiet ↦
          let step : check_from (c ∷ cs) history now_ms credited bonus
              ≡ check_from cs history now_ms credited bonus =
            ground arith in
          subst (Earned credited bonus) (sym step)
            (check_from_lem cs history now_ms credited bonus priced.1 d)
      | inl hit ↦
          let room = few_names credited d in
          let step : check_from (c ∷ cs) history now_ms credited bonus
              ≡ check_from cs history now_ms (credited ++ c.name ∷ []) (bonus + c.bonus) =
            ground arith in
          let (d', e) =
            check_from_lem cs history now_ms (credited ++ c.name ∷ []) (bonus + c.bonus) priced.1
              (NoRepeat-append credited c.name d (ground arith)) in
          subst (Earned credited bonus) (sym step)
            (d', omega (arith, worth-append credited c.name, priced.0))
    ]

combinations-IsPriced : IsPriced combinations
unfolding IsPriced worth
combinations-IsPriced = (refl, (refl, (refl, (refl, tt))))

-- The history and the credits of a process keep within their capacities, with no credit twice, and the
-- score is a word of 32 bits.
pub record IsValid (p : ProcessProfile) : Type 0 where
  pub remembered : length p.history ≤ history_cap
  pub once : NoRepeat p.credited
  pub word : p.score < 2 ^ 32

remember-length :
    (history : List Observation) (o : Observation)
    → length history ≤ history_cap
    → length (remember history o) ≤ history_cap
unfolding remember
remember-length history o h = ground (
  arith,
  length-append history (o ∷ []),
  length-append (drop 1 history) (o ∷ []),
  length-drop 1 history,
)

decay-IsValid : (p : ProcessProfile) (now_ms : ℕ) → IsValid p → IsValid (decay p now_ms)
unfolding decay
decay-IsValid p now_ms v = record {
  remembered = ground (arith, v.remembered);
  once = elim (Bool-cases (now_ms - p.last_decay_ms == 0)) [
    | inl still ↦ rw still v.once
    | inr some_time ↦ elim (Bool-cases (decayed p.score (now_ms - p.last_decay_ms) == 0)) [
      | inl gone ↦ rw (some_time, gone) tt
      | inr left ↦ rw (some_time, left) v.once
    ]
  ];
  word = ground (arith, v.word, decayed-le p.score (now_ms - p.last_decay_ms));
}

decay-role : (p : ProcessProfile) (now_ms : ℕ) → (decay p now_ms).role ≡ p.role
unfolding decay
decay-role p now_ms = ground arith

-- An observation keeps the history and the credits within their capacities, credits no combination twice,
-- and raises the score, once it has decayed, by no more than the points of the behaviour and what the
-- new credits are worth: all the credits together are never worth more than 210.
pub observe-IsValid :
    (p : ProcessProfile) (b : Behaviour) (now_ms : ℕ)
    → IsValid p
    → IsValid (observe p b now_ms).0
      × ((observe p b now_ms).0.score + worth (decay p now_ms).credited
          ≤ (decay p now_ms).score + points p.role b + worth (observe p b now_ms).0.credited)
      × (worth (observe p b now_ms).0.credited ≤ 210)
unfolding observe
observe-IsValid p b now_ms v =
    let q = decay p now_ms in
    let w = decay-IsValid p now_ms v in
    let o : Observation = record { behaviour = b; timestamp_ms = now_ms } in
    let (once, earned) =
      check_from_lem combinations (remember q.history o) now_ms q.credited 0 combinations-IsPriced
        w.once in
    let bounds =
      few_names (check_from combinations (remember q.history o) now_ms q.credited 0).0 once in
    (
      record {
        remembered = remember-length q.history o w.remembered;
        once = once;
        word = omega arith;
      },
      omega (arith, earned, ap (λ r. points r b) (decay-role p now_ms)),
      bounds.1,
    )
