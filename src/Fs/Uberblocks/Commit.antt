-- ===== src/Fs/Uberblocks/Commit.antt =====
-- Which uberblock is mounted, before and after a commit.
use whisez_os.Prelude.{
  ℕ, zero, suc, ◌+◌, ◌%◌, ◌^◌, ◌≤◌, ◌<◌, ◌≡◌, ◌⊎◌, refl, sym, subst, length, replicate, ℕ_discrete,
  dec_lt, get_elem?-set_self, ◌∙◌, get_elem?-set_ne, Bool, true, false, Option, none, some, List,
  [], ◌∷◌, arith, ltb, Bool-cases, inl, inr, get_elem?, set,
}
use whisez_os.Fs.Uberblocks.{
  Uberblock, is_valid, select_newest_valid, next_slot, uberblock_slots, magic_word, version_word,
  verify_checksum_ignores_content,
}

module _ (bytes_of : Uberblock → List ℕ) where
  -- No valid uberblock of the slots is newer.
  abbrev pub NoneNewer : ℕ → List (Option Uberblock) → Type 0
  NoneNewer t [] = Unit {0}
  NoneNewer t (none ∷ slots) = NoneNewer t slots
  NoneNewer t (some u ∷ slots) = (is_valid bytes_of u ≡ true → u.txg ≤ t) × NoneNewer t slots

  abbrev pub NoneValid : List (Option Uberblock) → Type 0
  NoneValid [] = Unit {0}
  NoneValid (none ∷ slots) = NoneValid slots
  NoneValid (some u ∷ slots) = (is_valid bytes_of u ≡ false) × NoneValid slots

  abbrev pub Selects : List (Option Uberblock) → Option Uberblock → Type 0
  Selects slots none = NoneValid slots
  Selects slots (some u) =
      (is_valid bytes_of u ≡ true)
      × NoneNewer u.txg slots
      × ((i : ℕ) × (get_elem? slots i ≡ some (some u)))

  NoneNewer-mono :
      (s t : ℕ) (slots : List (Option Uberblock)) → s ≤ t → NoneNewer s slots → NoneNewer t slots
  NoneNewer-mono s t [] h n = tt
  NoneNewer-mono s t (none ∷ slots) h n = NoneNewer-mono s t slots h n
  NoneNewer-mono s t (some u ∷ slots) h n =
      (λ v. ground (arith, n.0 v), NoneNewer-mono s t slots h n.1)

  NoneValid-newer : (t : ℕ) (slots : List (Option Uberblock)) → NoneValid slots → NoneNewer t slots
  NoneValid-newer t [] n = tt
  NoneValid-newer t (none ∷ slots) n = NoneValid-newer t slots n
  NoneValid-newer t (some u ∷ slots) n = (λ v. absurd (cc (n.0, v)), NoneValid-newer t slots n.1)

  -- The uberblock that is selected is valid, stands in a slot, and no valid one is newer; if none is
  -- selected, none is valid.
  pub select_newest_valid-Selects :
      (slots : List (Option Uberblock)) → Selects slots (select_newest_valid bytes_of slots)
  unfolding select_newest_valid
  select_newest_valid-Selects [] = tt
  select_newest_valid-Selects (none ∷ slots) =
      go (select_newest_valid bytes_of slots) (select_newest_valid-Selects slots)
    where
      go : (o : Option Uberblock) → Selects slots o → Selects (none ∷ slots) o
      go none s = s
      go (some v) (v', n, at) = (v', n, (suc at.0, at.1))
  select_newest_valid-Selects (some u ∷ slots) =
      go (select_newest_valid bytes_of slots) (select_newest_valid-Selects slots) refl
        (is_valid bytes_of u) refl
    where
      go :
          (o : Option Uberblock)
          → Selects slots o
          → select_newest_valid bytes_of slots ≡ o
          → (b : Bool) → is_valid bytes_of u ≡ b
          → Selects (some u ∷ slots) (select_newest_valid bytes_of (some u ∷ slots))
      go none s h true v =
          rw (h, v, select_newest_valid)
            (v, (λ _. omega arith, NoneValid-newer u.txg slots s), (0, refl))
      go none s h false v = rw (h, v, select_newest_valid) (v, s)
      go (some w) (ok, n, at) h false v =
          rw (h, v, select_newest_valid) (ok, (λ bad. absurd (cc (v, bad)), n), (suc at.0, at.1))
      go (some w) (ok, n, at) h true v = elim (Bool-cases (ltb w.txg u.txg)) [
        | inl less ↦
            rw (h, v, less, select_newest_valid)
              (v, (λ _. omega arith, NoneNewer-mono w.txg u.txg slots (ground arith) n), (0, refl))
        | inr more ↦
            rw (h, v, more, select_newest_valid) (ok, (λ _. ground arith, n), (suc at.0, at.1))
      ]

  NoneNewer-at :
      (t i : ℕ) (slots : List (Option Uberblock)) (u : Uberblock)
      → NoneNewer t slots
      → get_elem? slots i ≡ some (some u)
      → is_valid bytes_of u ≡ true
      → u.txg ≤ t
  NoneNewer-at t i [] u n e v = cc
  NoneNewer-at t zero (none ∷ slots) u n e v = absurd (cc (e))
  NoneNewer-at t zero (some w ∷ slots) u n e v = ground (arith, n.0)
  NoneNewer-at t (suc i) (none ∷ slots) u n e v = NoneNewer-at t i slots u n e v
  NoneNewer-at t (suc i) (some w ∷ slots) u n e v = NoneNewer-at t i slots u n.1 e v

  NoneValid-at :
      (i : ℕ) (slots : List (Option Uberblock)) (u : Uberblock)
      → NoneValid slots
      → get_elem? slots i ≡ some (some u)
      → is_valid bytes_of u ≡ false
  NoneValid-at i [] u n e = cc
  NoneValid-at zero (none ∷ slots) u n e = cc
  NoneValid-at zero (some w ∷ slots) u n e = ground (arith, n.0)
  NoneValid-at (suc i) (none ∷ slots) u n e = NoneValid-at i slots u n e
  NoneValid-at (suc i) (some w ∷ slots) u n e = NoneValid-at i slots u n.1 e

  NoneNewer-set :
      (t i : ℕ) (slots : List (Option Uberblock)) (w : Uberblock)
      → (is_valid bytes_of w ≡ true → w.txg ≤ t)
      → NoneNewer t slots
      → NoneNewer t (set slots i (some w))
  NoneNewer-set t i [] w old n = tt
  NoneNewer-set t zero (none ∷ slots) w old n = (old, n)
  NoneNewer-set t zero (some u ∷ slots) w old n = (old, n.1)
  NoneNewer-set t (suc i) (none ∷ slots) w old n = NoneNewer-set t i slots w old n
  NoneNewer-set t (suc i) (some u ∷ slots) w old n = (n.0, NoneNewer-set t i slots w old n.1)

  -- What a mount accepts, as the hash is: the fields before the checksum have no part in it.
  abbrev pub Verifies : Uberblock → Type 0
  Verifies w =
      (w.magic ≡ magic_word) × (w.version ≤ version_word) × (w.self_checksum ≡ replicate 32 0)

  Verifies-is_valid : (w : Uberblock) → Verifies w → is_valid bytes_of w ≡ true
  unfolding is_valid
  Verifies-is_valid w (magic, version, sum) =
      ground (arith, (verify_checksum_ignores_content bytes_of w).1 sum)

  is_valid-Verifies : (w : Uberblock) → is_valid bytes_of w ≡ true → Verifies w
  unfolding is_valid
  is_valid-Verifies w v =
      (ground arith, ground arith, (verify_checksum_ignores_content bytes_of w).0 (ground arith))

  module _ (slots : List (Option Uberblock)) (u w : Uberblock)
      (sel : select_newest_valid bytes_of slots ≡ some u) where
    after : List (Option Uberblock)
    after = set slots (next_slot u) (some w)

    before : Selects slots (some u)
    before = subst (Selects slots) sel (select_newest_valid-Selects slots)

    commit_keeps_newest :
        get_elem? slots (u.txg % uberblock_slots) ≡ some (some u)
        → (is_valid bytes_of w ≡ true → w.txg ≤ u.txg)
        → (v : Uberblock) × (select_newest_valid bytes_of after ≡ some v) × (v.txg ≡ u.txg)
    unfolding after next_slot
    commit_keeps_newest at old =
        go (select_newest_valid bytes_of after) (select_newest_valid-Selects after) refl
      where
        still : get_elem? after (u.txg % uberblock_slots) ≡ some (some u)
        still = get_elem?-set_ne slots (some w) (λ same. absurd (omega arith)) ∙ at

        newest : NoneNewer u.txg after
        newest = NoneNewer-set u.txg _ slots w old before.1

        go :
            (o : Option Uberblock)
            → Selects after o
            → select_newest_valid bytes_of after ≡ o
            → (v : Uberblock) × (select_newest_valid bytes_of after ≡ some v) × (v.txg ≡ u.txg)
        go none s h = absurd (cc (before.0, NoneValid-at (u.txg % uberblock_slots) after u s still))
        go (some v) (ok, n, place) h =
            let up = NoneNewer-at v.txg _ after u n still before.0 in
            let down = NoneNewer-at u.txg place.0 after v newest place.1 ok in (v, h, omega arith)

    commit_selected :
        length slots ≡ uberblock_slots
        → is_valid bytes_of w ≡ true
        → u.txg < w.txg
        → select_newest_valid bytes_of after ≡ some w
    unfolding after next_slot
    commit_selected four valid newer =
        go (select_newest_valid bytes_of after) (select_newest_valid-Selects after)
      where
        slot : ℕ
        slot = ((u.txg + 1) % 2 ^ 64) % uberblock_slots

        placed : get_elem? after slot ≡ some (some w)
        placed = get_elem?-set_self slots slot (some w) (omega (arith, four))

        go : (o : Option Uberblock) → Selects after o → o ≡ some w
        go none s = absurd (cc (valid, NoneValid-at slot after w s placed))
        go (some v) (ok, n, (j, found)) = elim (ℕ_discrete slot j) [
          | yes same ↦ cc (placed, found)
          | no other ↦
              let there : get_elem? slots j ≡ some (some v) =
                sym (get_elem?-set_ne slots (some w) other) ∙ found in
              let up = NoneNewer-at v.txg slot after w n placed valid in
              let down = NoneNewer-at u.txg j slots v before.1 there ok in absurd (omega arith)
        ]

    -- The mount after a commit, whole or torn: on the four slots, if the uberblock that is mounted stands
    -- in the slot of its transaction group, then whatever block the commit leaves in the next slot is
    -- mounted exactly if it has the magic word, a known version, 32 zero bytes for its checksum and a
    -- later transaction group. The roots that it holds have no part in this, so a torn block that meets
    -- it is mounted. Else an uberblock of the same transaction group as before is.
    pub commit_mounts :
        length slots ≡ uberblock_slots
        → get_elem? slots (u.txg % uberblock_slots) ≡ some (some u)
        → let mounted = select_newest_valid bytes_of (set slots (next_slot u) (some w)) in
          (Verifies w × (u.txg < w.txg) × (mounted ≡ some w))
          ⊎ ((Verifies w → w.txg ≤ u.txg)
              × ((v : Uberblock) × (mounted ≡ some v) × (v.txg ≡ u.txg)))
    unfolding after
    commit_mounts four at = elim (Bool-cases (is_valid bytes_of w)) [
      | inr bad ↦ inr (
        (λ ok. absurd (cc (bad, Verifies-is_valid w ok))),
        commit_keeps_newest at (λ ok. absurd (cc (bad, ok))),
      )
      | inl valid ↦ elim (dec_lt u.txg w.txg) [
        | yes newer ↦ inl (is_valid-Verifies w valid, newer, commit_selected four valid newer)
        | no old ↦ inr ((λ ok. omega arith), commit_keeps_newest at (λ ok. omega arith))
      ]
    ]
