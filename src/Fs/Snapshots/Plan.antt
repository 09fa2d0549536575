-- ===== src/Fs/Snapshots/Plan.antt =====
-- What a plan of `prune_plan` deletes, and how much.
use whisez_os.Prelude.{
  ℕ, ◌+◌, ◌-◌, ◌<◌, ◌≡◌, inl, inr, ap, sym, subst, ◌∙◌, some, List, [], ◌∷◌, ◌++◌, min, arith,
  length, take, length-append, length-take,
}
use mathlib.Core.List.{append-nil, append_assoc}
use whisez_os.Fs.Snapshots.{
  Retention, manual, Snapshot, plan_cap, of_class, prune_classes, prune_plan, retention_limits,
}
use whisez_os.Fs.Snapshots.Lists.{
  In, In-append, In-left, In-right, In-take, In-of_class, of_class-In, Distinct, Distinct-take,
  Distinct-append, Distinct-of_class, In-take_older, length-of_class_append, length-of_class,
  of_class-none,
}
use whisez_os.Fs.Snapshots.Doomed.{
  ids, ids-append, length-ids, IsSort, push_ids-take, excess, Within, Within-append, HasClass,
  ClassesDistinct, IsOutdated,
}

module _ (sort : List Snapshot → List Snapshot) (sorts : IsSort sort)
    (snapshots : List Snapshot) where
  picked : Retention → ℕ → ℕ → List Snapshot
  picked c limit room =
      let found = of_class c snapshots in take room (take (length found - limit) (sort found))

  -- What is deleted, with room for so many.
  chosen : List (Retention × ℕ) → ℕ → List Snapshot
  chosen [] room = []
  chosen ((c, limit) ∷ limits) room =
      picked c limit room ++ chosen limits (room - length (picked c limit room))

  length-picked :
      (c : Retention) (limit room : ℕ)
      → length (picked c limit room) ≡ min room (length (of_class c snapshots) - limit)
  unfolding picked
  length-picked c limit room =
      let found = of_class c snapshots in
      omega (
        arith,
        length-take room (take (length found - limit) (sort found)),
        length-take (length found - limit) (sort found),
        sorts.size found,
      )

  picked-In :
      (c : Retention) (limit room : ℕ) (s : Snapshot)
      → In s (picked c limit room)
      → In s snapshots × (s.retention ≡ c)
  unfolding picked
  picked-In c limit room s i =
      In-of_class c s snapshots (sorts.adds_none s _ (In-take s _ _ (In-take s room _ i)))

  prune_classes-chosen :
      (limits : List (Retention × ℕ)) (doomed : List ℕ) (n : ℕ) {plan : List ℕ}
      → length doomed + n ≡ plan_cap
      → prune_classes sort limits snapshots doomed ≡ some plan
      → plan ≡ doomed ++ ids (chosen limits n)
  unfolding prune_classes chosen picked
  prune_classes-chosen [] doomed n {plan} h e =
      let same : plan ≡ doomed = cc (e) in rw append-nil same
  prune_classes-chosen ((c, limit) ∷ limits) doomed n {plan} h e =
      let found = of_class c snapshots in
      let all = take (length found - limit) (sort found) in
      let part = take n all in
      let pushed = push_ids-take all doomed n h in
      let rest : prune_classes sort limits snapshots (doomed ++ ids part) ≡ some plan =
        ground (arith, pushed) in
      prune_classes-chosen limits (doomed ++ ids part) (n - length part) {plan = plan}
        (omega (arith, length-append doomed (ids part), length-ids part, length-take n all, h)) rest
      ∙ append_assoc doomed (ids part) (ids (chosen limits (n - length part)))
      ∙ ap (λ r. doomed ++ r) (sym (ids-append part (chosen limits (n - length part))))

  length-chosen :
      (limits : List (Retention × ℕ)) (room : ℕ)
      → length (chosen limits room) ≡ min room (excess limits snapshots)
  unfolding chosen
  length-chosen [] room = omega arith
  length-chosen ((c, limit) ∷ limits) room =
      let part = picked c limit room in
      omega (
        arith,
        length-append part (chosen limits (room - length part)),
        length-picked c limit room,
        length-chosen limits (room - length part),
      )

  chosen-In :
      (limits : List (Retention × ℕ)) (room : ℕ) (s : Snapshot)
      → In s (chosen limits room)
      → In s snapshots × HasClass s.retention limits
  unfolding chosen
  chosen-In [] room s i = absurd i
  chosen-In ((c, limit) ∷ limits) room s i = elim (In-append s (picked c limit room) _ i) [
    | inl here ↦ let (present, class) = picked-In c limit room s here in (present, inl class)
    | inr later ↦
        let (present, class) = chosen-In limits (room - length (picked c limit room)) s later in
        (present, inr class)
  ]

  chosen-oldest_first :
      (limits : List (Retention × ℕ)) (room : ℕ) (s t : Snapshot)
      → In s (chosen limits room)
      → In t snapshots
      → t.retention ≡ s.retention
      → t.created_ms < s.created_ms
      → In t (chosen limits room)
  unfolding chosen picked
  chosen-oldest_first [] room s t i present same older = absurd i
  chosen-oldest_first ((c, limit) ∷ limits) room s t i present same older =
      let found = of_class c snapshots in
      let all = take (length found - limit) (sort found) in
      let rest = chosen limits (room - length (take room all)) in
      elim (In-append s (take room all) rest i) [
        | inl here ↦
            let class = (picked-In c limit room s here).1 in
            let t_found =
              sorts.loses_none t found (of_class-In c t snapshots present (same ∙ class)) in
            In-left t (take room all) rest (
              In-take_older room (length found - limit) (sort found) s t (sorts.ordered found) here
                t_found older)
        | inr later ↦ In-right t (take room all) rest (
            chosen-oldest_first limits (room - length (take room all)) s t later present same older)
      ]

  chosen-Distinct :
      (limits : List (Retention × ℕ)) (room : ℕ)
      → Distinct snapshots
      → ClassesDistinct limits
      → Distinct (chosen limits room)
  unfolding chosen picked
  chosen-Distinct [] room d cs = tt
  chosen-Distinct ((c, limit) ∷ limits) room d (c_new, cs) =
      let found = of_class c snapshots in
      let all = take (length found - limit) (sort found) in
      let left = room - length (take room all) in
      Distinct-append (take room all) (chosen limits left) snapshots d
        (λ s i. (picked-In c limit room s i).0) (λ s i. (chosen-In limits left s i).0)
        (λ s i j. c_new (
          subst (λ r. HasClass r limits) (picked-In c limit room s i).1
            (chosen-In limits left s j).1))
        (Distinct-take room all (
          Distinct-take (length found - limit) (sort found)
            (sorts.repeats_none found (Distinct-of_class c snapshots d))))
        (chosen-Distinct limits left d cs)

  chosen-Within :
      (limits : List (Retention × ℕ)) (room : ℕ)
      → ClassesDistinct limits
      → Within limits snapshots (chosen limits room)
  unfolding chosen
  chosen-Within [] room cs = tt
  chosen-Within ((c, limit) ∷ limits) room (c_new, cs) =
      let part = picked c limit room in
      let left = room - length part in
      (
        omega (
          arith,
          length-of_class_append c part (chosen limits left),
          length-of_class c part,
          length-picked c limit room,
          ap length (
              of_class-none c (chosen limits left)
                (λ s i e. c_new (subst (λ r. HasClass r limits) e (chosen-In limits left s i).1))),
        ),
        Within-append limits snapshots part (chosen limits left)
            (λ s i h. c_new (subst (λ r. HasClass r limits) (picked-In c limit room s i).1 h))
            (chosen-Within limits left cs),
      )

  -- For a list of snapshots with different identities, where no class has more than 128: a plan deletes
  -- different snapshots of the list, never one that its user made; of each class no more than it has over
  -- its limit, the oldest first; and in all as many as the classes have over their limits, or 64 if that
  -- is less.
  pub prune_plan_sound :
      {plan : List ℕ}
      → Distinct snapshots
      → prune_plan sort snapshots ≡ some plan
      → (doomed : List Snapshot) × (plan ≡ ids doomed)
        × Distinct doomed
        × Within retention_limits snapshots doomed
        × (length doomed ≡ min plan_cap (excess retention_limits snapshots))
        × ((s : Snapshot) → In s doomed → IsOutdated snapshots doomed s)
  unfolding prune_plan
  prune_plan_sound d e =
      let doomed = chosen retention_limits plan_cap in
      (
        doomed,
        prune_classes-chosen retention_limits [] plan_cap (omega arith) e,
        chosen-Distinct retention_limits plan_cap d limits_differ,
        chosen-Within retention_limits plan_cap limits_differ,
        length-chosen retention_limits plan_cap,
        λ s i. record {
          present = (chosen-In retention_limits plan_cap s i).0;
          prunable = λ m. none_manual (
              subst (λ r. HasClass r retention_limits) m
                (chosen-In retention_limits plan_cap s i).1);
          oldest_first = λ t. chosen-oldest_first retention_limits plan_cap s t i;
        },
      )
    where
      limits_differ : ClassesDistinct retention_limits
      limits_differ = (ground arith, (ground arith, (ground arith, ((λ h. absurd h), tt))))

      none_manual : ¬ HasClass manual retention_limits
      none_manual = ground arith
