-- ===== src/Guard/Baseline/Reports.antt =====
-- What a report of `verify` says of the files.
use whisez_os.Prelude.{
  ℕ, ◌+◌, ◌≡◌, ◌≢◌, ◌↔◌, ◌⊎◌, inl, inr, refl, subst, if◌then◌else◌, true, not, ◌||◌, Option, none,
  some, List, [], ◌∷◌, ◌==◌, arith, length, Bool-cases,
}
use whisez_os.Prelude.Results.{
  Result, ok, err, ok_or, bind_ok, guard_ok, Result-cases, ok_injective,
}
use whisez_os.Guard.{
  Host, invalid_json, foreign_manifest, Finding, critical, BaselineEntry, Manifest, bytes_eq,
  bytes_eq_iff,
}
use whisez_os.Guard.Files.{lift, hash_file, absolute_path}
use whisez_os.Guard.Baseline.{
  VerifyReport, missing, changed, all_match, counted, or_all_match, is_ours, compare_entry,
  check_entry, check_entries, verify_baseline,
}

abbrev pub AllCritical : {P : Type 0} → List (Finding P) → Type 0
AllCritical [] = Unit {0}
AllCritical (f ∷ fs) = (f.severity ≡ critical) × AllCritical fs

pub lift_ok : {P E A : Type 0} (r : Result E A) {a : A} → lift {P = P} r ≡ ok a → r ≡ ok a
lift_ok (ok x) e = cc
lift_ok (err x) e = cc

ok_or_ok : {E A : Type 0} (o : Option A) (x : E) {a : A} → ok_or o x ≡ ok a → o ≡ some a
ok_or_ok none x e = cc
ok_or_ok (some b) x e = cc

module _ {P E S : Type 0} (host : Host P E S) where
  -- The file of an entry is there, with the size and the digest of the baseline.
  pub record Intact (entry : BaselineEntry P) : Type 0 where
    pub present : host.exists entry.path ≡ true
    pub sized : host.size_of entry.path ≡ ok entry.size
    pub digested : hash_file host entry.path ≡ ok entry.sha3_256

  abbrev pub AllIntact : List (BaselineEntry P) → Type 0
  AllIntact [] = Unit {0}
  AllIntact (entry ∷ entries) = Intact entry × AllIntact entries

  abbrev pub Judged : BaselineEntry P → Option (Finding P) → Type 0
  Judged entry v =
      ((v ≡ none) × Intact entry)
      ⊎ ((f : Finding P) × (v ≡ some f) × (f.severity ≡ critical) × ¬ Intact entry)

  compared :
      (entry : BaselineEntry P) (size : ℕ) (digest : List ℕ)
      → host.exists entry.path ≡ true
      → host.size_of entry.path ≡ ok size
      → hash_file host entry.path ≡ ok digest
      → Judged entry (
          if not (size == entry.size) || not (bytes_eq digest entry.sha3_256)
          then some (changed entry.path)
          else none)
  compared entry size digest there sized digested =
      elim (Bool-cases (not (size == entry.size) || not (bytes_eq digest entry.sha3_256))) [
        | inl differs ↦ rw differs (
            inr (
              changed entry.path,
              refl,
              refl,
              λ i. ground (arith, i.sized, i.digested, bytes_eq_iff digest entry.sha3_256),
            ))
        | inr agrees ↦ rw agrees (
            inl (
              refl,
              record {
                present = there;
                sized = ground arith;
                digested = ground (arith, bytes_eq_iff digest entry.sha3_256);
              },
            ))
      ]

  check_entry-Judged :
      (entry : BaselineEntry P) {v : Option (Finding P)}
      → check_entry host entry ≡ ok v
      → Judged entry v
  unfolding check_entry compare_entry
  check_entry-Judged entry e = elim (Bool-cases (host.exists entry.path)) [
    | inr gone ↦ inr (missing entry.path, ground arith, refl, λ i. cc (i.present))
    | inl there ↦ elim (Result-cases (host.size_of entry.path)) [
      | inr (x, sized) ↦ absurd (ground arith)
      | inl (size, sized) ↦ elim (Result-cases (hash_file host entry.path)) [
        | inr (x, digested) ↦ absurd (ground arith)
        | inl (digest, digested) ↦
            subst (Judged entry) (ground arith) (compared entry size digest there sized digested)
      ]
    ]
  ]

  -- The count and the findings add up to the files, all findings are critical, and there are none
  -- exactly when every file is intact.
  abbrev pub Sums : List (BaselineEntry P) → ℕ × List (Finding P) → Type 0
  Sums entries (unchanged, findings) =
      (unchanged + length findings ≡ length entries)
      × AllCritical findings
      × ((findings ≡ []) ↔ AllIntact entries)

  Sums-counted :
      (entry : BaselineEntry P) (entries : List (BaselineEntry P)) (v : Option (Finding P))
      (r : ℕ × List (Finding P))
      → Judged entry v
      → Sums entries r
      → Sums (entry ∷ entries) (counted v r)
  Sums-counted entry entries none r j s = elim j [
    | inl (e, intact) ↦ (omega arith, s.1, (λ e. (intact, s.2.0 e), λ all. s.2.1 all.1))
    | inr (f, e, c, broken) ↦ absurd (none_eq e)
  ]
    where
      none_eq : {f : Finding P} → none ≡ some f → ⊥
      none_eq e = cc
  Sums-counted entry entries (some f) r j s = elim j [
    | inl (e, intact) ↦ absurd (some_eq e)
    | inr (g, e, c, broken) ↦
        (omega arith, (same e c, s.1), (λ e. absurd (cons_eq e), λ all. absurd (broken all.0)))
  ]
    where
      some_eq : {f : Finding P} → some f ≡ none → ⊥
      some_eq e = cc

      cons_eq : {f : Finding P} {fs : List (Finding P)} → f ∷ fs ≡ [] → ⊥
      cons_eq e = cc

      same : {f g : Finding P} → some f ≡ some g → g.severity ≡ critical → f.severity ≡ critical
      same e c = ground arith

  check_entries-Sums :
      (entries : List (BaselineEntry P)) {r : ℕ × List (Finding P)}
      → check_entries host entries ≡ ok r
      → Sums entries r
  unfolding check_entries
  check_entries-Sums [] e = subst (Sums []) (ok_injective e) (refl, tt, (λ e. tt, λ e. refl))
  check_entries-Sums (entry ∷ entries) e = bind_ok (check_entry host entry) _ e λ found f e.
      bind_ok (check_entries host entries) _ e λ rest g e.
        subst (Sums (entry ∷ entries)) (ok_injective e) (
          Sums-counted entry entries found rest (check_entry-Judged entry f)
            (check_entries-Sums entries g))

  -- A report says that every file matches, and counts them all, or it has critical findings only, one
  -- for each file that is not as the baseline has it.
  abbrev pub Reports : List (BaselineEntry P) → VerifyReport P → Type 0
  Reports entries report =
      (AllIntact entries × (report.unchanged ≡ length entries) × (report.findings ≡ all_match ∷ []))
      ⊎ ((¬ AllIntact entries)
          × AllCritical report.findings
          × (report.findings ≢ [])
          × (report.unchanged + length report.findings ≡ length entries))

  Sums-Reports :
      (entries : List (BaselineEntry P)) (path : P) (unchanged : ℕ) (findings : List (Finding P))
      → Sums entries (unchanged, findings)
      → Reports entries
          (record { manifest = path; unchanged = unchanged; findings = or_all_match findings })
  Sums-Reports entries path unchanged [] (total, c, e) = inl (e.0 refl, omega arith, refl)
  Sums-Reports entries path unchanged (f ∷ fs) (total, c, e) =
      inr ((λ all. cc (e.1 all)), c, (λ e. cc), total)

  -- A report that `verify_baseline` gives is on a manifest of this program that the file holds.
  pub verify_baseline-Reports :
      (path : P) {report : VerifyReport P}
      → verify_baseline host path ≡ ok report
      → (bytes : List ℕ) × (baseline : Manifest P) × (host.read path ≡ ok bytes)
        × (host.from_json bytes ≡ some baseline)
        × (is_ours baseline ≡ true)
        × Reports baseline.files report
  unfolding verify_baseline
  verify_baseline-Reports path e = bind_ok (lift (host.read path)) _ e λ bytes a e.
      bind_ok (ok_or (host.from_json bytes) invalid_json) _ e λ baseline b e.
        guard_ok (is_ours baseline) foreign_manifest _ e λ ours e.
          bind_ok (check_entries host baseline.files) _ e λ checked c e.
            bind_ok (absolute_path host path) _ e λ absolute d e. (
              bytes,
              baseline,
              lift_ok (host.read path) a,
              ok_or_ok (host.from_json bytes) _ b,
              ours,
              subst (Reports baseline.files) (ok_injective e) (
                  Sums-Reports baseline.files absolute checked.0 checked.1
                    (check_entries-Sums baseline.files c)),
            )
