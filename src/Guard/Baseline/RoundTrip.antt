-- ===== src/Guard/Baseline/RoundTrip.antt =====
-- A baseline that was written, and verified where no file has changed since.
use whisez_os.Prelude.{
  ℕ, ◌-◌, ◌^◌, ◌≡◌, ◌⊎◌, ap, inl, inr, refl, subst, sym, ◌∙◌, true, false, some, List, [], ◌∷◌,
  arith, length, Bool-cases, leb,
}
use whisez_os.Prelude.Results.{Result, ok, bind_ok, guard_ok, ok_injective}
use whisez_os.Guard.{Host, Failure, too_large, BaselineEntry, bytes_eq_iff, max_hash_file_bytes}
use whisez_os.Guard.Files.{lift, hash_file, absolute_path, collect_files, modified_unix}
use whisez_os.Guard.Baseline.{
  VerifyReport, all_match, is_ours, entry_of, with_entry, add_entry, entries_of, baseline_of,
  create_baseline, compare_entry, check_entry, check_entries, verify_baseline,
}
use whisez_os.Guard.Baseline.Reports.{Intact, AllIntact, lift_ok}

-- What is documented of the system and JSON: `after` is the host when a manifest has been written to
-- `output`, whose absolute path is `absolute`, and nothing else has changed. A path with a size exists,
-- its canonical form is the same file, and a manifest can be read back.
pub record Unchanged {P E S : Type 0} (host after : Host P E S) (output absolute : P) : Type 0 where
  pub kept :
      (q : P)
      → host.same q absolute ≡ false
      → host.exists q ≡ true
      → (after.exists q ≡ true)
        × (after.size_of q ≡ host.size_of q)
        × (hash_file after q ≡ hash_file host q)
  pub sized : (p : P) (n : ℕ) → host.size_of p ≡ ok n → host.exists p ≡ true
  pub canonical :
      (p q : P)
      → host.canonicalize p ≡ ok q
      → (host.exists q ≡ true)
        × (host.size_of q ≡ host.size_of p)
        × (hash_file host q ≡ hash_file host p)
  pub decoded :
      (entries : List (BaselineEntry P)) (bytes : List ℕ)
      → host.to_json (baseline_of host entries) ≡ ok bytes
      → after.from_json bytes ≡ some (baseline_of host entries)
  pub stored : (bytes : List ℕ) → host.write output bytes ≡ ok tt → after.read output ≡ ok bytes
  pub placed : absolute_path host output ≡ ok absolute
  pub located : absolute_path after output ≡ ok absolute

-- One entry for each of the files, in their order and under its absolute path, but for the files that are
-- the output.
abbrev pub Covers : {P E S : Type 0} → Host P E S → P → List P → List (BaselineEntry P) → Type 0
Covers host output [] entries = entries ≡ []
Covers {P} host output (file ∷ files) entries =
    (absolute : P) × (absolute_path host file ≡ ok absolute)
    × (((host.same absolute output ≡ true) × Covers host output files entries)
        ⊎ ((host.same absolute output ≡ false)
            × ((entry : BaselineEntry P) × (rest : List (BaselineEntry P)) × (entries
                  ≡ entry ∷ rest)
                × (entry.path ≡ absolute)
                × Covers host output files rest)))

entry_of-path :
    {P E S : Type 0} (host : Host P E S) (p : P) {entry : BaselineEntry P}
    → entry_of host p ≡ ok entry
    → absolute_path host p ≡ ok entry.path
unfolding entry_of
entry_of-path {P} host p e = bind_ok (lift (host.size_of p)) _ e λ size s e.
    guard_ok (leb size max_hash_file_bytes) (too_large p) _ e λ small e.
      bind_ok (absolute_path host p) _ e λ b at_b e.
        bind_ok (hash_file host p) _ e λ digest d e. at_b ∙ ap (λ x. ok x.path) (ok_injective e)

entries_of-Covers :
    {P E S : Type 0} (host : Host P E S) (output : P) (files : List P)
    {entries : List (BaselineEntry P)}
    → entries_of host output files ≡ ok entries
    → Covers host output files entries
unfolding entries_of add_entry with_entry
entries_of-Covers host output [] e = sym (ok_injective e)
entries_of-Covers {P} host output (p ∷ files) {entries} e =
    bind_ok (absolute_path host p) _ e λ a at e. elim (Bool-cases (host.same a output)) [
      | inl own ↦ (a, at, inl (own, entries_of-Covers host output files (ground arith)))
      | inr other ↦
          let kept : with_entry host p (entries_of host output files) ≡ ok entries = ground arith in
          bind_ok (entry_of host p) _ kept λ entry f g.
            bind_ok (entries_of host output files) _ g λ es h k. (
              a,
              at,
              inr (
                other,
                (
                  entry,
                  es,
                  sym (ok_injective k),
                  ok_injective (sym (entry_of-path host p f) ∙ at),
                  entries_of-Covers host output files h,
                ),
              ),
            )
    ]

module _ {P E S : Type 0} (host after : Host P E S) (output absolute : P)
    (laws : Unchanged host after output absolute) where
  absolute_path-exists :
      (p : P) {q : P}
      → host.exists p ≡ true
      → absolute_path host p ≡ ok q
      → host.canonicalize p ≡ ok q
  unfolding absolute_path
  absolute_path-exists p h e = lift_ok {P = P} (host.canonicalize p) (ground arith)

  entry_of-Intact :
      (p a : P) {entry : BaselineEntry P}
      → absolute_path host p ≡ ok a
      → host.same a absolute ≡ false
      → entry_of host p ≡ ok entry
      → Intact after entry
  unfolding entry_of
  entry_of-Intact p a at other e = bind_ok (lift (host.size_of p)) _ e λ size s e.
      guard_ok (leb size max_hash_file_bytes) (too_large p) _ e λ small e.
        bind_ok (absolute_path host p) _ e λ b at_b e. bind_ok (hash_file host p) _ e λ digest d e.
          let size_p = lift_ok (host.size_of p) s in
          let same_path : b ≡ a = ok_injective (sym at_b ∙ at) in
          let there = laws.sized p size size_p in
          let (exists, size_a, hash_a) = laws.canonical p a (absolute_path-exists p there at) in
          let (exists', size', hash') = laws.kept a other exists in
          subst (Intact after) (ok_injective e) (
            subst
              (λ q. Intact after (record {
                path = q;
                size = size;
                modified_unix = modified_unix host p;
                sha3_256 = digest;
              }))
              (sym same_path)
              (record {
                present = exists';
                sized = size' ∙ size_a ∙ size_p;
                digested = hash' ∙ hash_a ∙ d;
              }))

  with_entry-AllIntact :
      (p a : P) {rest : Result (Failure P E) (List (BaselineEntry P))}
      {entries : List (BaselineEntry P)}
      → absolute_path host p ≡ ok a
      → host.same a absolute ≡ false
      → ((es : List (BaselineEntry P)) → rest ≡ ok es → AllIntact after es)
      → with_entry host p rest ≡ ok entries
      → AllIntact after entries
  unfolding with_entry
  with_entry-AllIntact p a {rest} at other ih e = bind_ok (entry_of host p) _ e λ entry f e.
      bind_ok rest _ e
        λ es g e. subst (AllIntact after) (ok_injective e) (entry_of-Intact p a at other f, ih es g)

  entries_of-AllIntact :
      (paths : List P) {entries : List (BaselineEntry P)}
      → entries_of host absolute paths ≡ ok entries
      → AllIntact after entries
  unfolding entries_of add_entry
  entries_of-AllIntact [] e = subst (AllIntact after) (ok_injective e) tt
  entries_of-AllIntact (p ∷ paths) e = bind_ok (absolute_path host p) _ e λ a at e.
      elim (Bool-cases (host.same a absolute)) [
        | inl own ↦ entries_of-AllIntact paths (ground arith)
        | inr other ↦
            with_entry-AllIntact p a at other (λ es f. entries_of-AllIntact paths f) (ground arith)
      ]

  check_entries-AllIntact :
      (entries : List (BaselineEntry P))
      → AllIntact after entries
      → check_entries after entries ≡ ok (length entries, [])
  unfolding check_entries check_entry compare_entry
  check_entries-AllIntact [] all = refl
  check_entries-AllIntact (entry ∷ entries) (i, all) = ground (
    arith,
    i.present,
    i.sized,
    i.digested,
    bytes_eq_iff entry.sha3_256 entry.sha3_256,
    check_entries-AllIntact entries all,
  )

  ours : (entries : List (BaselineEntry P)) → is_ours (baseline_of host entries) ≡ true
  unfolding is_ours
  ours entries = refl

  verified :
      (entries : List (BaselineEntry P)) (json : List ℕ)
      → after.read output ≡ ok json
      → after.from_json json ≡ some (baseline_of host entries)
      → check_entries after entries ≡ ok (length entries, [])
      → verify_baseline after output
        ≡ ok (record { manifest = absolute; unchanged = length entries; findings = all_match ∷ [] })
  unfolding verify_baseline
  verified entries json a b c = ground (arith, ours entries, laws.located)

  -- A baseline that was created verifies, where nothing but its manifest was written since: it has one
  -- entry for each file that was collected, in order, but for the manifest itself, and the report counts as
  -- unchanged as many files as there are entries and says that all match.
  pub verify_baseline-create_baseline :
      (paths : List P)
      → create_baseline host paths output ≡ ok tt
      → (files : List P) × (entries : List (BaselineEntry P)) × (report : VerifyReport P)
        × (collect_files host paths (2 ^ 64 - 1) ≡ ok files)
        × Covers host absolute files entries
        × (verify_baseline after output ≡ ok report)
        × (report.unchanged ≡ length entries)
        × (report.findings ≡ all_match ∷ [])
  unfolding create_baseline
  verify_baseline-create_baseline paths e = bind_ok (absolute_path host output) _ e λ at a e.
      bind_ok (collect_files host paths (2 ^ 64 - 1)) _ e λ files f e.
        bind_ok (entries_of host at files) _ e λ entries g e.
          bind_ok (lift (host.to_json (baseline_of host entries))) _ e λ json j e.
            let same : at ≡ absolute = ok_injective (sym a ∙ laws.placed) in
            let taken = subst (λ q. entries_of host q files ≡ ok entries) same g in
            let intact = entries_of-AllIntact files taken in
            let back =
              laws.decoded entries json
                (lift_ok {P = P} (host.to_json (baseline_of host entries)) j) in
            let stored = laws.stored json (lift_ok {P = P} (host.write output json) e) in
            (
              files,
              entries,
              _,
              f,
              entries_of-Covers host absolute files taken,
              verified entries json stored back (check_entries-AllIntact entries intact),
              refl,
              refl,
            )
