-- ===== src/Tests/Guards.antt =====
-- The guard on a host with numbers for paths: 1 is a file of two bytes, 2 a folder with it and the
-- manifest, 9 the manifest, which `saved` has and `host` has not.
use whisez_os.Prelude.{
  ℕ, ◌≡◌, ◌↔◌, ◌⊎◌, refl, sym, subst, ap, Bool, true, false, ◌||◌, Option, none, some, List, [],
  ◌∷◌, ◌++◌, ◌==◌, ◌-◌, ◌^◌, ltb, if◌then◌else◌, length, arith, Bool-cases, inl, inr,
}
use whisez_os.Prelude.Results.{Result, ok, err, ok_injective}
use text.Mathlib.Text.{◌==◌ as str_eq}
use whisez_os.Guard.{Host, BaselineEntry, Manifest, bytes_eq, bytes_eq_iff}
use whisez_os.Guard.Files.{
  absolute_path, fresh_path, parent_or_here, modified_unix, hash_file, hash_chunks, hex_of,
  collect_files, collect_from, collect_root, walk_files, insert,
}
use whisez_os.Guard.Baseline.{
  VerifyReport, all_match, is_ours, create_baseline, entries_of, add_entry, with_entry, entry_of,
  verify_baseline, check_entries, check_entry, compare_entry,
}
use whisez_os.Guard.Baseline.Reports.{AllIntact}
use whisez_os.Guard.Baseline.RoundTrip.{Unchanged, Covers, verify_baseline-create_baseline}
use whisez_os.Guard.Indicators.{
  contains_joined, any_window, window_is, indicator_matches, matches_among, bytes_of,
}
use whisez_os.Guard.Indicators.Windows.{Occurs, contains_joined_iff}
use whisez_os.Guard.Scan.{
  scan_path, scan_files, scan_file, inspect, judge, to_ascii_lowercase, nothing_found,
}
use whisez_os.Guard.Commands.{
  main, any_critical, is_critical, verify, exited, returned, main-verify,
}

abbrev entry_json : BaselineEntry ℕ → List ℕ
entry_json e = e.path ∷ e.size ∷ e.modified_unix ∷ e.sha3_256

abbrev json_of : List (BaselineEntry ℕ) → Result (Unit {0}) (List ℕ)
json_of [] = ok []
json_of (e ∷ []) = ok (entry_json e)
json_of (e ∷ f ∷ es) = err tt

abbrev entries_from : List ℕ → List (BaselineEntry ℕ)
entries_from (path ∷ size ∷ modified ∷ digest) =
    record { path = path; size = size; modified_unix = modified; sha3_256 = digest } ∷ []
entries_from bytes = []

abbrev manifest : List (BaselineEntry ℕ) → Manifest ℕ
manifest entries = record {
  product = "Whisez Guard";
  version = 1;
  created_unix = 5;
  files = entries;
}

abbrev present : Option (List ℕ) → ℕ → Bool
present none p = p == 1 || p == 2
present (some b) p = p == 1 || p == 2 || p == 9

-- With the contents of file 1 and of the manifest, if it is there.
abbrev machine : List ℕ → Option (List ℕ) → Host ℕ (Unit {0}) (List ℕ)
machine file saved = record {
  before = ltb;
  same = λ p q. p == q;
  exists = λ p. present saved p;
  is_file = λ p. p == 1 || p == 9;
  is_dir = λ p. p == 2;
  walk = λ p. (1, true) ∷ (2, false) ∷ (9, true) ∷ [];
  size_of = λ p. if p == 1 then ok (length file) else err tt;
  modified = λ p. none;
  read = λ p. if p == 1 then ok file else elim saved [ none ↦ err tt | some b ↦ ok b ];
  chunks = λ p. if p == 1 then ok (file ∷ []) else err tt;
  write = λ p b. if bytes_eq b (1 ∷ 2 ∷ 0 ∷ 48 ∷ 55 ∷ 48 ∷ 56 ∷ []) then ok tt else err tt;
  canonicalize = λ p. if present saved p then ok p else err tt;
  parent = λ p. some 2;
  is_empty = λ p. false;
  here = 2;
  file_name = λ p. some p;
  join = λ p q. q;
  new = [];
  update = λ b s. s ++ b;
  finalize = λ s. s;
  to_json = λ m. json_of m.files;
  from_json = λ b. some (manifest (entries_from b));
  now_unix = 5;
}

abbrev host : Host ℕ (Unit {0}) (List ℕ)
host = machine (7 ∷ 8 ∷ []) none

-- The entry of file 1, as it is written.
abbrev entry : BaselineEntry ℕ
entry = record { path = 1; size = 2; modified_unix = 0; sha3_256 = b'0' ∷ b'7' ∷ b'0' ∷ b'8' ∷ [] }

abbrev saved : Host ℕ (Unit {0}) (List ℕ)
saved = machine (7 ∷ 8 ∷ []) (some (entry_json entry))

created : create_baseline host (1 ∷ []) 9 ≡ ok tt
unfolding create_baseline absolute_path fresh_path collect_files collect_from collect_root insert
    entries_of add_entry with_entry entry_of hash_file hash_chunks hex_of modified_unix
    parent_or_here
created = refl

decoded :
    (entries : List (BaselineEntry ℕ)) (bytes : List ℕ)
    → json_of entries ≡ ok bytes
    → ◌≡◌ {A = Option (Manifest ℕ)} (some (manifest (entries_from bytes))) (some (manifest entries))
decoded [] bytes e = ground arith
decoded (x ∷ []) bytes e = ap (λ b. some (manifest (entries_from b))) (sym (ok_injective e))
decoded (x ∷ y ∷ entries) bytes e = cc

canonical :
    (p q : ℕ)
    → (present none p ≡ true) ⊎ (present none p ≡ false)
    → host.canonicalize p ≡ ok q
    → (host.exists q ≡ true)
      × (host.size_of q ≡ host.size_of p)
      × (hash_file host q ≡ hash_file host p)
canonical p q (inr gone) e = absurd (ground arith)
canonical p q (inl there) e =
    let same : p ≡ q = ground arith in
    (
      subst (λ r. host.exists r ≡ true) same there,
      ap host.size_of (sym same),
      ap (hash_file host) (sym same),
    )

same_hash :
    (chunks : List (List ℕ)) (s : List ℕ) → hash_chunks saved chunks s ≡ hash_chunks host chunks s
unfolding hash_chunks
same_hash [] s = refl
same_hash ([] ∷ chunks) s = refl
same_hash ((b ∷ bs) ∷ chunks) s = same_hash chunks (s ++ b ∷ bs)

same_file : (q : ℕ) → hash_file saved q ≡ hash_file host q
unfolding hash_file
same_file q = elim (Bool-cases (q == 1)) [
  | inl one ↦ ground (arith, same_hash ((7 ∷ 8 ∷ []) ∷ []) [])
  | inr other ↦ ground arith
]

unchanged : Unchanged host saved 9 9
unfolding hash_file absolute_path fresh_path parent_or_here
unchanged = record {
  kept = λ q other there. (ground arith, refl, same_file q);
  sized = λ p n e. ground arith;
  canonical = λ p q e. canonical p q (Bool-cases (present none p)) e;
  decoded = decoded;
  stored = λ bytes e. ap ok (sym ((bytes_eq_iff bytes (entry_json entry)).0 (ground arith)));
  placed = refl;
  located = refl;
}

verify_baseline-create_baseline_example :
    (files : List ℕ) × (entries : List (BaselineEntry ℕ)) × (report : VerifyReport ℕ)
    × (collect_files host (1 ∷ []) (2 ^ 64 - 1) ≡ ok files)
    × Covers host 9 files entries
    × (verify_baseline saved 9 ≡ ok report)
    × (report.unchanged ≡ length entries)
    × (report.findings ≡ all_match ∷ [])
verify_baseline-create_baseline_example =
    verify_baseline-create_baseline host saved 9 9 unchanged (1 ∷ []) created

-- The host where file 1 has another byte.
abbrev modified : Host ℕ (Unit {0}) (List ℕ)
modified = machine (7 ∷ 9 ∷ []) (some (entry_json entry))

exits : main [] modified (verify 9) ≡ ok (exited 2)
unfolding main verify_baseline is_ours check_entries check_entry compare_entry hash_file hash_chunks
    hex_of any_critical is_critical absolute_path
exits = refl

main-verify_example :
    (bytes : List ℕ) × (m : Manifest ℕ) × (modified.read 9 ≡ ok bytes)
    × (modified.from_json bytes ≡ some m)
    × (str_eq m.product "Whisez Guard" ≡ true)
    × (m.version ≡ 1)
    × (((exited 2 ≡ returned) × AllIntact modified m.files)
        ⊎ ((exited 2 ≡ exited 2) × ¬ AllIntact modified m.files))
main-verify_example = main-verify [] modified 9 exits

contains_joined_iff_example :
    (contains_joined (bytes_of "use VirtualAlloc") (bytes_of "virtual") (bytes_of "alloc") ≡ true)
    ↔ Occurs (bytes_of "virtual" ++ bytes_of "alloc") (bytes_of "use VirtualAlloc")
contains_joined_iff_example =
    contains_joined_iff (bytes_of "use VirtualAlloc") (bytes_of "virtual") (bytes_of "alloc")
      (omega arith)

found : contains_joined (bytes_of "a virtualalloc b") (bytes_of "virtual") (bytes_of "alloc") ≡ true
unfolding contains_joined any_window window_is
found = refl

scanned :
    scan_path host 2 10
    ≡ ok (record {
      root = 2;
      files_inspected = 1;
      bytes_inspected = 2;
      truncated = false;
      findings = nothing_found ∷ [];
    })
unfolding scan_path collect_files collect_from collect_root walk_files insert scan_files scan_file
    inspect judge indicator_matches matches_among contains_joined any_window window_is
    to_ascii_lowercase absolute_path
scanned = refl
