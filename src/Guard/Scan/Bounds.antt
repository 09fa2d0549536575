-- ===== src/Guard/Scan/Bounds.antt =====
-- What a scan reads and reports at most.
use whisez_os.Prelude.{
  ℕ, suc, ◌+◌, ◌-◌, ◌*◌, ◌^◌, ◌≤◌, ◌≡◌, inl, inr, ap, sym, subst, not, List, [], ◌∷◌, map, leb,
  ◌==◌, arith, length, take, min, max, length-take, length-append, Bool-cases,
}
use whisez_os.Prelude.Results.{Result, ok, bind_ok, guard_ok, ok_injective, Result-cases}
use Prim.Native.String.{String}
use whisez_os.Guard.{Host, Failure, zero_max_files, Finding, max_scan_bytes}
use whisez_os.Guard.Files.{lift, collect_files, hash_file, absolute_path}
use whisez_os.Guard.Indicators.{indicator_matches}
use whisez_os.Guard.Scan.{
  ScanReport, Progress, to_ascii_lowercase, flag, judge, inspect, scan_file, scan_files, scan_path,
  or_nothing_found,
}

module _ {P E S : Type 0} (host : Host P E S) where
  flag-length :
      (file : P) (names : List String) {found : List (Finding P)}
      → flag host file names ≡ ok found
      → length found ≡ 1
  unfolding flag
  flag-length file names e =
      bind_ok (hash_file host file) _ e λ digest d e. sym (ap length (ok_injective e))

  judge-le :
      (file : P) (names : List String) {found : List (Finding P)}
      → judge host file names ≡ ok found
      → length found ≤ 1
  unfolding judge
  judge-le file names {found} e = elim (Bool-cases (leb 2 (length names))) [
    | inr few ↦ ground arith
    | inl many ↦
        let flagged : flag host file names ≡ ok found = ground arith in
        let one : length found ≡ 1 = flag-length file names flagged in omega arith
  ]

  -- One file: no more than 4 MiB is counted, and no more than one finding is made.
  inspect-le :
      (file : P) (size : ℕ) {one : ℕ × List (Finding P)}
      → inspect host file size ≡ ok one
      → (one.0 ≤ max_scan_bytes) × (length one.1 ≤ 1)
  unfolding inspect
  inspect-le file size e = bind_ok (lift (host.read file)) _ e λ contents r e.
      let bytes = take (min size max_scan_bytes) contents in
      bind_ok (judge host file (indicator_matches (map to_ascii_lowercase bytes))) _ e λ found j e.
        let small : length bytes ≤ max_scan_bytes =
          omega (arith, length-take (min size max_scan_bytes) contents) in
        subst (λ o. (o.0 ≤ max_scan_bytes) × (length o.1 ≤ 1)) (ok_injective e)
          (small, judge-le file _ j)

  abbrev pub Bounded : ℕ → Progress P → Type 0
  Bounded n p =
      (p.inspected ≤ n)
      × (p.bytes_inspected ≤ p.inspected * max_scan_bytes)
      × (length p.findings ≤ p.inspected)

  scan_file-Bounded :
      (file : P) (size : ℕ) {n : ℕ} {rest : Result (Failure P E) (Progress P)} {p : Progress P}
      → ((q : Progress P) → rest ≡ ok q → Bounded n q)
      → scan_file host file size rest ≡ ok p
      → Bounded (suc n) p
  unfolding scan_file
  scan_file-Bounded file size {n} {rest} ih e = bind_ok (inspect host file size) _ e λ one i e.
      bind_ok rest _ e λ q f e.
        let (bytes, findings) = inspect-le file size i in
        let (a, b, c) = ih q f in
        subst (Bounded (suc n)) (ok_injective e)
          (omega arith, omega arith, omega (arith, length-append one.1 q.findings))

  or_nothing_found-le :
      (fs : List (Finding P)) (n : ℕ) → length fs ≤ n → length (or_nothing_found fs) ≤ max n 1
  or_nothing_found-le [] n h = omega arith
  or_nothing_found-le (f ∷ fs) n h = omega arith

  scan_files-Bounded :
      (files : List P) {p : Progress P} → scan_files host files ≡ ok p → Bounded (length files) p
  unfolding scan_files
  scan_files-Bounded [] e =
      subst (Bounded 0) (ok_injective e) (omega arith, omega arith, omega arith)
  scan_files-Bounded (file ∷ files) {p} e = elim (Result-cases (host.size_of file)) [
    | inr (x, s) ↦ later p (scan_files-Bounded files (ground arith))
    | inl (size, s) ↦ scan_file-Bounded file size (λ q f. scan_files-Bounded files f) (ground arith)
  ]
    where
      later : {n : ℕ} (p : Progress P) → Bounded n p → Bounded (suc n) p
      later p b = (omega arith, b.1, b.2)

  -- A scan inspects as many files as it was allowed, reads 4 MiB of each and makes one finding of each
  -- at most, besides the one that says that nothing was found.
  pub scan_path_bounds :
      (path : P) (max_files : ℕ) {report : ScanReport P}
      → scan_path host path max_files ≡ ok report
      → (report.files_inspected ≤ max_files)
        × (report.bytes_inspected ≤ report.files_inspected * max_scan_bytes)
        × (length report.findings ≤ max report.files_inspected 1)
  unfolding scan_path
  scan_path_bounds path max_files e =
      guard_ok (not (max_files == 0)) zero_max_files _ e λ some_files e.
        bind_ok (collect_files host (path ∷ []) (min (max_files + 1) (2 ^ 64 - 1))) _ e λ files f e.
          bind_ok (scan_files host (take max_files files)) _ e λ p q e.
            bind_ok (absolute_path host path) _ e λ root r e.
              let (a, b, c) = scan_files-Bounded (take max_files files) q in
              subst
                (λ report.
                  (report.files_inspected ≤ max_files)
                  × (report.bytes_inspected ≤ report.files_inspected * max_scan_bytes)
                  × (length report.findings ≤ max report.files_inspected 1))
                (ok_injective e)
                (
                  omega (arith, length-take max_files files),
                  b,
                  or_nothing_found-le p.findings p.inspected c,
                )
