-- ===== src/Guard/Scan.antt =====
-- The scan of files for indicators.
pub mod Bounds
use Prim.Native.String.{String}
use whisez_os.Prelude.{
  ℕ, zero, suc, ◌+◌, ◌-◌, ◌^◌, Bool, true, false, not, ◌&&◌, Option, none, some, List, [], ◌∷◌,
  ◌++◌, map, leb, ltb, ◌==◌, if◌then◌else◌, length, take, min,
}
use whisez_os.Prelude.Results.{Result, ok, err, ◌>>=◌, ◌>>◌, guard}
use whisez_os.Guard.{
  Host, Failure, zero_max_files, Finding, fine, warning, critical, says, evidence, max_scan_bytes,
}
use whisez_os.Guard.Files.{lift, collect_files, hash_file, absolute_path}
use whisez_os.Guard.Indicators.{indicator_matches}

pub record ScanReport (P : Type 0) : Type 0 where
  pub root : P
  pub files_inspected : ℕ
  pub bytes_inspected : ℕ
  pub truncated : Bool
  pub findings : List (Finding P)

-- What the loop keeps.
pub record Progress (P : Type 0) : Type 0 where
  pub inspected : ℕ
  pub bytes_inspected : ℕ
  pub findings : List (Finding P)

unfoldable pub to_ascii_lowercase : ℕ → ℕ
to_ascii_lowercase b = if leb b'A' b && leb b b'Z' then b + 32 else b

abbrev pub nothing_found : {P : Type 0} → Finding P
nothing_found = record {
  check = "offline-scan";
  severity = fine;
  detail = says "No multi-indicator high-risk content pattern was found";
}

abbrev pub or_nothing_found : {P : Type 0} → List (Finding P) → List (Finding P)
or_nothing_found [] = nothing_found ∷ []
or_nothing_found (f ∷ fs) = f ∷ fs

module _ {P E S : Type 0} (host : Host P E S) where
  -- The finding on a file with some indicators, which needs its digest.
  unfoldable pub flag : P → List String → Result (Failure P E) (List (Finding P))
  flag file names = do
    digest ← hash_file host file
    ok (
        record {
          check = "offline-content-indicators";
          severity = if leb 4 (length names) then critical else warning;
          detail = evidence file names digest;
        }
        ∷ [])

  unfoldable pub judge : P → List String → Result (Failure P E) (List (Finding P))
  judge file names = if leb 2 (length names) then flag file names else ok []

  -- A file of a size: at most the limit of it is read.
  unfoldable pub inspect : P → ℕ → Result (Failure P E) (ℕ × List (Finding P))
  inspect file size = do
    contents ← lift (host.read file)
    let bytes = take (min size max_scan_bytes) contents
    found ← judge file (indicator_matches (map to_ascii_lowercase bytes))
    ok (length bytes, found)

  -- A file, before the files that follow it.
  unfoldable pub scan_file :
      P → ℕ → Result (Failure P E) (Progress P) → Result (Failure P E) (Progress P)
  scan_file file size rest = do
    one ← inspect file size
    p ← rest
    ok (record {
      inspected = suc p.inspected;
      bytes_inspected = one.0 + p.bytes_inspected;
      findings = one.1 ++ p.findings;
    })

  -- The loop over the files; one without metadata is passed over.
  unfoldable pub scan_files : List P → Result (Failure P E) (Progress P)
  scan_files [] = ok (record { inspected = 0; bytes_inspected = 0; findings = [] })
  scan_files (file ∷ files) = elim (host.size_of file) [
    | err e ↦ scan_files files
    | ok size ↦ scan_file file size (scan_files files)
  ]

  unfoldable pub scan_path : P → ℕ → Result (Failure P E) (ScanReport P)
  scan_path path max_files = do
    guard (not (max_files == 0)) zero_max_files
    files ← collect_files host (path ∷ []) (min (max_files + 1) (2 ^ 64 - 1))
    progress ← scan_files (take max_files files)
    root ← absolute_path host path
    ok (record {
      root = root;
      files_inspected = progress.inspected;
      bytes_inspected = progress.bytes_inspected;
      truncated = ltb max_files (length files);
      findings = or_nothing_found progress.findings;
    })
