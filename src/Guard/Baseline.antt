-- ===== src/Guard/Baseline.antt =====
-- The integrity baseline: what `baseline` writes and `verify` compares.
pub mod Reports
pub mod RoundTrip
use whisez_os.Prelude.{
  ℕ, zero, suc, ◌+◌, ◌-◌, ◌^◌, Bool, true, false, not, ◌&&◌, ◌||◌, Option, none, some, List, [],
  ◌∷◌, leb, ◌==◌, if◌then◌else◌,
}
use whisez_os.Prelude.Results.{Result, ok, err, ◌>>=◌, ◌>>◌, guard, ok_or}
use Prim.Native.String.{String}
use text.Mathlib.Text.{◌==◌ as str_eq}
use whisez_os.Guard.{
  Host, Failure, too_large, invalid_json, foreign_manifest, Finding, fine, critical, says, at_path,
  BaselineEntry, Manifest, manifest_version, max_hash_file_bytes, bytes_eq,
}
use whisez_os.Guard.Files.{lift, collect_files, hash_file, absolute_path, modified_unix}

abbrev pub product_name : String
product_name = "Whisez Guard"

pub record VerifyReport (P : Type 0) : Type 0 where
  pub manifest : P
  pub unchanged : ℕ
  pub findings : List (Finding P)

abbrev pub missing : {P : Type 0} → P → Finding P
missing path = record { check = "integrity-missing"; severity = critical; detail = at_path path }

abbrev pub changed : {P : Type 0} → P → Finding P
changed path = record { check = "integrity-changed"; severity = critical; detail = at_path path }

abbrev pub all_match : {P : Type 0} → Finding P
all_match = record {
  check = "integrity";
  severity = fine;
  detail = says "Every baselined file matches its SHA3-256 digest";
}

abbrev pub counted : {P : Type 0} → Option (Finding P) → ℕ × List (Finding P) → ℕ × List (Finding P)
counted none (unchanged, findings) = (suc unchanged, findings)
counted (some f) (unchanged, findings) = (unchanged, f ∷ findings)

abbrev pub or_all_match : {P : Type 0} → List (Finding P) → List (Finding P)
or_all_match [] = all_match ∷ []
or_all_match (f ∷ fs) = f ∷ fs

unfoldable pub is_ours : {P : Type 0} → Manifest P → Bool
is_ours baseline = str_eq baseline.product product_name && baseline.version == manifest_version

module _ {P E S : Type 0} (host : Host P E S) where
  unfoldable pub entry_of : P → Result (Failure P E) (BaselineEntry P)
  entry_of path = do
    size ← lift (host.size_of path)
    guard (leb size max_hash_file_bytes) (too_large path)
    absolute ← absolute_path host path
    digest ← hash_file host path
    ok (record {
      path = absolute;
      size = size;
      modified_unix = modified_unix host path;
      sha3_256 = digest;
    })

  unfoldable pub with_entry :
      P
      → Result (Failure P E) (List (BaselineEntry P))
      → Result (Failure P E) (List (BaselineEntry P))
  with_entry path rest = do entry ← entry_of path; entries ← rest; ok (entry ∷ entries)

  -- One file, unless it is the one that the baseline is written to, before the entries of the rest.
  unfoldable pub add_entry :
      P
      → P
      → Result (Failure P E) (List (BaselineEntry P))
      → Result (Failure P E) (List (BaselineEntry P))
  add_entry output path rest = do
    absolute ← absolute_path host path
    if host.same absolute output then rest else with_entry path rest

  unfoldable pub entries_of : P → List P → Result (Failure P E) (List (BaselineEntry P))
  entries_of output [] = ok []
  entries_of output (path ∷ paths) = add_entry output path (entries_of output paths)

  abbrev pub baseline_of : List (BaselineEntry P) → Manifest P
  baseline_of entries = record {
    product = product_name;
    version = manifest_version;
    created_unix = host.now_unix;
    files = entries;
  }

  unfoldable pub create_baseline : List P → P → Result (Failure P E) (Unit {0})
  create_baseline paths output = do
    absolute ← absolute_path host output
    files ← collect_files host paths (2 ^ 64 - 1)
    entries ← entries_of absolute files
    json ← lift (host.to_json (baseline_of entries))
    lift (host.write output json)

  -- What the loop over the entries finds of one that is there, and of any.
  unfoldable pub compare_entry : BaselineEntry P → Result (Failure P E) (Option (Finding P))
  compare_entry entry = do
    size ← lift (host.size_of entry.path)
    digest ← hash_file host entry.path
    ok (
        if not (size == entry.size) || not (bytes_eq digest entry.sha3_256)
        then some (changed entry.path)
        else none)

  unfoldable pub check_entry : BaselineEntry P → Result (Failure P E) (Option (Finding P))
  check_entry entry =
      if not (host.exists entry.path) then ok (some (missing entry.path)) else compare_entry entry

  unfoldable pub check_entries :
      List (BaselineEntry P) → Result (Failure P E) (ℕ × List (Finding P))
  check_entries [] = ok (0, [])
  check_entries (entry ∷ entries) = do
    found ← check_entry entry
    rest ← check_entries entries
    ok (counted found rest)

  unfoldable pub verify_baseline : P → Result (Failure P E) (VerifyReport P)
  verify_baseline path = do
    bytes ← lift (host.read path)
    baseline ← ok_or (host.from_json bytes) invalid_json
    guard (is_ours baseline) foreign_manifest
    checked ← check_entries baseline.files
    absolute ← absolute_path host path
    ok (record { manifest = absolute; unchanged = checked.0; findings = or_all_match checked.1 })
