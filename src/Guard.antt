-- ===== src/Guard.antt =====
-- The security checks of the host: userland/whisez-guard/src/main.rs. What the program takes from its
-- libraries and the system (paths, files, the walk over a folder, SHA3-256, JSON, the shell) is the
-- record `Host` over paths `P`, errors `E` and states `S` of the hash. Texts are lists of bytes where
-- the program looks into them. `Files` has the helpers on files, `Baseline` the integrity baseline,
-- `Scan` and `Indicators` the scan of contents, `Posture` the audit of the system. Printing is left out.
pub mod Files
pub mod Baseline
pub mod Indicators
pub mod Scan
pub mod Posture
pub mod Commands
use whisez_os.Prelude.{
  ℕ, zero, suc, ◌*◌, ◌+◌, ◌≡◌, ◌↔◌, refl, ap₂, Bool, true, false, ◌&&◌, Option, List, [], ◌∷◌, ◌==◌,
  ==_iff, arith,
}
use whisez_os.Prelude.Results.{Result}
use Prim.Native.String.{String}

abbrev pub manifest_version : ℕ
manifest_version = 1

abbrev pub max_hash_file_bytes : ℕ
max_hash_file_bytes = 4 * 1024 * 1024 * 1024

abbrev pub max_scan_bytes : ℕ
max_scan_bytes = 4 * 1024 * 1024

pub data Severity : Type 0 where
  fine info warning critical : Severity

-- What a finding says, before it is printed.
pub data Detail (P : Type 0) : Type 0 where
  says : String → Detail P
  listening : List ℕ → Detail P
  at_path : P → Detail P
  evidence : P → List String → List ℕ → Detail P

pub record Finding (P : Type 0) : Type 0 where
  pub check : String
  pub severity : Severity
  pub detail : Detail P

pub record BaselineEntry (P : Type 0) : Type 0 where
  pub path : P
  pub size : ℕ
  pub modified_unix : ℕ
  pub sha3_256 : List ℕ

pub record Manifest (P : Type 0) : Type 0 where
  pub product : String
  pub version : ℕ
  pub created_unix : ℕ
  pub files : List (BaselineEntry P)

pub data Failure (P E : Type 0) : Type 0 where
  io : E → Failure P E
  path_missing too_large : P → Failure P E
  no_file_name invalid_json foreign_manifest zero_max_files zero_interval : Failure P E

-- `walk` lists the entries below a folder that could be read, and whether each is a file; `chunks` is
-- what the reads of a file answer in turn.
pub record Host (P E S : Type 0) : Type 0 where
  pub before : P → P → Bool
  pub same : P → P → Bool
  pub exists : P → Bool
  pub is_file : P → Bool
  pub is_dir : P → Bool
  pub walk : P → List (P × Bool)
  pub size_of : P → Result E ℕ
  pub modified : P → Option ℕ
  pub read : P → Result E (List ℕ)
  pub chunks : P → Result E (List (List ℕ))
  pub write : P → List ℕ → Result E (Unit {0})
  pub canonicalize : P → Result E P
  pub parent : P → Option P
  pub is_empty : P → Bool
  pub here : P
  pub file_name : P → Option P
  pub join : P → P → P
  pub new : S
  pub update : List ℕ → S → S
  pub finalize : S → List ℕ
  pub to_json : Manifest P → Result E (List ℕ)
  pub from_json : List ℕ → Option (Manifest P)
  pub now_unix : ℕ

-- Equality of byte strings.
abbrev pub bytes_eq : List ℕ → List ℕ → Bool
bytes_eq [] [] = true
bytes_eq [] (y ∷ ys) = false
bytes_eq (x ∷ xs) [] = false
bytes_eq (x ∷ xs) (y ∷ ys) = x == y && bytes_eq xs ys

pub bytes_eq_iff : (xs ys : List ℕ) → (bytes_eq xs ys ≡ true) ↔ (xs ≡ ys)
bytes_eq_iff [] [] = (λ e. refl, λ e. refl)
bytes_eq_iff [] (y ∷ ys) = (λ e. cc, λ e. cc)
bytes_eq_iff (x ∷ xs) [] = (λ e. cc, λ e. cc)
bytes_eq_iff (x ∷ xs) (y ∷ ys) = ground (arith, bytes_eq_iff xs ys)
