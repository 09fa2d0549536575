-- ===== src/Boot/Attest.antt =====
-- Attestation of the boot images: boot/spectre-boot/src/attest.rs. SHA3-512 is the parameter `digest`;
-- a digest is the list of its 64 bytes. The TPM is a record of its two commands over its own state.
pub mod Digests
use whisez_os.Prelude.{
  ℕ, zero, suc, ◌+◌, Bool, Option, none, some, List, [], ◌∷◌, ◌==◌, if◌then◌else◌, bit_or, bit_xor,
  get_or, replicate,
}
use whisez_os.Prelude.Results.{Result, ok, err}
use Prim.Native.String.{String}

abbrev pub digest_len : ℕ
digest_len = 64

-- `path` on the EFI system partition, and the register `pcr` that the image is measured into.
pub record ManifestEntry : Type 0 where
  pub path : String
  pub digest : List ℕ
  pub pcr : ℕ

pub data TamperKind : Type 0 where
  manifest_forged image_modified image_missing : TamperKind

pub record Tamper : Type 0 where
  pub kind : TamperKind
  pub path : String
  pub expected : List ℕ
  pub actual : List ℕ

abbrev pub no_digest : List ℕ
no_digest = replicate digest_len 0

-- The loop over the rounds left, at byte `i`, with what the bytes before differ in.
unfoldable pub differences : ℕ → ℕ → List ℕ → List ℕ → ℕ → ℕ
differences zero i a b diff = diff
differences (suc n) i a b diff =
    differences n (i + 1) a b (bit_or diff (bit_xor (get_or a i 0) (get_or b i 0)))

unfoldable pub digests_equal : List ℕ → List ℕ → Bool
digests_equal a b = differences digest_len 0 a b 0 == 0

-- A tamper report on the image of an entry.
abbrev pub tampered : TamperKind → ManifestEntry → List ℕ → Tamper
tampered kind entry actual = record {
  kind = kind;
  path = entry.path;
  expected = entry.digest;
  actual = actual;
}

unfoldable pub verify_image :
    (List ℕ → List ℕ) → ManifestEntry → Option (List ℕ) → Result Tamper (List ℕ)
verify_image digest entry none = err (tampered image_missing entry no_digest)
verify_image digest entry (some bytes) =
    let actual = digest bytes in
    if digests_equal actual entry.digest
    then ok actual
    else err (tampered image_modified entry actual)

-- The commands of a TPM with the states `T`; each answers whether it succeeded.
pub record Tpm (T : Type 0) : Type 0 where
  pub extend : ℕ → List ℕ → T → T × Result (Unit {0}) (Unit {0})
  pub clear_owner_hierarchy : T → T × Result (Unit {0}) (Unit {0})

module _ {T : Type 0} (tpm : Tpm T) where
  unfoldable pub measure : ManifestEntry → List ℕ → T → T × Result (Unit {0}) (Unit {0})
  measure entry d t = tpm.extend entry.pcr d t

  unfoldable pub wipe_sealed_keys : T → T × Result (Unit {0}) (Unit {0})
  wipe_sealed_keys t = tpm.clear_owner_hierarchy t
