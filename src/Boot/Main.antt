-- ===== src/Boot/Main.antt =====
-- The boot flow: boot/spectre-boot/src/main.rs. What it calls outside the repository (the firmware, the
-- manifest's signature, the file system, the TPM, the prompt for the passphrase) is the record
-- `Platform`. A run is the list of what it did to the TPM and the screen, and how it ended; the
-- colours of texts, which are floats, and log messages are left out.
pub mod Outcomes
use whisez_os.Prelude.{
  ℕ, zero, suc, ◌+◌, ◌*◌, ◌%◌, ◌^◌, Bool, true, false, ◌||◌, Option, none, some, List, [], ◌∷◌,
  ◌++◌, ◌==◌, ltb, if◌then◌else◌,
}
use whisez_os.Prelude.Results.{Result, ok, err}
use whisez_os.Boot.Attest.{
  ManifestEntry, Tamper, manifest_forged, no_digest, verify_image, Tpm, measure, wipe_sealed_keys,
}
use whisez_os.Boot.Spd.{
  Module, MemoryFault, no_modules_detected, below_minimum, map_mismatch, SmBus, enumerate, audit,
}
use whisez_os.Boot.Glitch.{tamper_line, memory_halt_text, tamper_halt_text}
use Prim.Native.String.{String}

abbrev pub post_no_memory : ℕ
post_no_memory = 0xE0

abbrev pub post_memory_low : ℕ
post_memory_low = 0xE1

abbrev pub post_map_mismatch : ℕ
post_map_mismatch = 0xE2

abbrev pub post_tamper : ℕ
post_tamper = 0xE3

pub record Descriptor : Type 0 where
  pub ty : ℕ
  pub page_count : ℕ

pub record Platform (T B : Type 0) : Type 0 where
  pub memory_map : List Descriptor
  pub conventional : ℕ
  pub boot_services_data : ℕ
  pub loader_data : ℕ
  pub smbus : SmBus B
  pub open_host_controller : Option B
  pub digest : List ℕ → List ℕ
  pub load_and_verify_signature : Result (Unit {0}) (List ManifestEntry)
  pub read_esp_file : String → Option (List ℕ)
  pub tcg2 : Tpm T
  pub tpm : T
  pub has_framebuffer : Bool
  pub prompt_and_derive_key : ℕ

pub data Effect : Type 0 where
  extended : ℕ → List ℕ → Effect
  cleared_owner_hierarchy : Effect
  cleared_screen : ℕ → Effect
  drew_centered : String → Effect
  drew_line : ℕ → ℕ → List ℕ → Effect

pub data Ending : Type 0 where
  jumped_to_kernel : ℕ → ℕ → Ending
  halted : ℕ → Ending
  panicked : Ending

pub record Run (T : Type 0) : Type 0 where
  pub tpm : T
  pub effects : List Effect
  pub ending : Ending

-- The body of the loop over the lines of the digest, `n` of them from `line` on.
unfoldable pub draw_lines_from : ℕ → ℕ → List ℕ → List Effect
draw_lines_from zero line digest = []
draw_lines_from (suc n) line digest =
    drew_line 32 (200 + line * 18) (tamper_line digest line) ∷ draw_lines_from n (line + 1) digest

unfoldable pub draw_address_column : List ℕ → List Effect
draw_address_column digest = draw_lines_from 24 0 digest

unfoldable pub fault_code : MemoryFault → ℕ
fault_code no_modules_detected = post_no_memory
fault_code (below_minimum found required) = post_memory_low
fault_code (map_mismatch spd map) = post_map_mismatch

unfoldable pub sum_pages : ℕ → ℕ → ℕ → List Descriptor → ℕ
sum_pages a b c [] = 0
sum_pages a b c (d ∷ ds) =
    let rest = sum_pages a b c ds in
    if d.ty == a || d.ty == b || d.ty == c then d.page_count * 4096 + rest else rest

module _ {T B : Type 0} (p : Platform T B) where
  unfoldable pub conventional_memory_total : ℕ
  conventional_memory_total =
      sum_pages p.conventional p.boot_services_data p.loader_data p.memory_map

  -- With the host controller, if it could be opened.
  unfoldable pub modules_on : Option B → List Module × Bool
  modules_on none = ([], false)
  modules_on (some bus) = ((enumerate p.smbus bus).0, true)

  abbrev pub probe_memory_modules : List Module × Bool
  probe_memory_modules = modules_on p.open_host_controller

  unfoldable pub memory_screen : List Effect
  memory_screen =
      if p.has_framebuffer
      then cleared_screen 0xFF000000 ∷ drew_centered memory_halt_text ∷ []
      else []

  unfoldable pub tamper_screen : List ℕ → List Effect
  tamper_screen actual =
      if p.has_framebuffer
      then cleared_screen 0xFF000000 ∷ drew_centered tamper_halt_text ∷ draw_address_column actual
      else []

  unfoldable pub halt_memory_fault : MemoryFault → Run T
  halt_memory_fault fault = record {
    tpm = p.tpm;
    effects = memory_screen;
    ending = halted (fault_code fault);
  }

  -- With the state of the TPM, after the effects before.
  unfoldable pub halt_tamper : T → List Effect → Tamper → Run T
  halt_tamper t before tamper = record {
    tpm = (wipe_sealed_keys p.tcg2 t).0;
    effects = before ++ cleared_owner_hierarchy ∷ tamper_screen tamper.actual;
    ending = halted post_tamper;
  }

  -- The loop over the entries of the manifest, up to the first image that is not verified.
  unfoldable pub attest_images : List ManifestEntry → T → T × List Effect × Option Tamper
  attest_images [] t = (t, [], none)
  attest_images (entry ∷ entries) t =
      elim (verify_image p.digest entry (p.read_esp_file entry.path)) [
        | err tamper ↦ (t, [], some tamper)
        | ok d ↦
            let t' = (measure p.tcg2 entry d t).0 in
            let (t'', effects, result) = attest_images entries t' in
            (t'', extended entry.pcr d ∷ effects, result)
      ]

  unfoldable pub forged_manifest : Tamper
  forged_manifest = record {
    kind = manifest_forged;
    path = "\\SPECTRE\\BOOT.MANIFEST";
    expected = no_digest;
    actual = no_digest;
  }

  -- After the loop over the images.
  unfoldable pub finish : ℕ → T × List Effect × Option Tamper → Run T
  finish usable r = elim r.2 [
    | some tamper ↦ halt_tamper r.0 r.1 tamper
    | none ↦ record {
      tpm = r.0;
      effects = r.1;
      ending = jumped_to_kernel usable p.prompt_and_derive_key;
    }
  ]

  unfoldable pub audit_memory : Result MemoryFault ℕ
  audit_memory =
      let (modules, smbus_ok) = probe_memory_modules in
      audit modules conventional_memory_total smbus_ok

  -- The parts of `main` after the manifest and after the audit.
  unfoldable pub attest_and_boot : ℕ → Result (Unit {0}) (List ManifestEntry) → Run T
  attest_and_boot usable (err e) = halt_tamper p.tpm [] forged_manifest
  attest_and_boot usable (ok manifest) = finish usable (attest_images manifest p.tpm)

  unfoldable pub after_audit : Result MemoryFault ℕ → Run T
  after_audit (err fault) = halt_memory_fault fault
  after_audit (ok usable) = attest_and_boot usable p.load_and_verify_signature

  -- The sum of the memory map panics if it does not fit in 64 bits: overflow checks are on.
  unfoldable pub main : Run T
  main =
      if ltb conventional_memory_total (2 ^ 64)
      then after_audit audit_memory
      else record { tpm = p.tpm; effects = []; ending = panicked }
