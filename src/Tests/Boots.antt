-- ===== src/Tests/Boots.antt =====
-- The boot loader at concrete inputs: a machine whose hash repeats the first byte of a file, with an
-- Unit TPM and two modules on its bus.
use Prim.Native.String.{String}
use text.Mathlib.Text.{◌==◌ as str_eq}
use whisez_os.Prelude.{
  ℕ, ◌+◌, ◌*◌, ◌^◌, ◌≡◌, refl, subst, true, false, Option, none, some, List, [], ◌∷◌, ◌==◌,
  if◌then◌else◌, replicate, get_or,
}
use whisez_os.Prelude.Results.{ok, ok_injective}
use whisez_os.Boot.Attest.{ManifestEntry, digests_equal, differences, verify_image, Tpm}
use whisez_os.Boot.Spd.{
  SmBus, from_byte, ddr4_decode, ddr5_decode, ddr4_die_mbits, ddr5_die_gbits, enumerate, audit,
  enumerate_from, probe, capacity, ddr4_capacity, spd_total,
}
use whisez_os.Boot.Spd.Audit.{Verdict, audit-enumerate}
use whisez_os.Boot.Main.{
  Platform, jumped_to_kernel, extended, cleared_owner_hierarchy, main, after_audit, audit_memory,
  modules_on, conventional_memory_total, sum_pages, attest_and_boot, finish, attest_images,
  halt_tamper, tamper_screen,
}
use whisez_os.Boot.Main.Outcomes.{AllSized, Outcome, main-Outcome}

-- DDR4 modules of 16 GiB in the slots 0 and 2.
abbrev bus : SmBus (Unit {0})
bus = record {
  read_byte = λ addr offset b. (
    if addr == 0x50
        then some
            (if offset == 2 then 0x0C else if offset == 4 then 5 else if offset == 12 then 9 else 3)
        else if addr == 0x52
        then some
            (if offset == 2 then 0x0C else if offset == 4 then 5 else if offset == 12 then 9 else 3)
        else none,
    tt,
  );
  set_page = λ addr page b. (some tt, tt);
}

abbrev tpm : Tpm ℕ
tpm = record {
  extend = λ index d t. (t * 2 + index, ok tt);
  clear_owner_hierarchy = λ t. (0, ok tt);
}

abbrev hash : List ℕ → List ℕ
hash bytes = replicate 64 (get_or bytes 0 0)

abbrev kernel_entry : ManifestEntry
kernel_entry = record { path = "KERNEL.ELF"; digest = replicate 64 7; pcr = 8 }

abbrev init_entry : ManifestEntry
init_entry = record { path = "INIT.ELF"; digest = replicate 64 9; pcr = 10 }

abbrev machine : (String → Option (List ℕ)) → Platform ℕ (Unit {0})
machine files = record {
  memory_map = record { ty = 7; page_count = 2 ^ 23 } ∷ record { ty = 1; page_count = 9 } ∷ [];
  conventional = 7;
  boot_services_data = 4;
  loader_data = 2;
  smbus = bus;
  open_host_controller = some tt;
  digest = hash;
  load_and_verify_signature = ok (kernel_entry ∷ init_entry ∷ []);
  read_esp_file = files;
  tcg2 = tpm;
  tpm = 1;
  has_framebuffer = false;
  prompt_and_derive_key = 4096;
}

abbrev genuine_files : String → Option (List ℕ)
genuine_files path = if str_eq path "KERNEL.ELF" then some (7 ∷ 1 ∷ []) else some (9 ∷ [])

abbrev modified_files : String → Option (List ℕ)
modified_files path = if str_eq path "KERNEL.ELF" then some (7 ∷ 1 ∷ []) else some (8 ∷ [])

main-Outcome_example : Outcome (machine modified_files) (main (machine modified_files))
main-Outcome_example =
    main-Outcome (machine modified_files) (λ bytes. refl)
      (λ manifest e. subst (AllSized (machine modified_files)) (ok_injective e) (refl, (refl, tt)))

audit-enumerate_example :
    Verdict (enumerate bus tt).0 (2 ^ 35) true (audit (enumerate bus tt).0 (2 ^ 35) true)
audit-enumerate_example = audit-enumerate bus tt (2 ^ 35)

-- A die of 4 Gb counts for nothing, and one of 12 Gb as one of 8.
ddr5_small_die : ddr5_decode 1 0x20 0x23 ≡ some 0
unfolding ddr5_decode ddr5_die_gbits
ddr5_small_die = refl

ddr5_odd_die : ddr5_decode 3 0x20 0x23 ≡ ddr5_decode 2 0x20 0x23
unfolding ddr5_decode ddr5_die_gbits
ddr5_odd_die = refl

genuine_boots : (main (machine genuine_files)).ending ≡ jumped_to_kernel (2 ^ 35) 4096
unfolding main after_audit audit_memory audit modules_on conventional_memory_total sum_pages
    enumerate enumerate_from probe capacity from_byte ddr4_capacity ddr4_decode ddr4_die_mbits
    spd_total attest_and_boot finish attest_images verify_image digests_equal differences
genuine_boots = refl

modified_halts :
    (main (machine modified_files)).effects
    ≡ extended 8 (replicate 64 7) ∷ cleared_owner_hierarchy ∷ []
unfolding main after_audit audit_memory audit modules_on conventional_memory_total sum_pages
    enumerate enumerate_from probe capacity from_byte ddr4_capacity ddr4_decode ddr4_die_mbits
    spd_total attest_and_boot finish attest_images verify_image digests_equal differences
    halt_tamper tamper_screen
modified_halts = refl
