-- ===== src/Boot/Main/Outcomes.antt =====
-- The runs of `main`.
use whisez_os.Prelude.{
  ℕ, ◌≡◌, ◌≢◌, inl, inr, refl, subst, Bool, false, Option, none, some, List, [], ◌∷◌, ◌++◌, map,
  arith, length, ltb, ◌≤◌, ◌^◌, Bool-cases,
}
use whisez_os.Prelude.Results.{Result, ok, err}
use whisez_os.Boot.Attest.{
  ManifestEntry, Tamper, image_missing, image_modified, tampered, no_digest, digest_len, measure,
  wipe_sealed_keys,
}
use whisez_os.Boot.Attest.Digests.{IsGenuine, verify_image_lem}
use whisez_os.Boot.Spd.{Module, MemoryFault, audit}
use whisez_os.Boot.Spd.Audit.{
  Verdict, audit-Verdict, audit-enumerate, empty, hidden, small, enough, unseen,
}
use whisez_os.Boot.Main.{
  Platform, Run, Effect, extended, cleared_owner_hierarchy, jumped_to_kernel, halted, panicked,
  fault_code, post_tamper, memory_screen, tamper_screen, halt_memory_fault, halt_tamper,
  attest_images, forged_manifest, attest_and_boot, after_audit, audit_memory, main,
  probe_memory_modules, modules_on, finish, conventional_memory_total,
}

-- What a run measures of an entry, and what the TPM is after it.
abbrev pub measured : ManifestEntry → Effect
measured entry = extended entry.pcr entry.digest

module _ {T B : Type 0} (p : Platform T B) where
  unfoldable pub measure_all : List ManifestEntry → T → T
  measure_all [] t = t
  measure_all (entry ∷ entries) t = measure_all entries (p.tcg2.extend entry.pcr entry.digest t).0

  abbrev pub AllGenuine : List ManifestEntry → Type 0
  AllGenuine [] = Unit {0}
  AllGenuine (entry ∷ entries) =
      IsGenuine p.digest entry (p.read_esp_file entry.path) × AllGenuine entries

  abbrev pub AllSized : List ManifestEntry → Type 0
  AllSized [] = Unit {0}
  AllSized (entry ∷ entries) = (length entry.digest ≡ digest_len) × AllSized entries

  -- The image of an entry is missing, or has another digest.
  pub data Rejects (entry : ManifestEntry) : Tamper → Type 0 where
    missing :
        p.read_esp_file entry.path ≡ none → Rejects entry (tampered image_missing entry no_digest)
    modified :
        (bytes : List ℕ)
        → p.read_esp_file entry.path ≡ some bytes
        → p.digest bytes ≢ entry.digest
        → Rejects entry (tampered image_modified entry (p.digest bytes))

  -- What the loop over a manifest does: it measures all images, or those before the first rejected.
  data Attested : List ManifestEntry → T → T × List Effect × Option Tamper → Type 0 where
    every :
        (entries : List ManifestEntry) (t : T)
        → AllGenuine entries
        → Attested entries t (measure_all entries t, map measured entries, none)
    first :
        (before : List ManifestEntry) (entry : ManifestEntry) (after : List ManifestEntry)
        (tamper : Tamper) (t : T)
        → AllGenuine before
        → Rejects entry tamper
        → Attested
            (before ++ entry ∷ after)
            t
            (measure_all before t, map measured before, some tamper)

  Attested-cons :
      (entry : ManifestEntry) {entries : List ManifestEntry} (t : T)
      {r : T × List Effect × Option Tamper}
      → IsGenuine p.digest entry (p.read_esp_file entry.path)
      → Attested entries (p.tcg2.extend entry.pcr entry.digest t).0 r
      → Attested (entry ∷ entries) t (r.0, measured entry ∷ r.1, r.2)
  unfolding measure_all
  Attested-cons entry t g (every entries t' all) = every (entry ∷ entries) t (g, all)
  Attested-cons entry t g (first before bad after tamper t' all rejects) =
      first (entry ∷ before) bad after tamper t (g, all) rejects

  module _ (sized : (bytes : List ℕ) → length (p.digest bytes) ≡ digest_len) where
    attest_images-Attested :
        (entries : List ManifestEntry) (t : T)
        → AllSized entries
        → Attested entries t (attest_images p entries t)
    unfolding attest_images measure measure_all
    attest_images-Attested [] t s = every [] t tt
    attest_images-Attested (entry ∷ entries) t (s, ss) =
        let file = p.read_esp_file entry.path in
        let ih = attest_images-Attested entries (p.tcg2.extend entry.pcr entry.digest t).0 ss in
        elim (verify_image_lem p.digest sized entry s file) [
          | inl (g, e) ↦ rw (e, attest_images) (Attested-cons entry t g ih)
          | inr bad ↦ elim bad [
            | inl (gone, e) ↦ rw (e, attest_images) (first [] entry entries _ t tt (missing gone))
            | inr (bytes, there, ne, e) ↦
                rw (e, attest_images) (first [] entry entries _ t tt (modified bytes there ne))
          ]
        ]

  -- The verdict of the audit on the machine.
  abbrev pub Audited : Result MemoryFault ℕ → Type 0
  Audited r =
      Verdict (probe_memory_modules p).0 (conventional_memory_total p) (probe_memory_modules p).1 r

  -- How a run ends, with what it did before.
  pub data Outcome : Run T → Type 0 where
    map_overflows :
        2 ^ 64 ≤ conventional_memory_total p
        → Outcome (record { tpm = p.tpm; effects = []; ending = panicked })
    bad_memory :
        (fault : MemoryFault)
        → Audited (err fault)
        → Outcome
            (record { tpm = p.tpm; effects = memory_screen p; ending = halted (fault_code fault) })
    bad_manifest :
        p.load_and_verify_signature ≡ err tt
        → Outcome (record {
          tpm = (p.tcg2.clear_owner_hierarchy p.tpm).0;
          effects = cleared_owner_hierarchy ∷ tamper_screen p no_digest;
          ending = halted post_tamper;
        })
    bad_image :
        (before : List ManifestEntry) (entry : ManifestEntry) (after : List ManifestEntry)
        (tamper : Tamper)
        → p.load_and_verify_signature ≡ ok (before ++ entry ∷ after)
        → AllGenuine before
        → Rejects entry tamper
        → Outcome (record {
          tpm = (p.tcg2.clear_owner_hierarchy (measure_all before p.tpm)).0;
          effects = map measured before ++ cleared_owner_hierarchy ∷ tamper_screen p tamper.actual;
          ending = halted post_tamper;
        })
    booted :
        (manifest : List ManifestEntry)
        → Audited (ok (conventional_memory_total p))
        → p.load_and_verify_signature ≡ ok manifest
        → AllGenuine manifest
        → Outcome (record {
          tpm = measure_all manifest p.tpm;
          effects = map measured manifest;
          ending = jumped_to_kernel (conventional_memory_total p) p.prompt_and_derive_key;
        })

  modules_on-Verdict :
      (bus : Option B) (total : ℕ)
      → Verdict
          (modules_on p bus).0
          total
          (modules_on p bus).1
          (audit (modules_on p bus).0 total (modules_on p bus).1)
  unfolding modules_on
  modules_on-Verdict none total = audit-Verdict [] total false (omega arith)
  modules_on-Verdict (some bus) total = audit-enumerate p.smbus bus total

  -- What the audit of the loader finds, with or without a bus.
  audit_memory-Verdict : Audited (audit_memory p)
  unfolding audit_memory
  audit_memory-Verdict = modules_on-Verdict p.open_host_controller (conventional_memory_total p)

  Verdict-ok :
      {ms : List Module} {total : ℕ} {bus : Bool} {r : Result MemoryFault ℕ} {n : ℕ}
      → Verdict ms total bus r
      → r ≡ ok n
      → n ≡ total
  Verdict-ok (empty e) f = cc
  Verdict-ok (hidden h) f = cc
  Verdict-ok (small bus h k) f = cc
  Verdict-ok (enough h k l) f = cc
  Verdict-ok (unseen h) f = cc

  module _ (sized : (bytes : List ℕ) → length (p.digest bytes) ≡ digest_len) where
    Attested-Outcome :
        {manifest : List ManifestEntry} {r : T × List Effect × Option Tamper}
        → Attested manifest p.tpm r
        → p.load_and_verify_signature ≡ ok manifest
        → Audited (ok (conventional_memory_total p))
        → Outcome (finish p (conventional_memory_total p) r)
    unfolding finish halt_tamper wipe_sealed_keys
    Attested-Outcome (every entries t all) e audited = booted entries audited e all
    Attested-Outcome (first before bad after tamper t all rejects) e audited =
        bad_image before bad after tamper e all rejects

    attest_and_boot-Outcome :
        ((manifest : List ManifestEntry)
          → p.load_and_verify_signature ≡ ok manifest
          → AllSized manifest)
        → Audited (ok (conventional_memory_total p))
        → (r : Result (Unit {0}) (List ManifestEntry)) → p.load_and_verify_signature ≡ r
        → Outcome (attest_and_boot p (conventional_memory_total p) r)
    unfolding attest_and_boot halt_tamper wipe_sealed_keys forged_manifest
    attest_and_boot-Outcome entries_sized audited (err tt) e = bad_manifest e
    attest_and_boot-Outcome entries_sized audited (ok manifest) e =
        Attested-Outcome (attest_images-Attested sized manifest p.tpm (entries_sized manifest e)) e
          audited

    after_audit-Outcome :
        ((manifest : List ManifestEntry)
          → p.load_and_verify_signature ≡ ok manifest
          → AllSized manifest)
        → (r : Result MemoryFault ℕ) → Audited r
        → Outcome (after_audit p r)
    unfolding after_audit halt_memory_fault
    after_audit-Outcome entries_sized (err fault) audited = bad_memory fault audited
    after_audit-Outcome entries_sized (ok usable) audited =
        let same = Verdict-ok audited refl in
        rw same (
          attest_and_boot-Outcome entries_sized (subst (λ n. Audited (ok n)) same audited)
            p.load_and_verify_signature refl)

    -- With a hash of 64 bytes and such digests in the manifest, every run of `main` ends in one of five
    -- ways, told by the memory map, the audit, the manifest and the images: it panics, having done nothing,
    -- if the pages of the map sum to 2 ^ 64 bytes or more; it boots only on memory that passed the
    -- audit and with every image of the manifest there and genuine, and has then measured just these,
    -- in the manifest's order; on memory that does not pass it halts with
    -- the code of the fault; on the first image that is not, or a manifest that does not verify, it
    -- has measured the images before, clears the keys of the TPM before it draws, and halts.
    pub main-Outcome :
        ((manifest : List ManifestEntry)
          → p.load_and_verify_signature ≡ ok manifest
          → AllSized manifest)
        → Outcome (main p)
    unfolding main
    main-Outcome entries_sized = elim (Bool-cases (ltb (conventional_memory_total p) (2 ^ 64))) [
      | inl fits ↦ rw fits (after_audit-Outcome entries_sized (audit_memory p) audit_memory-Verdict)
      | inr large ↦ rw large (map_overflows (ground arith))
    ]
