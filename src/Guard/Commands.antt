-- ===== src/Guard/Commands.antt =====
-- The commands of the program and their exit codes. What they print is left out, so that the flag for
-- JSON is too. `monitor` runs for as long as it is let: `hosts` is the host at each of its rounds.
use whisez_os.Prelude.{
  ℕ, ◌≡◌, ◌⊎◌, inl, inr, refl, ap, sym, ◌∙◌, Bool, true, false, ◌||◌, not, List, [], ◌∷◌, ◌==◌,
  if◌then◌else◌, some, arith,
}
use whisez_os.Prelude.Results.{Result, ok, ◌>>=◌, ◌>>◌, guard, bind_ok, ok_injective}
use text.Mathlib.Text.{◌==◌ as str_eq}
use whisez_os.Guard.{
  Host, Failure, zero_interval, Finding, Severity, fine, info, warning, critical, Manifest,
}
use whisez_os.Guard.Baseline.{VerifyReport, is_ours, create_baseline, verify_baseline}
use whisez_os.Guard.Baseline.Reports.{AllIntact, AllCritical, Reports, verify_baseline-Reports}
use whisez_os.Guard.Scan.{scan_path}

pub data Command (P : Type 0) : Type 0 where
  audit : Command P
  baseline : List P → P → Command P
  verify : P → Command P
  monitor : P → ℕ → Bool → Command P
  scan : P → ℕ → Command P

pub data Exit : Type 0 where
  returned : Exit
  exited : ℕ → Exit

unfoldable pub is_critical : Severity → Bool
is_critical critical = true
is_critical warning = false
is_critical info = false
is_critical fine = false

unfoldable pub any_critical : {P : Type 0} → List (Finding P) → Bool
any_critical [] = false
any_critical (f ∷ fs) = is_critical f.severity || any_critical fs

any_critical-AllCritical :
    {P : Type 0} (fs : List (Finding P)) → AllCritical fs → ¬ (fs ≡ []) → any_critical fs ≡ true
unfolding any_critical is_critical
any_critical-AllCritical [] c h = absurd (h refl)
any_critical-AllCritical (f ∷ fs) (c, cs) h = ground arith

is_ours-true :
    {P : Type 0} (m : Manifest P)
    → is_ours m ≡ true
    → (str_eq m.product "Whisez Guard" ≡ true) × (m.version ≡ 1)
unfolding is_ours
is_ours-true m h = (ground arith, ground arith)

module _ {P E S : Type 0} where
  -- The rounds of the monitor.
  unfoldable pub watch : P → Bool → List (Host P E S) → Result (Failure P E) Exit
  watch path once [] = ok returned
  watch path once (host ∷ hosts) =
      let rest = watch path once hosts in
      verify_baseline host path >>= λ report. if once then ok returned else rest

  unfoldable pub main : List (Host P E S) → Host P E S → Command P → Result (Failure P E) Exit
  main hosts host audit = ok returned
  main hosts host (baseline paths output) = create_baseline host paths output >> ok returned
  main hosts host (verify path) = do
    report ← verify_baseline host path
    ok (if any_critical report.findings then exited 2 else returned)
  main hosts host (monitor path interval once) = do
    guard (not (interval == 0)) zero_interval
    watch path once hosts
  main hosts host (scan path max_files) = do
    report ← scan_path host path max_files
    ok (if any_critical report.findings then exited 3 else returned)

  -- The command `verify`, where it ends without an error, has read a manifest whose product is "Whisez Guard"
  -- and whose version is 1; it returns if every file is as the manifest has it, and exits with 2 if one is not.
  pub main-verify :
      (hosts : List (Host P E S)) (host : Host P E S) (path : P) {exit : Exit}
      → main hosts host (verify path) ≡ ok exit
      → (bytes : List ℕ) × (m : Manifest P) × (host.read path ≡ ok bytes)
        × (host.from_json bytes ≡ some m)
        × (str_eq m.product "Whisez Guard" ≡ true)
        × (m.version ≡ 1)
        × (((exit ≡ returned) × AllIntact host m.files)
            ⊎ ((exit ≡ exited 2) × ¬ AllIntact host m.files))
  unfolding main any_critical is_critical
  main-verify hosts host path e = bind_ok (verify_baseline host path) _ e λ report v e.
      let (bytes, m, r, j, ours, reports) = verify_baseline-Reports host path v in
      (
        bytes,
        m,
        r,
        j,
        (is_ours-true m ours).0,
        (is_ours-true m ours).1,
        ended m report reports (ok_injective e),
      )
    where
      ended :
          (m : Manifest P) (report : VerifyReport P) {exit : Exit}
          → Reports host m.files report
          → (if any_critical report.findings then exited 2 else returned) ≡ exit
          → ((exit ≡ returned) × AllIntact host m.files)
            ⊎ ((exit ≡ exited 2) × ¬ AllIntact host m.files)
      ended m report (inl (all, n, e)) f =
          inl (sym f ∙ ap (λ fs. if any_critical fs then exited 2 else returned) e, all)
      ended m report (inr (broken, c, some_found, n)) f = inr (
        sym f
            ∙ ap (λ b. if b then exited 2 else returned)
                (any_critical-AllCritical report.findings c some_found),
        broken,
      )
