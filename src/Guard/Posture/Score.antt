-- ===== src/Guard/Posture/Score.antt =====
-- What the score tells.
use whisez_os.Prelude.{
  ℕ, ◌≤◌, ◌≡◌, ◌↔◌, ◌⊎◌, inl, inr, true, Option, none, some, List, arith, Bool-cases, Option-cases,
}
use Prim.Native.String.{String}
use whisez_os.Guard.{Severity, warning, critical}
use whisez_os.Guard.Indicators.{bytes_of}
use whisez_os.Guard.Posture.{
  eq_ignore_ascii_case, unavailable, check_bool, firewall, defender, account_control, secure_boot,
  sockets, host_findings, firewall_script, defender_script, account_control_script,
  secure_boot_script, sockets_script, penalty_of, penalty, score,
}

module _ (shell : String → Option (List ℕ)) (trim : List ℕ → List ℕ) where
  -- A script ran and printed true, in letters of any case.
  abbrev pub Passes : String → Type 0
  Passes script =
      (printed : List ℕ) × (shell script ≡ some printed)
      × (eq_ignore_ascii_case (trim printed) (bytes_of "true") ≡ true)

  -- A check costs nothing exactly when its script passes.
  Costs : String → ℕ → Type 0
  Costs script cost = (Passes script × (cost ≡ 0)) ⊎ ((¬ Passes script) × (12 ≤ cost))

  check_bool-Costs :
      (check script passed failed : String) (severity : Severity)
      → 12 ≤ penalty_of severity
      → Costs script
          (penalty_of (check_bool shell trim check script passed failed severity).severity)
  unfolding check_bool Costs unavailable penalty_of
  check_bool-Costs check script passed failed severity h = elim (Option-cases (shell script)) [
    | inl silent ↦ rw (check_bool, silent) (inr ((λ p. cc (p.1)), omega arith))
    | inr (printed, ran) ↦
        elim (Bool-cases (eq_ignore_ascii_case (trim printed) (bytes_of "true"))) [
          | inl good ↦ inl ((printed, ran, good), ground arith)
          | inr bad ↦ inr ((λ p. ground (arith, p.1, p.2)), ground arith)
        ]
  ]

  Costs-Passes : (script : String) {cost : ℕ} → Costs script cost → cost ≡ 0 → Passes script
  unfolding Costs
  Costs-Passes script (inl (p, e)) h = p
  Costs-Passes script (inr (n, e)) h = absurd (omega arith)

  Costs-zero : (script : String) {cost : ℕ} → Costs script cost → Passes script → cost ≡ 0
  unfolding Costs
  Costs-zero script (inl (p, e)) q = e
  Costs-zero script (inr (n, e)) q = absurd (n q)

  sockets-cost :
      ((printed : List ℕ) × (shell sockets_script ≡ some printed)
        × (penalty_of (sockets shell trim).severity ≡ 0))
      ⊎ ((shell sockets_script ≡ none) × (penalty_of (sockets shell trim).severity ≡ 12))
  unfolding sockets unavailable penalty_of
  sockets-cost = elim (Option-cases (shell sockets_script)) [
    | inl silent ↦ inr (silent, ground arith)
    | inr (printed, ran) ↦ inl (printed, ran, ground arith)
  ]

  firewall-Costs : Costs firewall_script (penalty_of (firewall shell trim).severity)
  unfolding firewall penalty_of
  firewall-Costs = check_bool-Costs _ firewall_script _ _ critical (omega arith)

  defender-Costs : Costs defender_script (penalty_of (defender shell trim).severity)
  unfolding defender penalty_of
  defender-Costs = check_bool-Costs _ defender_script _ _ critical (omega arith)

  account_control-Costs :
      Costs account_control_script (penalty_of (account_control shell trim).severity)
  unfolding account_control penalty_of
  account_control-Costs = check_bool-Costs _ account_control_script _ _ critical (omega arith)

  secure_boot-Costs : Costs secure_boot_script (penalty_of (secure_boot shell trim).severity)
  unfolding secure_boot penalty_of
  secure_boot-Costs = check_bool-Costs _ secure_boot_script _ _ warning (omega arith)

  -- The score of a system is 100 exactly when the scripts of all four checks ran and printed true, and
  -- the one that counts sockets ran; it is never more.
  pub score-host_findings :
      (score (host_findings shell trim true) ≤ 100)
      × ((score (host_findings shell trim true) ≡ 100) ↔ (
          Passes firewall_script
          × Passes defender_script
          × Passes account_control_script
          × Passes secure_boot_script
          × ((printed : List ℕ) × (shell sockets_script ≡ some printed))))
  unfolding score penalty host_findings
  score-host_findings = (omega arith, (to, from))
    where
      ran :
          penalty_of (sockets shell trim).severity ≡ 0
          → (printed : List ℕ) × (shell sockets_script ≡ some printed)
      ran e = elim sockets-cost [
        | inl (printed, r, z) ↦ (printed, r)
        | inr (silent, z) ↦ absurd (omega arith)
      ]

      free :
          (printed : List ℕ) × (shell sockets_script ≡ some printed)
          → penalty_of (sockets shell trim).severity ≡ 0
      free (printed, r) = elim sockets-cost [ inl (p, q, z) ↦ z | inr (silent, z) ↦ cc ]

      to :
          score (host_findings shell trim true) ≡ 100
          → Passes firewall_script
            × Passes defender_script
            × Passes account_control_script
            × Passes secure_boot_script
            × ((printed : List ℕ) × (shell sockets_script ≡ some printed))
      to e = (
        Costs-Passes firewall_script firewall-Costs (omega arith),
        Costs-Passes defender_script defender-Costs (omega arith),
        Costs-Passes account_control_script account_control-Costs (omega arith),
        Costs-Passes secure_boot_script secure_boot-Costs (omega arith),
        ran (omega arith),
      )

      from :
          Passes firewall_script
            × Passes defender_script
            × Passes account_control_script
            × Passes secure_boot_script
            × ((printed : List ℕ) × (shell sockets_script ≡ some printed))
          → score (host_findings shell trim true) ≡ 100
      from (p, q, r, s, t) = omega (
        arith,
        Costs-zero firewall_script firewall-Costs p,
        Costs-zero defender_script defender-Costs q,
        Costs-zero account_control_script account_control-Costs r,
        Costs-zero secure_boot_script secure_boot-Costs s,
        free t,
      )
