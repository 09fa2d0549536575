-- ===== src/Guard/Posture.antt =====
-- The audit of the system's posture. `shell` answers a script with what it printed, trimmed, if it ran;
-- `windows` tells the system, and `trim` is that of the standard library.
pub mod Score
use Prim.Native.String.{String}
use whisez_os.Prelude.{
  ℕ, ◌+◌, ◌-◌, ◌*◌, Bool, true, false, Option, none, some, List, [], ◌∷◌, map, if◌then◌else◌, min,
}
use whisez_os.Guard.{
  Severity, fine, info, warning, critical, Finding, Detail, says, listening, bytes_eq,
}
use whisez_os.Guard.Indicators.{bytes_of}
use whisez_os.Guard.Scan.{to_ascii_lowercase}

-- Findings of the audit are on no file.
abbrev pub Check : Type 0
Check = Finding (Unit {0})

abbrev pub check_of : String → Severity → String → Check
check_of check severity text = record { check = check; severity = severity; detail = says text }

-- The scripts.
abbrev pub firewall_script : String
firewall_script =
    "(Get-NetFirewallProfile | Where-Object Enabled).Count -eq (Get-NetFirewallProfile).Count"

abbrev pub defender_script : String
defender_script =
    "$s=Get-MpComputerStatus; $s.AntivirusEnabled -and $s.RealTimeProtectionEnabled -and $s.BehaviorMonitorEnabled"

abbrev pub account_control_script : String
account_control_script =
    "(Get-ItemProperty 'HKLM:\\SOFTWARE\\Microsoft\\Windows\\CurrentVersion\\Policies\\System').EnableLUA -eq 1"

abbrev pub secure_boot_script : String
secure_boot_script = "try { Confirm-SecureBootUEFI } catch { 'Unsupported' }"

abbrev pub sockets_script : String
sockets_script =
    "(Get-NetTCPConnection -State Listen -ErrorAction SilentlyContinue | Measure-Object).Count"

unfoldable pub eq_ignore_ascii_case : List ℕ → List ℕ → Bool
eq_ignore_ascii_case a b = bytes_eq (map to_ascii_lowercase a) (map to_ascii_lowercase b)

unfoldable pub unavailable : String → Check
unavailable check = check_of check warning "Check unavailable without changing system state"

module _ (shell : String → Option (List ℕ)) (trim : List ℕ → List ℕ) where
  -- What `check_bool` pushes.
  unfoldable pub check_bool : String → String → String → String → Severity → Check
  check_bool check script passed failed failure_severity = elim (shell script) [
    | none ↦ unavailable check
    | some printed ↦
        if eq_ignore_ascii_case (trim printed) (bytes_of "true")
        then check_of check fine passed
        else if bytes_eq (trim printed) (bytes_of "Unsupported")
        then check_of check warning failed
        else check_of check failure_severity failed
  ]

  unfoldable pub firewall : Check
  firewall =
      check_bool "windows-firewall" firewall_script "All Windows Firewall profiles are enabled"
        "One or more Windows Firewall profiles are disabled" critical

  unfoldable pub defender : Check
  defender =
      check_bool "defender-realtime" defender_script
        "Microsoft Defender antivirus, real-time protection, and behavior monitoring are enabled"
        "Microsoft Defender protection is incomplete or disabled" critical

  unfoldable pub account_control : Check
  account_control =
      check_bool "uac" account_control_script "User Account Control is enabled"
        "User Account Control is disabled" critical

  unfoldable pub secure_boot : Check
  secure_boot =
      check_bool "secure-boot" secure_boot_script "UEFI Secure Boot is enabled"
        "Secure Boot is disabled or unavailable" warning

  unfoldable pub sockets : Check
  sockets = elim (shell sockets_script) [
    | none ↦ unavailable "listening-sockets"
    | some printed ↦ record {
      check = "listening-sockets";
      severity = info;
      detail = listening (trim printed);
    }
  ]

  unfoldable pub host_findings : Bool → List Check
  host_findings true = firewall ∷ defender ∷ account_control ∷ secure_boot ∷ sockets ∷ []
  host_findings false =
      check_of "platform" info
        "Host posture checks are currently implemented for Windows; integrity and scan commands are cross-platform"
      ∷ []

unfoldable pub penalty_of : Severity → ℕ
penalty_of critical = 30
penalty_of warning = 12
penalty_of info = 0
penalty_of fine = 0

-- A sum of 16 bits; there are five findings at most.
unfoldable pub penalty : List Check → ℕ
penalty [] = 0
penalty (f ∷ fs) = penalty_of f.severity + penalty fs

unfoldable pub score : List Check → ℕ
score findings = min (100 - penalty findings) 100
