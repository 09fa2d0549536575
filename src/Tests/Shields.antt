-- ===== src/Tests/Shields.antt =====
-- Profiles of processes that are observed.
use whisez_os.Prelude.{◌+◌, ◌≤◌, ◌≡◌, refl, [], ◌∷◌, arith}
use whisez_os.Shield.{
  enumerate_user_documents, read_foreign_file, write_high_entropy, destroy_snapshot,
  credential_access, log_tampering, ProcessProfile, undeclared, backup_agent, suspend_and_ask,
  credential_exfiltration, observe, decay, points, contains_name,
}
use whisez_os.Shield.Credits.{IsValid, worth, observe-IsValid}
use whisez_os.Shield.Observing.{verdict_of_four}
use whisez_os.Shield.Verdicts.{ransomware_suspended}

abbrev suspect : ProcessProfile
suspect = record {
  role = undeclared;
  history = record { behaviour = credential_access; timestamp_ms = 5 } ∷ [];
  score = 87;
  last_decay_ms = 5;
  credited = credential_exfiltration ∷ [];
}

suspect-IsValid : IsValid suspect
unfolding contains_name
suspect-IsValid = record { remembered = omega arith; once = (refl, tt); word = omega arith }

observe-IsValid_example :
    IsValid (observe suspect log_tampering 400_000).0
    × ((observe suspect log_tampering 400_000).0.score + worth (decay suspect 400_000).credited
        ≤ (decay suspect 400_000).score
          + points undeclared log_tampering
          + worth (observe suspect log_tampering 400_000).0.credited)
    × (worth (observe suspect log_tampering 400_000).0.credited ≤ 210)
observe-IsValid_example = observe-IsValid suspect log_tampering 400_000 suspect-IsValid

ransomware_suspended_example :
    verdict_of_four backup_agent enumerate_user_documents read_foreign_file write_high_entropy
      destroy_snapshot 1000 2000 30_000 91_000
    ≡ suspend_and_ask
ransomware_suspended_example =
    ransomware_suspended backup_agent 1000 2000 30_000 91_000 (omega arith) (omega arith)
      (omega arith) (omega arith)
