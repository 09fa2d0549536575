-- ===== src/Shield/Verdicts.antt =====
-- What leads to a suspension, and what does not.
use whisez_os.Prelude.{ℕ, ◌+◌, ◌-◌, ◌*◌, ◌/◌, ◌%◌, ◌≤◌, ◌<◌, ◌^◌, ◌≡◌, ap, ◌∙◌, [], ◌∷◌, arith}
use whisez_os.Shield.Decay.{decayed-le}
use whisez_os.Shield.{
  Behaviour, enumerate_user_documents, read_foreign_file, write_high_entropy, destroy_snapshot,
  DeclaredRole, undeclared, backup_agent, compiler, encryption_tool, sandboxed_anti_cheat,
  suspend_and_ask, alert, ransomware_encrypt_loop, decayed, check_from, points, combinations,
  contains_name, all_present, seen, weight, discount,
}
use whisez_os.Shield.Observing.{
  seen_at, decayed_now, decayed_within, decayed-near, graded, verdict_of_four, four_graded,
}

-- No combination is seen in one observation.
check_one :
    (b : Behaviour) (t now_ms : ℕ)
    → check_from combinations (record { behaviour = b; timestamp_ms = t } ∷ []) now_ms [] 0
      ≡ ([], 0)
unfolding check_from contains_name all_present seen
check_one enumerate_user_documents t now_ms = ground arith
check_one _ t now_ms = ground arith

check_two :
    (t0 t1 now_ms : ℕ)
    → check_from combinations
        (seen_at enumerate_user_documents t0 ∷ seen_at read_foreign_file t1 ∷ [])
        now_ms
        []
        0
      ≡ ([], 0)
unfolding check_from contains_name all_present seen
check_two t0 t1 now_ms = ground arith

check_three :
    (t0 t1 t2 now_ms : ℕ)
    → check_from combinations
        (seen_at enumerate_user_documents t0
          ∷ seen_at read_foreign_file t1
          ∷ seen_at write_high_entropy t2
          ∷ [])
        now_ms
        []
        0
      ≡ ([], 0)
unfolding check_from contains_name all_present seen
check_three t0 t1 t2 now_ms = ground arith

check_four :
    (t0 t1 t2 now_ms : ℕ)
    → now_ms ≤ t0 + 90_000
    → now_ms ≤ t1 + 90_000
    → now_ms ≤ t2 + 90_000
    → check_from combinations
        (seen_at enumerate_user_documents t0
          ∷ seen_at read_foreign_file t1
          ∷ seen_at write_high_entropy t2
          ∷ seen_at destroy_snapshot now_ms
          ∷ [])
        now_ms
        []
        0
      ≡ (ransomware_encrypt_loop ∷ [], 70)
unfolding check_from contains_name all_present seen
check_four t0 t1 t2 now_ms a b c = ground arith

-- The score that three observations leave after the times between them.
left_near :
    (c p0 p1 p2 e0 e1 e2 e3 : ℕ)
    → p0 + p1 + p2 ≤ c
    → c < 100
    → e1 < 300_000
    → e2 < 300_000
    → e3 < 300_000
    → let s0 = decayed 0 e0 + p0 in
      let s1 = decayed s0 e1 + p1 in
      let s2 = decayed s1 e2 + p2 in
      (s0 ≤ c)
      × (s1 ≤ c)
      × (s2 ≤ c)
      × (600_000 * (p0 + p1 + p2) ≤ 600_000 * decayed s2 e3 + c * e1 + c * e2 + c * e3)
left_near c p0 p1 p2 e0 e1 e2 e3 most small l1 l2 l3 =
    let s0 = decayed 0 e0 + p0 in
    let s1 = decayed s0 e1 + p1 in
    let s2 = decayed s1 e2 + p2 in
    let none_yet = decayed-le 0 e0 (omega arith) in
    let b1 : s1 ≤ s0 + p1 = omega (arith, decayed-le s0 e1 (omega arith)) in
    let b2 : s2 ≤ s1 + p2 = omega (arith, decayed-le s1 e2 (omega arith)) in
    let n1 = decayed-near c s0 e1 (omega arith) l1 in
    let n2 = decayed-near c s1 e2 (omega arith) l2 in
    let n3 = decayed-near c s2 e3 (omega arith) l3 in
    (omega arith, omega arith, omega arith, omega arith)

graded_top : (n : ℕ) → 110 ≤ n → graded n ≡ suspend_and_ask
unfolding graded
graded_top n h = ground arith

graded_alert : (n : ℕ) → 60 ≤ n → n < 110 → graded n ≡ alert
unfolding graded
graded_alert n h l = ground arith

-- The score is below 200 up to the end, and enough in the end.
left_over :
    (role : DeclaredRole) (t0 t1 t2 t3 : ℕ)
    → t0 ≤ t1
    → t1 ≤ t2
    → t2 ≤ t3
    → t3 ≤ t0 + 90_000
    → let s0 = decayed 0 (t0 - t0) + points role enumerate_user_documents in
      let s1 = decayed s0 (t1 - t0) + points role read_foreign_file in
      let s2 = decayed s1 (t2 - t1) + points role write_high_entropy in
      (s0 < 200)
      × (s1 < 200)
      × (s2 < 200)
      × (110 ≤ decayed s2 (t3 - t2) + points role destroy_snapshot + 70)
unfolding weight discount
left_over undeclared t0 t1 t2 t3 a b c d =
    let near =
      left_near 22 5 5 12 (t0 - t0) (t1 - t0) (t2 - t1) (t3 - t2) (omega arith) (omega arith)
        (omega arith) (omega arith) (omega arith) in
    (omega arith, omega arith, omega arith, omega arith)
left_over backup_agent t0 t1 t2 t3 a b c d =
    let near =
      left_near 12 0 0 12 (t0 - t0) (t1 - t0) (t2 - t1) (t3 - t2) (omega arith) (omega arith)
        (omega arith) (omega arith) (omega arith) in
    (omega arith, omega arith, omega arith, omega arith)
left_over compiler t0 t1 t2 t3 a b c d =
    let near =
      left_near 10 5 5 0 (t0 - t0) (t1 - t0) (t2 - t1) (t3 - t2) (omega arith) (omega arith)
        (omega arith) (omega arith) (omega arith) in
    (omega arith, omega arith, omega arith, omega arith)
left_over encryption_tool t0 t1 t2 t3 a b c d =
    let near =
      left_near 7 5 2 0 (t0 - t0) (t1 - t0) (t2 - t1) (t3 - t2) (omega arith) (omega arith)
        (omega arith) (omega arith) (omega arith) in
    (omega arith, omega arith, omega arith, omega arith)
left_over sandboxed_anti_cheat t0 t1 t2 t3 a b c d =
    let near =
      left_near 22 5 5 12 (t0 - t0) (t1 - t0) (t2 - t1) (t3 - t2) (omega arith) (omega arith)
        (omega arith) (omega arith) (omega arith) in
    (omega arith, omega arith, omega arith, omega arith)

-- A new process of any role that enumerates documents, reads foreign files, writes high entropy and then
-- destroys a snapshot, in this order within 90 seconds, is suspended.
pub ransomware_suspended :
    (role : DeclaredRole) (t0 t1 t2 t3 : ℕ)
    → t0 ≤ t1
    → t1 ≤ t2
    → t2 ≤ t3
    → t3 ≤ t0 + 90_000
    → verdict_of_four role enumerate_user_documents read_foreign_file write_high_entropy
        destroy_snapshot t0 t1 t2 t3
      ≡ suspend_and_ask
ransomware_suspended role t0 t1 t2 t3 a b c d =
    let (low0, low1, low2, end) = left_over role t0 t1 t2 t3 a b c d in
    four_graded role enumerate_user_documents read_foreign_file write_high_entropy destroy_snapshot
      t0 t1 t2 t3 a b c (check_one enumerate_user_documents t0 t0) (check_two t0 t1 t1)
      (check_three t0 t1 t2 t2) (check_four t0 t1 t2 t3 (omega arith) (omega arith) (omega arith))
      low0 low1 low2
    ∙ graded_top _ end

check_evading :
    (t now_ms : ℕ)
    → now_ms ≤ t + 90_000
    → (check_from combinations
          (seen_at destroy_snapshot t ∷ seen_at enumerate_user_documents now_ms ∷ [])
          now_ms
          []
          0
        ≡ ([], 0))
      × (check_from combinations
            (seen_at destroy_snapshot t
              ∷ seen_at enumerate_user_documents now_ms
              ∷ seen_at read_foreign_file now_ms
              ∷ [])
            now_ms
            []
            0
          ≡ ([], 0))
      × (check_from combinations
            (seen_at destroy_snapshot t
              ∷ seen_at enumerate_user_documents now_ms
              ∷ seen_at read_foreign_file now_ms
              ∷ seen_at write_high_entropy now_ms
              ∷ [])
            now_ms
            []
            0
          ≡ (ransomware_encrypt_loop ∷ [], 70))
unfolding check_from contains_name all_present seen
check_evading t now_ms h = (ground arith, ground arith, ground arith)

decayed_still : (score e : ℕ) → e ≡ 0 → decayed score e ≡ score
decayed_still score e still = ap (decayed score) still ∙ decayed_now score

-- The score has decayed by 3 at least, and is short of 110 by 1 at least.
evading_score :
    (e0 gap e2 e3 : ℕ)
    → e0 ≡ 0
    → 51_429 ≤ gap
    → gap ≤ 90_000
    → e2 ≡ 0
    → e3 ≡ 0
    → let s0 = decayed 0 e0 + 35 in
      let s1 = decayed s0 gap + 5 in
      let s2 = decayed s1 e2 + 2 in
      (s0 < 200) × (s1 < 200) × (s2 < 200) × (graded (decayed s2 e3 + 0 + 70) ≡ alert)
unfolding graded
evading_score e0 gap e2 e3 z0 l u z2 z3 =
    let s0 = decayed 0 e0 + 35 in
    let s1 = decayed s0 gap + 5 in
    let s2 = decayed s1 e2 + 2 in
    let start : s0 ≡ 35 = ap (λ n. n + 35) (decayed_still 0 e0 z0) in
    let faded : decayed s0 gap ≡ 35 - (35 * gap / 600_000) % 2 ^ 32 =
      ap (λ n. decayed n gap) start ∙ decayed_within 35 gap (omega arith) in
    let same2 = decayed_still s1 e2 z2 in
    let same3 = decayed_still s2 e3 z3 in
    let high : 60 ≤ decayed s2 e3 + 0 + 70 = omega arith in
    let short : decayed s2 e3 + 0 + 70 < 110 = omega arith in
    (omega arith, omega arith, omega arith, graded_alert _ high short)

-- A new encryption tool that destroys a snapshot and, 51.429 to 90 seconds later, enumerates documents,
-- reads foreign files and writes high entropy is not suspended, although the four lie within the window
-- of the ransomware combination: it is reported with `alert`.
pub ransomware_evades :
    (t later : ℕ)
    → t + 51_429 ≤ later
    → later ≤ t + 90_000
    → verdict_of_four encryption_tool destroy_snapshot enumerate_user_documents read_foreign_file
        write_high_entropy t later later later
      ≡ alert
unfolding weight discount
ransomware_evades t later l u =
    let (low0, low1, low2, end) =
      evading_score (t - t) (later - t) (later - later) (later - later) (omega arith) (omega arith)
        (omega arith) (omega arith) (omega arith) in
    let (two, three, four) = check_evading t later u in
    four_graded encryption_tool destroy_snapshot enumerate_user_documents read_foreign_file
      write_high_entropy t later later later (omega arith) (omega arith) (omega arith)
      (check_one destroy_snapshot t t) two three four low0 low1 low2
    ∙ end
