-- ===== src/Shield.antt =====
-- SpectreShield: userland/spectreshield/src/heuristic.rs, without `shannon_entropy`, which computes with
-- floats. A score is an unsigned word of 32 bits, and saturates.
pub mod Decay
pub mod Credits
pub mod Observing
pub mod Verdicts
use whisez_os.Prelude.{
  ℕ, zero, suc, ◌+◌, ◌-◌, ◌*◌, ◌/◌, ◌%◌, ◌^◌, Bool, true, false, not, ◌&&◌, ◌||◌, List, [], ◌∷◌,
  ◌++◌, ◌==◌, ltb, leb, if◌then◌else◌, length, min, drop,
}

pub data Behaviour : Type 0 where
  enumerate_user_documents read_foreign_file write_high_entropy destroy_snapshot mass_rename :
      Behaviour
  foreign_code_write raw_network connect_without_dns credential_access persistence_install :
      Behaviour
  privilege_request unsigned_module_load log_tampering : Behaviour

-- The derived `PartialEq`: the place of each in the declaration.
abbrev pub tag : Behaviour → ℕ
tag enumerate_user_documents = 0
tag read_foreign_file = 1
tag write_high_entropy = 2
tag destroy_snapshot = 3
tag mass_rename = 4
tag foreign_code_write = 5
tag raw_network = 6
tag connect_without_dns = 7
tag credential_access = 8
tag persistence_install = 9
tag privilege_request = 10
tag unsigned_module_load = 11
tag log_tampering = 12

abbrev pub behaviour_eq : Behaviour → Behaviour → Bool
behaviour_eq a b = tag a == tag b

unfoldable pub weight : Behaviour → ℕ
weight enumerate_user_documents = 5
weight read_foreign_file = 5
weight raw_network = 10
weight write_high_entropy = 12
weight mass_rename = 18
weight persistence_install = 15
weight credential_access = 20
weight unsigned_module_load = 15
weight connect_without_dns = 22
weight privilege_request = 18
weight destroy_snapshot = 35
weight foreign_code_write = 40
weight log_tampering = 45

-- The names of the combinations, which are compared as texts.
pub data ComboName : Type 0 where
  ransomware_encrypt_loop credential_exfiltration code_injection persistent_implant : ComboName

abbrev pub name_tag : ComboName → ℕ
name_tag ransomware_encrypt_loop = 0
name_tag credential_exfiltration = 1
name_tag code_injection = 2
name_tag persistent_implant = 3

pub record Combination : Type 0 where
  pub name : ComboName
  pub required : List Behaviour
  pub window_ms : ℕ
  pub bonus : ℕ

abbrev pub combinations : List Combination
combinations =
    record {
      name = ransomware_encrypt_loop;
      required =
          enumerate_user_documents ∷ read_foreign_file ∷ write_high_entropy ∷ destroy_snapshot ∷ [];
      window_ms = 90_000;
      bonus = 70;
    }
    ∷ record {
      name = credential_exfiltration;
      required = credential_access ∷ connect_without_dns ∷ [];
      window_ms = 300_000;
      bonus = 45;
    }
    ∷ record {
      name = code_injection;
      required = foreign_code_write ∷ privilege_request ∷ [];
      window_ms = 60_000;
      bonus = 40;
    }
    ∷ record {
      name = persistent_implant;
      required = persistence_install ∷ unsigned_module_load ∷ log_tampering ∷ [];
      window_ms = 600_000;
      bonus = 55;
    }
    ∷ []

pub data DeclaredRole : Type 0 where
  undeclared backup_agent compiler encryption_tool sandboxed_anti_cheat : DeclaredRole

unfoldable pub discount : DeclaredRole → Behaviour → ℕ
discount backup_agent enumerate_user_documents = 100
discount backup_agent read_foreign_file = 100
discount compiler write_high_entropy = 100
discount compiler mass_rename = 90
discount encryption_tool write_high_entropy = 100
discount encryption_tool read_foreign_file = 60
discount sandboxed_anti_cheat raw_network = 100
discount sandboxed_anti_cheat unsigned_module_load = 100
discount _ _ = 0

pub data Verdict : Type 0 where
  clean watch alert suspend_and_ask : Verdict

abbrev pub watch_threshold : ℕ
watch_threshold = 25

abbrev pub alert_threshold : ℕ
alert_threshold = 60

abbrev pub suspend_threshold : ℕ
suspend_threshold = 110

abbrev pub half_life_ms : ℕ
half_life_ms = 300_000

pub record Observation : Type 0 where
  pub behaviour : Behaviour
  pub timestamp_ms : ℕ

pub record ProcessProfile : Type 0 where
  pub role : DeclaredRole
  pub history : List Observation  -- 128 at most
  pub score : ℕ
  pub last_decay_ms : ℕ
  pub credited : List ComboName  -- 8 at most

unfoldable pub new_profile : DeclaredRole → ℕ → ProcessProfile
new_profile role now_ms = record {
  role = role;
  history = [];
  score = 0;
  last_decay_ms = now_ms;
  credited = [];
}

abbrev pub saturating_add : ℕ → ℕ → ℕ
saturating_add a b = min (a + b) (2 ^ 32 - 1)

-- The score after a time: a halving for each half-life, and a line for the rest.
unfoldable pub decayed : ℕ → ℕ → ℕ
decayed score elapsed =
    let halved : ℕ = score / 2 ^ (elapsed / half_life_ms) in
    if leb 32 (elapsed / half_life_ms)
    then 0
    else halved - (halved * (elapsed % half_life_ms) / (half_life_ms * 2)) % 2 ^ 32

unfoldable pub decay : ProcessProfile → ℕ → ProcessProfile
unfolding decayed
decay p now_ms =
    let score' = decayed p.score (now_ms - p.last_decay_ms) in
    if now_ms - p.last_decay_ms == 0 then p else record p {
      score = score';
      last_decay_ms = now_ms;
      credited = if score' == 0 then [] else p.credited;
    }

unfoldable pub contains_name : List ComboName → ComboName → Bool
contains_name [] n = false
contains_name (m ∷ ms) n = name_tag m == name_tag n || contains_name ms n

-- Some observation of the behaviour lies in the window.
unfoldable pub seen : List Observation → ℕ → ℕ → Behaviour → Bool
seen [] now_ms window_ms b = false
seen (o ∷ os) now_ms window_ms b =
    (behaviour_eq o.behaviour b && leb (now_ms - o.timestamp_ms) window_ms)
    || seen os now_ms window_ms b

unfoldable pub all_present : List Observation → ℕ → ℕ → List Behaviour → Bool
unfolding seen
all_present history now_ms window_ms [] = true
all_present history now_ms window_ms (b ∷ bs) =
    seen history now_ms window_ms b && all_present history now_ms window_ms bs

abbrev pub credit_cap : ℕ
credit_cap = 8

-- The loop over the combinations: the credits and the bonus so far. A push to a full list is lost.
unfoldable pub check_from :
    List Combination → List Observation → ℕ → List ComboName → ℕ → List ComboName × ℕ
unfolding contains_name all_present
check_from [] history now_ms credited bonus = (credited, bonus)
check_from (c ∷ cs) history now_ms credited bonus =
    let fires =
      not (contains_name credited c.name) && all_present history now_ms c.window_ms c.required in
    let pushed = if ltb (length credited) credit_cap then credited ++ c.name ∷ [] else credited in
    check_from cs history now_ms (if fires then pushed else credited)
      (if fires then bonus + c.bonus else bonus)

abbrev pub history_cap : ℕ
history_cap = 128

unfoldable pub remember : List Observation → Observation → List Observation
remember history o =
    (if leb history_cap (length history) then drop 1 history else history) ++ o ∷ []

unfoldable pub verdict : ProcessProfile → Verdict
verdict p =
    if leb suspend_threshold p.score
    then suspend_and_ask
    else if leb alert_threshold p.score
    then alert
    else if leb watch_threshold p.score
    then watch
    else clean

abbrev pub points : DeclaredRole → Behaviour → ℕ
points role b = weight b * (100 - min (discount role b) 100) / 100

-- The end of `observe`, from the history, the credits and the bonus.
unfoldable pub settle :
    ProcessProfile → List Observation → Behaviour → List ComboName × ℕ → ProcessProfile × Verdict
unfolding verdict
settle p history b (credited, bonus) =
    let p' = record p {
      history = history;
      score = saturating_add (saturating_add p.score (points p.role b)) bonus;
      credited = credited;
    } in
    (p', verdict p')

unfoldable pub observe : ProcessProfile → Behaviour → ℕ → ProcessProfile × Verdict
unfolding decay remember check_from settle
observe profile b now_ms =
    let p = decay profile now_ms in
    let history = remember p.history (record { behaviour = b; timestamp_ms = now_ms }) in
    settle p history b (check_from combinations history now_ms p.credited 0)

pub data ShieldState : Type 0 where
  green yellow red : ShieldState

unfoldable pub shield_state : ℕ → ShieldState
shield_state active_alerts =
    if active_alerts == 0 then green else if leb active_alerts 2 then yellow else red
