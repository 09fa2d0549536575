-- ===== src/Vault.antt =====
-- Encrypted memory with rotating keys: kernel/spectre-kernel/src/vault.rs. The cipher XChaCha20Poly1305
-- is the argument `aead`, a fresh key of the random generator is an argument of what draws it, and so is
-- the clock. A page, a key, a nonce and a tag are lists of bytes.
pub mod Nonces
pub mod Epochs
pub mod Sweep
pub mod Transfer
use whisez_os.Prelude.{
  ℕ, zero, suc, ◌+◌, ◌-◌, ◌*◌, ◌/◌, ◌%◌, ◌^◌, Bool, true, false, not, ◌&&◌, Option, none, some,
  List, [], ◌∷◌, ◌++◌, ◌==◌, ltb, leb, if◌then◌else◌, min, replicate,
}
use whisez_os.Prelude.Results.{Result, ok, err, ◌>>=◌, ok_or}

abbrev pub page_size : ℕ
page_size = 4096

abbrev pub rotation_interval_ns : ℕ
rotation_interval_ns = 60 * 1_000_000_000

abbrev pub cold_threshold_ms : ℕ
cold_threshold_ms = 120_000

abbrev pub u64 : ℕ → ℕ
u64 n = n % 2 ^ 64

pub data VaultTier : Type 0 where
  hardware : ℕ → VaultTier
  software : VaultTier

pub data VaultError : Type 0 where
  not_owner integrity_failure foreign_arena rotation_in_flight out_of_memory : VaultError

abbrev pub Bytes : Type 0
Bytes = List ℕ

pub record VaultKeys : Type 0 where
  pub current : Bytes
  pub previous : Option Bytes
  pub epoch : ℕ  -- AtomicU64
  pub stale_pages : ℕ  -- AtomicU32

unfoldable pub new_keys : Bytes → VaultKeys
new_keys fresh = record { current = fresh; previous = none; epoch = 0; stale_pages = 0 }

-- The key before the previous one is overwritten with zeros: no field holds it afterwards.
unfoldable pub rotate : VaultKeys → Bytes → ℕ → VaultKeys
rotate keys fresh resident_pages = record {
  current = fresh;
  previous = some keys.current;
  epoch = u64 (keys.epoch + 1);
  stale_pages = resident_pages;
}

unfoldable pub rotation_active : VaultKeys → Bool
rotation_active keys = ltb 0 keys.stale_pages

pub record Arena : Type 0 where
  pub owner : ℕ  -- u32
  pub keys : VaultKeys
  pub tier : VaultTier
  pub keyid : ℕ  -- u16
  pub base : ℕ  -- u64
  pub page_count : ℕ  -- u32
  pub last_active_ms : ℕ  -- AtomicU64

-- `hardware_keyid` is what `mktme::alloc_keyid` answers.
unfoldable pub allocate_keyid : VaultTier → ℕ → ℕ
allocate_keyid (hardware bits) hardware_keyid = hardware_keyid
allocate_keyid software hardware_keyid = 0

unfoldable pub new_arena : ℕ → ℕ → ℕ → VaultTier → Bytes → ℕ → ℕ → Arena
unfolding new_keys allocate_keyid
new_arena owner base page_count tier fresh hardware_keyid now_ms = record {
  owner = owner;
  keys = new_keys fresh;
  tier = tier;
  keyid = allocate_keyid tier hardware_keyid;
  base = base;
  page_count = page_count;
  last_active_ms = now_ms;
}

-- `to_le_bytes` of a word of the given number of bytes.
abbrev pub le_bytes : ℕ → ℕ → Bytes
le_bytes zero v = []
le_bytes (suc n) v = (v % 256) ∷ le_bytes n (v / 256)

unfoldable pub nonce : Arena → ℕ → ℕ → Bytes
nonce a page_index epoch =
    le_bytes 4 a.owner
    ++ (le_bytes 4 page_index ++ (le_bytes 8 epoch ++ (le_bytes 2 a.keyid ++ replicate 6 0)))

unfoldable pub page_aad : Arena → ℕ → ℕ → Bytes
page_aad a page_index epoch =
    le_bytes 8 (u64 (a.base + page_index * page_size)) ++ (le_bytes 8 epoch ++ le_bytes 4 a.owner)

-- The cipher: of a key, a nonce, associated data and a text, the ciphertext with its tag, or the text
-- again. Either may fail.
pub record Aead : Type 0 where
  pub encrypt : Bytes → Bytes → Bytes → Bytes → Option (Bytes × Bytes)
  pub decrypt : Bytes → Bytes → Bytes → Bytes → Bytes → Option Bytes

-- The key that a page sealed in an epoch is opened with.
unfoldable pub key_for : VaultKeys → ℕ → Result VaultError Bytes
key_for keys sealed_epoch =
    if sealed_epoch == keys.epoch
    then ok keys.current
    else if u64 (sealed_epoch + 1) == keys.epoch
    then ok_or keys.previous integrity_failure
    else err integrity_failure

module _ (aead : Aead) where
  -- The page as it is left, with its tag.
  unfoldable pub seal_page : Arena → ℕ → Bytes → Result VaultError (Bytes × Bytes)
  seal_page a page_index page =
      let epoch = a.keys.epoch in
      if leb a.page_count page_index
      then err not_owner
      else ok_or
          (aead.encrypt a.keys.current (nonce a page_index epoch) (page_aad a page_index epoch)
            page)
          integrity_failure

  unfoldable pub open_page : Arena → ℕ → Bytes → Bytes → ℕ → Result VaultError Bytes
  unfolding key_for
  open_page a page_index page tag sealed_epoch = key_for a.keys sealed_epoch >>= λ key.
      ok_or
        (aead.decrypt key (nonce a page_index sealed_epoch) (page_aad a page_index sealed_epoch)
          page tag)
        integrity_failure

unfoldable pub touch : Arena → ℕ → Arena
touch a now_ms = record a { last_active_ms = now_ms }

-- The difference saturates at 0.
unfoldable pub is_cold : Arena → ℕ → Bool
is_cold a now_ms = ltb cold_threshold_ms (now_ms - a.last_active_ms)

-- The sum saturates; the end of the arena is a plain sum, which wraps.
unfoldable pub owns : Arena → ℕ → ℕ → Bool
owns a base page_count =
    let end : ℕ = min (base + page_count * page_size) (2 ^ 64 - 1) in
    let arena_end = u64 (a.base + a.page_count * page_size) in leb a.base base && leb end arena_end

abbrev pub max_chunk : ℕ
max_chunk = 512

-- `deferred` is the flag that Game Mode sets. The answer is the number of pages that are accounted for.
unfoldable pub sweep_step : Bool → VaultKeys → ℕ → VaultKeys × ℕ
sweep_step deferred keys budget_pages =
    let done : ℕ = min (min budget_pages max_chunk) keys.stale_pages in
    if deferred then (keys, 0) else (record keys { stale_pages = keys.stale_pages - done }, done)

pub record Intrusion : Type 0 where
  pub offender : ℕ
  pub victim : ℕ
  pub fault_addr : ℕ
  pub rip : ℕ
  pub timestamp_ms : ℕ

pub data FaultVerdict : Type 0 where
  terminate_offender allow_introspection : FaultVerdict

-- What the handler calls outside.
pub data Report : Type 0 where
  log_intrusion notify_prism : Intrusion → Report

-- `consented` is `debug::is_consented_introspection`. The dump of the feature `forensic-dump` is left out.
unfoldable pub on_cross_process_fault : (ℕ → ℕ → Bool) → Intrusion → FaultVerdict × List Report
on_cross_process_fault consented i =
    if consented i.offender i.victim
    then (allow_introspection, [])
    else (terminate_offender, log_intrusion i ∷ notify_prism i ∷ [])
