-- ===== src/Vault/Epochs.antt =====
-- How long a sealed page can be opened.
use whisez_os.Prelude.{
  ℕ, ◌+◌, ◌^◌, ◌<◌, ◌≡◌, ◌∙◌, some, List, [], ◌∷◌, arith, leb, if◌then◌else◌, length,
}
use whisez_os.Prelude.Results.{ok, err}
use whisez_os.Vault.{
  Bytes, VaultKeys, Arena, Aead, integrity_failure, rotate, key_for, nonce, page_aad, seal_page,
  open_page,
}

-- What the vault relies on of the cipher: what it encrypts it decrypts, under the same key, nonce and data.
pub record IsAead (aead : Aead) : Type 0 where
  pub opens :
      (key n aad page cipher tag : Bytes)
      → aead.encrypt key n aad page ≡ some (cipher, tag)
      → aead.decrypt key n aad cipher tag ≡ some page

-- An arena after a number of rotations, each with its fresh key and its count of resident pages.
abbrev pub rotate_all : VaultKeys → List (Bytes × ℕ) → VaultKeys
rotate_all keys [] = keys
rotate_all keys ((fresh, resident) ∷ rest) = rotate_all (rotate keys fresh resident) rest

abbrev pub rotated : Arena → List (Bytes × ℕ) → Arena
rotated a rs = record a { keys = rotate_all a.keys rs }

-- The key for an epoch that lies some rotations back, and at least one is counted before the list.
key_for-older :
    (keys : VaultKeys) (sealed : ℕ) (rs : List (Bytes × ℕ))
    → sealed + 1 < keys.epoch
    → keys.epoch + length rs < 2 ^ 64
    → key_for (rotate_all keys rs) sealed ≡ err integrity_failure
unfolding key_for rotate
key_for-older keys sealed [] old fits = ground arith
key_for-older keys sealed ((fresh, resident) ∷ rs) old fits =
    key_for-older (rotate keys fresh resident) sealed rs (omega arith) (omega arith)

-- The key under which a page of the epoch before the list was sealed.
key_for-rotate_all :
    (keys : VaultKeys) (rs : List (Bytes × ℕ))
    → keys.epoch + length rs < 2 ^ 64
    → key_for (rotate_all keys rs) keys.epoch
      ≡ (if leb (length rs) 1 then ok keys.current else err integrity_failure)
unfolding key_for rotate
key_for-rotate_all keys [] fits = ground arith
key_for-rotate_all keys ((k, n) ∷ []) fits = ground arith
key_for-rotate_all keys ((k, n) ∷ (k', n') ∷ rs) fits =
    key_for-older (rotate (rotate keys k n) k' n') keys.epoch rs (ground arith) (ground arith)
    ∙ ground arith

module _ (aead : Aead) (law : IsAead aead) where
  -- A page that was sealed is opened as it was, with the epoch of the seal, after no rotation or one;
  -- after two rotations or more it is lost, whatever pages the rotations count and however far their
  -- sweeps have come. (The epoch does not wrap below 2 ^ 64.)
  pub open_page-seal_page :
      (a : Arena) (i : ℕ) (page cipher tag : Bytes) (rs : List (Bytes × ℕ))
      → a.keys.epoch + length rs < 2 ^ 64
      → seal_page aead a i page ≡ ok (cipher, tag)
      → open_page aead (rotated a rs) i cipher tag a.keys.epoch
        ≡ (if leb (length rs) 1 then ok page else err integrity_failure)
  unfolding seal_page open_page nonce page_aad
  open_page-seal_page a i page cipher tag rs fits sealed = ground (
    arith,
    key_for-rotate_all a.keys rs fits,
    law.opens a.keys.current (nonce a i a.keys.epoch) (page_aad a i a.keys.epoch) page cipher tag,
  )
