-- ===== src/Tests/Vaults.antt =====
-- Sealed pages, with a cipher that adds the first byte of the key.
use whisez_os.Prelude.{ℕ, ◌≡◌, refl, none, some, [], ◌∷◌, arith}
use whisez_os.Prelude.Results.{ok, err}
use whisez_os.Vault.{
  Aead, Arena, software, integrity_failure, seal_page, open_page, nonce, page_aad,
}
use whisez_os.Vault.Nonces.{nonce-injective}
use whisez_os.Vault.Epochs.{IsAead, rotated, open_page-seal_page}

-- The ciphertext is the text, and the tag is the key: enough of a cipher for the law.
abbrev toy : Aead
toy = record {
  encrypt = λ key n aad page. some (page, key);
  decrypt = λ key n aad cipher tag. some cipher;
}

toy-IsAead : IsAead toy
toy-IsAead = record { opens = λ key n aad page cipher tag e. ground arith }

abbrev arena : Arena
arena = record {
  owner = 3;
  keys = record { current = 9 ∷ []; previous = some (8 ∷ []); epoch = 5; stale_pages = 700 };
  tier = software;
  keyid = 0;
  base = 0x10000;
  page_count = 16;
  last_active_ms = 0;
}

abbrev resting : Arena
resting = record arena {
  keys = record { current = 9 ∷ []; previous = none; epoch = 5; stale_pages = 0 };
}

sealed : seal_page toy arena 2 (1 ∷ 2 ∷ []) ≡ ok (1 ∷ 2 ∷ [], 9 ∷ [])
unfolding seal_page nonce page_aad
sealed = refl

open_page-seal_page_example :
    open_page toy (rotated arena ((7 ∷ [], 4) ∷ (6 ∷ [], 4) ∷ [])) 2 (1 ∷ 2 ∷ []) (9 ∷ []) 5
    ≡ err integrity_failure
open_page-seal_page_example =
    open_page-seal_page toy toy-IsAead arena 2 (1 ∷ 2 ∷ []) (1 ∷ 2 ∷ []) (9 ∷ [])
      ((7 ∷ [], 4) ∷ (6 ∷ [], 4) ∷ []) (omega arith) sealed

nonce-injective_example :
    (arena.owner ≡ arena.owner)
    × (◌≡◌ {A = ℕ} 2 2)
    × (◌≡◌ {A = ℕ} 5 5)
    × (arena.keyid ≡ arena.keyid)
nonce-injective_example =
    nonce-injective arena arena 2 2 5 5 (omega arith) (omega arith) (omega arith) (omega arith)
      (omega arith) (omega arith) (omega arith) (omega arith) refl
