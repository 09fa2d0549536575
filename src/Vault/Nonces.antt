-- ===== src/Vault/Nonces.antt =====
-- Nonces and associated data tell pages, epochs and arenas apart.
use whisez_os.Prelude.{ℕ, ◌+◌, ◌*◌, ◌<◌, ◌^◌, ◌≡◌, arith}
use whisez_os.Vault.{Arena, nonce, page_aad, page_size}

-- Two nonces are equal only for the same process, page, epoch and hardware key.
pub nonce-injective :
    (a b : Arena) (i j e f : ℕ)
    → a.owner < 2 ^ 32
    → b.owner < 2 ^ 32
    → a.keyid < 2 ^ 16
    → b.keyid < 2 ^ 16
    → i < 2 ^ 32
    → j < 2 ^ 32
    → e < 2 ^ 64
    → f < 2 ^ 64
    → nonce a i e ≡ nonce b j f
    → (a.owner ≡ b.owner) × (i ≡ j) × (e ≡ f) × (a.keyid ≡ b.keyid)
unfolding nonce
nonce-injective a b i j e f oa ob ka kb hi hj he hf same = ground arith

-- In an arena that ends below 2 ^ 64, two pages have the same associated data only if they are the same
-- page of the same epoch: a ciphertext is bound to its address.
pub page_aad-injective :
    (a : Arena) (i j e f : ℕ)
    → a.base + a.page_count * page_size < 2 ^ 64
    → i < a.page_count
    → j < a.page_count
    → e < 2 ^ 64
    → f < 2 ^ 64
    → page_aad a i e ≡ page_aad a j f
    → (i ≡ j) × (e ≡ f)
unfolding page_aad
page_aad-injective a i j e f fits hi hj he hf same = ground arith
