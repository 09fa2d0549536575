-- ===== src/Fs/Uberblocks.antt =====
-- The rotation of uberblocks: layout.rs, lines 124 to 180 and 382 to 387. The bytes of an uberblock
-- in memory are the argument `bytes_of`; `hash::blake3` is the one that the source has.
pub mod Commit
use whisez_os.Prelude.{
  ℕ, ◌+◌, ◌%◌, ◌^◌, ◌≤◌, ◌≡◌, ◌↔◌, refl, Bool, true, false, ◌&&◌, Option, none, some, List, [], ◌∷◌,
  ◌==◌, ltb, leb, arith, if◌then◌else◌, replicate,
}
use whisez_os.Fs.{BlockPtr}

abbrev pub magic_word : ℕ
magic_word = 0x5350_4543_5452_4546

abbrev pub version_word : ℕ
version_word = 1

abbrev pub uberblock_slots : ℕ
uberblock_slots = 4

pub record Uberblock : Type 0 where
  pub magic : ℕ
  pub version : ℕ
  pub volume_id : ℕ
  pub txg : ℕ
  pub object_root : BlockPtr
  pub snapshot_root : BlockPtr
  pub dedup_root : BlockPtr
  pub timestamp_ms : ℕ
  pub self_checksum : List ℕ

-- The stub that stands in the source for the hash.
unfoldable pub blake3 : List ℕ → List ℕ
blake3 bytes = replicate 32 0

abbrev pub bytes_eq : List ℕ → List ℕ → Bool
bytes_eq [] [] = true
bytes_eq [] (y ∷ ys) = false
bytes_eq (x ∷ xs) [] = false
bytes_eq (x ∷ xs) (y ∷ ys) = (x == y) && bytes_eq xs ys

-- Which slot the next commit writes to.
unfoldable pub next_slot : Uberblock → ℕ
next_slot u = ((u.txg + 1) % 2 ^ 64) % uberblock_slots

module _ (bytes_of : Uberblock → List ℕ) where
  unfoldable pub compute_checksum : Uberblock → List ℕ
  unfolding blake3
  compute_checksum u = blake3 (bytes_of u)

  unfoldable pub verify_checksum : Uberblock → Bool
  unfolding compute_checksum
  verify_checksum u = bytes_eq u.self_checksum (compute_checksum u)

  unfoldable pub is_valid : Uberblock → Bool
  is_valid u = (u.magic == magic_word) && leb u.version version_word && verify_checksum u

  -- `max_by_key` keeps the last of several greatest.
  abbrev pub newer : Uberblock → Option Uberblock → Option Uberblock
  newer u none = some u
  newer u (some v) = if ltb v.txg u.txg then some u else some v

  unfoldable pub select_newest_valid : List (Option Uberblock) → Option Uberblock
  select_newest_valid [] = none
  select_newest_valid (none ∷ slots) = select_newest_valid slots
  select_newest_valid (some u ∷ slots) =
      let later = select_newest_valid slots in if is_valid u then newer u later else later

  -- The fault of the hash: whatever the other fields hold, an uberblock verifies exactly when its
  -- checksum field is 32 zero bytes.
  pub verify_checksum_ignores_content :
      (u : Uberblock) → (verify_checksum u ≡ true) ↔ (u.self_checksum ≡ replicate 32 0)
  unfolding verify_checksum
  verify_checksum_ignores_content u = bytes_eq_iff u.self_checksum (replicate 32 0)
    where
      bytes_eq_iff : (xs ys : List ℕ) → (bytes_eq xs ys ≡ true) ↔ (xs ≡ ys)
      bytes_eq_iff [] [] = (λ _. refl, λ _. refl)
      bytes_eq_iff [] (y ∷ ys) = (λ h. cc, λ h. cc)
      bytes_eq_iff (x ∷ xs) [] = (λ h. cc, λ h. cc)
      bytes_eq_iff (x ∷ xs) (y ∷ ys) = let ih = bytes_eq_iff xs ys in ground (arith, ih)
