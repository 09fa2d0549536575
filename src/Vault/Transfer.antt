-- ===== src/Vault/Transfer.antt =====
-- `transfer_pages`, which an endpoint calls when a message that grants pages is taken.
use whisez_os.Prelude.{
  ℕ, ◌+◌, ◌-◌, ◌*◌, ◌^◌, ◌≤◌, ◌<◌, ◌≡◌, Bool, true, false, Option, none, some, arith, if◌then◌else◌,
  Option-cases, inl, inr,
}
use whisez_os.Prelude.Results.{Result, ok, err, ◌>>=◌, ◌>>◌, guard, ok_or}
use whisez_os.Ipc.{Grant, move, share, PageGrant}
use whisez_os.Vault.{
  Arena, VaultError, foreign_arena, rotation_in_flight, rotation_active, owns, page_size,
}

-- The hooks for the page tables, as the source has them: all succeed and do nothing.
unfoldable pub map_shared_readonly : Arena → Arena → ℕ → ℕ → Result VaultError (Unit {0})
map_shared_readonly src dst base n = ok tt

unfoldable pub reseal_into : Arena → Arena → ℕ → ℕ → Result VaultError (Unit {0})
reseal_into src dst base n = ok tt

unfoldable pub grant_pages : Grant → Arena → Arena → ℕ → ℕ → Result VaultError (Unit {0})
unfolding map_shared_readonly reseal_into
grant_pages share src dst base n =
    if rotation_active src.keys then err rotation_in_flight else map_shared_readonly src dst base n
grant_pages move src dst base n = reseal_into src dst base n

-- `arena_of` is the hook `arena_for_thread`.
unfoldable pub transfer_pages :
    (ℕ → Option Arena) → ℕ → ℕ → PageGrant → Result VaultError (Unit {0})
transfer_pages arena_of from to grant = do
  src ← ok_or (arena_of from) foreign_arena
  dst ← ok_or (arena_of to) foreign_arena
  guard (owns src grant.base grant.page_count) foreign_arena
  grant_pages grant.mode src dst grant.base grant.page_count

-- The hook as the source has it.
unfoldable pub arena_for_thread : ℕ → Option Arena
arena_for_thread t = none

-- What an endpoint learns of a transfer.
unfoldable pub transfers : (ℕ → Option Arena) → ℕ → ℕ → PageGrant → Bool
unfolding transfer_pages
transfers arena_of from to grant = elim (transfer_pages arena_of from to grant) [
  | ok _ ↦ true
  | err _ ↦ false
]

grant_pages-share :
    (m : Grant) (src dst : Arena) (base n : ℕ)
    → grant_pages m src dst base n ≡ ok tt
    → m ≡ share
    → rotation_active src.keys ≡ false
unfolding grant_pages
grant_pages-share share src dst base n done e = ground arith
grant_pages-share move src dst base n done e = cc

transfer_pages_inv :
    (arena_of : ℕ → Option Arena) (from to : ℕ) (grant : PageGrant) (src : Arena)
    → arena_of from ≡ some src
    → transfer_pages arena_of from to grant ≡ ok tt
    → (owns src grant.base grant.page_count ≡ true)
      × ((dst : Arena) × (grant_pages grant.mode src dst grant.base grant.page_count ≡ ok tt))
unfolding transfer_pages
transfer_pages_inv arena_of from to grant src e done = elim (Option-cases (arena_of to)) [
  | inl p ↦ absurd (ground arith)
  | inr (dst, p) ↦ (ground arith, (dst, ground arith))
]

-- A transfer that succeeds takes no page from outside the arena of the sender, which ends below 2 ^ 64,
-- also where the range of the grant runs past 2 ^ 64; and it shares nothing while that arena is rotated.
pub transfer_pages_safe :
    (arena_of : ℕ → Option Arena) (from to : ℕ) (grant : PageGrant) (src : Arena)
    → arena_of from ≡ some src
    → src.base + src.page_count * page_size < 2 ^ 64 - 1
    → transfer_pages arena_of from to grant ≡ ok tt
    → (src.base ≤ grant.base)
      × (grant.base + grant.page_count * page_size ≤ src.base + src.page_count * page_size)
      × (grant.mode ≡ share → rotation_active src.keys ≡ false)
unfolding owns
transfer_pages_safe arena_of from to grant src e fits done =
    let (owned, (dst, granted)) = transfer_pages_inv arena_of from to grant src e done in
    (
      ground arith,
      ground arith,
      grant_pages-share grant.mode src dst grant.base grant.page_count granted,
    )
