-- ===== src/Vault/Sweep.antt =====
-- The sweep after a rotation.
use whisez_os.Prelude.{ℕ, zero, suc, ◌-◌, ◌*◌, ◌≤◌, ◌≡◌, ap, ◌∙◌, false, arith, min}
use whisez_os.Vault.{VaultKeys, rotation_active, sweep_step, max_chunk}

-- A number of steps in a row, none of them deferred, with the same budget.
abbrev pub sweep : ℕ → VaultKeys → ℕ → VaultKeys
sweep zero keys budget = keys
sweep (suc n) keys budget = sweep n (sweep_step false keys budget).0 budget

pub sweep_lem :
    (n : ℕ) (keys : VaultKeys) (budget : ℕ)
    → sweep n keys budget
      ≡ record keys { stale_pages = keys.stale_pages - n * min budget max_chunk }
unfolding sweep_step
sweep_lem zero keys budget = ground arith
sweep_lem (suc n) keys budget =
    sweep_lem n (sweep_step false keys budget).0 budget
    ∙ ap (λ p. record keys { stale_pages = p }) (left n (min budget max_chunk) keys.stale_pages)
  where
    left : (n chunk p : ℕ) → p - min chunk p - n * chunk ≡ p - suc n * chunk
    left n chunk p = grind arith

-- The fault of the sweep: once enough steps, of 512 pages each at most, have accounted for all stale
-- pages, the rotation is over, and the key before it is kept still: nothing has overwritten it, and no
-- other field of the keys has changed.
pub sweep_keeps_previous :
    (n : ℕ) (keys : VaultKeys) (budget : ℕ)
    → keys.stale_pages ≤ n * min budget max_chunk
    → (rotation_active (sweep n keys budget) ≡ false)
      × (sweep n keys budget ≡ record keys { stale_pages = 0 })
unfolding rotation_active
sweep_keeps_previous n keys budget h =
    let ends : sweep n keys budget ≡ record keys { stale_pages = 0 } =
      sweep_lem n keys budget ∙ ap (λ p. record keys { stale_pages = p }) (omega arith) in
    (ground (arith, ends), ends)
