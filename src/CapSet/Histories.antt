-- ===== src/CapSet/Histories.antt =====
-- Histories of a capability set.
use whisez_os.Prelude.{ℕ, ◌≡◌, Option, some}
use whisez_os.Cap.{Capability, Object}
use whisez_os.CapSet.{CapSet, new, insert, revoke_object}
use whisez_os.CapSet.Laws.{IsValid, new-IsValid, insert_total, insert-IsValid}
use whisez_os.CapSet.Revoke.{revoke_object-IsValid}

-- Tokens that are inserted, whether there is room for them or not, and objects that are revoked.
pub data Reach : CapSet → Type 0 where
  here : Reach new
  inserts :
      {s t : CapSet} {r : Option ℕ} (c : Capability) → Reach s → insert s c ≡ some (t, r) → Reach t
  revokes : {s : CapSet} (object : Object) → Reach s → Reach (revoke_object s object).0

Reach-IsValid : {s : CapSet} → Reach s → IsValid s
Reach-IsValid here = new-IsValid
Reach-IsValid (inserts {s} c h e) = insert-IsValid s c (Reach-IsValid h) e
Reach-IsValid (revokes {s} object h) = revoke_object-IsValid s object (Reach-IsValid h)

-- After any history of inserts and revocations of a new set the table has 256 slots and `len` counts
-- those that are taken, and the unbounded loop of the next `insert` ends, whatever the token.
pub Reach-insert :
    {s : CapSet} (c : Capability)
    → Reach s
    → IsValid s × ((t : CapSet) × (r : Option ℕ) × (insert s c ≡ some (t, r)))
Reach-insert {s} c h = (Reach-IsValid h, insert_total s c (Reach-IsValid h))
