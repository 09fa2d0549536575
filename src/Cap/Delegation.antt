-- ===== src/Cap/Delegation.antt =====
-- What a chain of derivations can and cannot do: `Capability::derive` of cap.rs.
use whisez_os.Prelude.{ℕ, ◌≡◌, refl, ap, ◌∙◌, true, false, none, some, arith}
use whisez_os.Prelude.Bits.{has_all, has_all_trans}
use whisez_os.Cap.{Capability, right_delegate, permits, derive}

-- `child` is reached from `root` by derivations, each from a token derived before.
pub data Delegated (csprng : ℕ → ℕ) (root : Capability) : Capability → Type 0 where
  here : Delegated csprng root root
  next :
      {parent child : Capability} (counter requested : ℕ)
      → Delegated csprng root parent
      → (derive csprng counter parent requested).0 ≡ some child
      → Delegated csprng root child

pub derive-some :
    (csprng : ℕ → ℕ) (counter requested : ℕ) (parent child : Capability)
    → (derive csprng counter parent requested).0 ≡ some child
    → (has_all parent.rights right_delegate ≡ true)
      × (has_all parent.rights child.rights ≡ true)
      × (child.rights ≡ requested)
      × (child.object ≡ parent.object)
      × (child.token ≡ csprng counter)
unfolding derive
derive-some csprng counter requested parent child e = ground arith

permits_up :
    (p c : Capability) (right : ℕ)
    → has_all p.rights c.rights ≡ true
    → permits c right ≡ true
    → permits p right ≡ true
unfolding permits
permits_up p c right h k = has_all_trans p.rights c.rights right h k

-- No chain of derivations, of any length, ends in a token with a right that its root lacks, or in
-- one that names another object.
pub Delegated-no_amplification :
    {csprng : ℕ → ℕ} {root child : Capability} (right : ℕ)
    → Delegated csprng root child
    → permits child right ≡ true
    → (permits root right ≡ true) × (child.object ≡ root.object)
Delegated-no_amplification right here h = (h, refl)
Delegated-no_amplification {csprng} {root} {child} right (next {parent = p} counter requested d e)
      h =
    let made = derive-some csprng counter requested p child e in
    let up = Delegated-no_amplification right d (permits_up p child right made.1 h) in
    (up.0, made.3 ∙ up.1)

-- A token without the right to delegate ends every chain: nothing else is derived from it.
pub Delegated-needs_delegate :
    {csprng : ℕ → ℕ} {root child : Capability}
    → permits root right_delegate ≡ false
    → Delegated csprng root child
    → child ≡ root
unfolding permits
Delegated-needs_delegate h here = refl
Delegated-needs_delegate {csprng} {root} {child} h (next {parent = p} counter requested d e) =
    let same = Delegated-needs_delegate h d in
    let made = derive-some csprng counter requested p child e in
    cc (h, made.0, ap (λ c. has_all c.rights right_delegate) same)

-- A refused request takes no value from the generator, so it does not move the counter.
pub derive_refused_counter :
    (csprng : ℕ → ℕ) (counter requested : ℕ) (parent : Capability)
    → (derive csprng counter parent requested).0 ≡ none
    → (derive csprng counter parent requested).1 ≡ counter
unfolding derive
derive_refused_counter csprng counter requested parent e = ground arith
