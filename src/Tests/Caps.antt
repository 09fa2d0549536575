-- ===== src/Tests/Caps.antt =====
-- Tokens and capability sets.
use whisez_os.Prelude.{
  ℕ, ◌+◌, ◌≡◌, ◌⊎◌, refl, true, false, Option, none, some, get_elem?, set, replicate,
}
use whisez_os.Prelude.Bits.{has_all}
use whisez_os.Cap.{
  Capability, endpoint, process, object_eq, permits, handle, derive, next_token, right_send,
}
use whisez_os.Cap.Delegation.{here, next, Delegated-no_amplification}
use whisez_os.CapSet.{
  CapSet, new, insert, insert_loop, lookup, lookup_loop, revoke_object, revoke_loop, names,
}
use whisez_os.CapSet.Laws.{IsValid, lookup-insert}
use whisez_os.CapSet.Histories
use whisez_os.CapSet.Histories.{Reach-insert, inserts, revokes}
use whisez_os.CapSet.Revoke.{lookup-revoke_object, revoke_loses_probe_chain}
use whisez_os.Tests.{agent}

abbrev generator : ℕ → ℕ
generator n = n + 100

-- Derived from `agent`, with the right to send alone.
abbrev sender : Capability
sender = record { token = 100; object = endpoint 1; rights = 8 }

agent-derive : (derive generator 0 agent 8).0 ≡ some sender
unfolding derive next_token has_all
agent-derive = refl

sender_sends : permits sender right_send ≡ true
unfolding permits has_all
sender_sends = refl

Delegated-no_amplification_example : (permits agent right_send ≡ true) × (endpoint 1 ≡ endpoint 1)
Delegated-no_amplification_example =
    Delegated-no_amplification right_send (next 0 8 here agent-derive) sender_sends

sender-derive : (derive generator 1 sender 8).0 ≡ none
unfolding derive next_token has_all
sender-derive = refl

-- One token, under handle 7.
abbrev one_token : CapSet
one_token = record { entries = set (replicate 256 none) 7 (some agent); len = 1 }

insert-agent : insert new agent ≡ some (one_token, some 7)
unfolding insert insert_loop new handle
insert-agent = refl

-- A token that is inserted, and its object revoked.
Reach-insert_example :
    IsValid (revoke_object one_token (endpoint 1)).0
    × ((t : CapSet) × (r : Option ℕ) × (insert (revoke_object one_token (endpoint 1)).0 agent
          ≡ some (t, r)))
Reach-insert_example =
    Reach-insert agent (revokes (endpoint 1) (inserts agent Histories.here insert-agent))

lookup-insert_example :
    ((lookup one_token 7 ≡ some agent)
      ⊎ ((one_token ≡ new)
          × ((found : Capability) × (lookup new 7 ≡ some found) × (handle found ≡ handle agent))))
    × ((k : ℕ) (d : Capability) → lookup new k ≡ some d → lookup one_token k ≡ some d)
lookup-insert_example = lookup-insert new agent insert-agent

agent_kept : lookup (revoke_object one_token (process 1)).0 7 ≡ some agent
unfolding lookup lookup_loop revoke_object revoke_loop names object_eq handle
agent_kept = refl

lookup-revoke_object_example : object_eq (endpoint 1) (process 1) ≡ false
lookup-revoke_object_example = lookup-revoke_object one_token (process 1) 7 agent_kept

-- Two tokens whose handles, 7 and 263, start at the same slot.
abbrev colliding : Capability
colliding = record { token = 263; object = process 2; rights = 8 }

abbrev two_tokens : CapSet
two_tokens = record {
  entries = set (set (replicate 256 none) 7 (some agent)) 8 (some colliding);
  len = 2;
}

same_object : object_eq (endpoint 1) (endpoint 1) ≡ true
unfolding object_eq
same_object = refl

other_object : object_eq (process 2) (endpoint 1) ≡ false
unfolding object_eq
other_object = refl

revoke_loses_probe_chain_example :
    (lookup (revoke_object two_tokens (endpoint 1)).0 263 ≡ none)
    × (get_elem? (revoke_object two_tokens (endpoint 1)).0.entries 8 ≡ some (some colliding))
revoke_loses_probe_chain_example =
    revoke_loses_probe_chain two_tokens (endpoint 1) 263 8 agent colliding refl same_object refl
      other_object
