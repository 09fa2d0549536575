-- ===== src/Ipc/Endpoint/Fifo.antt =====
-- Senders are served in the order in which they were parked, at most 64 at a time.
use whisez_os.Prelude.{
  ℕ, zero, suc, ◌+◌, ◌≤◌, ◌<◌, ◌≡◌, refl, ap, ◌∙◌, true, none, some, List, [], ◌∷◌, ◌++◌, arith,
  length, length-append, Option-cases, inl, inr,
}
use mathlib.Core.List.{append-nil, append_assoc}
use whisez_os.Prelude.Results.{Result, ok, err}
use whisez_os.Cap.{Capability, permits, right_send, right_receive}
use whisez_os.Ipc.{IpcError, denied, inline_max, PageGrant}
use whisez_os.Vault.Transfer.{transfers, arena_for_thread, transfer_pages}
use whisez_os.Ipc.Endpoint.{
  Message, EndpointState, idle, receiver_waiting, senders_queued, Endpoint, new, queue_cap, Threads,
  call_begin, commit_payload, receive_poll,
}

-- No receiver is parked.
abbrev pub NoReceiver : EndpointState → Type 0
NoReceiver (receiver_waiting t) = ⊥
NoReceiver idle = Unit {0}
NoReceiver senders_queued = Unit {0}

-- One call after another, each up to the point where its caller blocks.
abbrev pub calls : Endpoint → Threads → Capability → List (ℕ × Message) → Endpoint
calls e w c [] = e
calls e w c ((t, msg) ∷ rest) = let (e', w', _) = call_begin e w c t msg in calls e' w' c rest

-- The answers of a number of receives in a row, up to the first that finds no sender.
pub serves : Threads → Capability → ℕ → ℕ → Endpoint → List (Result IpcError (ℕ × ℕ))
serves w c server zero e = []
serves w c server (suc n) e =
    let (e', answer) = receive_poll e w c server in
    let rest = serves w c server n e' in elim answer [ none ↦ [] | some a ↦ a ∷ rest ]

-- What a receive owes to a sender: it and the length of its message, or that its pages are denied.
abbrev pub answer_to : Threads → ℕ → Result IpcError (ℕ × ℕ)
answer_to w sender = elim (w.buffer sender).pages [
  | none ↦ ok (sender, length (w.buffer sender).bytes)
  | some grant ↦ err denied
]

abbrev pub answers_to : Threads → List ℕ → List (Result IpcError (ℕ × ℕ))
answers_to w [] = []
answers_to w (t ∷ rest) = answer_to w t ∷ answers_to w rest

abbrev pub AllSmall : List (ℕ × Message) → Type 0
AllSmall [] = Unit {0}
AllSmall ((t, msg) ∷ rest) = (length msg.inline ≤ inline_max) × AllSmall rest

abbrev pub senders : List (ℕ × Message) → List ℕ
senders [] = []
senders ((t, msg) ∷ rest) = t ∷ senders rest

call_begin_parks :
    (e : Endpoint) (w : Threads) (c : Capability) (t : ℕ) (msg : Message)
    → permits c right_send ≡ true
    → length msg.inline ≤ inline_max
    → NoReceiver e.state
    → length e.send_queue < queue_cap
    → ((call_begin e w c t msg).0.send_queue ≡ e.send_queue ++ t ∷ [])
      × NoReceiver (call_begin e w c t msg).0.state
unfolding call_begin
call_begin_parks e w c t msg p small free room = go e.state refl free
  where
    go :
        (s : EndpointState)
        → e.state ≡ s
        → NoReceiver s
        → ((call_begin e w c t msg).0.send_queue ≡ e.send_queue ++ t ∷ [])
          × NoReceiver (call_begin e w c t msg).0.state
    go idle h f = ground arith
    go (receiver_waiting r) h f = absurd f
    go senders_queued h f = ground arith

calls_queue :
    (e : Endpoint) (w : Threads) (c : Capability) (msgs : List (ℕ × Message))
    → permits c right_send ≡ true
    → AllSmall msgs
    → NoReceiver e.state
    → length e.send_queue + length msgs ≤ queue_cap
    → (calls e w c msgs).send_queue ≡ e.send_queue ++ senders msgs
calls_queue e w c [] p small free room = rw append-nil
calls_queue e w c ((t, msg) ∷ rest) p (s, small) free room =
    let (grown, still) = call_begin_parks e w c t msg p s free (omega arith) in
    let next = call_begin e w c t msg in
    let more = ap length grown ∙ length-append e.send_queue (t ∷ []) in
    calls_queue next.0 next.1 c rest p small still (omega arith)
    ∙ ap (λ q. q ++ senders rest) grown
    ∙ append_assoc e.send_queue (t ∷ []) (senders rest)

-- The fault of the hook `arena_for_thread`: no thread has an arena, so a message that grants pages is
-- denied to whoever takes it, whatever its grant.
pub commit_payload_denied :
    (w : Threads) (from to : ℕ) (grant : PageGrant)
    → (w.buffer from).pages ≡ some grant
    → commit_payload w from to ≡ err denied
unfolding commit_payload transfers arena_for_thread transfer_pages
commit_payload_denied w from to grant e = ground arith

receive_poll_takes :
    (e : Endpoint) (w : Threads) (c : Capability) (server t : ℕ) (rest : List ℕ)
    → permits c right_receive ≡ true
    → e.send_queue ≡ t ∷ rest
    → ((receive_poll e w c server).0.send_queue ≡ rest)
      × ((receive_poll e w c server).1 ≡ some (answer_to w t))
unfolding receive_poll commit_payload
receive_poll_takes e w c server t rest p q = elim (Option-cases (w.buffer t).pages) [
  | inl bare ↦ (ground arith, ground arith)
  | inr (g, paged) ↦
      let denied_to = commit_payload_denied w t server g paged in (ground arith, ground arith)
]

serves_queue :
    (w : Threads) (c : Capability) (server : ℕ) (q : List ℕ) (e : Endpoint)
    → permits c right_receive ≡ true
    → e.send_queue ≡ q
    → serves w c server (length q) e ≡ answers_to w q
unfolding serves
serves_queue w c server [] e p h = refl
serves_queue w c server (t ∷ rest) e p h =
    let (less, found) = receive_poll_takes e w c server t rest p h in
    rw (found, serves) (ap (λ r. answer_to w t ∷ r) (serves_queue w c server rest _ p less))

-- On a new endpoint up to 64 callers with the right to send, and no more than 256 bytes each, are parked,
-- and as many receives by a holder of the right answer to exactly these callers, the first caller first:
-- each with the caller and the length of what its buffer holds when it is received, or, where the buffer
-- grants pages, that it is denied.
pub endpoint_fifo :
    (w w' : Threads) (client holder : Capability) (server : ℕ) (msgs : List (ℕ × Message))
    → permits client right_send ≡ true
    → permits holder right_receive ≡ true
    → AllSmall msgs
    → length msgs ≤ queue_cap
    → serves w' holder server (length (senders msgs)) (calls new w client msgs)
      ≡ answers_to w' (senders msgs)
unfolding new
endpoint_fifo w w' client holder server msgs p r small room =
    serves_queue w' holder server (senders msgs) (calls new w client msgs) r
      (calls_queue new w client msgs p small tt (omega arith))
