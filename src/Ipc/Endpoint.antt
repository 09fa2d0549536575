-- ===== src/Ipc/Endpoint.antt =====
-- The synchronous endpoint of ipc.rs, lines 88 to 215, and payload staging, lines 324 to 355.
-- A call blocks in the middle: it is two steps, before and after, and so is a receive that finds no
-- sender. Between them other threads run. The thread table (`crate::thread`) is not in the sources:
-- the message buffer of a thread and the partner of a handoff are fields of `Threads` here, and
-- and delivering capabilities, which answers nothing, is left out.
pub mod Fifo
pub mod Blocking
use whisez_os.Prelude.{
  ℕ, zero, suc, ◌+◌, ◌%◌, ◌^◌, ◌≤◌, Bool, true, false, not, ◌&&◌, Option, none, some, List, [], ◌∷◌,
  ◌++◌, ◌==◌, ltb, leb, if◌then◌else◌, length, min, take,
}
use whisez_os.Prelude.Results.{Result, ok, err, ◌>>=◌}
use whisez_os.Cap.{Capability, permits, right_send, right_receive}
use whisez_os.Ipc.{
  IpcError, denied, peer_gone, too_large, overflow, timed_out, inline_max, PageGrant,
}
use whisez_os.Vault.Transfer.{transfers, arena_for_thread}

pub record Message : Type 0 where
  pub label : ℕ
  pub inline : List ℕ
  pub pages : Option PageGrant
  pub caps : List Capability

pub data EndpointState : Type 0 where
  idle : EndpointState
  receiver_waiting : ℕ → EndpointState
  senders_queued : EndpointState

-- The identity and the owner of an endpoint are read by no operation.
pub record Endpoint : Type 0 where
  pub state : EndpointState
  pub send_queue : List ℕ
  pub traffic : ℕ

-- `heapless::Deque<ThreadId, 64>`.
abbrev pub queue_cap : ℕ
queue_cap = 64

unfoldable pub new : Endpoint
new = record { state = idle; send_queue = []; traffic = 0 }

-- What `stage_payload` writes to the buffer of the sending thread. A buffer holds 8 capabilities.
pub record Buffer : Type 0 where
  pub label : ℕ
  pub bytes : List ℕ
  pub pages : Option PageGrant
  pub caps : List Capability

abbrev pub buffer_caps : ℕ
buffer_caps = 8

pub record Threads : Type 0 where
  pub buffer : ℕ → Buffer
  pub partner : ℕ → Option ℕ

abbrev pub update {ℓ} : {A : Type ℓ} → (ℕ → A) → ℕ → A → ℕ → A
update f t a u = if u == t then a else f u

-- The buffer holds `inline_max` bytes; copying more into it panics, which is `none`.
unfoldable pub stage_payload : Threads → ℕ → ℕ → Message → Option Threads
stage_payload w from to msg =
    if ltb inline_max (length msg.inline)
    then none
    else some (record {
      buffer = update w.buffer from (record {
        label = msg.label;
        bytes = msg.inline;
        pages = msg.pages;
        caps = take buffer_caps msg.caps;
      });
      partner = update w.partner to (some from);
    })

-- Pages move when the message is taken; a refused transfer denies it.
unfoldable pub commit_payload : Threads → ℕ → ℕ → Result IpcError ℕ
unfolding transfers arena_for_thread
commit_payload w from to = elim (w.buffer from).pages [
  | none ↦ ok (length (w.buffer from).bytes)
  | some grant ↦
      if transfers arena_for_thread from to grant
      then ok (length (w.buffer from).bytes)
      else err denied
]

pub data ReplyStatus : Type 0 where
  ready : ℕ → ReplyStatus
  gone late : ReplyStatus

unfoldable pub collect_reply : ReplyStatus → Result IpcError ℕ
collect_reply (ready len) = ok len
collect_reply gone = err peer_gone
collect_reply late = err timed_out

-- How a call goes on: it fails, it switched to the receiver, it is parked in the queue, or the
-- kernel panics.
pub data Begun : Type 0 where
  failed : IpcError → Begun
  handed_to : ℕ → Begun
  parked panicked : Begun

abbrev has_pages : Option PageGrant → Bool
has_pages none = false
has_pages (some g) = true

-- The park of the slow path: the state is written before the queue is tried.
unfoldable pub enqueue_sender : Endpoint → ℕ → Endpoint × Begun
enqueue_sender e me =
    if ltb (length e.send_queue) queue_cap
    then (record e { state = senders_queued; send_queue = e.send_queue ++ me ∷ [] }, parked)
    else (record e { state = senders_queued }, failed overflow)

unfoldable pub dispatch_call :
    EndpointState → Endpoint → Threads → ℕ → Message → Endpoint × Threads × Begun
unfolding enqueue_sender stage_payload
dispatch_call (receiver_waiting receiver) e w me msg = elim (stage_payload w me receiver msg) [
  | none ↦ (record e { state = idle }, w, panicked)
  | some w' ↦
      (record e { state = idle; traffic = (e.traffic + 1) % 2 ^ 64 }, w', handed_to receiver)
]
dispatch_call idle e w me msg = let (e', b) = enqueue_sender e me in (e', w, b)
dispatch_call senders_queued e w me msg = let (e', b) = enqueue_sender e me in (e', w, b)

-- `call` up to the point where the caller blocks.
unfoldable pub call_begin :
    Endpoint → Threads → Capability → ℕ → Message → Endpoint × Threads × Begun
unfolding dispatch_call
call_begin e w caller me msg =
    if not (permits caller right_send)
    then (e, w, failed denied)
    else if ltb inline_max (length msg.inline) && not (has_pages msg.pages)
    then (e, w, failed too_large)
    else dispatch_call e.state e w me msg

-- `call` once the caller runs again. Only a parked caller with a deadline can time out. After a
-- panic nothing runs; the answer there stands for none.
unfoldable pub call_end : Begun → Option ℕ → Bool → ReplyStatus → Result IpcError ℕ
unfolding collect_reply
call_end (failed x) deadline timeout status = err x
call_end panicked deadline timeout status = err peer_gone
call_end (handed_to t) deadline timeout status = collect_reply status
call_end parked none timeout status = collect_reply status
call_end parked (some d) timeout status = if timeout then err timed_out else collect_reply status

-- `receive` up to the point where it blocks: `none` as the answer means that it goes on to park.
unfoldable pub receive_poll :
    Endpoint → Threads → Capability → ℕ → Endpoint × Option (Result IpcError (ℕ × ℕ))
unfolding commit_payload
receive_poll e w holder me =
    if not (permits holder right_receive) then (e, some (err denied)) else elim e.send_queue [
      | [] ↦ (e, none)
      | sender ∷ rest ↦ elim (commit_payload w sender me) [
        | ok len ↦ (
          record e { send_queue = rest; traffic = (e.traffic + 1) % 2 ^ 64 },
          some (ok (sender, len)),
        )
        | err x ↦ (record e { send_queue = rest }, some (err x))
      ]
    ]

-- The lock on the queue is dropped before this write, so other steps can come between.
unfoldable pub receive_park : Endpoint → ℕ → Endpoint
receive_park e me = record e { state = receiver_waiting me }

-- `receive` once it runs again.
unfoldable pub receive_end : Threads → ℕ → Result IpcError (ℕ × ℕ)
unfolding commit_payload
receive_end w me = elim (w.partner me) [
  | none ↦ err peer_gone
  | some sender ↦ commit_payload w sender me >>= λ len. ok (sender, len)
]

-- `reply`: the payload is staged; then the caller `to` is woken with the slice of the server `me`.
unfoldable pub reply : Threads → ℕ → ℕ → Message → Option Threads
unfolding stage_payload
reply w me to msg = stage_payload w me to msg
