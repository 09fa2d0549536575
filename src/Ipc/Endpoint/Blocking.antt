-- ===== src/Ipc/Endpoint/Blocking.antt =====
-- What goes wrong between the two halves of a blocking call or receive of ipc.rs.
use whisez_os.Prelude.{ℕ, ◌≤◌, ◌≡◌, true, none, some, [], ◌∷◌, arith, length}
use whisez_os.Prelude.Results.{ok, err}
use whisez_os.Cap.{Capability, permits, right_send, right_receive}
use whisez_os.Ipc.{timed_out, inline_max}
use whisez_os.Ipc.Endpoint.{
  Message, idle, receiver_waiting, Endpoint, Threads, ReplyStatus, parked, call_begin, call_end,
  receive_poll, receive_park,
}

module _ (e : Endpoint) (w w' : Threads) (client holder : Capability) (me server : ℕ)
    (msg : Message) (sends : permits client right_send ≡ true)
    (receives : permits holder right_receive ≡ true) (small : length msg.inline ≤ inline_max)
    (empty : e.send_queue ≡ []) (free : e.state ≡ idle) where
  -- The fault of the deadline: on an idle endpoint with an empty queue, a caller with the right to
  -- send and no more than 256 bytes whose call timed out is still in the queue: if its buffer has
  -- no pages, the next receive by a holder of the right answers with this caller and the length of
  -- what stands in its buffer.
  pub timed_out_sender_is_served :
      (d : ℕ) (status : ReplyStatus)
      → (w'.buffer me).pages ≡ none
      → let (e', _, begun) = call_begin e w client me msg in
        (call_end begun (some d) true status ≡ err timed_out)
        × ((receive_poll e' w' holder server).1 ≡ some (ok (me, length (w'.buffer me).bytes)))
  unfolding call_begin call_end receive_poll
  timed_out_sender_is_served d status bare = ground arith

  -- The fault of the slow path: on an idle endpoint with an empty queue, a caller with the right to
  -- send and no more than 256 bytes is parked, and the buffers of the threads are as before the
  -- call.
  pub parked_message_not_staged :
      let (e', w1, begun) = call_begin e w client me msg in
      (begun ≡ parked) × (w1 ≡ w) × (e'.send_queue ≡ me ∷ [])
  unfolding call_begin
  parked_message_not_staged = ground arith

  -- The lost wakeup: on an idle endpoint with an empty queue, a server with the right to receive
  -- looks at the queue and finds none, then a caller with the right to send and no more than 256
  -- bytes is parked, and then the server parks: the caller is in the queue while the endpoint says
  -- that the server waits.
  pub receive_race_blocks_both :
      let (e1, found) = receive_poll e w holder server in
      let (e2, _, begun) = call_begin e1 w client me msg in
      let e3 = receive_park e2 server in
      (found ≡ none)
      × (begun ≡ parked)
      × (e3.state ≡ receiver_waiting server)
      × (e3.send_queue ≡ me ∷ [])
  unfolding call_begin receive_poll receive_park
  receive_race_blocks_both = ground arith
