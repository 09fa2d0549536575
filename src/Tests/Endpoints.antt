-- ===== src/Tests/Endpoints.antt =====
-- Calls and receives on an endpoint.
use whisez_os.Prelude.{◌≡◌, refl, none, [], ◌∷◌, arith}
use whisez_os.Prelude.Results.{ok}
use whisez_os.Ipc.{timed_out}
use whisez_os.Ipc.Endpoint.{
  Message, Endpoint, Threads, receiver_waiting, new, late, parked, call_begin, call_end,
  receive_poll, receive_park,
}
use whisez_os.Ipc.Endpoint.Fifo.{calls, serves, endpoint_fifo}
use whisez_os.Ipc.Endpoint.Blocking.{receive_race_blocks_both}
use whisez_os.Tests.{agent, agent_sends, agent_receives}

abbrev bare : Threads
bare = record {
  buffer = λ t. record { label = 0; bytes = []; pages = none; caps = [] };
  partner = λ t. none;
}

abbrev hello : Message
hello = record { label = 1; inline = 72 ∷ 105 ∷ []; pages = none; caps = [] }

endpoint_fifo_example :
    serves bare agent 9 2 (calls new bare agent ((4, hello) ∷ (5, hello) ∷ []))
    ≡ ok (4, 0) ∷ ok (5, 0) ∷ []
endpoint_fifo_example =
    endpoint_fifo bare bare agent agent 9 ((4, hello) ∷ (5, hello) ∷ []) agent_sends agent_receives
      (omega arith, (omega arith, tt)) (omega arith)

abbrev quiet : Endpoint
quiet = record { state = whisez_os.Ipc.Endpoint.idle; send_queue = []; traffic = 0 }

receive_race_blocks_both_example :
    let (e1, found) = receive_poll quiet bare agent 9 in
    let (e2, _, begun) = call_begin e1 bare agent 4 hello in
    let e3 = receive_park e2 9 in
    (found ≡ none) × (begun ≡ parked) × (e3.state ≡ receiver_waiting 9) × (e3.send_queue ≡ 4 ∷ [])
receive_race_blocks_both_example =
    receive_race_blocks_both quiet bare bare agent agent 4 9 hello agent_sends agent_receives
      (omega arith) refl refl
