-- ===== src/Tests/Ports.antt =====
-- A history of calls on a port.
use whisez_os.Prelude.{◌≡◌, List, [], ◌∷◌}
use whisez_os.Ipc.{Notification}
use whisez_os.Ipc.Port.{new}
use whisez_os.Ipc.Port.Histories.{
  Call, posts, receives, counts, answers, queue_answers, port_is_bounded_queue,
}
use whisez_os.Tests.{agent, agent_sends, agent_receives}

abbrev note : Notification
note = record { label = 5; payload = []; from = 3 }

abbrev history : List Call
history = posts note ∷ receives ∷ receives ∷ counts ∷ []

port_is_bounded_queue_example :
    answers agent new history ≡ queue_answers (record { items = []; lost = 0 }) history
port_is_bounded_queue_example = port_is_bounded_queue agent agent_sends agent_receives history
