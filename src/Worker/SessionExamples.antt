-- ===== src/Worker/SessionExamples.antt =====
-- worker/session/: the theorems at a worker that looks its dispatcher up, and at one that does not.
use task_messenger.Common.{◌≡◌, refl, true, false, none, some, [], ◌∷◌, Option}
use task_messenger.Transport.Blocking.{Stream}
use task_messenger.Rendezvous.Frame.{
  read_exact, read_payload, read_body, read_message, write_exact, write_message,
}
use task_messenger.Rendezvous.Server.{Text}
use task_messenger.Rendezvous.Client.{new_client, Network, exchange, discover_endpoint}
use task_messenger.Worker.Session.{
  disconnected, running, updated, WorkerSession, Requests, Try, Found, try_discover_dispatcher,
  start_runtime, disconnect_runtime, discovering,
}
use task_messenger.Worker.Control.{Answers, continues, control_turn, idle}
use task_messenger.Worker.Discovery.{
  Resolved, disconnect_runtime_ends_discovery, try_discover_dispatcher-Resolved,
}

abbrev direct : WorkerSession
direct = record {
  host = 9 ∷ [];
  port = 1;
  start_requested = true;
  disconnect_requested = false;
  shutdown_requested = false;
  connection_status = running;
  rendezvous_client = none;
  reconnect_delay = 4;
  slept = 2 ∷ [];
}

abbrev quiet : Requests
quiet = record { start = false; disconnect = false; shutdown = false }

-- The connection is lost.
abbrev lost : Answers
lost = record {
  was_connected = true;
  connects = false;
  while_connecting = quiet;
  is_connected = true;
  runs = false;
  while_running = quiet;
  was_disconnect_requested = false;
  tries = [];
}

abbrev request : Text → Text
request role = role

abbrev parse : Text → Option Found
parse text = some (true, false, 3 ∷ [], 4000)

abbrev reconnecting : WorkerSession
reconnecting = record direct {
  connection_status = disconnected;
  reconnect_delay = 5;
  slept = 2 ∷ 4 ∷ [];
}

turn_ends : control_turn request parse (1 ∷ []) lost direct ≡ some (continues, reconnecting)
unfolding control_turn
turn_ends = refl

abbrev looking : WorkerSession
looking = record direct { rendezvous_client = some new_client }

abbrev answering : Stream
answering = record {
  incoming = 2 ∷ 0 ∷ 0 ∷ 0 ∷ 6 ∷ 9 ∷ [];
  chunks = [];
  ends = true;
  read_fault = none;
  write_fault = none;
  outgoing = [];
  takes = [];
  is_open = true;
}

abbrev net : Network
net = record { socket = some answering; cancelled_meanwhile = false; connect_error = none }

abbrev try : Try
try = record { before = quiet; network = net; meanwhile = quiet }

disconnect_runtime_ends_discovery_example :
    try_discover_dispatcher request parse
      (1 ∷ [])
      (try ∷ try ∷ [])
      (start_runtime (idle (disconnect_runtime looking)))
    ≡ none
disconnect_runtime_ends_discovery_example =
    disconnect_runtime_ends_discovery request parse (1 ∷ []) (try ∷ try ∷ []) new_client looking
      refl refl (((refl, refl), (refl, refl)), (((refl, refl), (refl, refl)), tt))

abbrev found : WorkerSession
found = record looking {
  host = 3 ∷ [];
  port = 4000;
  connection_status = discovering;
  rendezvous_client = some (record new_client { sent = 2 ∷ 0 ∷ 0 ∷ 0 ∷ 5 ∷ 1 ∷ [] });
}

discovery_ends :
    try_discover_dispatcher request parse (1 ∷ []) (try ∷ []) looking ≡ some (updated, found)
unfolding try_discover_dispatcher discover_endpoint exchange read_message read_exact read_payload
    read_body write_message write_exact
discovery_ends = refl

try_discover_dispatcher-Resolved_example : Resolved parse (updated, found)
try_discover_dispatcher-Resolved_example =
    try_discover_dispatcher-Resolved request parse (1 ∷ []) (try ∷ []) new_client looking
      (updated, found) refl discovery_ends
