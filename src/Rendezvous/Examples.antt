-- ===== src/Rendezvous/Examples.antt =====
-- rendezvous/: the theorems at a dispatcher that registers and is looked up.
use task_messenger.Common.{
  ℕ, ◌≡◌, refl, true, false, none, some, List, [], ◌∷◌, ◌++◌, ◌-◌, arith, ltb,
}
use task_messenger.Transport.Blocking.{Stream}
use task_messenger.Rendezvous.Frame.{
  read_exact, read_payload, read_body, write_exact, ok, read_message, write_message,
}
use task_messenger.Rendezvous.Messages.{frame, Sendable}
use task_messenger.Rendezvous.Server.{
  Text, Endpoint, Reply, done, found, Json, Server, dispatch_message, handle_connection,
  handle_register, handle_discover, monitor_page,
}
use task_messenger.Rendezvous.Client.{new_client, Network, exchange}
use task_messenger.Rendezvous.Answer.{read_message-write_message, exchange-handle_connection}
use task_messenger.Rendezvous.Relay.{
  Reading, Listening, goes_on, SnapshotReporter, relayed, listen_turn, ack_body, report,
}
use task_messenger.Rendezvous.Reporting.{report-listen_turn}
use task_messenger.Rendezvous.Totality.{Returns, handle_connection-Returns}
use task_messenger.Rendezvous.Discovery.{
  reports, discovers, after_all, last_heard, discover-register,
}

-- Bytes come one by one into the one side.
abbrev sender : Stream
sender = record {
  incoming = [];
  chunks = [];
  ends = true;
  read_fault = none;
  write_fault = none;
  outgoing = [];
  takes = 2 ∷ 1 ∷ [];
  is_open = true;
}

abbrev receiver : List ℕ → Stream
receiver bytes = record sender { incoming = bytes; chunks = 1 ∷ 1 ∷ 3 ∷ []; takes = [] }

abbrev sent : List ℕ
sent = 4 ∷ 0 ∷ 0 ∷ 0 ∷ 5 ∷ 10 ∷ 20 ∷ 30 ∷ []

sends : (write_message 5 (10 ∷ 20 ∷ 30 ∷ []) sender).1.outgoing ≡ sent
unfolding write_message write_exact
sends = refl

read_message-write_message_example :
    ((read_message (receiver (sent ++ 9 ∷ []))).0 ≡ ok (5, 10 ∷ 20 ∷ 30 ∷ []))
    × ((read_message (receiver (sent ++ 9 ∷ []))).1.incoming ≡ 9 ∷ [])
read_message-write_message_example =
    read_message-write_message 5 (10 ∷ 20 ∷ 30 ∷ []) (9 ∷ []) sender (receiver (sent ++ 9 ∷ []))
      (omega arith) refl refl (tt, (omega arith, (omega arith, tt)))
      ((omega arith, (omega arith, (omega arith, tt))), tt) (rw sends refl)

abbrev dispatcher : Endpoint
dispatcher = record {
  role = 1 ∷ [];
  name = 2 ∷ [];
  vn_host = 3 ∷ [];
  vn_port = 4000;
  last_seen = 100;
}

abbrev dump_of : Reply → Text
dump_of done = 1 ∷ []
dump_of _ = 0 ∷ []

-- A library that finds one endpoint in every text.
abbrev json : Json
json = record {
  read_endpoint =
      λ _. some (dispatcher.role, dispatcher.name, dispatcher.vn_host, dispatcher.vn_port);
  read_identity = λ _. none;
  read_role = λ _. some dispatcher.role;
  dump = dump_of;
}

abbrev empty_server : Server
empty_server = record { endpoint = none; last_snapshot_json = []; ttl_seconds = 30 }

discover-register_example :
    handle_discover json 41_000_000_000 [] (
      after_all json
        (discovers [] ∷ reports 5_000_000_000 (1 ∷ []) (2 ∷ []) [] ∷ [])
        (handle_register json 100 (7 ∷ []) empty_server).1)
    ≡ found (3 ∷ []) 4000 (2 ∷ []) (
        ltb 30_000_000_000 (
          41_000_000_000
          - last_heard dispatcher 100
              (discovers [] ∷ reports 5_000_000_000 (1 ∷ []) (2 ∷ []) [] ∷ [])))
discover-register_example =
    discover-register json (7 ∷ []) [] dispatcher
      (discovers [] ∷ reports 5_000_000_000 (1 ∷ []) (2 ∷ []) [] ∷ []) 41_000_000_000 empty_server
      refl (refl, (refl, tt)) refl

-- A registration over the wire.
abbrev answer : List ℕ
answer = frame 2 (1 ∷ [])

abbrev client_side : Stream
client_side = receiver answer

abbrev server_side : Stream
server_side = record sender { incoming = frame 1 (7 ∷ []) }

abbrev net : Network
net = record { socket = some client_side; cancelled_meanwhile = false; connect_error = none }

client_sends : (write_message 1 (7 ∷ []) client_side).1.outgoing ≡ frame 1 (7 ∷ [])
unfolding write_message write_exact
client_sends = refl

server_answers : (handle_connection json 100 empty_server server_side).0.1.outgoing ≡ answer
unfolding dispatch_message handle_connection read_message write_message read_exact read_payload
    read_body write_exact
server_answers = refl

reply_fits : Sendable (json.dump (dispatch_message json 100 1 (7 ∷ []) empty_server).0)
unfolding dispatch_message
reply_fits = omega arith

exchange-handle_connection_example :
    ((exchange net 1 (7 ∷ []) 2 new_client).0
      ≡ some (json.dump (dispatch_message json 100 1 (7 ∷ []) empty_server).0))
    × ((handle_connection json 100 empty_server server_side).1
        ≡ (dispatch_message json 100 1 (7 ∷ []) empty_server).1)
exchange-handle_connection_example =
    exchange-handle_connection json 100 1 (7 ∷ []) empty_server new_client net client_side
      server_side refl (omega arith) reply_fits refl refl
      (refl, refl, ((omega arith, (omega arith, (omega arith, tt))), tt))
      (refl, refl, (tt, (omega arith, (omega arith, tt)))) (rw client_sends refl)
      (rw server_answers refl)

handle_connection-Returns_example :
    Returns (handle_connection json 100 empty_server (receiver (200 ∷ 0 ∷ 0 ∷ 0 ∷ 1 ∷ []))).0.0
handle_connection-Returns_example =
    handle_connection-Returns json 100 empty_server (receiver (200 ∷ 0 ∷ 0 ∷ 0 ∷ 1 ∷ [])) refl

-- A snapshot over the wire: its JSON names the role only.
abbrev reading : Reading
reading = record { role_in = λ _. some (1 ∷ []); name_in = λ _. none }

abbrev listening : Listening
listening = record { identity = none; server = empty_server }

abbrev reporter_side : Stream
reporter_side = receiver (frame 8 ack_body)

abbrev listener_side : Stream
listener_side = record sender { incoming = frame 7 (7 ∷ 9 ∷ []) }

abbrev reporter : SnapshotReporter
reporter = record { cancelled = false; socket = some reporter_side }

reporter_sends : (write_message 7 (7 ∷ 9 ∷ []) reporter_side).1.outgoing ≡ frame 7 (7 ∷ 9 ∷ [])
unfolding write_message write_exact
reporter_sends = refl

listener_answers : (listen_turn reading 120 listening listener_side).2.outgoing ≡ frame 8 ack_body
unfolding listen_turn read_message write_message read_exact read_payload read_body write_exact
listener_answers = refl

report-listen_turn_example :
    (u : Stream) × (report (7 ∷ 9 ∷ []) net reporter ≡ (record reporter { socket = some u }, true))
    × ((listen_turn reading 120 listening listener_side).0 ≡ goes_on)
    × ((listen_turn reading 120 listening listener_side).1
        ≡ relayed reading 120 (7 ∷ 9 ∷ []) listening)
    × (monitor_page (listen_turn reading 120 listening listener_side).1.server ≡ (200, 7 ∷ 9 ∷ []))
report-listen_turn_example =
    report-listen_turn reading 120 (7 ∷ 9 ∷ []) net listening reporter reporter_side listener_side
      (omega arith) (λ e. absurd (cc e)) refl refl
      (refl, refl, ((omega arith, (omega arith, (omega arith, tt))), tt))
      (refl, refl, (tt, (omega arith, (omega arith, tt)))) (rw reporter_sends refl)
      (rw listener_answers refl)
