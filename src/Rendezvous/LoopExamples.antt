-- ===== src/Rendezvous/LoopExamples.antt =====
-- services/rendezvous/RendezvousServer.cpp: a worker that asks after a client has sent rubbish.
use task_messenger.Common.{ℕ, ◌≡◌, refl, true, none, some, List, [], ◌∷◌, arith, All}
use task_messenger.Transport.Blocking.{Stream}
use task_messenger.Rendezvous.Frame.{read_exact, read_payload, read_body, read_message}
use task_messenger.Rendezvous.Messages.{frame}
use task_messenger.Rendezvous.Server.{Text, Endpoint, Reply, found, Json, Server}
use task_messenger.Rendezvous.Accepting.{Accepted, nobody, client, Turn, accept_turn}
use task_messenger.Rendezvous.Undisturbed.{BringsHarmless, after_turns, accept_turn-after_turns}

abbrev stream_of : List ℕ → Stream
stream_of bytes = record {
  incoming = bytes;
  chunks = 1 ∷ 3 ∷ [];
  ends = true;
  read_fault = none;
  write_fault = none;
  outgoing = [];
  takes = 2 ∷ [];
  is_open = true;
}

abbrev dump_of : Reply → Text
dump_of (found host port name stale) = host
dump_of _ = 0 ∷ []

abbrev json : Json
json = record {
  read_endpoint = λ _. none;
  read_identity = λ _. none;
  read_role = λ _. some (1 ∷ []);
  dump = dump_of;
}

abbrev dispatcher : Endpoint
dispatcher = record {
  role = 1 ∷ [];
  name = 2 ∷ [];
  vn_host = 3 ∷ [];
  vn_port = 4000;
  last_seen = 100;
}

abbrev server : Server
server = record { endpoint = some dispatcher; last_snapshot_json = []; ttl_seconds = 30 }

abbrev turn_with : Accepted → Turn
turn_with a = record { accepted = a; still = true; now = 110 }

-- Nobody, a client that breaks off, and one with a message of an unknown type.
abbrev early : List Turn
early =
    turn_with (nobody true)
    ∷ turn_with (client (stream_of (200 ∷ 0 ∷ 0 ∷ [])))
    ∷ turn_with (client (stream_of (frame 9 (7 ∷ []))))
    ∷ []

early_harmless : All (λ t. BringsHarmless t) early
unfolding read_message read_exact read_payload read_body
early_harmless = (tt, ((refl, refl, tt), ((refl, refl, (refl, refl)), tt)))

accept_turn-after_turns_example :
    let s = stream_of (frame 5 (7 ∷ [])) in
    (st' : Server) × (after_turns json early server ≡ some st')
    × (let turn = accept_turn json (record { accepted = client s; still = true; now = 150 }) st' in
        (u : Stream) × (turn.stream ≡ some u) × (u.outgoing ≡ frame 6 (3 ∷ [])))
accept_turn-after_turns_example =
    accept_turn-after_turns json early 150 (7 ∷ []) (1 ∷ []) dispatcher server
      (stream_of (frame 5 (7 ∷ []))) early_harmless refl refl refl (omega arith) (omega arith)
      (refl, refl, ((omega arith, (omega arith, tt)), (omega arith, tt))) refl
