-- ===== src/Rendezvous/Client.antt =====
-- rendezvous/RendezvousClient.cpp: one request over a connection of its own.
use task_messenger.Common.{
  Bool, true, false, Option, none, some, List, [], ◌++◌, ◌==◌, if◌then◌else◌, ℕ,
}
use task_messenger.Session.{Errc}
use task_messenger.Transport.Blocking.{Stream}
use task_messenger.Rendezvous.Frame.{
  Outcome, ok, throws, blocked, Action, ◌>>=◌, read_message, write_message,
}
use task_messenger.Rendezvous.Server.{Text, discover_request, register_request, unregister_request}

pub record Client : Type 0 where
  pub cancelled : Bool
  pub active_socket : Bool
  -- What its sockets have sent so far.
  pub sent : List ℕ

-- What the network does with one attempt.
pub record Network : Type 0 where
  pub socket : Option Stream
  pub cancelled_meanwhile : Bool
  pub connect_error : Option Errc

abbrev pub new_client : Client
new_client = record { cancelled = false; active_socket = false; sent = [] }

abbrev pub cancel : Client → Client
cancel c = record c { cancelled = true }

abbrev talk : ℕ → Text → Action (ℕ × Text)
talk req_type req_body = do _ ← write_message req_type req_body; read_message

-- A wait for the answer ends when the client is cancelled, which shuts its socket down.
abbrev expect : ℕ → Outcome (ℕ × Text) → Option Text
expect expected (ok (resp_type, resp_body)) = if resp_type == expected then some resp_body else none
expect expected (throws e) = none
expect expected blocked = none

abbrev connected_exchange : ℕ → Text → ℕ → Option Errc → Stream → Option Text
connected_exchange req_type req_body expected (some e) sock = none
connected_exchange req_type req_body expected none sock =
    expect expected (talk req_type req_body sock).0

abbrev written : ℕ → Text → Option Errc → Stream → List ℕ
written req_type req_body (some e) sock = []
written req_type req_body none sock = (talk req_type req_body sock).1.outgoing

unfoldable pub exchange : Network → ℕ → Text → ℕ → Client → Option Text × Client
exchange net req_type req_body expected c = if c.cancelled then (none, c) else elim net.socket [
  | none ↦ (none, c)
  | some sock ↦
      if net.cancelled_meanwhile then (none, record (cancel c) { active_socket = false }) else (
        connected_exchange req_type req_body expected net.connect_error sock,
        record c {
          active_socket = false;
          sent = c.sent ++ written req_type req_body net.connect_error sock;
        },
      )
]

-- `discover_endpoint`: the text of the answer, which the caller parses.
unfoldable pub discover_endpoint : (Text → Text) → Network → Text → Client → Option Text × Client
unfolding exchange
discover_endpoint request net role c = exchange net discover_request (request role) 6 c

abbrev answered : (Text → Bool) → Option Text × Client → Bool × Client
answered accepts (none, c) = (false, c)
answered accepts (some text, c) = (accepts text, c)

-- `register_endpoint` and `unregister_endpoint`: `accepts` is what is read of `ok` in an answer.
unfoldable pub register_endpoint : (Text → Bool) → Network → Text → Client → Bool × Client
unfolding exchange
register_endpoint accepts net request c =
    answered accepts (exchange net register_request request 2 c)

unfoldable pub unregister_endpoint : (Text → Bool) → Network → Text → Client → Bool × Client
unfolding exchange
unregister_endpoint accepts net request c =
    answered accepts (exchange net unregister_request request 4 c)
