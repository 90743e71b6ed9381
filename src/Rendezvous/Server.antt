-- ===== src/Rendezvous/Server.antt =====
-- services/rendezvous/RendezvousServer.cpp: the endpoint that is registered, and the handlers; with
-- the page of RendezvousHttpHandler.cpp.
-- JSON texts are read and printed by a library: what it finds in a text is a parameter.
use task_messenger.Common.{
  ℕ, suc, ◌-◌, ◌*◌, Bool, true, false, Option, none, some, List, [], ◌∷◌, ltb, ◌==◌, ◌&&◌,
  if◌then◌else◌,
}
use task_messenger.Transport.Blocking.{Stream}
use task_messenger.Rendezvous.Frame.{
  Outcome, ok, throws, blocked, Action, return, read_message, write_message,
}

abbrev pub Text : Type 0
Text = List ℕ

abbrev pub same_text : Text → Text → Bool
same_text [] [] = true
same_text (a ∷ s) (b ∷ t) = a == b && same_text s t
same_text _ _ = false

-- `RegisteredEndpoint`.
pub record Endpoint : Type 0 where
  pub role : Text
  pub name : Text
  pub vn_host : Text
  pub vn_port : ℕ
  -- In nanoseconds of the steady clock, as is `now` below.
  pub last_seen : ℕ

-- What the handlers answer.
pub data Reply : Type 0 where
  done bad_request unknown_type not_found bad_discovery : Reply
  found : Text → ℕ → Text → Bool → Reply

-- The fields that a request has: the read of a text fails where a field is of another type.
pub record Json : Type 0 where
  pub read_endpoint : Text → Option (Text × Text × Text × ℕ)
  pub read_identity : Text → Option (Text × Text)
  pub read_role : Text → Option Text
  pub dump : Reply → Text

pub record Server : Type 0 where
  pub endpoint : Option Endpoint
  pub last_snapshot_json : Text
  pub ttl_seconds : ℕ

abbrev pub register_request : ℕ
register_request = 1

abbrev pub unregister_request : ℕ
unregister_request = 3

abbrev pub discover_request : ℕ
discover_request = 5

abbrev pub report_snapshot : ℕ
report_snapshot = 7

abbrev pub is_named : Text → Text → Endpoint → Bool
is_named role name ep = same_text ep.role role && same_text ep.name name

abbrev pub is_request : ℕ → Bool
is_request type =
    if type == register_request
    then true
    else if type == unregister_request
    then true
    else type == discover_request

abbrev touch : ℕ → Text → Text → Option Endpoint → Option Endpoint
touch now role name none = none
touch now role name (some ep) =
    some (if is_named role name ep then record ep { last_seen = now } else ep)

abbrev pub on_snapshot : ℕ → Text → Text → Text → Server → Server
on_snapshot now role name snapshot s = record s {
  endpoint = touch now role name s.endpoint;
  last_snapshot_json = snapshot;
}

-- `{"error":"no snapshot available"}`.
abbrev no_snapshot : Text
no_snapshot =
    123 ∷ 34 ∷ 101 ∷ 114 ∷ 114 ∷ 111 ∷ 114 ∷ 34 ∷ 58 ∷ 34 ∷ 110 ∷ 111 ∷ 32 ∷ 115 ∷ 110 ∷ 97 ∷ 112
    ∷ 115 ∷ 104 ∷ 111 ∷ 116 ∷ 32 ∷ 97 ∷ 118 ∷ 97 ∷ 105 ∷ 108 ∷ 97 ∷ 98 ∷ 108 ∷ 101 ∷ 34 ∷ 125 ∷ []

abbrev pub page_of : Text → ℕ × Text
page_of [] = (503, no_snapshot)
page_of (c ∷ cs) = (200, c ∷ cs)

-- The handler of /api/monitor: the status and the body.
abbrev pub monitor_page : Server → ℕ × Text
monitor_page s = page_of s.last_snapshot_json

-- `std::chrono::seconds`, in the nanoseconds of the steady clock.
abbrev pub seconds : ℕ → ℕ
seconds n = n * 1_000_000_000

module _ (json : Json) where
  abbrev pub handle_register : ℕ → Text → Server → Reply × Server
  handle_register now body s = elim (json.read_endpoint body) [
    | none ↦ (bad_request, s)
    | some (role, name, vn_host, vn_port) ↦ (
      done,
      record s {
        endpoint = some (record {
          role = role;
          name = name;
          vn_host = vn_host;
          vn_port = vn_port;
          last_seen = now;
        });
      },
    )
  ]

  abbrev drop_named : Text → Text → Option Endpoint → Option Endpoint
  drop_named role name none = none
  drop_named role name (some ep) = if is_named role name ep then none else some ep

  abbrev pub handle_unregister : Text → Server → Reply × Server
  handle_unregister body s = elim (json.read_identity body) [
    | none ↦ (bad_request, s)
    | some (role, name) ↦ (done, record s { endpoint = drop_named role name s.endpoint })
  ]

  abbrev pub discover : ℕ → ℕ → Text → Option Endpoint → Reply
  discover now ttl role none = not_found
  discover now ttl role (some ep) =
      if same_text ep.role role
      then found ep.vn_host ep.vn_port ep.name (ltb (seconds ttl) (now - ep.last_seen))
      else not_found

  abbrev pub handle_discover : ℕ → Text → Server → Reply
  handle_discover now body s = elim (json.read_role body) [
    | none ↦ bad_discovery
    | some role ↦ discover now s.ttl_seconds role s.endpoint
  ]

  unfoldable pub dispatch_message : ℕ → ℕ → Text → Server → Reply × Server
  dispatch_message now type body s =
      if type == register_request
      then handle_register now body s
      else if type == unregister_request
      then handle_unregister body s
      else if type == discover_request
      then (handle_discover now body s, s)
      else (unknown_type, s)

  -- A response has the number behind its request's.
  abbrev respond : ℕ → Reply → Action (Unit {0})
  respond type reply =
      if is_request type then write_message (suc type) (json.dump reply) else return tt

  abbrev pub answer_to :
      ℕ → Outcome (ℕ × Text) × Stream → Server → (Outcome (Unit {0}) × Stream) × Server
  answer_to now (ok (type, body), stream) s =
      let (reply, s') = dispatch_message now type body s in (respond type reply stream, s')
  answer_to now (throws e, stream) s = ((throws e, stream), s)
  answer_to now (blocked, stream) s = ((blocked, stream), s)

  unfoldable pub handle_connection : ℕ → Server → Stream → (Outcome (Unit {0}) × Stream) × Server
  handle_connection now s stream = answer_to now (read_message stream) s
