-- ===== src/Worker/Session.antt =====
-- worker/session/WorkerSession.cpp: the controller of a worker. The runtime's answers, the network
-- and the requests of other threads come from outside; a duration is in seconds.
use task_messenger.Common.{
  ℕ, ◌*◌, Bool, true, false, not, ◌&&◌, ◌||◌, Option, none, some, List, [], ◌∷◌, ◌++◌, ltb, ◌==◌,
  if◌then◌else◌,
}
use task_messenger.Rendezvous.Server.{Text, same_text}
use task_messenger.Rendezvous.Client.{Client, cancel, Network, discover_endpoint}

pub data ConnectionStatus : Type 0 where
  disconnected discovering connecting connected running paused stopped error : ConnectionStatus

pub data DiscoveryResult : Type 0 where
  disabled updated unchanged cancelled : DiscoveryResult

pub record WorkerSession : Type 0 where
  pub host : Text
  pub port : ℕ
  pub start_requested : Bool
  pub disconnect_requested : Bool
  pub shutdown_requested : Bool
  pub connection_status : ConnectionStatus
  pub rendezvous_client : Option Client
  pub reconnect_delay : ℕ
  -- How long the thread has slept, each time.
  pub slept : List ℕ

-- What other threads request while the control thread is at something else.
pub record Requests : Type 0 where
  pub start : Bool
  pub disconnect : Bool
  pub shutdown : Bool

abbrev pub client_after : Requests → Client → Client
client_after q c = if q.disconnect || q.shutdown then cancel c else c

abbrev cancel_client : Option Client → Option Client
cancel_client none = none
cancel_client (some c) = some (cancel c)

abbrev pub after_requests : Requests → WorkerSession → WorkerSession
after_requests q w = record w {
  start_requested = w.start_requested || q.start;
  disconnect_requested = w.disconnect_requested || q.disconnect;
  shutdown_requested = w.shutdown_requested || q.shutdown;
  rendezvous_client =
      if q.disconnect || q.shutdown then cancel_client w.rendezvous_client else w.rendezvous_client;
}

abbrev pub start_runtime : WorkerSession → WorkerSession
start_runtime w = record w { start_requested = true }

abbrev pub disconnect_runtime : WorkerSession → WorkerSession
disconnect_runtime w = record w {
  disconnect_requested = true;
  rendezvous_client = cancel_client w.rendezvous_client;
}

abbrev pub shutdown : WorkerSession → WorkerSession
shutdown w = record w {
  shutdown_requested = true;
  disconnect_requested = true;
  rendezvous_client = cancel_client w.rendezvous_client;
}

abbrev pub at_most : ℕ → ℕ → ℕ
at_most m n = if ltb m n then m else n

abbrev pub max_backoff : ℕ
max_backoff = 5

abbrev pub sleep : ℕ → WorkerSession → WorkerSession
sleep n w = record w { slept = w.slept ++ n ∷ [] }

abbrev pub set_status : ConnectionStatus → WorkerSession → WorkerSession
set_status status w = record w { connection_status = status }

-- The fields of a discovery's answer: found, stale, host and port.
abbrev pub Found : Type 0
Found = Bool × Bool × Text × ℕ

-- One turn of the discovery: what the network does, and the requests before it and while it waits.
pub record Try : Type 0 where
  pub before : Requests
  pub network : Network
  pub meanwhile : Requests

abbrev pub is_cancelled : WorkerSession → Bool
is_cancelled w = w.shutdown_requested || w.disconnect_requested

abbrev is_empty : Text → Bool
is_empty [] = true
is_empty (_ ∷ _) = false

abbrev pub is_usable : Found → Bool
is_usable (found, stale, host, port) =
    found && (not stale && (not (is_empty host) && not (port == 0)))

abbrev pub adopt : Text → ℕ → WorkerSession → DiscoveryResult × WorkerSession
adopt host port w =
    if same_text host w.host && port == w.port
    then (unchanged, w)
    else (updated, record w { host = host; port = port })

abbrev pub resolve : Option Found → WorkerSession → Option (DiscoveryResult × WorkerSession)
resolve none w = none
resolve (some (found, stale, host, port)) w =
    if is_usable (found, stale, host, port) then some (adopt host port w) else none

module _ (request : Text → Text) (parse : Text → Option Found) (dispatcher : Text) where
  abbrev pub parse_answer : Option Text → Option Found
  parse_answer none = none
  parse_answer (some text) = parse text

  -- What one exchange finds.
  abbrev pub ask : Try → Client → Option Found × Client
  ask t c =
      let (answer, c') = discover_endpoint request t.network dispatcher c in
      (parse_answer answer, c')

  -- The loop; `none` while the turns given do not end it.
  unfoldable pub discover_from :
      List Try → ℕ → Client → WorkerSession → Option (DiscoveryResult × WorkerSession)
  discover_from [] backoff c w = none
  discover_from (t ∷ ts) backoff c w =
      let c1 = client_after t.before c in
      let w1 = record (after_requests t.before w) { rendezvous_client = some c1 } in
      let (found, c2) = ask t c1 in
      let w2 = record w1 { rendezvous_client = some c2 } in
      let c3 = client_after t.meanwhile c2 in
      let w3 = record (after_requests t.meanwhile w2) { rendezvous_client = some c3 } in
      elim (is_cancelled w1) [
        | true ↦ some (cancelled, w1)
        | false ↦ elim (resolve found w2) [
          | some done ↦ some done
          | none ↦ elim (is_cancelled w3) [
            | true ↦ some (cancelled, w3)
            | false ↦ discover_from ts (at_most max_backoff (backoff * 2)) c3 (sleep backoff w3)
          ]
        ]
      ]

  unfoldable pub try_discover_dispatcher :
      List Try → WorkerSession → Option (DiscoveryResult × WorkerSession)
  unfolding discover_from
  try_discover_dispatcher ts w = elim w.rendezvous_client [
    | none ↦ some (disabled, w)
    | some c ↦ discover_from ts 1 c (set_status discovering w)
  ]
