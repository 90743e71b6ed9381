-- ===== src/Dispatcher.antt =====
-- dispatcher/DispatcherApp.hpp and .cpp: the life of a dispatcher process. Options, sockets and the
-- monitoring's HTTP server come from outside. A cancelled client has given up what it was doing, so
-- that the registration thread is over when it is joined.
pub mod Registration
pub mod Leaving
mod Examples
use Prim.Native.String.{String}
use task_messenger.Common.{
  ℕ, ◌+◌, ◌-◌, ◌*◌, ◌/◌, ltb, ◌==◌, Bool, true, false, not, ◌||◌, Option, none, some, List, [], ◌∷◌,
  if◌then◌else◌, length,
}
use task_messenger.Rendezvous.Server.{Text}
use task_messenger.Rendezvous.Client.{
  Client, Network, new_client, cancel, register_endpoint, unregister_endpoint,
}
use task_messenger.Manager.{Manager}
use task_messenger.Server.{TransportServer, Outside, stop}

pub data LifecycleState : Type 0 where
  starting running no_tasks no_workers stopping stopped error : LifecycleState

pub record DispatcherApp : Type 0 where
  pub lifecycle : LifecycleState
  pub shutdown_requested : Bool
  pub registered : Bool
  pub rendezvous_client : Option Client
  -- The snapshot reporter, by whether it has been cancelled.
  pub snapshot_reporter : Option Bool
  pub has_monitoring : Bool
  pub has_registration_thread : Bool
  pub server : Option TransportServer
  pub start_time : ℕ

-- What the configuration and the world say at the start.
pub data Parsed : Type 0 where
  proceed help_shown failed : Parsed

pub record Setup : Type 0 where
  pub parsed : Parsed
  -- The transport server, and whether it starts.
  pub transport : TransportServer × Bool
  pub monitoring_enabled : Bool
  pub monitoring_starts : Bool
  pub rendezvous_enabled : Bool
  pub has_rendezvous_host : Bool
  -- Whether the listening socket has an address.
  pub has_address : Bool
  pub now : ℕ

abbrev with_rendezvous : Setup → DispatcherApp → DispatcherApp
with_rendezvous u app =
    if u.rendezvous_enabled
    then if u.has_rendezvous_host
      then record app {
        rendezvous_client = some new_client;
        snapshot_reporter = some false;
        has_registration_thread = u.has_address;
      }
      else app
    else app

abbrev with_monitoring : Setup → DispatcherApp → DispatcherApp
with_monitoring u app = record app {
  has_monitoring = if u.monitoring_enabled then u.monitoring_starts else app.has_monitoring;
}

abbrev served_by : Setup → TransportServer × Bool → DispatcherApp → DispatcherApp × ℕ
served_by u (server, false) app =
    (record app { lifecycle = error; server = some server; start_time = u.now }, 3)
served_by u (server, true) app = (
  record (with_rendezvous u
      (with_monitoring u (record app { server = some server; start_time = u.now }))) {
        lifecycle = running;
      },
  0,
)

abbrev after_parse : Setup → Parsed → DispatcherApp → DispatcherApp × ℕ
after_parse u help_shown app = (record app { lifecycle = stopped }, 1)
after_parse u failed app = (record app { lifecycle = error }, 2)
after_parse u proceed app = served_by u u.transport app

-- `start`, and its return code.
pub start : Setup → DispatcherApp → DispatcherApp × ℕ
start u app =
    after_parse u u.parsed (record app { lifecycle = starting; shutdown_requested = false })

-- One attempt of the registration loop: what it reads of the shutdown flag before it and while it
-- waits behind it, and whether the call throws.
pub record Attempt : Type 0 where
  pub asked_before : Bool
  pub asked_meanwhile : Bool
  pub throws : Bool
  pub network : Network

-- How the registration ends, and what it waited for, in seconds.
pub data Ending : Type 0 where
  registers interrupted still_trying : Ending

abbrev pub max_delay : ℕ
max_delay = 10

abbrev pub next_delay : ℕ → ℕ
next_delay delay = if ltb max_delay (delay * 2) then max_delay else delay * 2

abbrev attempt : (Text → Bool) → Text → Attempt → Client → Bool
attempt accepts request a c =
    if a.throws then false else (register_endpoint accepts a.network request c).0

pub registration_loop : (Text → Bool) → Text → ℕ → List Attempt → Client → Ending × List ℕ
registration_loop accepts request delay [] c = (still_trying, [])
registration_loop accepts request delay (a ∷ attempts) c =
    let (result, delays) = registration_loop accepts request (next_delay delay) attempts c in
    if a.asked_before
    then (interrupted, [])
    else if attempt accepts request a c
    then (registers, [])
    else if a.asked_meanwhile
    then (interrupted, delay ∷ [])
    else (result, delay ∷ delays)

abbrev cancel_client : Option Client → Option Client
cancel_client none = none
cancel_client (some c) = some (cancel c)

-- The last word to the rendezvous service, where it is said: whether the service has unregistered
-- the dispatcher, and the client, with what it has sent.
abbrev farewell : (Text → Bool) → Text → Network → Bool → Option Client → Option (Bool × Client)
farewell accepts request net registered none = none
farewell accepts request net registered (some c) =
    if registered then some (unregister_endpoint accepts net request c) else none

abbrev stop_server : Outside → Option TransportServer → Option TransportServer
stop_server o none = none
stop_server o (some s) = some (stop o s)

-- `stop`: with it, what came of unregistering.
pub stop_app :
    (Text → Bool)
    → Text
    → Network
    → Outside
    → DispatcherApp
    → DispatcherApp × Option (Bool × Client)
stop_app accepts request net o app =
    let client = cancel_client app.rendezvous_client in
    (
      record app {
        lifecycle = stopped;
        shutdown_requested = true;
        has_monitoring = false;
        has_registration_thread = false;
        rendezvous_client = none;
        snapshot_reporter = none;
        server = stop_server o app.server;
      },
      farewell accepts request net app.registered client,
    )

abbrev busy_state : Manager → LifecycleState
busy_state m =
    if length m.queue.tasks == 0
    then no_tasks
    else if length m.active_sessions == 0
    then no_workers
    else running

abbrev pub served_state : LifecycleState → Option TransportServer → LifecycleState
served_state running (some s) = busy_state s.manager
served_state base _ = base

-- `lifecycle_state`.
unfoldable pub lifecycle_state : DispatcherApp → LifecycleState
lifecycle_state app = served_state app.lifecycle app.server

-- `lifecycle_state_string`.
abbrev pub name_of : LifecycleState → String
name_of starting = "starting"
name_of running = "running"
name_of no_tasks = "no_tasks"
name_of no_workers = "no_workers"
name_of stopping = "stopping"
name_of stopped = "stopped"
name_of error = "error"

pub uptime_seconds : ℕ → DispatcherApp → ℕ
uptime_seconds now app = (now - app.start_time) / 1_000_000_000
