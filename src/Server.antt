-- ===== src/Server.antt =====
-- dispatcher/transport/AsyncTransportServer.hpp and .cpp: the dispatcher's listening side, around the
-- session manager. The sockets come from outside: what an accept gives, which connections are open
-- and whether listening succeeds. `running_` is read by the acceptor's thread while another one
-- may clear it, so that what a turn reads is an argument.
pub mod Maintenance
pub mod Stopping
mod Examples
use Prim.Native.String.{String}
use task_messenger.Common.{
  ℕ, ◌-◌, Bool, true, false, not, ◌&&◌, Option, none, some, List, [], ◌∷◌, ◌++◌, if◌then◌else◌,
  keep, leb, same_pointer, ltb, length,
}
use task_messenger.Message.{TaskMessage}
use task_messenger.Queue.{Waiter, TaskQueue, is_cancelled}
use task_messenger.Session.{Now, Liveness}
use task_messenger.Session.Coroutine.{Around}
use task_messenger.Generator.{Context, start}
use task_messenger.Manager.{
  Manager, create_session, enqueue_tasks, over_sessions, resume_found, terminate_all_sessions,
  cleanup_completed_sessions,
}

pub record TransportServer : Type 0 where
  pub running : Bool
  -- The threads of `io_` while it runs.
  pub io : Option ℕ
  pub has_io_guard : Bool
  pub response_ctx : Context
  -- The handles that the response workers have resumed since they were told to stop.
  pub drained : List ℕ
  pub is_listening : Bool
  pub listen_host : String
  pub listen_port : ℕ
  pub has_acceptor : Bool
  pub last_maintenance_run : ℕ
  pub active_connections : List (Option ℕ)
  pub manager : Manager

-- `!c || !c->is_open()`.
abbrev pub is_live : (ℕ → Bool) → Option ℕ → Bool
is_live is_open none = false
is_live is_open (some c) = is_open c

-- `cleanup_closed_connections`, and how many it removed.
pub cleanup_closed_connections : (ℕ → Bool) → TransportServer → TransportServer × ℕ
cleanup_closed_connections is_open s =
    let kept = keep (is_live is_open) s.active_connections in
    (record s { active_connections = kept }, length s.active_connections - length kept)

-- What the sessions' sockets and the connections are like when maintenance looks at them.
pub record Outside : Type 0 where
  pub around : Around
  pub liveness : ℕ → Liveness
  pub is_open : ℕ → Bool

-- 1000 ms in nanoseconds.
abbrev pub interval : ℕ
interval = 1_000_000_000

abbrev pub run_maintenance : Outside → TransportServer → TransportServer
run_maintenance o s =
    let (manager, removed) = cleanup_completed_sessions o.around o.liveness s.manager in
    record (cleanup_closed_connections o.is_open (record s { manager = manager })).0 {
      last_maintenance_run = o.around.now.steady;
    }

pub is_due : ℕ → TransportServer → Bool
is_due now s = leb interval (now - s.last_maintenance_run)

-- `maybe_run_maintenance`, and `run_maintenance_if_due`.
pub maybe_run_maintenance : Outside → TransportServer → TransportServer
maybe_run_maintenance o s = if is_due o.around.now.steady s then run_maintenance o s else s

abbrev io_threads : Option ℕ → ℕ
io_threads none = 1
io_threads (some n) = if ltb 0 n then n else 1

-- `start`: a server that cannot listen stops its I/O again.
pub start_server : Option ℕ → Bool → String → ℕ → ℕ → TransportServer → TransportServer × Bool
start_server threads listens host port now s =
    let up = record s {
      running = true;
      io = some (io_threads threads);
      has_io_guard = true;
      response_ctx = start 1 s.response_ctx;
    } in
    if s.running
    then (s, true)
    else if listens
    then (
      record up {
        is_listening = true;
        listen_host = host;
        listen_port = port;
        last_maintenance_run = now;
        has_acceptor = true;
      },
      true,
    )
    else (
      record up { running = false; has_io_guard = false; io = none; is_listening = false },
      false,
    )

abbrev or_else {ℓ} : {A : Type ℓ} → Option A → A → A
or_else none a = a
or_else (some b) a = b

-- `start` with the configured endpoint.
pub start_configured :
    Option ℕ → Bool → Option String → Option ℕ → ℕ → TransportServer → TransportServer × Bool
start_configured threads listens host port now s =
    start_server threads listens (or_else host "0.0.0.0") (or_else port 8080) now s

-- What `blocking_accept` comes to: nobody, with an error or without; a client, by its connection,
-- its endpoint and the token of its session, or an exception where the session is made; an
-- exception.
pub data Accepted : Type 0 where
  nobody : Bool → Accepted
  client : ℕ → String → ℕ → Bool → Accepted
  raised : Accepted

-- What the loop does next: it goes on after a pause of so many milliseconds, or ends, after it has
-- closed the connection.
pub data Next : Type 0 where
  goes_on : ℕ → Next
  ends : ℕ → Next

abbrev admit : Outside → ℕ → String → ℕ → Bool → TransportServer → TransportServer × Next
admit o connection endpoint token throws s =
    let held = record s { active_connections = s.active_connections ++ some connection ∷ [] } in
    let (manager, id) = create_session (some (endpoint, token)) o.around.now held.manager in
    if throws
    then (held, goes_on 100)
    else (maybe_run_maintenance o (record held { manager = manager }), goes_on 0)

-- The body of the acceptor's loop; `still` is what it reads of `running_` on the way.
pub accept_turn : Outside → Bool → Accepted → TransportServer → TransportServer × Next
accept_turn o still (nobody error) s = (s, goes_on (if error && still then 50 else 0))
accept_turn o still (client connection endpoint token throws) s =
    if still then admit o connection endpoint token throws s else (s, ends connection)
accept_turn o still raised s = (s, goes_on 100)

-- `enqueue_tasks`.
pub enqueue :
    (ℕ → TaskQueue → TaskQueue) → Outside → List TaskMessage → TransportServer → TransportServer
enqueue resume o tasks s =
    maybe_run_maintenance o (record s { manager = enqueue_tasks resume tasks s.manager })

-- `ResponseContext::stop`: its workers resume what is pending before they are joined.
abbrev stop_context : Context → Context × List ℕ
stop_context c =
    if c.running then (record c { running = false; pending = [] }, c.pending) else (c, [])

-- A waiter of the queue is resumed: the session with its token takes what the awaitable holds.
abbrev pub resume_waiter : Around → Waiter → Manager → Manager
resume_waiter w x m =
    let (sessions, q) =
      over_sessions
        (λ id s q.
          if same_pointer (some s.cancel_token) x.token
          then resume_found w (some x) s q
          else (s, q))
        m.active_sessions m.queue in
    record m { active_sessions = sessions; queue = q }

-- The loop of the queue's `shutdown`, with the sessions that it resumes.
pub resume_waiters : Around → List Waiter → Manager → Manager
resume_waiters w [] m = m
resume_waiters w (x ∷ xs) m =
    resume_waiters w xs (if is_cancelled m.queue.cancelled x.token then m else resume_waiter w x m)

-- `shutdown` of the manager's queue.
pub shutdown_queue : Around → Manager → Manager
shutdown_queue w m =
    if m.queue.is_shutdown
    then m
    else resume_waiters w m.queue.waiting_workers
        (record m { queue = record m.queue { is_shutdown = true; waiting_workers = [] } })

-- `stop`, once the acceptor's last turn is over.
pub stop : Outside → TransportServer → TransportServer
stop o s =
    let (context, resumed) = stop_context s.response_ctx in
    let closed = shutdown_queue o.around (terminate_all_sessions o.around s.manager) in
    let quiet = record s {
      running = false;
      has_acceptor = false;
      is_listening = false;
      has_io_guard = false;
      io = none;
      response_ctx = context;
      drained = s.drained ++ resumed;
      manager = closed;
    } in
    let swept = (cleanup_closed_connections o.is_open quiet).0 in
    record swept { manager = (cleanup_completed_sessions o.around o.liveness swept.manager).0 }
