-- ===== src/Session.antt =====
-- dispatcher/session/Session.hpp and .cpp, SessionStats.hpp, message/WorkerGreeting.hpp: the life
-- of one connected worker. The coroutine `run_coroutine` is a step function: a frame says where it
-- is suspended, an event is what it is resumed with, and a step runs to the next suspension.
pub mod Coroutine
pub mod Accounting
pub mod Endings
pub mod Teardown
pub mod Round
mod Examples
use Prim.Native.String.{String}
use text.Mathlib.Text.{◌==◌ as str_eq}
use task_messenger.Common.{
  ℕ, ◌+◌, ◌^◌, ◌%◌, ◌-◌, Bool, true, false, not, ◌&&◌, ◌||◌, Option, none, some, List, [], ◌∷◌, ltb,
  leb, ◌==◌, if◌then◌else◌,
}
use task_messenger.Message.{TaskHeader, TaskMessage}

abbrev pub u32 : ℕ → ℕ
u32 n = n % 2 ^ 32

abbrev pub u64 : ℕ → ℕ
u64 n = n % 2 ^ 64

pub data SessionState : Type 0 where
  initializing waiting_for_task processing_task active completing terminated error_state :
      SessionState

pub data DisconnectReason : Type 0 where
  no_reason remote_closed connection_reset_reason connection_aborted_reason not_connected_reason :
      DisconnectReason
  bad_file_descriptor_reason greeting_read_failed greeting_invalid transport_error :
      DisconnectReason
  local_termination unknown : DisconnectReason

-- The codes that the session tells apart; any other is `other_error`.
pub data Errc : Type 0 where
  not_connected connection_reset connection_aborted bad_file_descriptor other_error : Errc

pub record WorkerGreeting : Type 0 where
  pub magic : ℕ
  pub version : ℕ
  pub node_id : ℕ

abbrev pub worker_greeting_magic : ℕ
worker_greeting_magic = 0x544D5747

abbrev pub worker_greeting_version : ℕ
worker_greeting_version = 1

-- What the clocks read, in nanoseconds.
pub record Now : Type 0 where
  pub steady : ℕ
  pub system : ℕ

-- Counters of 32 bits, byte counts and durations of 64.
pub record SessionStats : Type 0 where
  pub start_time : ℕ
  pub tasks_sent : ℕ
  pub tasks_completed : ℕ
  pub tasks_failed : ℕ
  pub bytes_sent : ℕ
  pub bytes_received : ℕ
  pub total_task_roundtrip_time : ℕ
  pub last_task_roundtrip_time : ℕ
  pub timed_tasks : ℕ

-- Where the coroutine is suspended, with the locals that live across: the task, `rt_start`, and the
-- response header.
pub data Frame : Type 0 where
  not_started reading_greeting awaiting_task finished : Frame
  writing_header writing_payload reading_header : TaskMessage → ℕ → Frame
  reading_body : TaskMessage → ℕ → TaskHeader → Frame

pub record Session : Type 0 where
  pub session_id : ℕ
  pub cancel_token : ℕ
  pub cached_remote_endpoint : String
  pub state : SessionState
  pub stats : SessionStats
  pub termination_requested : Bool
  pub worker_node_id : ℕ
  pub last_seen_dispatcher : ℕ
  pub disconnect_reason : DisconnectReason
  pub disconnected_at : ℕ
  pub frame : Frame

-- What a step does outside the session.
pub data Effect : Type 0 where
  requeues : TaskMessage → Effect
  completes : TaskMessage → TaskHeader → List ℕ → Effect
  cancels_token shuts_down_socket closes_socket : Effect

abbrev pub zero_stats : ℕ → SessionStats
zero_stats start = record {
  start_time = start;
  tasks_sent = 0;
  tasks_completed = 0;
  tasks_failed = 0;
  bytes_sent = 0;
  bytes_received = 0;
  total_task_roundtrip_time = 0;
  last_task_roundtrip_time = 0;
  timed_tasks = 0;
}

abbrev pub touch_last_seen_dispatcher : Now → Session → Session
touch_last_seen_dispatcher now s = record s { last_seen_dispatcher = now.system }

abbrev pub update_state : SessionState → Now → Session → Session
update_state state now s = touch_last_seen_dispatcher now (record s { state = state })

abbrev pub mark_disconnected : DisconnectReason → Now → Session → Session
mark_disconnected reason now s = record s {
  disconnect_reason = reason;
  disconnected_at = now.system;
}

abbrev pub record_task_sent : Now → Session → Session
record_task_sent now s =
    touch_last_seen_dispatcher now
      (record s { stats = record (s.stats) { tasks_sent = u32 (s.stats.tasks_sent + 1) } })

abbrev pub record_task_completed : Now → Session → Session
record_task_completed now s =
    touch_last_seen_dispatcher now (record s {
      stats = record (s.stats) { tasks_completed = u32 (s.stats.tasks_completed + 1) };
    })

abbrev pub record_task_failed : Now → Session → Session
record_task_failed now s =
    touch_last_seen_dispatcher now
      (record s { stats = record (s.stats) { tasks_failed = u32 (s.stats.tasks_failed + 1) } })

-- The constructor, and `run`, which resets the statistics and starts the coroutine: it runs to its
-- first suspension, the read of the greeting.
abbrev pub new_session : ℕ → ℕ → String → Now → Session
new_session id token endpoint now = record {
  session_id = id;
  cancel_token = token;
  cached_remote_endpoint = if str_eq endpoint "" then "unknown" else endpoint;
  state = initializing;
  stats = zero_stats now.steady;
  termination_requested = false;
  worker_node_id = 0;
  last_seen_dispatcher = now.system;
  disconnect_reason = no_reason;
  disconnected_at = 0;
  frame = not_started;
}

abbrev pub run : Now → Session → Session
run now s =
    touch_last_seen_dispatcher now
      (record s { stats = zero_stats now.steady; frame = reading_greeting })

abbrev pub is_finished : Frame → Bool
is_finished finished = true
is_finished _ = false

abbrev pub is_done : Session → Bool
is_done s = is_finished s.frame

abbrev pub is_terminal : SessionState → Bool
is_terminal terminated = true
is_terminal error_state = true
is_terminal _ = false

abbrev pub is_working : SessionState → Bool
is_working active = true
is_working waiting_for_task = true
is_working processing_task = true
is_working completing = true
is_working _ = false

-- `is_active`, of a session whose socket says `is_open`.
abbrev pub is_active : Bool → Session → Bool
is_active is_open s = is_working s.state && is_open && not s.termination_requested

abbrev pub is_completed : Session → Bool
is_completed s = is_done s && is_terminal s.state

abbrev pub is_awaiting_teardown : Session → Bool
is_awaiting_teardown s = not (is_done s) && is_terminal s.state

unfoldable pub request_termination : Now → Session → Session × List Effect
request_termination now s = (
  update_state completing now
      (mark_disconnected local_termination now (record s { termination_requested = true })),
  cancels_token ∷ shuts_down_socket ∷ [],
)

-- What `check_alive` finds.
pub data Liveness : Type 0 where
  alive closed : Liveness
  failed : Errc → Liveness

abbrev is_waiting : SessionState → Bool
is_waiting waiting_for_task = true
is_waiting _ = false

abbrev probe_reason : Liveness → DisconnectReason
probe_reason (failed not_connected) = remote_closed
probe_reason (failed connection_reset) = remote_closed
probe_reason (failed connection_aborted) = remote_closed
probe_reason (failed _) = transport_error
probe_reason _ = remote_closed

abbrev reap : Now → Liveness → Session → Session × List Effect × Bool
reap now liveness s = (
  update_state terminated now (mark_disconnected (probe_reason liveness) now s),
  cancels_token ∷ shuts_down_socket ∷ [],
  true,
)

abbrev pub probe : Now → Liveness → Session → Session × List Effect × Bool
probe now alive s = (s, [], false)
probe now closed s = reap now closed s
probe now (failed e) s = reap now (failed e) s

unfoldable pub probe_connection_liveness : Now → Liveness → Session → Session × List Effect × Bool
probe_connection_liveness now liveness s =
    if is_waiting s.state then probe now liveness s else (s, [], false)
