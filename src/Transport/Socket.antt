-- ===== src/Transport/Socket.antt =====
-- transport/socket/zerotier/ZeroTierSocket.cpp: a socket from its first descriptor to its end. What
-- the calls of libzt answer comes from outside, and what other threads do to the socket while it
-- connects or accepts. The texts of the endpoints, which are for the logs, are left out.
pub mod Listening
pub mod Keeping
pub mod Owned
pub mod Waiting
mod Examples
use Prim.Native.String.{String}
use task_messenger.Common.{
  ℕ, Bool, true, false, not, ◌&&◌, ◌||◌, Option, none, some, List, [], ◌∷◌, if◌then◌else◌,
}
use task_messenger.Session.{
  Errc, not_connected, connection_aborted, bad_file_descriptor, other_error,
}
use task_messenger.Transport.Stream.{
  Errno, would_block, timed_out, shut_down, other, translate_error, is_would_block_error,
}

pub record ZeroTierSocket : Type 0 where
  pub socket_fd : Option ℕ
  pub non_blocking_mode : Bool
  pub is_connected : Bool
  pub is_server_socket : Bool
  pub connect_in_progress : Bool
  pub shutdown_requested : Bool
  pub bind_host : String
  pub bind_port : ℕ
  -- O_NONBLOCK of the descriptor.
  pub is_non_blocking : Bool
  -- The descriptors that the socket was given and that it closed, latest first.
  pub opened : List ℕ
  pub closed : List ℕ

abbrev pub new_socket : Bool → ZeroTierSocket
new_socket non_blocking = record {
  socket_fd = none;
  non_blocking_mode = non_blocking;
  is_connected = false;
  is_server_socket = false;
  connect_in_progress = false;
  shutdown_requested = false;
  bind_host = "";
  bind_port = 0;
  is_non_blocking = false;
  opened = [];
  closed = [];
}

pub data Opened : Type 0 where
  opens : ℕ → Opened
  fails : Errno → Opened

-- What libzt answers to one call of the socket: how the join of the network ends, the descriptor,
-- whether fcntl works, an address is read, and bind and listen succeed, and how connecting and
-- asking for the peer fail.
pub record Answers : Type 0 where
  pub joins : Bool
  pub socket : Opened
  pub fcntl : Bool
  pub parses : Bool
  pub connect_error : Option Errno
  pub peer_error : Option Errno
  pub binds : Bool
  pub listens : Bool

-- `ensure_lease` throws, or the call returns.
pub data Result (A : Type 0) : Type 0 where
  raises : Result A
  returns : A → Result A

abbrev pub is_some {ℓ} : {A : Type ℓ} → Option A → Bool
is_some none = false
is_some (some a) = true

abbrev pub is_open : ZeroTierSocket → Bool
is_open s = is_some s.socket_fd

abbrev pub set_non_blocking : Answers → Bool → ZeroTierSocket → ZeroTierSocket
set_non_blocking z non_blocking s = record s {
  is_non_blocking = if is_open s && z.fcntl then non_blocking else s.is_non_blocking;
}

-- The answer to a first descriptor. Timeouts and keepalive are libzt's.
abbrev pub given : Answers → Opened → ZeroTierSocket → ZeroTierSocket × Option Errc
given z (opens fd) s = (
  set_non_blocking z s.non_blocking_mode (record s { socket_fd = some fd; opened = fd ∷ s.opened }),
  none,
)
given z (fails e) s = (s, some (translate_error e))

abbrev pub open_for : Answers → Option ℕ → ZeroTierSocket → ZeroTierSocket × Option Errc
open_for z (some fd) s = (s, none)
open_for z none s = given z z.socket s

unfoldable pub open_fd_if_needed : Answers → ZeroTierSocket → ZeroTierSocket × Option Errc
open_fd_if_needed z s = open_for z s.socket_fd s

abbrev pub close_fd : Option ℕ → ZeroTierSocket → ZeroTierSocket
close_fd none s = s
close_fd (some fd) s = record s {
  socket_fd = none;
  is_server_socket = false;
  connect_in_progress = false;
  closed = fd ∷ s.closed;
}

-- `close`, and `cleanup_resources_no_virtual`, which the destructor runs.
abbrev pub close : ZeroTierSocket → ZeroTierSocket
close s = close_fd s.socket_fd s

abbrev pub shutdown : ZeroTierSocket → ZeroTierSocket
shutdown s = record s { shutdown_requested = true }

-- What `try_connect` comes to: it is to be tried again, or is complete.
pub data Attempt : Type 0 where
  pending : Attempt
  complete : Option Errc → Attempt

abbrev is_not_connected : Errno → Bool
is_not_connected (other not_connected) = true
is_not_connected _ = false

abbrev pub peer_found : Option Errno → ZeroTierSocket → ZeroTierSocket × Attempt
peer_found none s = (record s { connect_in_progress = false }, complete none)
peer_found (some e) s =
    if is_would_block_error e || is_not_connected e
    then (s, pending)
    else (record s { connect_in_progress = false }, complete (some (translate_error e)))

abbrev pub check_connect_complete : Answers → ZeroTierSocket → ZeroTierSocket × Attempt
check_connect_complete z s =
    if is_open s && s.connect_in_progress
    then peer_found z.peer_error s
    else (s, complete (some bad_file_descriptor))

abbrev pub initiated : Option Errno → ZeroTierSocket → ZeroTierSocket × Attempt
initiated none s = (s, complete none)
initiated (some e) s =
    if is_would_block_error e
    then (record s { connect_in_progress = true }, pending)
    else (s, complete (some (translate_error e)))

abbrev pub try_on : Answers → ZeroTierSocket × Option Errc → ZeroTierSocket × Attempt
try_on z (s, some e) = (s, complete (some e))
try_on z (s, none) =
    if s.connect_in_progress
    then check_connect_complete z s
    else if z.parses
    then initiated z.connect_error s
    else (s, complete (some other_error))

unfoldable pub try_connect : Answers → ZeroTierSocket → ZeroTierSocket × Result Attempt
try_connect z s =
    let (s', attempt) = try_on z (open_fd_if_needed z s) in
    if z.joins then (s', returns attempt) else (s, raises)

-- One turn of the wait in `connect`: what other threads do before it, and the answer of the poll;
-- where the socket is writable, how it stands with it, or nothing.
pub data Polled : Type 0 where
  writable : Option (Option Errno) → Polled
  quiet : Polled
  poll_failed : Errno → Polled

pub record Poll : Type 0 where
  pub closes : Bool
  pub shuts_down : Bool
  pub answer : Polled

abbrev pub disturbed : Bool → Bool → ZeroTierSocket → ZeroTierSocket
disturbed closing shutting s =
    let s' = if closing then close s else s in if shutting then shutdown s' else s'

abbrev pub meanwhile : Poll → ZeroTierSocket → ZeroTierSocket
meanwhile p s = disturbed p.closes p.shuts_down s

-- One turn of the wait of `ensure_lease` for the network: what other threads do before it, and how
-- the join ends, or that it does not as yet. The shutdown of a socket is that of the node service,
-- which gives the join up; closing the socket does not.
pub record Join : Type 0 where
  pub closes : Bool
  pub shuts_down : Bool
  pub joined : Option Bool

unfoldable pub join_loop : List Join → ZeroTierSocket → Option (ZeroTierSocket × Bool)
join_loop [] s = none
join_loop (j ∷ joins) s =
    let s' = disturbed j.closes j.shuts_down s in
    let rest = join_loop joins s' in
    if j.shuts_down then some (s', false) else elim j.joined [ none ↦ rest | some b ↦ some (s', b) ]

-- Whether a poll ends the wait, and with which error.
abbrev pub polled : Polled → Option (Option Errc)
polled (writable (some none)) = some none
polled (writable (some (some e))) = some (some (translate_error e))
polled (writable none) = none
polled quiet = none
polled (poll_failed e) = some (some (translate_error e))

abbrev pub settled : Option Errc → ZeroTierSocket → ZeroTierSocket × Option Errc
settled none s = (record s { is_connected = true }, none)
settled (some e) s = (s, some e)

module _ (z : Answers) where
  -- `before` is the flag that the descriptor had.
  unfoldable pub connect_loop :
      Bool → List Poll → ZeroTierSocket → Option (ZeroTierSocket × Option Errc)
  connect_loop before [] s = none
  connect_loop before (p ∷ polls) s =
      let s' = meanwhile p s in
      let rest = connect_loop before polls s' in
      let restored = set_non_blocking z before s' in
      if s'.shutdown_requested
      then some (restored, some bad_file_descriptor)
      else if is_open s'
      then elim (polled p.answer) [ none ↦ rest | some error ↦ some (settled error restored) ]
      else some (s', some bad_file_descriptor)

  abbrev pub connecting :
      Bool → List Poll → Option Errno → ZeroTierSocket → Option (ZeroTierSocket × Option Errc)
  connecting before polls none s = some (settled none (set_non_blocking z before s))
  connecting before polls (some e) s =
      if is_would_block_error e
      then connect_loop before polls s
      else some (settled (some (translate_error e)) (set_non_blocking z before s))

  abbrev pub connect_on :
      List Poll → ZeroTierSocket × Option Errc → Option (ZeroTierSocket × Option Errc)
  connect_on polls (s, some e) = some (s, some e)
  connect_on polls (s, none) =
      if z.parses
      then if is_open s
        then connecting s.is_non_blocking polls z.connect_error (set_non_blocking z true s)
        else some (s, some bad_file_descriptor)
      else some (s, some other_error)

  abbrev pub connected :
      Option (ZeroTierSocket × Option Errc) → Option (ZeroTierSocket × Result (Option Errc))
  connected none = none
  connected (some (s, error)) = some (s, returns error)

  abbrev pub after_join :
      List Poll → Option (ZeroTierSocket × Bool) → Option (ZeroTierSocket × Result (Option Errc))
  after_join polls none = none
  after_join polls (some (s, false)) = some (s, raises)
  after_join polls (some (s, true)) = connected (connect_on polls (open_fd_if_needed z s))

  -- The blocking `connect`: nothing while the turns have not let it return.
  unfoldable pub connect :
      List Join → List Poll → ZeroTierSocket → Option (ZeroTierSocket × Result (Option Errc))
  connect joins polls s = after_join polls (join_loop joins s)
