-- ===== src/Transport/Socket/Listening.antt =====
-- transport/socket/zerotier/ZeroTierSocket.cpp: binding, listening and accepting.
use Prim.Native.String.{String}
use task_messenger.Common.{
  ℕ, Bool, true, false, not, ◌&&◌, Option, none, some, List, [], ◌∷◌, if◌then◌else◌,
}
use task_messenger.Session.{Errc, connection_aborted, bad_file_descriptor, other_error}
use task_messenger.Transport.Stream.{
  Errno, would_block, timed_out, shut_down, other, translate_error,
}
use task_messenger.Transport.Socket.{
  ZeroTierSocket, new_socket, Answers, Result, is_open, set_non_blocking, open_fd_if_needed, Poll,
  meanwhile, raises, returns,
}

module _ (z : Answers) where
  abbrev pub bind_on : String → ℕ → ZeroTierSocket × Option Errc → ZeroTierSocket × Bool
  bind_on host port (s, some e) = (s, false)
  bind_on host port (s, none) =
      (record s { bind_host = host; bind_port = port }, z.parses && z.binds)

  unfoldable pub bind : String → ℕ → ZeroTierSocket → ZeroTierSocket × Result Bool
  bind host port s =
      let (s', bound) = bind_on host port (open_fd_if_needed z s) in
      if z.joins then (s', returns bound) else (s, raises)

  abbrev pub listen : ZeroTierSocket → ZeroTierSocket × Bool
  listen s =
      if is_open s && z.listens then (record s { is_server_socket = true }, true) else (s, false)

  abbrev pub listen_bound : ZeroTierSocket × Result Bool → ZeroTierSocket × Result Bool
  listen_bound (s, raises) = (s, raises)
  listen_bound (s, returns false) = (s, returns false)
  listen_bound (s, returns true) = let (s', listening) = listen s in (s', returns listening)

  abbrev pub start_on : String → ℕ → ZeroTierSocket × Option Errc → ZeroTierSocket × Result Bool
  start_on host port (s, some e) = (s, returns false)
  start_on host port (s, none) =
      listen_bound (bind host port (record s { bind_host = host; bind_port = port }))

  unfoldable pub start_listening : String → ℕ → ZeroTierSocket → ZeroTierSocket × Result Bool
  start_listening host port s =
      let started = start_on host port (open_fd_if_needed z s) in
      if z.joins then started else (s, raises)

-- `zts_bsd_accept`: a descriptor, for which no socket can be made where memory is short, or not.
pub data Accepted : Type 0 where
  takes : ℕ → Bool → Accepted
  refuses : Errno → Accepted

-- A child has the mode of its parent.
abbrev pub child_of : Answers → ℕ → ZeroTierSocket → ZeroTierSocket
child_of z fd s = set_non_blocking z s.non_blocking_mode (record (new_socket s.non_blocking_mode) {
  socket_fd = some fd;
  is_connected = true;
  opened = fd ∷ [];
})

-- Errors that only say that nobody is there, or that the socket is gone.
abbrev is_silent : Errno → Bool
is_silent would_block = true
is_silent timed_out = true
is_silent shut_down = true
is_silent (other connection_aborted) = true
is_silent (other bad_file_descriptor) = true
is_silent _ = false

-- The client, where there is one, the error, and a descriptor that was closed again.
pub record Arrival : Type 0 where
  pub client : Option ZeroTierSocket
  pub error : Option Errc
  pub dropped : List ℕ

abbrev nobody : Option Errc → Arrival
nobody error = record { client = none; error = error; dropped = [] }

abbrev pub arrival : Answers → Accepted → ZeroTierSocket → Arrival
arrival z (takes fd true) s = record { client = none; error = some other_error; dropped = fd ∷ [] }
arrival z (takes fd false) s = record {
  client = some (child_of z fd s);
  error = none;
  dropped = [];
}
arrival z (refuses e) s = nobody (if is_silent e then none else some (translate_error e))

-- `accept`, with what other threads do before it looks at the socket again.
unfoldable pub accept : Answers → Poll → Accepted → ZeroTierSocket → ZeroTierSocket × Arrival
accept z p answer s =
    let s' = meanwhile p (set_non_blocking z false s) in
    if not (is_open s && s.is_server_socket)
    then (s, nobody (some bad_file_descriptor))
    else if s'.shutdown_requested
    then (s', nobody (some bad_file_descriptor))
    else if is_open s' && s'.is_server_socket
    then (s', arrival z answer s')
    else (s', nobody (some bad_file_descriptor))
