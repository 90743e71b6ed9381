-- ===== src/Transport/Socket/Examples.antt =====
-- transport/socket/zerotier/ZeroTierSocket.cpp: the theorems at a socket that connects and is closed.
use task_messenger.Common.{◌≡◌, refl, true, false, none, some, List, [], ◌∷◌, inl, inr}
use task_messenger.Transport.Stream.{in_progress}
use task_messenger.Transport.Socket.{
  ZeroTierSocket, new_socket, opens, Answers, Poll, quiet, connect_loop, connect, Join, join_loop,
  open_fd_if_needed, close,
}
use task_messenger.Transport.Socket.Listening.{start_listening, bind, accept, takes}
use task_messenger.Transport.Socket.Owned.{
  Call, connects, starts, accepts, closes, after_all, close-after_all,
}
use task_messenger.Transport.Socket.Waiting.{Returned, connect-Returned}

-- A peer that never answers.
abbrev answers : Answers
answers = record {
  joins = true;
  socket = opens 5;
  fcntl = true;
  parses = true;
  connect_error = some in_progress;
  peer_error = none;
  binds = true;
  listens = true;
}

abbrev waits : Poll
waits = record { closes = false; shuts_down = false; answer = quiet }

abbrev stops : Poll
stops = record { closes = false; shuts_down = true; answer = quiet }

-- The network is there in the second turn.
abbrev still_joining : Join
still_joining = record { closes = false; shuts_down = false; joined = none }

abbrev joins : List Join
joins = still_joining ∷ record still_joining { joined = some true } ∷ []

connect-Returned_example :
    Returned (connect answers joins (waits ∷ waits ∷ stops ∷ []) (new_socket false))
connect-Returned_example =
    connect-Returned answers (still_joining ∷ []) (record still_joining { joined = some true })
      (waits ∷ waits ∷ []) stops (new_socket false) (inr tt) (inl refl)

-- A second descriptor after the first one was closed while the socket connected.
abbrev calls : List Call
calls =
    connects answers joins (waits ∷ record waits { closes = true } ∷ [])
    ∷ starts (record answers { socket = opens 6 }) "0.0.0.0" 8080
    ∷ accepts answers waits (takes 7 false)
    ∷ closes
    ∷ starts (record answers { socket = opens 8 }) "0.0.0.0" 8080
    ∷ []

abbrev at_end : ZeroTierSocket
at_end = record (new_socket false) {
  socket_fd = some 8;
  is_server_socket = true;
  bind_host = "0.0.0.0";
  bind_port = 8080;
  opened = 8 ∷ 6 ∷ 5 ∷ [];
  closed = 6 ∷ 5 ∷ [];
}

calls_end : after_all calls (new_socket false) ≡ some at_end
unfolding connect join_loop connect_loop start_listening bind accept open_fd_if_needed
calls_end = refl

close-after_all_example : (close at_end).closed ≡ at_end.opened
close-after_all_example = close-after_all calls false at_end calls_end
