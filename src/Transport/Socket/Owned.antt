-- ===== src/Transport/Socket/Owned.antt =====
-- transport/socket/zerotier/ZeroTierSocket.cpp: the descriptors of a socket, from its first call to
-- its destructor.
use Prim.Native.String.{String}
use task_messenger.Common.{ℕ, ◌≡◌, refl, Bool, Option, none, some, List, [], ◌∷◌, subst}
use task_messenger.Transport.Socket.{
  ZeroTierSocket, new_socket, Answers, close, shutdown, try_connect, Join, Poll, connect,
}
use task_messenger.Transport.Socket.Listening.{bind, listen, start_listening, Accepted, accept}
use task_messenger.Transport.Socket.Keeping.{
  IsOwned, Owns, close_fd_rest, close-IsOwned, try_connect-IsOwned, connect-IsOwned, bind-IsOwned,
  listen-IsOwned, start_listening-IsOwned, accept-IsOwned,
}

-- The calls on a socket.
pub data Call : Type 0 where
  connects : Answers → List Join → List Poll → Call
  tries : Answers → Call
  binds starts : Answers → String → ℕ → Call
  listens : Answers → Call
  accepts : Answers → Poll → Accepted → Call
  closes shuts_down : Call

abbrev socket_of {ℓ} : {B : Type ℓ} → Option (ZeroTierSocket × B) → Option ZeroTierSocket
socket_of none = none
socket_of (some (s, b)) = some s

-- Nothing where a call has not returned.
abbrev pub after : Call → ZeroTierSocket → Option ZeroTierSocket
after (connects z joins polls) s = socket_of (connect z joins polls s)
after (tries z) s = some (try_connect z s).0
after (binds z host port) s = some (bind z host port s).0
after (starts z host port) s = some (start_listening z host port s).0
after (listens z) s = some (listen z s).0
after (accepts z p answer) s = some (accept z p answer s).0
after closes s = some (close s)
after shuts_down s = some (shutdown s)

abbrev pub after_all : List Call → ZeroTierSocket → Option ZeroTierSocket
after_all [] s = some s
after_all (c ∷ calls) s = elim (after c s) [ none ↦ none | some s' ↦ after_all calls s' ]

abbrev AllOwned : Option ZeroTierSocket → Type 0
AllOwned none = Unit
AllOwned (some s) = IsOwned s

socket_of-AllOwned {ℓ} :
    {B : Type ℓ} (o : Option (ZeroTierSocket × B)) → Owns o → AllOwned (socket_of o)
socket_of-AllOwned none h = tt
socket_of-AllOwned (some (s, b)) h = h

after-AllOwned : (c : Call) (s : ZeroTierSocket) → IsOwned s → AllOwned (after c s)
after-AllOwned (connects z joins polls) s h =
    socket_of-AllOwned (connect z joins polls s) (connect-IsOwned z joins polls s h)
after-AllOwned (tries z) s h = try_connect-IsOwned z s h
after-AllOwned (binds z host port) s h = bind-IsOwned z host port s h
after-AllOwned (starts z host port) s h = start_listening-IsOwned z host port s h
after-AllOwned (listens z) s h = listen-IsOwned z s h
after-AllOwned (accepts z p answer) s h = accept-IsOwned z p answer s h
after-AllOwned closes s h = close-IsOwned s h
after-AllOwned shuts_down s h = h

after_all-AllOwned :
    (calls : List Call) (s : ZeroTierSocket) → IsOwned s → AllOwned (after_all calls s)
after_all-AllOwned [] s h = h
after_all-AllOwned (c ∷ calls) s h =
    go_on (after c s) (after-AllOwned c s h) (λ s' owned. after_all-AllOwned calls s' owned)
  where
    go_on :
        (o : Option ZeroTierSocket)
        → AllOwned o
        → ((s' : ZeroTierSocket) → IsOwned s' → AllOwned (after_all calls s'))
        → AllOwned (elim o [ none ↦ none | some s' ↦ after_all calls s' ])
    go_on none owned rest = tt
    go_on (some s') owned rest = rest s' owned

-- Whatever calls are made on a socket, and whatever libzt answers and other threads do meanwhile,
-- the destructor leaves no descriptor behind: those that the socket was given are closed, each
-- once and in order.
pub close-after_all :
    (calls : List Call) (non_blocking : Bool) (s : ZeroTierSocket)
    → after_all calls (new_socket non_blocking) ≡ some s
    → (close s).closed ≡ s.opened
close-after_all calls non_blocking s e =
    close_fd_rest s.socket_fd s refl
      (subst AllOwned e (after_all-AllOwned calls (new_socket non_blocking) refl))
