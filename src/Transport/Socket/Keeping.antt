-- ===== src/Transport/Socket/Keeping.antt =====
-- transport/socket/zerotier/ZeroTierSocket.cpp: what each call does to the descriptors of a socket.
use Prim.Native.String.{String}
use task_messenger.Common.{
  ℕ, ◌≡◌, refl, ap, sym, ◌∙◌, Bool, true, false, not, ◌&&◌, Option, none, some, List, [], ◌∷◌, ◌++◌,
  if_both,
}
use task_messenger.Session.{Errc}
use task_messenger.Transport.Stream.{Errno, is_would_block_error}
use task_messenger.Transport.Socket.{
  ZeroTierSocket, Opened, opens, fails, Answers, Result, raises, returns, is_open, set_non_blocking,
  given, open_for, open_fd_if_needed, close_fd, close, Attempt, peer_found, initiated, try_on,
  try_connect, Poll, meanwhile, polled, settled, connect_loop, connecting, connect_on, connect,
  connected, after_join, Join, join_loop, disturbed,
}
use task_messenger.Transport.Socket.Listening.{
  bind_on, bind, listen, listen_bound, start_on, start_listening, Accepted, Arrival, accept,
}

abbrev pub held : Option ℕ → List ℕ
held none = []
held (some fd) = fd ∷ []

-- What the socket was given is what it closed, and on top what it holds.
abbrev pub IsOwned : ZeroTierSocket → Type 0
IsOwned s = s.opened ≡ held s.socket_fd ++ s.closed

abbrev pub Owns {ℓ} : {B : Type ℓ} → Option (ZeroTierSocket × B) → Type 0
Owns none = Unit
Owns (some (s, b)) = IsOwned s

close_fd-IsOwned :
    (o : Option ℕ) (s : ZeroTierSocket) → s.socket_fd ≡ o → IsOwned s → IsOwned (close_fd o s)
close_fd-IsOwned none s e h = h
close_fd-IsOwned (some fd) s e h = h ∙ ap (λ o. held o ++ s.closed) e

pub close-IsOwned : (s : ZeroTierSocket) → IsOwned s → IsOwned (close s)
close-IsOwned s h = close_fd-IsOwned s.socket_fd s refl h

pub close_fd_rest :
    (o : Option ℕ) (s : ZeroTierSocket)
    → s.socket_fd ≡ o
    → IsOwned s
    → (close_fd o s).closed ≡ s.opened
close_fd_rest none s e h = sym (h ∙ ap (λ o. held o ++ s.closed) e)
close_fd_rest (some fd) s e h = sym (h ∙ ap (λ o. held o ++ s.closed) e)

disturbed-IsOwned :
    (closing shutting : Bool) (s : ZeroTierSocket)
    → IsOwned s
    → IsOwned (disturbed closing shutting s)
disturbed-IsOwned closing shutting s h =
    let closed = if_both IsOwned closing (close s) s (close-IsOwned s h) h in
    if_both IsOwned shutting _ _ closed closed

meanwhile-IsOwned : (p : Poll) (s : ZeroTierSocket) → IsOwned s → IsOwned (meanwhile p s)
meanwhile-IsOwned p s h = disturbed-IsOwned p.closes p.shuts_down s h

after_turn-IsOwned :
    (o : Option Bool) (rest : Option (ZeroTierSocket × Bool)) (s : ZeroTierSocket)
    → Owns rest
    → IsOwned s
    → Owns (elim o as (λ _. Option (ZeroTierSocket × Bool)) [ none ↦ rest | some b ↦ some (s, b) ])
after_turn-IsOwned none rest s r h = r
after_turn-IsOwned (some b) rest s r h = h

join_loop-IsOwned : (joins : List Join) (s : ZeroTierSocket) → IsOwned s → Owns (join_loop joins s)
unfolding join_loop
join_loop-IsOwned [] s h = tt
join_loop-IsOwned (j ∷ joins) s h =
    let s' = disturbed j.closes j.shuts_down s in
    let owned = disturbed-IsOwned j.closes j.shuts_down s h in
    if_both (λ (x : Option (ZeroTierSocket × Bool)). Owns x) j.shuts_down _ _ owned
      (after_turn-IsOwned j.joined _ s' (join_loop-IsOwned joins s' owned) owned)

open_for-IsOwned :
    (z : Answers) (o : Option ℕ) (s : ZeroTierSocket)
    → s.socket_fd ≡ o
    → IsOwned s
    → IsOwned (open_for z o s).0
open_for-IsOwned z (some fd) s e h = h
open_for-IsOwned z none s e h = given_owned z.socket
  where
    given_owned : (answer : Opened) → IsOwned (given z answer s).0
    given_owned (opens fd) = ap (λ fds. fd ∷ fds) (h ∙ ap (λ o. held o ++ s.closed) e)
    given_owned (fails f) = h

open-IsOwned : (z : Answers) (s : ZeroTierSocket) → IsOwned s → IsOwned (open_fd_if_needed z s).0
unfolding open_fd_if_needed
open-IsOwned z s h = open_for-IsOwned z s.socket_fd s refl h

peer_found-IsOwned :
    (o : Option Errno) (s : ZeroTierSocket) → IsOwned s → IsOwned (peer_found o s).0
peer_found-IsOwned none s h = h
peer_found-IsOwned (some e) s h = if_both (λ (x : ZeroTierSocket × Attempt). IsOwned x.0) _ _ _ h h

initiated-IsOwned : (o : Option Errno) (s : ZeroTierSocket) → IsOwned s → IsOwned (initiated o s).0
initiated-IsOwned none s h = h
initiated-IsOwned (some e) s h = if_both (λ (x : ZeroTierSocket × Attempt). IsOwned x.0) _ _ _ h h

try_on-IsOwned :
    (z : Answers) (x : ZeroTierSocket × Option Errc) → IsOwned x.0 → IsOwned (try_on z x).0
try_on-IsOwned z (s, some e) h = h
try_on-IsOwned z (s, none) h =
    let Keeps : ZeroTierSocket × Attempt → Type 0 = λ x. IsOwned x.0 in
    if_both Keeps s.connect_in_progress _ _
      (if_both Keeps (is_open s && s.connect_in_progress) _ _ (peer_found-IsOwned z.peer_error s h)
        h)
      (if_both Keeps z.parses _ _ (initiated-IsOwned z.connect_error s h) h)

pub try_connect-IsOwned :
    (z : Answers) (s : ZeroTierSocket) → IsOwned s → IsOwned (try_connect z s).0
unfolding try_connect
try_connect-IsOwned z s h =
    if_both (λ (x : ZeroTierSocket × Result Attempt). IsOwned x.0) z.joins _ _
      (try_on-IsOwned z (open_fd_if_needed z s) (open-IsOwned z s h)) h

settled-IsOwned : (o : Option Errc) (s : ZeroTierSocket) → IsOwned s → IsOwned (settled o s).0
settled-IsOwned none s h = h
settled-IsOwned (some e) s h = h

module _ (z : Answers) where
  connect_loop-IsOwned :
      (before : Bool) (polls : List Poll) (s : ZeroTierSocket)
      → IsOwned s
      → Owns (connect_loop z before polls s)
  unfolding connect_loop
  connect_loop-IsOwned before [] s h = tt
  connect_loop-IsOwned before (p ∷ polls) s h =
      let s' = meanwhile p s in
      let owned = meanwhile-IsOwned p s h in
      let OwnsIt : Option (ZeroTierSocket × Option Errc) → Type 0 = λ x. Owns x in
      if_both OwnsIt s'.shutdown_requested _ _ owned (
        if_both OwnsIt (is_open s') _ _
          (after_poll _ _ (polled p.answer) (connect_loop-IsOwned before polls s' owned) owned)
          owned)
    where
      after_poll :
          (rest : Option (ZeroTierSocket × Option Errc)) (s' : ZeroTierSocket)
          (o : Option (Option Errc))
          → Owns rest
          → IsOwned s'
          → Owns (elim o [ none ↦ rest | some error ↦ some (settled error s') ])
      after_poll rest s' none r h = r
      after_poll rest s' (some error) r h = settled-IsOwned error s' h

  connecting-IsOwned :
      (before : Bool) (polls : List Poll) (o : Option Errno) (s : ZeroTierSocket)
      → IsOwned s
      → Owns (connecting z before polls o s)
  connecting-IsOwned before polls none s h = h
  connecting-IsOwned before polls (some e) s h =
      if_both (λ (x : Option (ZeroTierSocket × Option Errc)). Owns x) (is_would_block_error e) _ _
        (connect_loop-IsOwned before polls s h) h

  connect_on-IsOwned :
      (polls : List Poll) (x : ZeroTierSocket × Option Errc)
      → IsOwned x.0
      → Owns (connect_on z polls x)
  connect_on-IsOwned polls (s, some e) h = h
  connect_on-IsOwned polls (s, none) h =
      let OwnsIt : Option (ZeroTierSocket × Option Errc) → Type 0 = λ x. Owns x in
      if_both OwnsIt z.parses _ _
        (if_both OwnsIt (is_open s) _ _
          (connecting-IsOwned s.is_non_blocking polls z.connect_error (set_non_blocking z true s) h)
          h)
        h

  connected-IsOwned : (o : Option (ZeroTierSocket × Option Errc)) → Owns o → Owns (connected z o)
  connected-IsOwned none h = tt
  connected-IsOwned (some (s, error)) h = h

  after_join-IsOwned :
      (polls : List Poll) (o : Option (ZeroTierSocket × Bool))
      → Owns o
      → Owns (after_join z polls o)
  after_join-IsOwned polls none h = tt
  after_join-IsOwned polls (some (s, false)) h = h
  after_join-IsOwned polls (some (s, true)) h =
      connected-IsOwned _ (connect_on-IsOwned polls (open_fd_if_needed z s) (open-IsOwned z s h))

  pub connect-IsOwned :
      (joins : List Join) (polls : List Poll) (s : ZeroTierSocket)
      → IsOwned s
      → Owns (connect z joins polls s)
  unfolding connect
  connect-IsOwned joins polls s h =
      after_join-IsOwned polls (join_loop joins s) (join_loop-IsOwned joins s h)

  bind_on-IsOwned :
      (host : String) (port : ℕ) (x : ZeroTierSocket × Option Errc)
      → IsOwned x.0
      → IsOwned (bind_on z host port x).0
  bind_on-IsOwned host port (s, some e) h = h
  bind_on-IsOwned host port (s, none) h = h

  pub bind-IsOwned :
      (host : String) (port : ℕ) (s : ZeroTierSocket) → IsOwned s → IsOwned (bind z host port s).0
  unfolding bind
  bind-IsOwned host port s h =
      if_both (λ (x : ZeroTierSocket × Result Bool). IsOwned x.0) z.joins _ _
        (bind_on-IsOwned host port (open_fd_if_needed z s) (open-IsOwned z s h)) h

  pub listen-IsOwned : (s : ZeroTierSocket) → IsOwned s → IsOwned (listen z s).0
  listen-IsOwned s h = if_both (λ (x : ZeroTierSocket × Bool). IsOwned x.0) _ _ _ h h

  listen_bound-IsOwned :
      (x : ZeroTierSocket × Result Bool) → IsOwned x.0 → IsOwned (listen_bound z x).0
  listen_bound-IsOwned (s, raises) h = h
  listen_bound-IsOwned (s, returns false) h = h
  listen_bound-IsOwned (s, returns true) h = listen-IsOwned s h

  start_on-IsOwned :
      (host : String) (port : ℕ) (x : ZeroTierSocket × Option Errc)
      → IsOwned x.0
      → IsOwned (start_on z host port x).0
  start_on-IsOwned host port (s, some e) h = h
  start_on-IsOwned host port (s, none) h =
      listen_bound-IsOwned _
        (bind-IsOwned host port (record s { bind_host = host; bind_port = port }) h)

  pub start_listening-IsOwned :
      (host : String) (port : ℕ) (s : ZeroTierSocket)
      → IsOwned s
      → IsOwned (start_listening z host port s).0
  unfolding start_listening
  start_listening-IsOwned host port s h =
      if_both (λ (x : ZeroTierSocket × Result Bool). IsOwned x.0) z.joins _ _
        (start_on-IsOwned host port (open_fd_if_needed z s) (open-IsOwned z s h)) h

  pub accept-IsOwned :
      (p : Poll) (answer : Accepted) (s : ZeroTierSocket)
      → IsOwned s
      → IsOwned (accept z p answer s).0
  unfolding accept
  accept-IsOwned p answer s h =
      let s' = meanwhile p (set_non_blocking z false s) in
      let owned = meanwhile-IsOwned p (set_non_blocking z false s) h in
      let Keeps : ZeroTierSocket × Arrival → Type 0 = λ x. IsOwned x.0 in
      if_both Keeps (not (is_open s && s.is_server_socket)) _ _ h (
        if_both Keeps s'.shutdown_requested _ _ owned
          (if_both Keeps (is_open s' && s'.is_server_socket) _ _ owned owned))
