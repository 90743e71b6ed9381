-- ===== src/Rendezvous/Answer.antt =====
-- rendezvous/RendezvousClient.cpp with services/rendezvous/RendezvousServer.cpp: a request and its
-- answer, end to end.
use task_messenger.Common.{
  ℕ, suc, ◌≡◌, refl, ◌∙◌, true, false, none, some, [], ◌++◌, append-nil, arith,
}
use task_messenger.Transport.Blocking.{Stream}
use task_messenger.Rendezvous.Frame.{ok, read_message, write_message}
use task_messenger.Rendezvous.RoundTrip.{Moves}
use task_messenger.Rendezvous.Messages.{frame, Sendable, write_message_lem, read_message_lem}
use task_messenger.Rendezvous.Server.{
  Text, Json, Server, dispatch_message, handle_connection, is_request,
}
use task_messenger.Rendezvous.Client.{Client, Network, exchange}

-- A message that is written is read again, however the two streams cut it up, and what follows it
-- is left on the stream.
pub read_message-write_message :
    (type : ℕ) (body later : Text) (s r : Stream)
    → Sendable body
    → s.write_fault ≡ none
    → s.outgoing ≡ []
    → Moves s
    → Moves r
    → r.incoming ≡ (write_message type body s).1.outgoing ++ later
    → ((read_message r).0 ≡ ok (type, body)) × ((read_message r).1.incoming ≡ later)
read_message-write_message type body later s r h w o p q e =
    let (ts, sent) = write_message_lem type body s h w p.1 in
    let arrives : r.incoming ≡ frame type body ++ later = e ∙ rw (sent, o) refl in
    let (cs, got) = read_message_lem type body later r h arrives q.0 in (rw got refl, rw got refl)

-- A server that gets a request reads it, acts on it and writes the reply.
pub handle_lem :
    (json : Json) (now type : ℕ) (body : Text) (st : Server) (s : Stream)
    → is_request type ≡ true
    → Sendable body
    → Sendable (json.dump (dispatch_message json now type body st).0)
    → s.write_fault ≡ none
    → s.outgoing ≡ []
    → Moves s
    → s.incoming ≡ frame type body
    → let ((_, s'), st') = handle_connection json now st s in
      (s'.outgoing ≡ frame (suc type) (json.dump (dispatch_message json now type body st).0))
      × (st' ≡ (dispatch_message json now type body st).1)
unfolding handle_connection
handle_lem json now type body st s k h h' w o p e =
    let (cs, got) = read_message_lem type body [] s h (rw (append-nil (frame type body)) e) p.0 in
    let s1 = record s { incoming = []; chunks = cs } in
    let (ts, sent) =
      write_message_lem (suc type) (json.dump (dispatch_message json now type body st).0) s1 h' w
        p.1 in
    ground (arith, got, sent)

-- A request of the client gets the server's reply to it, and the server's state is that after the
-- request, where the request and the reply fit into a frame, no write fails, and both ends move
-- what the other one writes.
pub exchange-handle_connection :
    (json : Json) (now type : ℕ) (body : Text) (st : Server) (c : Client) (net : Network)
    (sock s : Stream)
    → is_request type ≡ true
    → Sendable body
    → Sendable (json.dump (dispatch_message json now type body st).0)
    → c.cancelled ≡ false
    → net ≡ record { socket = some sock; cancelled_meanwhile = false; connect_error = none }
    → (sock.write_fault ≡ none) × (sock.outgoing ≡ []) × Moves sock
    → (s.write_fault ≡ none) × (s.outgoing ≡ []) × Moves s
    → s.incoming ≡ (write_message type body sock).1.outgoing
    → sock.incoming ≡ (handle_connection json now st s).0.1.outgoing
    → ((exchange net type body (suc type) c).0
        ≡ some (json.dump (dispatch_message json now type body st).0))
      × ((handle_connection json now st s).1 ≡ (dispatch_message json now type body st).1)
unfolding exchange
exchange-handle_connection json now type body st c net sock s k h h' live n (w, o, p) (w', o', p')
      up down =
    let reply = json.dump (dispatch_message json now type body st).0 in
    let (ts, sent) = write_message_lem type body sock h w p.1 in
    let arrives : s.incoming ≡ frame type body = up ∙ rw (sent, o) refl in
    let (answered, acted) = handle_lem json now type body st s k h h' w' o' p' arrives in
    let sock1 = record sock { outgoing = sock.outgoing ++ frame type body; takes = ts } in
    let back : sock.incoming ≡ frame (suc type) reply ++ [] =
      rw (append-nil (frame (suc type) reply)) (down ∙ answered) in
    let (cs, got) = read_message_lem (suc type) reply [] sock1 h' back p.0 in
    (rw n (ground (arith, live, sent, got)), acted)
