-- ===== src/Rendezvous/Reporting.antt =====
-- dispatcher/monitoring/SnapshotReporter.cpp with services/rendezvous/SnapshotListener.cpp: a snapshot
-- and its acknowledgement, end to end.
use task_messenger.Common.{
  ℕ, ◌≡◌, ◌≢◌, refl, ap, sym, ◌∙◌, true, false, none, some, [], ◌∷◌, ◌++◌, arith, append-nil,
  choose,
}
use task_messenger.Transport.Blocking.{Stream}
use task_messenger.Rendezvous.Frame.{write_message}
use task_messenger.Rendezvous.RoundTrip.{Moves}
use task_messenger.Rendezvous.Messages.{frame, Sendable, write_message_lem, read_message_lem}
use task_messenger.Rendezvous.Server.{Text, report_snapshot, page_of, monitor_page}
use task_messenger.Rendezvous.Client.{Network}
use task_messenger.Rendezvous.Relay.{
  Reading, Listening, Listened, goes_on, SnapshotReporter, relayed, received, written, listen_turn,
  report_ack, ack_body, converse, confirmed, after_write, report_on, report,
}

ack_fits : Sendable ack_body
ack_fits = omega arith

listen_lem :
    (reading : Reading) (now : ℕ) (snapshot : Text) (l : Listening) (s : Stream)
    → Sendable snapshot
    → s.write_fault ≡ none
    → s.outgoing ≡ []
    → Moves s
    → s.incoming ≡ frame report_snapshot snapshot
    → (s' : Stream) × (listen_turn reading now l s ≡ (goes_on, relayed reading now snapshot l, s'))
      × (s'.outgoing ≡ frame report_ack ack_body)
unfolding listen_turn
listen_lem reading now snapshot l s h w o p e =
    let (cs, got) =
      read_message_lem report_snapshot snapshot [] s h
        (e ∙ sym (append-nil (frame report_snapshot snapshot))) p.0 in
    let s1 = record s { incoming = []; chunks = cs } in
    let (ts, sent) = write_message_lem report_ack ack_body s1 ack_fits w p.1 in
    (
      record s1 { outgoing = s1.outgoing ++ frame report_ack ack_body; takes = ts },
      ap (λ m. received reading now m l) got
          ∙ ap (λ m. written reading m (relayed reading now snapshot l)) sent,
      ap (λ before. before ++ frame report_ack ack_body) o,
    )

converse_lem :
    (snapshot : Text) (sock : Stream) (r : SnapshotReporter)
    → Sendable snapshot
    → sock.write_fault ≡ none
    → Moves sock
    → sock.incoming ≡ frame report_ack ack_body
    → (u : Stream) × (converse snapshot sock r ≡ (record r { socket = some u }, true))
converse_lem snapshot sock r h w p e =
    let (ts, sent) = write_message_lem report_snapshot snapshot sock h w p.1 in
    let sock1 = record sock {
      outgoing = sock.outgoing ++ frame report_snapshot snapshot;
      takes = ts;
    } in
    let (cs, got) =
      read_message_lem report_ack ack_body [] sock1 ack_fits
        (e ∙ sym (append-nil (frame report_ack ack_body))) p.0 in
    (
      record sock1 { incoming = []; chunks = cs },
      ap (λ m. after_write m r) sent ∙ ap (λ m. confirmed m r) got,
    )

page_of_lem : (text : Text) → text ≢ [] → page_of text ≡ (200, text)
page_of_lem [] h = absurd (h refl)
page_of_lem (c ∷ cs) h = refl

-- A snapshot that a reporter sends on its open connection reaches the server under the identity of
-- the connection and is on the server's page, and the reporter learns of it and keeps the
-- connection, where the snapshot is not empty and fits into a frame, no write fails, and both ends
-- move what the other one writes.
pub report-listen_turn :
    (reading : Reading) (now : ℕ) (snapshot : Text) (net : Network) (l : Listening)
    (r : SnapshotReporter) (sock s : Stream)
    → Sendable snapshot
    → snapshot ≢ []
    → r.cancelled ≡ false
    → r.socket ≡ some sock
    → (sock.write_fault ≡ none) × (sock.outgoing ≡ []) × Moves sock
    → (s.write_fault ≡ none) × (s.outgoing ≡ []) × Moves s
    → s.incoming ≡ (write_message report_snapshot snapshot sock).1.outgoing
    → sock.incoming ≡ (listen_turn reading now l s).2.outgoing
    → (u : Stream) × (report snapshot net r ≡ (record r { socket = some u }, true))
      × ((listen_turn reading now l s).0 ≡ goes_on)
      × ((listen_turn reading now l s).1 ≡ relayed reading now snapshot l)
      × (monitor_page (listen_turn reading now l s).1.server ≡ (200, snapshot))
unfolding report
report-listen_turn reading now snapshot net l r sock s h some_text live here (w, o, p) (w', o', p')
      up down =
    let (ts, sent) = write_message_lem report_snapshot snapshot sock h w p.1 in
    let arrives : s.incoming ≡ frame report_snapshot snapshot = up ∙ rw (sent, o) refl in
    let (s', turn, out) = listen_lem reading now snapshot l s h w' o' p' arrives in
    let back : sock.incoming ≡ frame report_ack ack_body =
      down ∙ ap (λ (t : Listened × Listening × Stream). t.2.outgoing) turn ∙ out in
    let (u, done) = converse_lem snapshot sock r h w p back in
    (
      u,
      choose r.cancelled _ _ live ∙ ap (λ x. report_on snapshot net x r) here ∙ done,
      ap (λ (t : Listened × Listening × Stream). t.0) turn,
      ap (λ (t : Listened × Listening × Stream). t.1) turn,
      ap (λ (t : Listened × Listening × Stream). monitor_page t.1.server) turn
          ∙ page_of_lem snapshot some_text,
    )
