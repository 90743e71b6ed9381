-- ===== src/Worker/Welcome.antt =====
-- worker/runtime/BlockingRuntime.cpp and dispatcher/session/Session.cpp: a worker that connects is
-- taken on by the dispatcher's session.
use task_messenger.Common.{
  ℕ, zero, suc, ◌/◌, ◌%◌, ◌^◌, ◌<◌, ◌≡◌, refl, ap, sym, ◌∙◌, inl, inr, true, false, Option, none,
  some, List, [], ◌++◌, arith, ltb, length, drop, All, append-nil, Bool-cases, Option-cases, ◌==◌,
}
use task_messenger.Session.{
  connection_reset, WorkerGreeting, Session, reading_greeting, awaiting_task,
}
use task_messenger.Session.Coroutine.{Around, greeting_read, wake}
use task_messenger.Session.Teardown.{wake_greeting}
use task_messenger.Transport.Blocking.{Stream, write_some, from_le32-le32}
use task_messenger.Rendezvous.Frame.{
  Outcome, throws, ok, blocked, stream_error, write_exact_from, write_exact,
}
use task_messenger.Rendezvous.RoundTrip.{write_exact_lem}
use task_messenger.Worker.Runtime.{Runtime}
use task_messenger.Worker.Connecting.{
  encode_greeting, decode_greeting, greeting_of, Sent, sent, failed, send_from,
  send_worker_greeting, Connection, connected, connect, greet, closed, after_connect, socket_for,
  connect_on,
}

-- The loop is that of `write_exact`, with other names for what it comes to.
abbrev as_sent : Outcome (Unit {0}) × Stream → Sent × Stream
as_sent (ok _, s) = (sent, s)
as_sent (throws (stream_error e), s) = (failed e, s)
as_sent (throws _, s) = (failed connection_reset, s)
as_sent (blocked, s) = (Sent.out_of_fuel, s)

send-write_exact :
    (fuel : ℕ) (bs : List ℕ) (s : Stream)
    → send_from fuel bs s ≡ as_sent (write_exact_from fuel bs s)
unfolding send_from write_exact_from
send-write_exact zero bs s = elim (Bool-cases (ltb 0 (length bs))) [
  | inl e ↦ rw (e, send_from, write_exact_from) refl
  | inr e ↦ rw (e, send_from, write_exact_from) refl
]
send-write_exact (suc fuel) bs s = elim (Bool-cases (ltb 0 (length bs))) [
  | inl e ↦ elim (Option-cases (write_some bs s).0.1) [
    | inl fine ↦ elim (Bool-cases ((write_some bs s).0.0 == 0)) [
      | inl z ↦ rw (e, send_from, write_exact_from) (rw fine (rw z refl))
      | inr z ↦
          rw (e, send_from, write_exact_from)
            (rw fine
              (rw z (send-write_exact fuel (drop (write_some bs s).0.0 bs) (write_some bs s).1)))
    ]
    | inr (x, broken) ↦ rw (e, send_from, write_exact_from) (rw broken refl)
  ]
  | inr e ↦ rw (e, send_from, write_exact_from) refl
]

same_greeting :
    (m v n : ℕ) (g : WorkerGreeting)
    → m ≡ g.magic
    → v ≡ g.version
    → n ≡ g.node_id
    → ◌≡◌ {A = WorkerGreeting} (record { magic = m; version = v; node_id = n }) g
same_greeting m v n g p q r = rw (p, q, r) refl

decode-encode :
    (g : WorkerGreeting) (rest : List ℕ)
    → g.magic < 2 ^ 32
    → g.version < 2 ^ 32
    → g.node_id < 2 ^ 64
    → decode_greeting (encode_greeting g ++ rest) ≡ g
decode-encode g rest a b c =
    same_greeting _ _ _ g (from_le32-le32 g.magic a) (from_le32-le32 g.version b) (
      omega (
        arith,
        from_le32-le32 (g.node_id % 2 ^ 32) (omega arith),
        from_le32-le32 (g.node_id / 2 ^ 32) (omega (arith, c)),
      ))

connect_greets :
    (made : Option Stream) (network : Stream → Connection) (node_id : ℕ) (r : Runtime)
    (s t : Stream)
    → socket_for r.socket made ≡ some s
    → network (closed s) ≡ connected t
    → connect made network node_id r ≡ greet (send_worker_greeting node_id t) r
unfolding connect
connect_greets made network node_id r s t e f =
    ap (λ o. connect_on network node_id o r) e ∙ ap (λ c. after_connect node_id (closed s) c r) f

send_lem :
    (node_id : ℕ) (s : Stream)
    → s.write_fault ≡ none
    → All (λ c. 0 < c) s.takes
    → (ts : List ℕ) × (send_worker_greeting node_id s ≡ (
      sent,
      record s { outgoing = s.outgoing ++ encode_greeting (greeting_of node_id); takes = ts },
    ))
unfolding send_worker_greeting write_exact
send_lem node_id s fine p =
    let bytes = encode_greeting (greeting_of node_id) in
    let (ts, _, e) = write_exact_lem bytes s fine p in
    (ts, send-write_exact 16 bytes s ∙ ap as_sent e)

taken_on :
    (w : Around) (d : Session) (node_id : ℕ) (g : WorkerGreeting)
    → g ≡ greeting_of node_id
    → d.frame ≡ reading_greeting
    → w.is_open ≡ true
    → d.termination_requested ≡ false
    → let d' = (wake w (greeting_read g) d).0 in
      (d'.frame ≡ awaiting_task) × (d'.worker_node_id ≡ node_id)
taken_on w d node_id g e waits live on = elim (wake_greeting w g d waits live on) [
  | inl (_, _, frame, node) ↦ (frame, node ∙ ap (λ (h : WorkerGreeting). h.node_id) e)
  | inr (inl m, _, _) ↦ absurd (m (ap (λ (h : WorkerGreeting). h.magic) e))
  | inr (inr v, _, _) ↦ absurd (v (ap (λ (h : WorkerGreeting). h.version) e))
]

-- A worker that connects to a session that waits for a greeting is taken on, under its node id:
-- `connect` succeeds on a new or an old socket, whatever the sizes of the writes, and what the
-- session reads of its greeting is right.
pub connect_welcomed :
    (made : Option Stream) (network : Stream → Connection) (node_id : ℕ) (r : Runtime)
    (s t : Stream) (w : Around) (d : Session)
    → socket_for r.socket made ≡ some s
    → network (closed s) ≡ connected t
    → t.write_fault ≡ none
    → All (λ c. 0 < c) t.takes
    → t.outgoing ≡ []
    → node_id < 2 ^ 64
    → d.frame ≡ reading_greeting
    → w.is_open ≡ true
    → d.termination_requested ≡ false
    → (u : Stream) × (connect made network node_id r ≡ (record r { socket = some u }, true))
      × (let d' = (wake w (greeting_read (decode_greeting u.outgoing)) d).0 in
          (d'.frame ≡ awaiting_task) × (d'.worker_node_id ≡ node_id))
connect_welcomed made network node_id r s t w d here up fine moves empty small waits live on =
    let (ts, e) = send_lem node_id t fine moves in
    let g = greeting_of node_id in
    let u : Stream = record t { outgoing = t.outgoing ++ encode_greeting g; takes = ts } in
    let read : decode_greeting u.outgoing ≡ g =
      ap (λ before. decode_greeting (before ++ encode_greeting g)) empty
      ∙ ap decode_greeting (sym (append-nil (encode_greeting g)))
      ∙ decode-encode g [] (omega arith) (omega arith) small in
    (
      u,
      connect_greets made network node_id r s t here up ∙ ap (λ o. greet o r) e,
      taken_on w d node_id (decode_greeting u.outgoing) read waits live on,
    )
