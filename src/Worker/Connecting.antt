-- ===== src/Worker/Connecting.antt =====
-- worker/runtime/BlockingRuntime.cpp and AsyncRuntime.cpp: connecting to the dispatcher and greeting it.
-- Both runtimes do the same, over the blocking side of their socket.
use task_messenger.Common.{
  ℕ, zero, suc, ◌+◌, ◌/◌, ◌%◌, ◌*◌, ◌^◌, Bool, true, false, Option, none, some, List, ◌∷◌, ◌++◌,
  ltb, length, drop, if◌then◌else◌, ◌==◌,
}
use task_messenger.Session.{
  Errc, connection_reset, WorkerGreeting, worker_greeting_magic, worker_greeting_version,
}
use task_messenger.Transport.Blocking.{Stream, write_some, le32, from_le32}
use task_messenger.Worker.Runtime.{Runtime}

-- A little-endian uint64_t.
abbrev pub le64 : ℕ → List ℕ
le64 n = le32 (n % 2 ^ 32) ++ le32 (n / 2 ^ 32)

-- A `WorkerGreeting` as it lies in memory.
abbrev pub encode_greeting : WorkerGreeting → List ℕ
encode_greeting g = le32 g.magic ++ le32 g.version ++ le64 g.node_id

abbrev word_at : List ℕ → ℕ
word_at (a ∷ b ∷ c ∷ d ∷ _) = from_le32 a b c d
word_at _ = 0

abbrev pub decode_greeting : List ℕ → WorkerGreeting
decode_greeting bs = record {
  magic = word_at bs;
  version = word_at (drop 4 bs);
  node_id = word_at (drop 8 bs) + word_at (drop 12 bs) * 2 ^ 32;
}

abbrev pub greeting_of : ℕ → WorkerGreeting
greeting_of node_id = record {
  magic = worker_greeting_magic;
  version = worker_greeting_version;
  node_id = node_id;
}

pub data Sent : Type 0 where
  sent out_of_fuel : Sent
  failed : Errc → Sent

-- The loop of `send_worker_greeting`: each turn takes a byte at least, so that the number of bytes is
-- enough fuel.
unfoldable pub send_from : ℕ → List ℕ → Stream → Sent × Stream
send_from zero bs s = if ltb 0 (length bs) then (out_of_fuel, s) else (sent, s)
send_from (suc fuel) bs s = elim (ltb 0 (length bs)) [
  | false ↦ (sent, s)
  | true ↦
      let ((n, e), s') = write_some bs s in
      elim e [
        | some x ↦ (failed x, s')
        | none ↦ if n == 0 then (failed connection_reset, s') else send_from fuel (drop n bs) s'
      ]
]

unfoldable pub send_worker_greeting : ℕ → Stream → Sent × Stream
unfolding send_from
send_worker_greeting node_id s = send_from 16 (encode_greeting (greeting_of node_id)) s

-- What `connect` of a socket comes to: an exception where the network cannot be joined.
pub data Connection : Type 0 where
  connected : Stream → Connection
  refused : Errc → Connection
  interrupted : Connection

abbrev pub greet : Sent × Stream → Runtime → Runtime × Bool
greet (sent, s) r = (record r { socket = some s }, true)
greet (failed e, s) r = (record r { socket = some (record s { is_open = false }) }, false)
greet (out_of_fuel, s) r = (record r { socket = some s }, false)

abbrev pub closed : Stream → Stream
closed s = record s { is_open = false }

abbrev pub after_connect : ℕ → Stream → Connection → Runtime → Runtime × Bool
after_connect node_id before (connected s) r = greet (send_worker_greeting node_id s) r
after_connect node_id before (refused e) r = (record r { socket = some before }, false)
after_connect node_id before interrupted r = (record r { socket = some before }, false)

-- The socket that there is, or a new one.
abbrev pub socket_for : Option Stream → Option Stream → Option Stream
socket_for (some s) made = some s
socket_for none made = made

abbrev pub connect_on : (Stream → Connection) → ℕ → Option Stream → Runtime → Runtime × Bool
connect_on network node_id none r = (r, false)
connect_on network node_id (some s) r = after_connect node_id (closed s) (network (closed s)) r

-- `connect`: `made` is what `create_client` gives, `network` what connecting a closed socket comes to.
unfoldable pub connect : Option Stream → (Stream → Connection) → ℕ → Runtime → Runtime × Bool
unfolding send_worker_greeting
connect made network node_id r = connect_on network node_id (socket_for r.socket made) r
