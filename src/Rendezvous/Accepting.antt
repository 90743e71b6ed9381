-- ===== src/Rendezvous/Accepting.antt =====
-- services/rendezvous/RendezvousServer.cpp: the loop that accepts clients, and its life.
use task_messenger.Common.{ℕ, Bool, true, false, not, ◌&&◌, Option, none, some, if◌then◌else◌}
use task_messenger.Transport.Blocking.{Stream}
use task_messenger.Rendezvous.Frame.{Outcome, ok, throws, blocked}
use task_messenger.Rendezvous.Server.{Json, Server, handle_connection}

-- `RendezvousServer`, around what its handlers keep. The listener of snapshots may be missing.
pub record RendezvousServer : Type 0 where
  pub running : Bool
  pub has_vn_socket : Bool
  pub has_http : Bool
  pub has_snapshot_listener : Bool
  pub state : Server

-- Which of the three listeners come up.
pub record Listeners : Type 0 where
  pub vn_listens : Bool
  pub http_binds : Bool
  pub snapshot_starts : Bool

abbrev pub start_server : Listeners → RendezvousServer → RendezvousServer × Bool
start_server up r =
    if r.running
    then (r, true)
    else if not up.vn_listens
    then (r, false)
    else if not up.http_binds
    then (record r { has_vn_socket = true }, false)
    else (
      record r {
        running = true;
        has_vn_socket = true;
        has_http = true;
        has_snapshot_listener = up.snapshot_starts;
      },
      true,
    )

abbrev pub stop_server : RendezvousServer → RendezvousServer
stop_server r = record r {
  running = false;
  has_vn_socket = false;
  has_http = false;
  has_snapshot_listener = false;
}

-- What `accept` comes to: nobody, with an error or without, a client, or an exception.
pub data Accepted : Type 0 where
  nobody : Bool → Accepted
  client : Stream → Accepted
  raised : Accepted

-- How a turn ends: the loop goes on after a pause of so many milliseconds, or is over, or is stuck
-- with a client that stays and sends nothing more, which is served within the loop.
pub data Next : Type 0 where
  goes_on : ℕ → Next
  over stuck : Next

pub record Turn : Type 0 where
  pub accepted : Accepted
  -- What the turn reads of `running_` after it has accepted, and of the clock.
  pub still : Bool
  pub now : ℕ

abbrev pub next_of {ℓ} : {A : Type ℓ} → Outcome A → Next
next_of (ok _) = goes_on 0
next_of (throws _) = goes_on 0
next_of blocked = stuck

abbrev pub close_unless_stuck {ℓ} : {A : Type ℓ} → Outcome A → Stream → Stream
close_unless_stuck (ok _) s = record s { is_open = false }
close_unless_stuck (throws _) s = record s { is_open = false }
close_unless_stuck blocked s = s

-- The client's stream, once the client has been served or turned away.
pub record Turned : Type 0 where
  pub next : Next
  pub stream : Option Stream
  pub server : Server

module _ (json : Json) where
  -- Whatever a connection throws is caught, and its stream is closed.
  abbrev pub serve_client : ℕ → Stream → Server → Turned
  serve_client now s st =
      let ((outcome, s'), st') = handle_connection json now st s in
      record { next = next_of outcome; stream = some (close_unless_stuck outcome s'); server = st' }

  abbrev pub turn_of : Accepted → Bool → ℕ → Server → Turned
  turn_of (nobody error) still now st = record {
    next = goes_on (if error && still then 50 else 0);
    stream = none;
    server = st;
  }
  turn_of (client s) still now st =
      if still
      then serve_client now s st
      else record { next = over; stream = some (record s { is_open = false }); server = st }
  turn_of raised still now st = record { next = goes_on 100; stream = none; server = st }

  -- The body of `vn_accept_loop`.
  unfoldable pub accept_turn : Turn → Server → Turned
  accept_turn t st = turn_of t.accepted t.still t.now st
