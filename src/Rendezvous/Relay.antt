-- ===== src/Rendezvous/Relay.antt =====
-- services/rendezvous/SnapshotListener.cpp and dispatcher/monitoring/SnapshotReporter.cpp: the two ends
-- of the connection on which a dispatcher reports its snapshots.
use task_messenger.Common.{
  ℕ, Bool, true, false, Option, none, some, List, [], ◌∷◌, ◌==◌, if◌then◌else◌,
}
use task_messenger.Transport.Blocking.{Stream}
use task_messenger.Rendezvous.Frame.{Outcome, ok, throws, blocked, read_message, write_message}
use task_messenger.Rendezvous.Server.{Text, Server, report_snapshot, on_snapshot}
use task_messenger.Rendezvous.Client.{Network}

abbrev pub report_ack : ℕ
report_ack = 8

-- What a snapshot's JSON says of the dispatcher, where it says it.
pub record Reading : Type 0 where
  pub role_in : Text → Option Text
  pub name_in : Text → Option Text

-- `{"ok":true}`.
abbrev pub ack_body : Text
ack_body = 123 ∷ 34 ∷ 111 ∷ 107 ∷ 34 ∷ 58 ∷ 116 ∷ 114 ∷ 117 ∷ 101 ∷ 125 ∷ []

-- "dispatcher" and "default".
abbrev pub default_role : Text
default_role = 100 ∷ 105 ∷ 115 ∷ 112 ∷ 97 ∷ 116 ∷ 99 ∷ 104 ∷ 101 ∷ 114 ∷ []

abbrev pub default_name : Text
default_name = 100 ∷ 101 ∷ 102 ∷ 97 ∷ 117 ∷ 108 ∷ 116 ∷ []

-- A connection of the listener: its identity once a frame has been seen, and the server.
pub record Listening : Type 0 where
  pub identity : Option (Text × Text)
  pub server : Server

abbrev or_text : Option Text → Text → Text
or_text none t = t
or_text (some u) t = u

pub data Listened : Type 0 where
  goes_on ends raises waits : Listened

-- A reporter: its connection is kept from one report to the next.
pub record SnapshotReporter : Type 0 where
  pub cancelled : Bool
  pub socket : Option Stream

abbrev pub cancel_reporter : SnapshotReporter → SnapshotReporter
cancel_reporter r = record { cancelled = true; socket = none }

module _ (reading : Reading) where
  -- The identity is that of the first frame.
  abbrev pub identify : Text → Option (Text × Text) → Text × Text
  identify body (some (role, name)) = (role, name)
  identify body none =
      (or_text (reading.role_in body) default_role, or_text (reading.name_in body) default_name)

  abbrev pub written : Outcome (Unit {0}) × Stream → Listening → Listened × Listening × Stream
  written (ok _, s) l = (goes_on, l, s)
  written (throws e, s) l = (raises, l, s)
  written (blocked, s) l = (waits, l, s)

  abbrev pub relayed : ℕ → Text → Listening → Listening
  relayed now body l =
      let (role, name) = identify body l.identity in
      record { identity = some (role, name); server = on_snapshot now role name body l.server }

  abbrev pub received : ℕ → Outcome (ℕ × Text) × Stream → Listening → Listened × Listening × Stream
  received now (throws e, s) l = (raises, l, s)
  received now (blocked, s) l = (waits, l, s)
  received now (ok (type, body), s) l =
      if type == report_snapshot
      then written (write_message report_ack ack_body s) (relayed now body l)
      else (ends, l, s)

  -- The body of the loop of `SnapshotListener::handle_connection`.
  unfoldable pub listen_turn : ℕ → Listening → Stream → Listened × Listening × Stream
  listen_turn now l s = received now (read_message s) l

  -- The loop: what it reads of `running_` before each turn, and the time of the turn.
  unfoldable pub listen :
      List (Bool × ℕ) → Listening → Stream → Option (Listened × Listening × Stream)
  unfolding listen_turn
  listen [] l s = none
  listen ((running, now) ∷ turns) l s =
      let (turn, l', s') = listen_turn now l s in
      let rest = listen turns l' s' in
      if running
      then elim turn [
        | goes_on ↦ rest
        | ends ↦ some (ends, l', s')
        | raises ↦ some (raises, l', s')
        | waits ↦ some (waits, l', s')
      ]
      else some (ends, l, s)

abbrev torn : SnapshotReporter → SnapshotReporter × Bool
torn r = (record r { socket = none }, false)

-- A wait ends when the reporter is cancelled, which shuts the socket down.
abbrev pub confirmed : Outcome (ℕ × Text) × Stream → SnapshotReporter → SnapshotReporter × Bool
confirmed (ok (type, body), s) r =
    if type == report_ack then (record r { socket = some s }, true) else torn r
confirmed (throws e, s) r = torn r
confirmed (blocked, s) r = torn r

abbrev pub after_write : Outcome (Unit {0}) × Stream → SnapshotReporter → SnapshotReporter × Bool
after_write (ok _, s) r = confirmed (read_message s) r
after_write (throws e, s) r = torn r
after_write (blocked, s) r = torn r

abbrev pub converse : Text → Stream → SnapshotReporter → SnapshotReporter × Bool
converse snapshot s r = after_write (write_message report_snapshot snapshot s) r

abbrev pub dial : Text → Network → Option Stream → SnapshotReporter → SnapshotReporter × Bool
dial snapshot net none r = (r, false)
dial snapshot net (some s) r =
    if net.cancelled_meanwhile
    then (cancel_reporter r, false)
    else elim net.connect_error [ some e ↦ torn r | none ↦ converse snapshot s r ]

abbrev pub report_on : Text → Network → Option Stream → SnapshotReporter → SnapshotReporter × Bool
report_on snapshot net (some s) r = converse snapshot s r
report_on snapshot net none r = dial snapshot net net.socket r

-- `SnapshotReporter::report`: a connection is opened where there is none.
unfoldable pub report : Text → Network → SnapshotReporter → SnapshotReporter × Bool
report snapshot net r = if r.cancelled then (r, false) else report_on snapshot net r.socket r
