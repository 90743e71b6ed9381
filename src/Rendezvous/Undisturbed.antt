-- ===== src/Rendezvous/Undisturbed.antt =====
-- services/rendezvous/RendezvousServer.cpp: clients that do not disturb a registration.
use task_messenger.Common.{
  ℕ, ◌-◌, ◌≡◌, refl, ap, sym, ◌∙◌, Bool, true, false, Option, none, some, List, [], ◌∷◌, All, ltb,
  ◌==◌, choose, if_both, subst,
}
use task_messenger.Transport.Blocking.{Stream}
use task_messenger.Rendezvous.Frame.{Outcome, ok, throws, blocked, read_message}
use task_messenger.Rendezvous.RoundTrip.{Moves}
use task_messenger.Rendezvous.Messages.{frame, Sendable}
use task_messenger.Rendezvous.Answer.{handle_lem}
use task_messenger.Rendezvous.Server.{
  Text, Endpoint, found, Json, Server, register_request, unregister_request, discover_request,
  dispatch_message, handle_connection, same_text, discover, seconds, bad_discovery, answer_to,
  Reply,
}
use task_messenger.Rendezvous.Accepting.{
  Accepted, nobody, client, raised, Next, goes_on, over, stuck, next_of, close_unless_stuck, Turn,
  turn_of, accept_turn,
}
use task_messenger.Rendezvous.Totality.{Returns, handle_connection-Returns}

-- What a client sends is no registration and no unregistration; it may be anything else, those
-- bytes too that cannot be read.
abbrev pub IsHarmless : Outcome (ℕ × Text) → Type 0
IsHarmless (ok (type, body)) =
    ((type == register_request) ≡ false) × ((type == unregister_request) ≡ false)
IsHarmless (throws e) = Unit
IsHarmless blocked = Unit

-- The server still runs, and a client's connection ends after what it sends.
abbrev pub BringsHarmless : Turn → Type 0
BringsHarmless t = elim t.accepted [
  | nobody error ↦ Unit
  | client s ↦ (t.still ≡ true) × (s.ends ≡ true) × IsHarmless (read_message s).0
  | raised ↦ Unit
]

-- The turn ends, and the loop goes on.
abbrev GoesOn : Next → Type 0
GoesOn next = (pause : ℕ) × (next ≡ goes_on pause)

next_of-GoesOn : {A : Type 0} (o : Outcome A) → Returns o → GoesOn (next_of o)
next_of-GoesOn (ok a) h = (0, refl)
next_of-GoesOn (throws e) h = (0, refl)
next_of-GoesOn blocked h = absurd h

close-outgoing :
    {A : Type 0} (o : Outcome A) (s : Stream) → (close_unless_stuck o s).outgoing ≡ s.outgoing
close-outgoing (ok a) s = refl
close-outgoing (throws e) s = refl
close-outgoing blocked s = refl

module _ (json : Json) where
  dispatch_harmless :
      (now type : ℕ) (body : Text) (st : Server)
      → (type == register_request) ≡ false
      → (type == unregister_request) ≡ false
      → (dispatch_message json now type body st).1 ≡ st
  unfolding dispatch_message
  dispatch_harmless now type body st a b =
      ap (λ (x : Reply × Server). x.1)
        (choose (type == register_request) _ _ a ∙ choose (type == unregister_request) _ _ b)
      ∙ if_both (λ (x : Reply × Server). x.1 ≡ st) (type == discover_request) _ _ refl refl

  answer_harmless :
      (now : ℕ) (st : Server) (x : Outcome (ℕ × Text) × Stream)
      → IsHarmless x.0
      → (answer_to json now x st).1 ≡ st
  answer_harmless now st (ok (type, body), s) h = dispatch_harmless now type body st h.0 h.1
  answer_harmless now st (throws e, s) h = refl
  answer_harmless now st (blocked, s) h = refl

  handle_harmless :
      (now : ℕ) (st : Server) (s : Stream)
      → IsHarmless (read_message s).0
      → (handle_connection json now st s).1 ≡ st
  unfolding handle_connection
  handle_harmless now st s h = answer_harmless now st (read_message s) h

  turn_harmless :
      (a : Accepted) (still : Bool) (now : ℕ) (st : Server)
      → BringsHarmless (record { accepted = a; still = still; now = now })
      → GoesOn (turn_of json a still now st).next × ((turn_of json a still now st).server ≡ st)
  turn_harmless (nobody error) still now st h = ((_, refl), refl)
  turn_harmless (client s) still now st (on, ends, h) =
      subst
        (λ b.
          GoesOn (turn_of json (client s) b now st).next
          × ((turn_of json (client s) b now st).server ≡ st))
        (sym on)
        (
          next_of-GoesOn (handle_connection json now st s).0.0
              (handle_connection-Returns json now st s ends),
          handle_harmless now st s h,
        )
  turn_harmless raised still now st h = ((_, refl), refl)

  -- What the loop has once it has made these turns, if none of them is its last.
  abbrev pub after_turns : List Turn → Server → Option Server
  after_turns [] st = some st
  after_turns (t ∷ turns) st =
      let turn = accept_turn json t st in
      let rest = after_turns turns turn.server in
      elim turn.next [ goes_on pause ↦ rest | over ↦ none | stuck ↦ none ]

  after_turns_harmless :
      (turns : List Turn) (st : Server)
      → All (λ t. BringsHarmless t) turns
      → after_turns turns st ≡ some st
  unfolding accept_turn
  after_turns_harmless [] st h = refl
  after_turns_harmless (t ∷ turns) st h =
      let ((pause, on), same) = turn_harmless t.accepted t.still t.now st h.0 in
      ap
        (λ next. elim next as (λ _. Option Server) [
          | goes_on pause ↦ after_turns turns (turn_of json t.accepted t.still t.now st).server
          | over ↦ none
          | stuck ↦ none
        ])
        on
      ∙ ap (λ s. after_turns turns s) same
      ∙ after_turns_harmless turns st h.1

  -- The reply to a discovery, once an endpoint of the role is registered.
  dispatch_discovers :
      (now : ℕ) (body role : Text) (ep : Endpoint) (st : Server)
      → st.endpoint ≡ some ep
      → json.read_role body ≡ some role
      → same_text ep.role role ≡ true
      → (dispatch_message json now discover_request body st).0
        ≡ found ep.vn_host ep.vn_port ep.name (ltb (seconds st.ttl_seconds) (now - ep.last_seen))
  unfolding dispatch_message
  dispatch_discovers now body role ep st e r same =
      ap
        (λ (o : Option Text). elim o as (λ _. Reply) [
          | none ↦ bad_discovery
          | some role ↦ discover json now st.ttl_seconds role st.endpoint
        ])
        r
      ∙ ap (λ o. discover json now st.ttl_seconds role o) e
      ∙ rw same refl

  -- A worker that asks for the role of a registered endpoint is told the endpoint and whether it is
  -- stale, after other clients that neither register nor unregister, those too that break off or
  -- send what cannot be read, where the connection of each ends after what it sends and the server
  -- runs on: the loop comes to the worker's turn. The request and the reply are to fit into a
  -- frame, no write fails, and the stream moves its bytes.
  pub accept_turn-after_turns :
      (turns : List Turn) (now : ℕ) (body role : Text) (ep : Endpoint) (st : Server) (s : Stream)
      → All (λ t. BringsHarmless t) turns
      → st.endpoint ≡ some ep
      → json.read_role body ≡ some role
      → same_text ep.role role ≡ true
      → Sendable body
      → let reply = json.dump (
          found ep.vn_host ep.vn_port ep.name
            (ltb (seconds st.ttl_seconds) (now - ep.last_seen))) in
        Sendable reply
        → (s.write_fault ≡ none) × (s.outgoing ≡ []) × Moves s
        → s.incoming ≡ frame discover_request body
        → (st' : Server) × (after_turns turns st ≡ some st')
          × (let turn =
                accept_turn json (record { accepted = client s; still = true; now = now }) st' in
              (u : Stream) × (turn.stream ≡ some u) × (u.outgoing ≡ frame 6 reply))
  unfolding accept_turn
  accept_turn-after_turns turns now body role ep st s quiet e r same h h' (w, o, p) arrives =
      let said =
        found ep.vn_host ep.vn_port ep.name (ltb (seconds st.ttl_seconds) (now - ep.last_seen)) in
      let told = dispatch_discovers now body role ep st e r same in
      let fits = subst (λ reply. Sendable (json.dump reply)) (sym told) h' in
      let (answered, acted) =
        handle_lem json now discover_request body st s refl h fits w o p arrives in
      let done = handle_connection json now st s in
      (
        st,
        after_turns_harmless turns st quiet,
        (
          _,
          refl,
          close-outgoing done.0.0 done.0.1
              ∙ answered
              ∙ ap (λ reply. frame 6 (json.dump reply)) told,
        ),
      )
