-- ===== src/Rendezvous/Discovery.antt =====
-- services/rendezvous/RendezvousServer.cpp: what a discovery finds.
use task_messenger.Common.{
  ℕ, ◌-◌, ◌≡◌, refl, Bool, true, false, not, Option, none, some, List, [], ◌∷◌, ◌∙◌, arith, ltb,
  if◌then◌else◌, All,
}
use task_messenger.Rendezvous.Server.{
  Text, same_text, Endpoint, found, Json, Server, is_named, handle_register, handle_unregister,
  handle_discover, on_snapshot, seconds,
}

-- What happens at the server, with the time.
pub data Event : Type 0 where
  registers : ℕ → Text → Event
  unregisters : Text → Event
  discovers : Text → Event
  reports : ℕ → Text → Text → Text → Event

same_text_refl : (t : Text) → same_text t t ≡ true
same_text_refl [] = refl
same_text_refl (a ∷ t) = ground (arith, same_text_refl t)

-- When the endpoint was last heard of, if it was at `t`.
abbrev heard : Endpoint → ℕ → Event → ℕ
heard ep t (reports now role name text) = if is_named role name ep then now else t
heard ep t _ = t

abbrev pub last_heard : Endpoint → ℕ → List Event → ℕ
last_heard ep t [] = t
last_heard ep t (e ∷ es) = last_heard ep (heard ep t e) es

module _ (json : Json) where
  pub after : Event → Server → Server
  after (registers now body) s = (handle_register json now body s).1
  after (unregisters body) s = (handle_unregister json body s).1
  after (discovers body) s = s
  after (reports now role name text) s = on_snapshot now role name text s

  pub after_all : List Event → Server → Server
  unfolding after
  after_all [] s = s
  after_all (e ∷ es) s = after_all es (after e s)

  abbrev names_other : Endpoint → Option (Text × Text) → Bool
  names_other ep none = true
  names_other ep (some (role, name)) = not (is_named role name ep)

  -- The event leaves the endpoint in its place.
  abbrev pub spares : Endpoint → Event → Bool
  spares ep (registers now body) = elim (json.read_endpoint body) [ none ↦ true | some _ ↦ false ]
  spares ep (unregisters body) = names_other ep (json.read_identity body)
  spares ep (discovers body) = true
  spares ep (reports now role name text) = true

  stays :
      (e : Event) (ep : Endpoint) (t : ℕ) (s : Server)
      → s.endpoint ≡ some (record ep { last_seen = t })
      → spares ep e ≡ true
      → ((after e s).endpoint ≡ some (record ep { last_seen = heard ep t e }))
        × ((after e s).ttl_seconds ≡ s.ttl_seconds)
  unfolding after
  stays (registers now body) ep t s h k = ground arith
  stays (unregisters body) ep t s h k = ground arith
  stays (discovers body) ep t s h k = (h, refl)
  stays (reports now role name text) ep t s h k = ground arith

  stand :
      (es : List Event) (ep : Endpoint) (t : ℕ) (s : Server)
      → s.endpoint ≡ some (record ep { last_seen = t })
      → All (λ e. spares ep e ≡ true) es
      → ((after_all es s).endpoint ≡ some (record ep { last_seen = last_heard ep t es }))
        × ((after_all es s).ttl_seconds ≡ s.ttl_seconds)
  unfolding after_all
  stand [] ep t s h k = (h, refl)
  stand (e ∷ es) ep t s h k =
      let (here, same) = stays e ep t s h k.0 in
      let (there, same') = stand es ep (heard ep t e) (after e s) here k.1 in (there, same' ∙ same)

  -- An endpoint that was registered is found under its role, with its address, until another
  -- registration is accepted or it is unregistered, whatever else is asked or reported. It is
  -- stale exactly if more nanoseconds have passed since its registration or its last report than
  -- the seconds of the time to live come to.
  pub discover-register :
      (body body' : Text) (ep : Endpoint) (es : List Event) (now : ℕ) (s : Server)
      → json.read_endpoint body ≡ some (ep.role, ep.name, ep.vn_host, ep.vn_port)
      → All (λ e. spares ep e ≡ true) es
      → json.read_role body' ≡ some ep.role
      → handle_discover json now body' (after_all es (handle_register json ep.last_seen body s).1)
        ≡ found ep.vn_host ep.vn_port ep.name
            (ltb (seconds s.ttl_seconds) (now - last_heard ep ep.last_seen es))
  discover-register body body' ep es now s r k q =
      let s' = (handle_register json ep.last_seen body s).1 in
      let there : s'.endpoint ≡ some ep = ground (arith, r) in
      let same : s'.ttl_seconds ≡ s.ttl_seconds = ground (arith, r) in
      let (stands, kept) = stand es ep ep.last_seen s' there k in
      let ttl = kept ∙ same in ground (arith, q, stands, ttl, same_text_refl ep.role)
