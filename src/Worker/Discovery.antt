-- ===== src/Worker/Discovery.antt =====
-- worker/session/WorkerSession.cpp: what a discovery of the dispatcher comes to.
use task_messenger.Common.{
  ℕ, ◌*◌, ◌≡◌, refl, ◌⊎◌, inl, inr, ◌∙◌, true, false, Option, none, some, List, [], ◌∷◌, arith, All,
  Bool-cases, Option-cases,
}
use task_messenger.Rendezvous.Server.{Text, same_text}
use task_messenger.Rendezvous.Client.{cancel, Client, exchange, discover_endpoint}
use task_messenger.Worker.Session.{
  DiscoveryResult, unchanged, updated, cancelled, WorkerSession, Requests, after_requests,
  client_after, at_most, max_backoff, Try, Found, is_usable, is_cancelled, ask, discover_from,
  try_discover_dispatcher, start_runtime, disconnect_runtime, adopt, resolve, parse_answer,
  discovering, set_status, sleep,
}
use task_messenger.Worker.Control.{idle}

-- No other thread asks for an end meanwhile.
abbrev IsQuiet : Requests → Type 0
IsQuiet q = (q.disconnect ≡ false) × (q.shutdown ≡ false)

abbrev pub Undisturbed : Try → Type 0
Undisturbed t = IsQuiet t.before × IsQuiet t.meanwhile

quiet_lem : (q : Requests) (c : Client) → IsQuiet q → client_after q c ≡ c
quiet_lem q c h = ground arith

-- The session when a turn has found nothing and slept.
abbrev went_on : Try → ℕ → Client → WorkerSession → WorkerSession
went_on t backoff c w =
    let w2 = record (after_requests t.before w) { rendezvous_client = some c } in
    sleep backoff (record (after_requests t.meanwhile w2) { rendezvous_client = some c })

went_on_lem :
    (t : Try) (backoff : ℕ) (c : Client) (w : WorkerSession)
    → is_cancelled w ≡ false
    → Undisturbed t
    → is_cancelled (went_on t backoff c w) ≡ false
went_on_lem t backoff c w k q = ground arith

same_text-≡ : (s t : Text) → same_text s t ≡ true → s ≡ t
same_text-≡ [] [] h = refl
same_text-≡ (a ∷ s) [] h = absurd (cc)
same_text-≡ [] (b ∷ t) h = absurd (cc)
same_text-≡ (a ∷ s) (b ∷ t) h = ground (arith, same_text-≡ s t)

-- The session has the address of an answer that says found, not stale, and names a host and a port.
abbrev HasAddress : (Text → Option Found) → WorkerSession → Type 0
HasAddress parse w =
    (text : Text) × (f : Found) × (parse text ≡ some f)
    × (is_usable f ≡ true)
    × (w.host ≡ f.2)
    × (w.port ≡ f.3)

abbrev pub Resolved : (Text → Option Found) → DiscoveryResult × WorkerSession → Type 0
Resolved parse (r, w) =
    ((r ≡ cancelled) × (is_cancelled w ≡ true))
    ⊎ (((r ≡ updated) ⊎ (r ≡ unchanged)) × HasAddress parse w)

module _ (request : Text → Text) (parse : Text → Option Found) (dispatcher : Text) where
  ask_cancelled :
      (t : Try) (c : Client) → c.cancelled ≡ true → ask request parse dispatcher t c ≡ (none, c)
  unfolding discover_endpoint exchange
  ask_cancelled t c h = ground (arith, h)

  step_lem :
      (t : Try) (ts : List Try) (backoff : ℕ) (c : Client) (w : WorkerSession)
      → ask request parse dispatcher t c ≡ (none, c)
      → is_cancelled w ≡ false
      → Undisturbed t
      → discover_from request parse dispatcher (t ∷ ts) backoff c w
        ≡ discover_from request parse dispatcher ts
            (at_most max_backoff (backoff * 2))
            c
            (went_on t backoff c w)
  unfolding discover_from
  step_lem t ts backoff c w e k q =
      ground (arith, e, k, quiet_lem t.before c q.0, quiet_lem t.meanwhile c q.1)

  cancelled_for_ever :
      (ts : List Try) (backoff : ℕ) (c : Client) (w : WorkerSession)
      → c.cancelled ≡ true
      → is_cancelled w ≡ false
      → All Undisturbed ts
      → discover_from request parse dispatcher ts backoff c w ≡ none
  unfolding discover_from
  cancelled_for_ever [] backoff c w h k q = refl
  cancelled_for_ever (t ∷ ts) backoff c w h k q =
      step_lem t ts backoff c w (ask_cancelled t c h) k q.0
      ∙ cancelled_for_ever ts (at_most max_backoff (backoff * 2)) c (went_on t backoff c w) h
          (went_on_lem t backoff c w k q.0) q.1

  -- Once a user has disconnected a worker that looks its dispatcher up, no discovery of a later
  -- start ends by itself, whatever the network does: it goes on until someone asks for another
  -- disconnect or a shutdown.
  pub disconnect_runtime_ends_discovery :
      (ts : List Try) (c : Client) (w : WorkerSession)
      → w.rendezvous_client ≡ some c
      → w.shutdown_requested ≡ false
      → All Undisturbed ts
      → try_discover_dispatcher request parse dispatcher ts
          (start_runtime (idle (disconnect_runtime w)))
        ≡ none
  unfolding try_discover_dispatcher
  disconnect_runtime_ends_discovery ts c w h k q = ground (
    arith,
    h,
    cancelled_for_ever ts 1 (cancel c)
        (set_status discovering (start_runtime (idle (disconnect_runtime w)))) refl (ground arith)
        q,
  )

  adopt_kind :
      (f : Found) (w : WorkerSession)
      → ((adopt f.2 f.3 w).0 ≡ updated) ⊎ ((adopt f.2 f.3 w).0 ≡ unchanged)
  adopt_kind f w = ground arith

  adopt_address :
      (f : Found) (w : WorkerSession)
      → ((adopt f.2 f.3 w).1.host ≡ f.2) × ((adopt f.2 f.3 w).1.port ≡ f.3)
  adopt_address f w = ground (arith, same_text-≡ f.2 w.host)

  resolve_lem :
      (answer : Option Text) (w : WorkerSession) (done : DiscoveryResult × WorkerSession)
      → resolve (parse_answer request parse dispatcher answer) w ≡ some done
      → Resolved parse done
  resolve_lem none w done e = absurd (cc)
  resolve_lem (some text) w done e = elim (Option-cases (parse text)) [
    | inl nothing ↦ absurd (ground arith)
    | inr (f, found) ↦ elim (Bool-cases (is_usable f)) [
      | inr useless ↦ absurd (ground arith)
      | inl usable ↦
          let same : adopt f.2 f.3 w ≡ done = ground arith in
          rw (← same) (
            inr (
              adopt_kind f w,
              (text, f, found, usable, (adopt_address f w).0, (adopt_address f w).1),
            ))
    ]
  ]

  discover_from-Resolved :
      (ts : List Try) (backoff : ℕ) (c : Client) (w : WorkerSession)
      (done : DiscoveryResult × WorkerSession)
      → discover_from request parse dispatcher ts backoff c w ≡ some done
      → Resolved parse done
  unfolding discover_from
  discover_from-Resolved [] backoff c w done e = absurd (cc)
  discover_from-Resolved (t ∷ ts) backoff c w done e =
      let c1 = client_after t.before c in
      let w1 = record (after_requests t.before w) { rendezvous_client = some c1 } in
      let c2 = (ask request parse dispatcher t c1).1 in
      let w2 = record w1 { rendezvous_client = some c2 } in
      let c3 = client_after t.meanwhile c2 in
      let w3 = record (after_requests t.meanwhile w2) { rendezvous_client = some c3 } in
      let found = (ask request parse dispatcher t c1).0 in
      elim (Bool-cases (is_cancelled w1)) [
        | inl stop ↦
            let same : (cancelled, w1) ≡ done = ground arith in rw (← same) (inl (refl, stop))
        | inr on ↦ elim (Option-cases (resolve found w2)) [
          | inr (d, hit) ↦
              let same : d ≡ done = ground arith in
              rw (← same)
                (resolve_lem (discover_endpoint request t.network dispatcher c1).0 w2 d hit)
          | inl miss ↦ elim (Bool-cases (is_cancelled w3)) [
            | inl stop ↦
                let same : (cancelled, w3) ≡ done = ground arith in rw (← same) (inl (refl, stop))
            | inr more ↦
                discover_from-Resolved ts (at_most max_backoff (backoff * 2)) c3 (sleep backoff w3)
                  done (ground arith)
          ]
        ]
      ]

  -- A discovery that ends was cancelled, with a request that says so, or leaves the session with the
  -- address of an answer that was found, is not stale, and names a host and a port.
  pub try_discover_dispatcher-Resolved :
      (ts : List Try) (c : Client) (w : WorkerSession) (done : DiscoveryResult × WorkerSession)
      → w.rendezvous_client ≡ some c
      → try_discover_dispatcher request parse dispatcher ts w ≡ some done
      → Resolved parse done
  unfolding try_discover_dispatcher
  try_discover_dispatcher-Resolved ts c w done h e =
      discover_from-Resolved ts 1 c (set_status discovering w) done (ground (arith, h, e))
