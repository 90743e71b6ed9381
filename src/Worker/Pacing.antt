-- ===== src/Worker/Pacing.antt =====
-- worker/session/WorkerSession.cpp: how long the control thread waits.
use task_messenger.Common.{
  ℕ, ◌*◌, ◌≤◌, ◌≡◌, inl, inr, false, not, ◌&&◌, Option, none, some, List, [], ◌∷◌, ◌++◌, arith, All,
  Bool-cases, Option-cases,
}
use task_messenger.Rendezvous.Server.{Text}
use task_messenger.Rendezvous.Client.{Client}
use task_messenger.Worker.Session.{
  disconnected, connecting, connected, running, paused, DiscoveryResult, disabled, unchanged,
  updated, cancelled, WorkerSession, after_requests, client_after, at_most, max_backoff, Try, Found,
  is_cancelled, ask, resolve, sleep, set_status, discovering, discover_from,
  try_discover_dispatcher,
}
use task_messenger.Worker.Control.{
  end_turn, continues, leaves, Answers, Next, control_turn, rearm, failed, connect_phase, run_phase,
  after_run, idle,
}

-- Between one and five seconds.
abbrev Bounded : ℕ → Type 0
Bounded n = (1 ≤ n) × (n ≤ max_backoff)

-- The next delay and all the waits so far are between one and five seconds.
abbrev pub Paced : WorkerSession → Type 0
Paced w = Bounded w.reconnect_delay × All Bounded w.slept

All-snoc : (ns : List ℕ) (n : ℕ) → All Bounded ns → Bounded n → All Bounded (ns ++ n ∷ [])
All-snoc [] n a b = (b, tt)
All-snoc (m ∷ ns) n a b = (a.0, All-snoc ns n a.1 b)

doubled-Bounded : (n : ℕ) → Bounded n → Bounded (at_most max_backoff (n * 2))
doubled-Bounded n h = ground arith

resolve-Paced :
    (found : Option Found) (w : WorkerSession) (done : DiscoveryResult × WorkerSession)
    → Paced w
    → resolve found w ≡ some done
    → Paced done.1
resolve-Paced none w done p e = absurd (cc)
resolve-Paced (some f) w done p e = ground arith

rearm-Paced : (r : DiscoveryResult) (w : WorkerSession) → Paced w → Paced (rearm (r, w))
rearm-Paced cancelled w p = ground arith
rearm-Paced disabled w p =
    (doubled-Bounded w.reconnect_delay p.0, All-snoc w.slept w.reconnect_delay p.1 p.0)
rearm-Paced updated w p = p
rearm-Paced unchanged w p = p

end_turn-Paced : (w : WorkerSession) → Paced w → Paced (end_turn w)
end_turn-Paced w p = ground arith

module _ (request : Text → Text) (parse : Text → Option Found) (dispatcher : Text) where
  discover_from-Paced :
      (ts : List Try) (backoff : ℕ) (c : Client) (w : WorkerSession)
      (done : DiscoveryResult × WorkerSession)
      → Bounded backoff
      → Paced w
      → discover_from request parse dispatcher ts backoff c w ≡ some done
      → Paced done.1
  unfolding discover_from
  discover_from-Paced [] backoff c w done b p e = absurd (cc)
  discover_from-Paced (t ∷ ts) backoff c w done b p e =
      let c1 = client_after t.before c in
      let w1 = record (after_requests t.before w) { rendezvous_client = some c1 } in
      let c2 = (ask request parse dispatcher t c1).1 in
      let w2 = record w1 { rendezvous_client = some c2 } in
      let c3 = client_after t.meanwhile c2 in
      let w3 = record (after_requests t.meanwhile w2) { rendezvous_client = some c3 } in
      let found = (ask request parse dispatcher t c1).0 in
      elim (Bool-cases (is_cancelled w1)) [
        | inl stop ↦ let same : (cancelled, w1) ≡ done = ground arith in rw (← same) p
        | inr on ↦ elim (Option-cases (resolve found w2)) [
          | inr (d, hit) ↦
              let same : d ≡ done = ground arith in rw (← same) (resolve-Paced found w2 d p hit)
          | inl miss ↦ elim (Bool-cases (is_cancelled w3)) [
            | inl stop ↦ let same : (cancelled, w3) ≡ done = ground arith in rw (← same) p
            | inr more ↦
                discover_from-Paced ts (at_most max_backoff (backoff * 2)) c3 (sleep backoff w3)
                  done (doubled-Bounded backoff b) (p.0, All-snoc w.slept backoff p.1 b)
                  (ground arith)
          ]
        ]
      ]

  discover-Paced :
      (ts : List Try) (w : WorkerSession) (done : DiscoveryResult × WorkerSession)
      → Paced w
      → try_discover_dispatcher request parse dispatcher ts w ≡ some done
      → Paced done.1
  unfolding try_discover_dispatcher
  discover-Paced ts w done p e = elim (Option-cases w.rendezvous_client) [
    | inl none_yet ↦ let same : (disabled, w) ≡ done = ground arith in rw (← same) p
    | inr (c, h) ↦
        discover_from-Paced ts 1 c (set_status discovering w) done (omega arith, omega arith) p
          (ground (arith, h, e))
  ]

  failed-Paced :
      (a : Answers) (w : WorkerSession) (done : Next × WorkerSession)
      → Paced w
      → failed request parse dispatcher a w ≡ some done
      → Paced done.1
  failed-Paced a w done p e =
      elim (Option-cases
        (try_discover_dispatcher request parse dispatcher a.tries (set_status disconnected w))) [
          | inl stuck ↦ absurd (ground arith)
          | inr (found, h) ↦
              let same : (continues, rearm found) ≡ done = ground arith in
              rw (← same) (
                rearm-Paced found.0 found.1
                  (discover-Paced a.tries (set_status disconnected w) found p h))
        ]

  after_run-Paced :
      (a : Answers) (w : WorkerSession) (done : Next × WorkerSession)
      → Paced w
      → after_run request parse dispatcher a w ≡ some done
      → Paced done.1
  after_run-Paced a w done p e = elim (Bool-cases a.runs) [
    | inl good ↦
        let w' = set_status paused (record w { reconnect_delay = 1 }) in
        let same : (continues, end_turn w') ≡ done = ground arith in
        rw (← same) (end_turn-Paced w' ((omega arith, omega arith), p.1))
    | inr bad ↦ elim (Bool-cases a.was_disconnect_requested) [
      | inl asked ↦
          let same : (continues, record (idle w) { reconnect_delay = 1 }) ≡ done = ground arith in
          rw (← same) ((omega arith, omega arith), p.1)
      | inr lost ↦ failed-Paced a w done p (ground arith)
    ]
  ]

  run_phase-Paced :
      (a : Answers) (w : WorkerSession) (done : Next × WorkerSession)
      → Paced w
      → run_phase request parse dispatcher a w ≡ some done
      → Paced done.1
  run_phase-Paced a w done p e = elim (Bool-cases (w.start_requested && a.is_connected)) [
    | inl go ↦
        after_run-Paced a
          (after_requests a.while_running
            (set_status running (record w { start_requested = false })))
          done p (ground arith)
    | inr rest ↦
        let same : (continues, end_turn w) ≡ done = ground arith in rw (← same) (end_turn-Paced w p)
  ]

  connect_phase-Paced :
      (a : Answers) (w : WorkerSession) (done : Next × WorkerSession)
      → Paced w
      → connect_phase request parse dispatcher a w ≡ some done
      → Paced done.1
  connect_phase-Paced a w done p e = elim (Bool-cases a.connects) [
    | inl good ↦
        run_phase-Paced a (set_status connected (record w { reconnect_delay = 1 })) done
          ((omega arith, omega arith), p.1) (ground arith)
    | inr bad ↦ elim (Bool-cases w.shutdown_requested) [
      | inl stop ↦ let same : (leaves, w) ≡ done = ground arith in rw (← same) p
      | inr again ↦
          let same : (continues, sleep 1 w) ≡ done = ground arith in
          rw (← same) (p.0, All-snoc w.slept 1 p.1 (omega arith, omega arith))
    ]
  ]

  -- Each turn of the control loop keeps the waits paced: the delay before the next attempt to
  -- reconnect, and each wait for a retry of a connection or a discovery, is between one and five
  -- seconds.
  pub control_turn-Paced :
      (a : Answers) (w : WorkerSession) (done : Next × WorkerSession)
      → Paced w
      → control_turn request parse dispatcher a w ≡ some done
      → Paced done.1
  unfolding control_turn
  control_turn-Paced a w done p e = elim (Bool-cases w.shutdown_requested) [
    | inl stop ↦ let same : (leaves, w) ≡ done = ground arith in rw (← same) p
    | inr on ↦ elim (Bool-cases (w.start_requested && not a.was_connected)) [
      | inl connects ↦
          connect_phase-Paced a (after_requests a.while_connecting (set_status connecting w)) done p
            (ground arith)
      | inr stays ↦ run_phase-Paced a w done p (ground arith)
    ]
  ]
