-- ===== src/Monitoring/Cache.antt =====
-- dispatcher/monitoring/MonitoringService.cpp: what the monitoring page shows between two builds.
use task_messenger.Common.{
  ℕ, ◌≡◌, refl, ap, ◌∙◌, Bool, true, false, Option, none, some, List, [], ◌∷◌, All,
}
use task_messenger.Rendezvous.Server.{Text}
use task_messenger.Rendezvous.Client.{Network}
use task_messenger.Rendezvous.Relay.{SnapshotReporter}
use task_messenger.Monitoring.{
  Providers, Moment, MonitoringService, build, cache, build_and_cache_snapshot, cached_or_built,
  answered, handle_monitor, relay, forward, report_turn,
}

-- The calls on the service: turns of the report loop, and requests of the page.
pub data Call : Type 0 where
  ticks : Moment → Bool → Network → Call
  asks : Moment → Call

-- A call that builds no new snapshot where there is one.
abbrev pub IsQuiet : Call → Type 0
IsQuiet (ticks t still net) = t.fails ≡ true
IsQuiet (asks t) = Unit

module _ (p : Providers) where
  abbrev pub after : Call → MonitoringService → MonitoringService
  after (ticks t still net) m = (report_turn p t still net m).1
  after (asks t) m = (handle_monitor p t m).1

  abbrev pub after_all : List Call → MonitoringService → MonitoringService
  after_all [] m = m
  after_all (c ∷ cs) m = after_all cs (after c m)

  relay-cached :
      (net : Network) (r : Option SnapshotReporter) (o : Option Text) (m : MonitoringService)
      → (relay p net r o m).cached_snapshot_json ≡ m.cached_snapshot_json
  relay-cached net none o m = refl
  relay-cached net (some r) none m = refl
  relay-cached net (some r) (some text) m = refl

  forward-cached :
      (net : Network) (still : Bool) (x : Option Text × MonitoringService)
      → (forward p net still x).1.cached_snapshot_json ≡ x.1.cached_snapshot_json
  forward-cached net false (text, m) = refl
  forward-cached net true (text, m) = relay-cached net m.snapshot_reporter text m

  answered-cached :
      (text : Text) (t : Moment) (m : MonitoringService)
      → m.cached_snapshot_json ≡ some text
      → handle_monitor p t m ≡ ((200, text), m)
  unfolding handle_monitor
  answered-cached text t m e = ap (λ o. answered p (cached_or_built p t o m)) e

  tick-cached :
      (t : Moment) (still : Bool) (net : Network) (m : MonitoringService)
      → (report_turn p t still net m).1.cached_snapshot_json
        ≡ (cache t.fails (p.dump (build p t m.server).0) m).1.cached_snapshot_json
  unfolding report_turn build_and_cache_snapshot
  tick-cached t still net m =
      forward-cached net still (build_and_cache_snapshot p t m) ∙ cache_same t.fails
    where
      cache_same :
          (b : Bool)
          → (cache b
              (p.dump (build p t m.server).0)
              (record m { server = (build p t m.server).1 })).1.cached_snapshot_json
            ≡ (cache b (p.dump (build p t m.server).0) m).1.cached_snapshot_json
      cache_same true = refl
      cache_same false = refl

  quiet_keeps :
      (text : Text) (c : Call) (m : MonitoringService)
      → IsQuiet c
      → m.cached_snapshot_json ≡ some text
      → (after c m).cached_snapshot_json ≡ some text
  quiet_keeps text (ticks t still net) m q e =
      tick-cached t still net m
      ∙ ap (λ b. (cache b (p.dump (build p t m.server).0) m).1.cached_snapshot_json) q
      ∙ e
  quiet_keeps text (asks t) m q e =
      ap (λ (x : (ℕ × Text) × MonitoringService). x.1.cached_snapshot_json)
        (answered-cached text t m e)
      ∙ e

  quiet_keep :
      (text : Text) (cs : List Call) (m : MonitoringService)
      → All IsQuiet cs
      → m.cached_snapshot_json ≡ some text
      → (after_all cs m).cached_snapshot_json ≡ some text
  quiet_keep text [] m q e = e
  quiet_keep text (c ∷ cs) m q e = quiet_keep text cs (after c m) q.1 (quiet_keeps text c m q.0 e)

  -- The page shows the snapshot of the last turn that built one, to every request and without a
  -- build of its own, however many turns fail meanwhile; answering leaves the service as it is.
  pub handle_monitor_latest :
      (t u : Moment) (still : Bool) (net : Network) (cs : List Call) (m : MonitoringService)
      → t.fails ≡ false
      → All IsQuiet cs
      → let m' = after_all cs (report_turn p t still net m).1 in
        handle_monitor p u m' ≡ ((200, p.dump (build p t m.server).0), m')
  handle_monitor_latest t u still net cs m e q =
      let text = p.dump (build p t m.server).0 in
      let m' = (report_turn p t still net m).1 in
      let fresh : m'.cached_snapshot_json ≡ some text =
        tick-cached t still net m ∙ ap (λ b. (cache b text m).1.cached_snapshot_json) e in
      answered-cached text u (after_all cs m') (quiet_keep text cs m' q fresh)
