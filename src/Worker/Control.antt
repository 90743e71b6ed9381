-- ===== src/Worker/Control.antt =====
-- worker/session/WorkerSession.cpp: one turn of the control loop of `start`.
use task_messenger.Common.{
  ◌*◌, Bool, true, false, not, ◌&&◌, Option, none, some, List, if◌then◌else◌,
}
use task_messenger.Rendezvous.Server.{Text}
use task_messenger.Worker.Session.{
  disconnected, connecting, connected, running, paused, stopped, error, DiscoveryResult, disabled,
  cancelled, WorkerSession, Requests, after_requests, at_most, max_backoff, sleep, set_status, Try,
  Found, try_discover_dispatcher,
}

-- What the runtime answers in this turn, and what is requested while it is busy.
pub record Answers : Type 0 where
  pub was_connected : Bool
  pub connects : Bool
  pub while_connecting : Requests
  pub is_connected : Bool
  pub runs : Bool
  pub while_running : Requests
  pub was_disconnect_requested : Bool
  pub tries : List Try

-- How a turn ends: the next one, or the end of the loop.
pub data Next : Type 0 where
  continues leaves : Next

-- A disconnect is done with: wait for the next start.
abbrev pub idle : WorkerSession → WorkerSession
idle w =
    set_status disconnected (record w { disconnect_requested = false; start_requested = false })

abbrev pub paced : WorkerSession → WorkerSession
paced w = record (sleep w.reconnect_delay w) {
  reconnect_delay = at_most max_backoff (w.reconnect_delay * 2);
}

abbrev pub give_up : WorkerSession → WorkerSession
give_up w = if w.disconnect_requested && not w.shutdown_requested then idle w else w

-- What follows a discovery after a failed run.
abbrev pub rearm : DiscoveryResult × WorkerSession → WorkerSession
rearm (cancelled, w) = give_up w
rearm (disabled, w) = paced (record w { start_requested = true })
rearm (_, w) = record w { start_requested = true }

-- The test for a disconnect at the end of a turn, or the idle wait.
abbrev pub end_turn : WorkerSession → WorkerSession
end_turn w = if w.disconnect_requested then idle w else w

module _ (request : Text → Text) (parse : Text → Option Found) (dispatcher : Text) where
  abbrev pub failed : Answers → WorkerSession → Option (Next × WorkerSession)
  failed a w =
      elim (try_discover_dispatcher request parse dispatcher a.tries (set_status disconnected w)) [
        | none ↦ none
        | some found ↦ some (continues, rearm found)
      ]

  abbrev pub after_run : Answers → WorkerSession → Option (Next × WorkerSession)
  after_run a w =
      if a.runs
      then some (continues, end_turn (set_status paused (record w { reconnect_delay = 1 })))
      else if a.was_disconnect_requested
      then some (continues, record (idle w) { reconnect_delay = 1 })
      else failed a w

  abbrev pub run_phase : Answers → WorkerSession → Option (Next × WorkerSession)
  run_phase a w =
      if w.start_requested && a.is_connected
      then after_run a (
          after_requests a.while_running
            (set_status running (record w { start_requested = false })))
      else some (continues, end_turn w)

  abbrev pub connect_phase : Answers → WorkerSession → Option (Next × WorkerSession)
  connect_phase a w =
      if a.connects
      then run_phase a (set_status connected (record w { reconnect_delay = 1 }))
      else if w.shutdown_requested
      then some (leaves, w)
      else some (continues, sleep 1 w)

  unfoldable pub control_turn : Answers → WorkerSession → Option (Next × WorkerSession)
  unfolding try_discover_dispatcher
  control_turn a w =
      if w.shutdown_requested
      then some (leaves, w)
      else if w.start_requested && not a.was_connected
      then connect_phase a (after_requests a.while_connecting (set_status connecting w))
      else run_phase a w

-- After the loop: the runtime is released.
abbrev pub finish : WorkerSession → WorkerSession
finish w = elim w.connection_status [ error ↦ w | _ ↦ set_status stopped w ]
