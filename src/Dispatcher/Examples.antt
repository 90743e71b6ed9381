-- ===== src/Dispatcher/Examples.antt =====
-- dispatcher/DispatcherApp.cpp: the theorems at a dispatcher that has registered.
use task_messenger.Common.{◌≡◌, refl, true, false, none, some, [], ◌∷◌}
use task_messenger.Session.{alive}
use task_messenger.Rendezvous.Client.{Client, Network, new_client}
use task_messenger.Server.{Outside}
use task_messenger.Dispatcher.{DispatcherApp, running, stop_app}
use task_messenger.Dispatcher.Leaving.{stop_never_unregisters}

-- The answer to an unregistration is there to be read.
abbrev answering : Network
answering = record {
  socket = some (record {
    incoming = 1 ∷ 0 ∷ 0 ∷ 0 ∷ 4 ∷ 1 ∷ [];
    chunks = [];
    ends = true;
    read_fault = none;
    write_fault = none;
    outgoing = [];
    takes = [];
    is_open = true;
  });
  cancelled_meanwhile = false;
  connect_error = none;
}

abbrev outside : Outside
outside = record {
  around = record {
    now = record { steady = 0; system = 0 };
    is_open = true;
    completion_throws = false;
  };
  liveness = λ id. alive;
  is_open = λ c. false;
}

abbrev registered : DispatcherApp
registered = record {
  lifecycle = running;
  shutdown_requested = false;
  registered = true;
  rendezvous_client = some new_client;
  snapshot_reporter = some false;
  has_monitoring = true;
  has_registration_thread = true;
  server = none;
  start_time = 0;
}

stop_never_unregisters_example :
    (c' : Client) × ((stop_app (λ text. true) [] answering outside registered).1 ≡ some (false, c'))
    × (c'.sent ≡ [])
stop_never_unregisters_example =
    stop_never_unregisters (λ text. true) [] answering outside registered new_client refl refl
