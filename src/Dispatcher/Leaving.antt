-- ===== src/Dispatcher/Leaving.antt =====
-- dispatcher/DispatcherApp.cpp: what a dispatcher that stops says to the rendezvous service.
use task_messenger.Common.{◌≡◌, refl, ap, ◌∙◌, Bool, true, false, some}
use task_messenger.Rendezvous.Server.{Text}
use task_messenger.Rendezvous.Client.{Client, Network, cancel, exchange, unregister_endpoint}
use task_messenger.Server.{Outside}
use task_messenger.Dispatcher.{DispatcherApp, cancel_client, farewell, stop_app}

-- A cancelled client opens no connection: its answer does not depend on the network.
unregister_cancelled :
    (accepts : Text → Bool) (net : Network) (request : Text) (c : Client)
    → unregister_endpoint accepts net request (cancel c) ≡ (false, cancel c)
unfolding unregister_endpoint exchange
unregister_cancelled accepts net request c = refl

-- A registered dispatcher that stops does not unregister: its client has been cancelled before, so
-- that the request is given up and the client has sent no byte more than before the stop, whatever
-- the network would do.
pub stop_never_unregisters :
    (accepts : Text → Bool) (request : Text) (net : Network) (o : Outside) (app : DispatcherApp)
    (c : Client)
    → app.rendezvous_client ≡ some c
    → app.registered ≡ true
    → (c' : Client) × ((stop_app accepts request net o app).1 ≡ some (false, c'))
      × (c'.sent ≡ c.sent)
unfolding stop_app
stop_never_unregisters accepts request net o app c e r = (
  cancel c,
  ap (λ x. farewell accepts request net app.registered (cancel_client x)) e
      ∙ ap (λ b. farewell accepts request net b (some (cancel c))) r
      ∙ ap some (unregister_cancelled accepts net request c),
  refl,
)
