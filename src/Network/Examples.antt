-- ===== src/Network/Examples.antt =====
-- transport/socket/zerotier/ZeroTierNodeService.cpp: the theorems at two sockets on one network.
use task_messenger.Common.{◌≢◌, refl, true, false, none, some, [], ◌∷◌, arith}
use task_messenger.Network.{NodeService, Sockets, Answers, succeeds, pos, acquire, shutdown}
use task_messenger.Network.Counting.{IsCounted}
use task_messenger.Network.Leases.{ensures, step, step-IsCounted}
use task_messenger.Network.Interrupted.{acquire_after_shutdown}

abbrev answers : Answers
answers = record {
  is_online = true;
  starts = true;
  online = [];
  status_ok = false;
  joins = true;
  joined = record { there = true; late = false } ∷ [];
  address = record { there = true; late = false } ∷ [];
}

abbrev fresh : NodeService
fresh = record { join_counts = []; node_started = false; shutdown_requested = false; left = [] }

abbrev unused : Sockets
unused = record { service = fresh; leases = none ∷ none ∷ [] }

unused-IsCounted : IsCounted unused
unused-IsCounted = record { count = λ net. refl }

-- The first socket has joined network 5.
abbrev first_joined : Sockets
first_joined = step (ensures answers 0 5) unused

step-IsCounted_example : IsCounted (step (ensures answers 0 5) unused)
step-IsCounted_example = step-IsCounted (ensures answers 0 5) unused (omega arith) unused-IsCounted

acquire_after_shutdown_example : (acquire answers 5 (shutdown fresh)).1 ≢ succeeds
acquire_after_shutdown_example = acquire_after_shutdown answers 5 fresh refl refl

-- The second socket is the last on network 5.
abbrev last : Sockets
last = record {
  service = record fresh { join_counts = (5, pos 1) ∷ []; node_started = true };
  leases = none ∷ some 5 ∷ [];
}

last-IsCounted : IsCounted last
last-IsCounted = record { count = λ net. ground arith }
