-- ===== src/Network.antt =====
-- transport/socket/zerotier/ZeroTierNodeService.hpp and .cpp: the node that the sockets share, and the
-- leases that keep a network joined. What libzt answers comes from outside; a loop that polls it is
-- given what it reads, turn by turn, and is still waiting where that ends.
pub mod Counting
pub mod Leases
pub mod Interrupted
mod Examples
use task_messenger.Common.{
  ℕ, zero, suc, Bool, true, false, Option, none, some, List, [], ◌∷◌, ◌++◌, if◌then◌else◌, lookup,
  put, erase, ◌==◌,
}

-- An `int`.
pub data ℤ : Type 0 where
  pos negsuc : ℕ → ℤ

abbrev pub increment : ℤ → ℤ
increment (pos n) = pos (suc n)
increment (negsuc zero) = pos 0
increment (negsuc (suc n)) = negsuc n

abbrev pub decrement : ℤ → ℤ
decrement (pos zero) = negsuc 0
decrement (pos (suc n)) = pos n
decrement (negsuc n) = negsuc (suc n)

abbrev pub is_zero : ℤ → Bool
is_zero (pos zero) = true
is_zero (pos (suc n)) = false
is_zero (negsuc n) = false

pub record NodeService : Type 0 where
  -- `join_counts_`.
  pub join_counts : List (ℕ × ℤ)
  pub node_started : Bool
  pub shutdown_requested : Bool
  -- The networks that `zts_net_leave` was called for.
  pub left : List ℕ

pub data Wait : Type 0 where
  reached interrupted unfinished : Wait

-- What a polling loop reads in one turn: whether it is there, and whether its time is up.
pub record Poll : Type 0 where
  pub there : Bool
  pub late : Bool

-- `while (!zts_node_is_online())`.
abbrev pub wait_online : Bool → List Poll → Wait
wait_online shutdown [] = unfinished
wait_online shutdown (p ∷ ps) =
    if p.there then reached else if shutdown then interrupted else wait_online shutdown ps

-- The loop for the network's status, which looks at the shutdown first.
abbrev pub wait_joined : Bool → List Poll → Wait
wait_joined shutdown [] = unfinished
wait_joined shutdown (p ∷ ps) =
    if shutdown then interrupted else if p.there then reached else wait_joined shutdown ps

-- The loop for an address, which gives up when its time is up.
abbrev pub wait_address : Bool → List Poll → Wait
wait_address shutdown [] = unfinished
wait_address shutdown (p ∷ ps) =
    if p.there
    then reached
    else if shutdown
    then interrupted
    else if p.late
    then reached
    else wait_address shutdown ps

-- What libzt answers to one `acquire`.
pub record Answers : Type 0 where
  pub is_online : Bool
  pub starts : Bool
  pub online : List Poll
  pub status_ok : Bool
  pub joins : Bool
  pub joined : List Poll
  pub address : List Poll

pub data Outcome : Type 0 where
  -- It goes on, it throws, or it does not return.
  succeeds throws hangs : Outcome

abbrev pub outcome : Wait → Outcome
outcome reached = succeeds
outcome interrupted = throws
outcome unfinished = hangs

-- `ensure_node_started_locked`.
pub ensure_node_started : Answers → NodeService → Outcome
ensure_node_started a s =
    if s.node_started
    then succeeds
    else if a.is_online
    then succeeds
    else if a.starts
    then outcome (wait_online s.shutdown_requested a.online)
    else throws

abbrev after_join : Answers → NodeService → Wait → Outcome
after_join a s reached = outcome (wait_address s.shutdown_requested a.address)
after_join a s interrupted = throws
after_join a s unfinished = hangs

-- `join_network_locked`, where nobody holds the network.
abbrev pub join : Answers → NodeService → Outcome
join a s =
    if a.status_ok
    then after_join a s reached
    else if a.joins
    then after_join a s (wait_joined s.shutdown_requested a.joined)
    else throws

-- `join_counts_[net]` makes the entry.
abbrev pub or_zero : Option ℤ → ℤ
or_zero none = pos 0
or_zero (some n) = n

abbrev pub count_of : ℕ → NodeService → ℤ
count_of net s = or_zero (lookup net s.join_counts)

abbrev pub with_count : ℕ → ℤ → NodeService → NodeService
with_count net n s = record s { join_counts = put net n s.join_counts }

abbrev pub counted : ℕ → Outcome → NodeService → NodeService × Outcome
counted net succeeds s = (with_count net (increment (count_of net s)) s, succeeds)
counted net throws s = (with_count net (count_of net s) s, throws)
counted net hangs s = (with_count net (count_of net s) s, hangs)

pub join_network : Answers → ℕ → NodeService → NodeService × Outcome
join_network a net s = counted net (if is_zero (count_of net s) then join a s else succeeds) s

abbrev pub started : Answers → ℕ → Outcome → NodeService → NodeService × Outcome
started a net succeeds s = join_network a net (record s { node_started = true })
started a net throws s = (s, throws)
started a net hangs s = (s, hangs)

-- `acquire`: there is a lease where it succeeds.
pub acquire : Answers → ℕ → NodeService → NodeService × Outcome
acquire a net s = started a net (ensure_node_started a s) s

abbrev pub release_found : ℕ → Option ℤ → NodeService → NodeService
release_found net none s = s
release_found net (some n) s =
    if is_zero (decrement n)
    then record s { join_counts = erase net s.join_counts; left = s.left ++ net ∷ [] }
    else with_count net (decrement n) s

pub release_network : ℕ → NodeService → NodeService
release_network net s = release_found net (lookup net s.join_counts) s

abbrev nets : List (ℕ × ℤ) → List ℕ
nets [] = []
nets ((net, n) ∷ m) = net ∷ nets m

-- `stop`.
pub stop : NodeService → NodeService
stop s = record s { join_counts = []; node_started = false; left = s.left ++ nets s.join_counts }

pub shutdown : NodeService → NodeService
shutdown s = record s { shutdown_requested = true }

-- The leases of the sockets, by their place.
pub record Sockets : Type 0 where
  pub service : NodeService
  pub leases : List (Option ℕ)

abbrev pub lease_at : ℕ → List (Option ℕ) → Option ℕ
lease_at i [] = none
lease_at zero (l ∷ ls) = l
lease_at (suc i) (l ∷ ls) = lease_at i ls

abbrev pub set_lease : ℕ → Option ℕ → List (Option ℕ) → List (Option ℕ)
set_lease i l [] = []
set_lease zero l (m ∷ ls) = l ∷ ls
set_lease (suc i) l (m ∷ ls) = m ∷ set_lease i l ls

abbrev pub let_go : Option ℕ → NodeService → NodeService
let_go none s = s
let_go (some net) s = release_network net s

-- `NetworkLease::release`.
pub release : ℕ → Sockets → Sockets
release i w = record {
  service = let_go (lease_at i w.leases) w.service;
  leases = set_lease i none w.leases;
}

-- `NetworkLease::operator=`, of a lease that is moved.
pub move : ℕ → ℕ → Sockets → Sockets
unfolding release
move i j w =
    let w' = release i w in
    if i == j
    then w
    else record w' { leases = set_lease j none (set_lease i (lease_at j w.leases) w'.leases) }

abbrev pub leased : ℕ → ℕ → NodeService × Outcome → Sockets → Sockets × Outcome
leased i net (s, succeeds) w =
    (record { service = s; leases = set_lease i (some net) w.leases }, succeeds)
leased i net (s, throws) w = (record w { service = s }, throws)
leased i net (s, hangs) w = (record w { service = s }, hangs)

abbrev pub acquire_unless : Answers → ℕ → ℕ → Option ℕ → Sockets → Sockets × Outcome
acquire_unless a i net (some held) w = (w, succeeds)
acquire_unless a i net none w = leased i net (acquire a net w.service) w

-- `ensure_lease` of a socket.
pub ensure_lease : Answers → ℕ → ℕ → Sockets → Sockets × Outcome
ensure_lease a i net w = acquire_unless a i net (lease_at i w.leases) w
