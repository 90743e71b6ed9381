-- ===== src/Transport/Examples.antt =====
-- transport/: the theorems at a read of three bytes and at a loop with two operations.
use task_messenger.Common.{
  ℕ, ◌≡◌, refl, ◌++◌, true, false, some, none, List, [], ◌∷◌, ◌==◌, if◌then◌else◌,
}
use task_messenger.Transport.Stream.{would_block, Recv, received, taken}
use task_messenger.Transport.Adapter.{Adapter, Attempt, no_operation, async_read}
use task_messenger.Transport.Loop.{
  read_category, PendingOp, ready, not_ready, IoContext, Surroundings, process_pending_ops,
  idle_context,
}
use task_messenger.Transport.Loop.Round.{left_over, registered, woken, process_round}

abbrev idle : Adapter
idle = record {
  has_socket = true;
  is_open = true;
  current_operation = no_operation;
  last_error = none;
  last_bytes_transferred = 0;
  read_buffer = [];
  read_size = 0;
  read_offset = 0;
  write_size = 0;
  write_offset = 0;
}

abbrev attempt : Recv → Attempt
attempt r = record { recv = r; send = taken 0 }

-- One byte, nothing yet, then the two others.
abbrev attempts : List Attempt
attempts =
    attempt (received (1 ∷ []))
    ∷ attempt (Recv.failed would_block)
    ∷ attempt (received (2 ∷ 3 ∷ []))
    ∷ []

abbrev filled : Adapter
filled = record idle { last_bytes_transferred = 3; read_buffer = 1 ∷ 2 ∷ 3 ∷ []; read_size = 3 }

read_ends : async_read 3 attempts idle ≡ some filled
unfolding async_read task_messenger.Transport.Adapter.try_complete_current_operation
read_ends = refl

abbrev operation : ℕ → PendingOp
operation n = record { try_complete = n; handle = some n; attempts = 0; category = read_category }

-- Operation 1 is complete, and its coroutine then waits for operation 7.
abbrev env : Surroundings
env = record {
  poll = λ n. if n == 1 then ready else not_ready;
  has_ended = λ _. false;
  registers = λ _. operation 7 ∷ [];
}

abbrev two_pending : IoContext
two_pending = record idle_context { pending_ops = operation 1 ∷ operation 2 ∷ [] }

process_round_example :
    let c' = process_pending_ops env 1025 two_pending in
    (c'.resumed ≡ [] ++ woken env (operation 1 ∷ operation 2 ∷ []))
    × (c'.pending_ops
        ≡ registered env (woken env (operation 1 ∷ operation 2 ∷ []))
          ++ left_over env (operation 1 ∷ operation 2 ∷ []))
process_round_example = process_round env 1025 two_pending

-- Each category has a histogram of two buckets.
abbrev counting : IoContext
counting = record two_pending {
  statistics = record (two_pending.statistics) { histogram = λ _. 0 ∷ 0 ∷ [] };
}
