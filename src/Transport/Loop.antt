-- ===== src/Transport/Loop.antt =====
-- transport/coro/coroIoContext.hpp and .cpp: one round of the event loop over its pending
-- operations, and the statistics of attempts. Counters do not wrap.
pub mod Round
pub mod Counts
use task_messenger.Common.{
  ℕ, zero, suc, ◌+◌, ◌-◌, Bool, true, false, not, ◌||◌, Option, none, some, List, [], ◌∷◌, ◌++◌,
  ltb, if◌then◌else◌,
}

pub data Category : Type 0 where
  generic_category read_category read_header_category write_category timer_category : Category

-- The predicate of an operation is known by the operation's number.
pub record PendingOp : Type 0 where
  pub try_complete : ℕ
  pub handle : Option ℕ
  pub attempts : ℕ
  pub category : Category

-- What a predicate answers when it is tried: an exception counts as complete.
pub data Poll : Type 0 where
  ready not_ready raises : Poll

pub record Statistics : Type 0 where
  pub total_operations_processed : ℕ
  pub histogram : Category → List ℕ
  pub min_failures_before_success : Option ℕ
  pub max_failures_before_success : ℕ
  pub sum_failures_before_success : ℕ
  pub completed_ops_for_avg : ℕ

pub record IoContext : Type 0 where
  pub pending_ops : List PendingOp
  pub running : Bool
  pub outstanding_work : ℕ
  pub statistics : Statistics
  -- The handles that were resumed, in order.
  pub resumed : List ℕ

abbrev pub max_tracked_attempts : ℕ
max_tracked_attempts = 1024

abbrev pub max_attempts : ℕ
max_attempts = 65535

abbrev pub register_pending : PendingOp → IoContext → IoContext
register_pending op c = record c { pending_ops = c.pending_ops ++ op ∷ [] }

abbrev pub increment : ℕ → List ℕ → List ℕ
increment i [] = []
increment zero (n ∷ ns) = suc n ∷ ns
increment (suc i) (n ∷ ns) = n ∷ increment i ns

abbrev pub same_category : Category → Category → Bool
same_category generic_category generic_category = true
same_category read_category read_category = true
same_category read_header_category read_header_category = true
same_category write_category write_category = true
same_category timer_category timer_category = true
same_category _ _ = false

abbrev pub lower : ℕ → Option ℕ → Option ℕ
lower n none = some n
lower n (some m) = if ltb n m then some n else some m

-- The bucket of a count of failures: the last one takes all that are higher.
abbrev pub bucket : ℕ → ℕ → ℕ
bucket size failures = if ltb (size - 1) failures then size - 1 else failures

abbrev pub record_completion : ℕ → Category → ℕ → Statistics → Statistics
record_completion size category failures s = record {
  total_operations_processed = suc s.total_operations_processed;
  histogram = λ c.
      if same_category c category
      then increment (bucket size failures) (s.histogram c)
      else s.histogram c;
  min_failures_before_success = lower failures s.min_failures_before_success;
  max_failures_before_success =
      if ltb s.max_failures_before_success failures
      then failures
      else s.max_failures_before_success;
  sum_failures_before_success = s.sum_failures_before_success + failures;
  completed_ops_for_avg = suc s.completed_ops_for_avg;
}

abbrev pub is_complete : Poll → Bool
is_complete not_ready = false
is_complete _ = true

abbrev pub retried : PendingOp → PendingOp
retried op = record op {
  attempts = if ltb op.attempts max_attempts then suc op.attempts else op.attempts;
}

-- What surrounds a round: the predicates, which coroutines have ended, and the operations that a
-- coroutine registers while it runs.
pub record Surroundings : Type 0 where
  pub poll : ℕ → Poll
  pub has_ended : ℕ → Bool
  pub registers : ℕ → List PendingOp

-- `if (h && !h.done()) h.resume()` and the statistics of it; the histograms have `size` buckets.
abbrev pub resume : Surroundings → ℕ → PendingOp → Option ℕ → IoContext → IoContext
resume env size op none c = c
resume env size op (some h) c = if env.has_ended h then c else record c {
  pending_ops = c.pending_ops ++ env.registers h;
  statistics = record_completion size op.category op.attempts c.statistics;
  resumed = c.resumed ++ h ∷ [];
}

-- The loop over the fetched operations: the context afterwards, and those to requeue.
pub process_each : Surroundings → ℕ → List PendingOp → IoContext → IoContext × List PendingOp
process_each env size [] c = (c, [])
process_each env size (op ∷ ops) c =
    let complete = is_complete (env.poll op.try_complete) in
    let (c', requeue) =
      process_each env size ops (if complete then resume env size op op.handle c else c) in
    (c', if complete then requeue else retried op ∷ requeue)

pub process_pending_ops : Surroundings → ℕ → IoContext → IoContext
unfolding process_each
process_pending_ops env size c =
    let (c', requeue) = process_each env size c.pending_ops (record c { pending_ops = [] }) in
    record c' { pending_ops = c'.pending_ops ++ requeue }

abbrev pub is_empty : List PendingOp → Bool
is_empty [] = true
is_empty (_ ∷ _) = false

-- The predicates of the timed waits: whether a wait comes back at once.
abbrev pub poll_wait_done : IoContext → Bool
poll_wait_done c = not (is_empty c.pending_ops)

abbrev pub run_wait_done : IoContext → Bool
run_wait_done c = not c.running || not (is_empty c.pending_ops)

-- The guards that keep the loop alive.
abbrev pub add_work : IoContext → IoContext
add_work c = record c { outstanding_work = suc c.outstanding_work }

abbrev pub drop_work : IoContext → IoContext
drop_work c = record c { outstanding_work = c.outstanding_work - 1 }

abbrev pub keeps_running : IoContext → Bool
keeps_running c = c.running || ltb 0 c.outstanding_work

pub reset_statistics : IoContext → IoContext
reset_statistics c = record c {
  statistics = record (c.statistics) { total_operations_processed = 0 };
}

abbrev pub idle_context : IoContext
idle_context = record {
  pending_ops = [];
  running = true;
  outstanding_work = 0;
  statistics = record {
    total_operations_processed = 0;
    histogram = λ _. [];
    min_failures_before_success = none;
    max_failures_before_success = 0;
    sum_failures_before_success = 0;
    completed_ops_for_avg = 0;
  };
  resumed = [];
}
