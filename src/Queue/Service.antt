-- ===== src/Queue/Service.antt =====
-- What message/TaskMessageQueue.hpp promises to its callers, with no cancelled waiter in sight: a
-- line that holds tasks or workers and never both, and the operations on it.
use task_messenger.Common.{
  ℕ, Bool, true, false, Option, none, some, List, [], ◌∷◌, ◌++◌, if◌then◌else◌, put, erase, raise,
}
use task_messenger.Message.{TaskMessage, empty_message}
use task_messenger.Queue.{
  Waiter, TaskQueue, is_cancelled, keep_live, add_task, add_tasks, get_next_task, await_resume,
  cancel, cancel_and_resume_waiter, drain_cancelled, shutdown,
}

pub data Line : Type 0 where
  backlog : List TaskMessage → Line
  -- The worker at the head of the line, and those behind it.
  starved : Waiter → List Waiter → Line
  closed : List TaskMessage → Line

pub record Service : Type 0 where
  pub line : Line
  pub revoked : ℕ → Bool
  pub handed_over : List (ℕ × TaskMessage)

abbrev pub in_line : List Waiter → Line
in_line [] = backlog []
in_line (w ∷ ws) = starved w ws

abbrev pub hand : Option ℕ → TaskMessage → Service → Service
hand none task s = s
hand (some a) task s = record s { handed_over = put a task s.handed_over }

abbrev pub workers : Line → List Waiter
workers (starved w ws) = w ∷ ws
workers _ = []

-- The line without the workers `ws` that it had.
abbrev pub with_workers : Line → List Waiter → Line
with_workers (starved _ _) ws = in_line ws
with_workers line _ = line

-- A request to the service, by a worker's session or by the dispatcher.
pub data Request : Type 0 where
  submit : TaskMessage → Request
  submit_all : List TaskMessage → Request
  request_task : ℕ → ℕ → Option ℕ → Request
  pick_up : ℕ → Request
  -- `cancel()` of a token, as a session is ended, and then `cancel_and_resume_waiter` with it.
  revoke : ℕ → Request
  withdraw : ℕ → Request
  tidy close : Request

-- A token is cancelled: its workers are out of the line.
abbrev pub strike : ℕ → Service → Service
strike t s = record s {
  revoked = raise t s.revoked;
  line = with_workers s.line (keep_live (raise t s.revoked) (workers s.line));
}

module _ (resume : ℕ → Service → Service) where
  abbrev pub deliver : TaskMessage → Line → Service → Service
  deliver task (closed tasks) s = s
  deliver task (backlog tasks) s = record s { line = backlog (tasks ++ task ∷ []) }
  deliver task (starved w ws) s =
      resume w.handle (hand w.awaiter task (record s { line = in_line ws }))

  abbrev pub deliver_all : List TaskMessage → Service → Service
  deliver_all [] s = s
  deliver_all (task ∷ tasks) s = deliver_all tasks (deliver task s.line s)

  abbrev pub queue_up : ℕ → ℕ → Option ℕ → Line → Service → Service
  queue_up h a token (closed tasks) s = resume h s
  queue_up h a token (backlog (task ∷ tasks)) s =
      resume h (record s { line = backlog tasks; handed_over = put a task s.handed_over })
  queue_up h a token (backlog []) s = record s {
    line = starved (record { handle = h; awaiter = some a; token = token }) [];
  }
  queue_up h a token (starved w ws) s = record s {
    line = starved w (ws ++ record { handle = h; awaiter = some a; token = token } ∷ []);
  }

  -- The worker that was found comes back empty-handed.
  abbrev pub leave : Option Waiter → Service → Service
  leave none s = s
  leave (some w) s = resume w.handle (hand w.awaiter empty_message s)

  abbrev pub wake_each : List Waiter → Service → Service
  wake_each [] s = s
  wake_each (w ∷ ws) s =
      wake_each ws (if is_cancelled s.revoked w.token then s else resume w.handle s)

  abbrev pub close_line : Line → Service → Service
  close_line (closed tasks) s = s
  close_line (backlog tasks) s = record s { line = closed tasks }
  close_line (starved w ws) s = wake_each (w ∷ ws) (record s { line = closed [] })

  -- `struck` tells which worker of a cancelled token has not been forgotten yet: a service need not
  -- remember it.
  unfoldable pub serve : (ℕ → Option Waiter) → Request → Service → Service
  serve struck (submit task) s = deliver task s.line s
  serve struck (submit_all tasks) s = deliver_all tasks s
  serve struck (request_task h a token) s =
      if is_cancelled s.revoked token then resume h s else queue_up h a token s.line s
  serve struck (pick_up a) s = record s { handed_over = erase a s.handed_over }
  serve struck (withdraw t) s = leave (struck t) s
  serve struck (revoke t) s = strike t s
  serve struck tidy s = s
  serve struck close s = close_line s.line s

-- The queue as the service shows it: cancelled waiters are not seen.
abbrev pub seen_line : Bool → List TaskMessage → List Waiter → Line
seen_line true tasks ws = closed tasks
seen_line false tasks [] = backlog tasks
seen_line false tasks (w ∷ ws) = starved w ws

abbrev pub seen : TaskQueue → Service
seen q = record {
  line = seen_line q.is_shutdown q.tasks (keep_live q.cancelled q.waiting_workers);
  revoked = q.cancelled;
  handed_over = q.results;
}

module _ (resume : ℕ → TaskQueue → TaskQueue) where
  -- The queue's own answer to a request.
  unfoldable pub respond : Request → TaskQueue → TaskQueue
  respond (submit task) q = add_task resume task q
  respond (submit_all tasks) q = add_tasks resume tasks q
  respond (request_task h a token) q = get_next_task resume h a token q
  respond (pick_up a) q = (await_resume a q).0
  respond (withdraw t) q = cancel_and_resume_waiter resume (some t) q
  respond (revoke t) q = cancel t q
  respond tidy q = drain_cancelled q
  respond close q = shutdown resume q
