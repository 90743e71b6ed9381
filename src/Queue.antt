-- ===== src/Queue.antt =====
-- message/TaskMessageQueue.hpp and .cpp: the queue's state and its operations. Awaitables,
-- cancellation tokens and coroutines are objects that sessions share with the queue: they are
-- named by numbers, and the state holds what the queue writes to them and reads from them.
pub mod Valid
pub mod Loops
pub mod Steps
pub mod Conserve
pub mod Order
pub mod Service
pub mod View
pub mod Submit
pub mod Refines
mod Examples
use task_messenger.Common.{
  ℕ, Bool, true, false, ◌||◌, Option, none, some, List, [], ◌∷◌, ◌++◌, if◌then◌else◌, same_pointer,
  lookup, erase, put, raise,
}
use task_messenger.Message.{TaskMessage, empty_message}

pub record Waiter : Type 0 where
  pub handle : ℕ
  pub awaiter : Option ℕ
  pub token : Option ℕ

pub record TaskQueue : Type 0 where
  pub tasks : List TaskMessage
  pub waiting_workers : List Waiter
  pub is_shutdown : Bool
  -- `is_cancelled()` of each token.
  pub cancelled : ℕ → Bool
  -- `result_` of each awaitable that has a value.
  pub results : List (ℕ × TaskMessage)
  -- A record of the tasks that the queue has accepted, and of those that have left it through an
  -- awaitable: no code reads it.
  pub submitted : List TaskMessage
  pub taken : List TaskMessage

-- `token && token->is_cancelled()`.
abbrev pub is_cancelled : (ℕ → Bool) → Option ℕ → Bool
is_cancelled cancelled none = false
is_cancelled cancelled (some t) = cancelled t

abbrev pub skip_cancelled : (ℕ → Bool) → List Waiter → List Waiter
skip_cancelled cancelled [] = []
skip_cancelled cancelled (w ∷ ws) =
    if is_cancelled cancelled w.token then skip_cancelled cancelled ws else w ∷ ws

abbrev push_back : TaskMessage → TaskQueue → TaskQueue
push_back task q = record q { tasks = q.tasks ++ task ∷ [] }

abbrev pub accept : TaskMessage → TaskQueue → TaskQueue
accept task q = record q { submitted = task ∷ q.submitted }

-- `if (waiter.awaiter) waiter.awaiter->result_ = task; else tasks_.push_back(task)`.
abbrev pub fill : Option ℕ → TaskMessage → TaskQueue → TaskQueue
fill none task q = push_back task q
fill (some a) task q = record q { results = put a task q.results }

-- The loop of `cancel_and_resume_waiter`: the first waiter with the token, and the others.
abbrev pub find_waiter : Option ℕ → List Waiter → Option Waiter
find_waiter token [] = none
find_waiter token (w ∷ ws) = if same_pointer w.token token then some w else find_waiter token ws

abbrev pub remaining : Option ℕ → List Waiter → List Waiter
remaining token [] = []
remaining token (w ∷ ws) = if same_pointer w.token token then ws else w ∷ remaining token ws

abbrev pub invalidate : Option ℕ → TaskQueue → TaskQueue
invalidate none q = q
invalidate (some a) q = record q { results = put a empty_message q.results }

abbrev pub pop_front : List TaskMessage → TaskQueue → TaskQueue × Option TaskMessage
pop_front [] q = (q, none)
pop_front (task ∷ tasks) q = (record q { tasks = tasks }, some task)

abbrev store_taken : ℕ → TaskQueue × Option TaskMessage → TaskQueue × Bool
store_taken a (q, none) = (q, false)
store_taken a (q, some task) = (record q { results = put a task q.results }, true)

-- The loop of `drain_cancelled`.
abbrev pub keep_live : (ℕ → Bool) → List Waiter → List Waiter
keep_live cancelled [] = []
keep_live cancelled (w ∷ ws) =
    if is_cancelled cancelled w.token then keep_live cancelled ws else w ∷ keep_live cancelled ws

-- `try_get_task_immediately`: the task, where there is one.
pub try_get_task_immediately : TaskQueue → TaskQueue × Option TaskMessage
try_get_task_immediately q = if q.is_shutdown then (q, none) else pop_front q.tasks q

-- `cancel()` of a token.
unfoldable pub cancel : ℕ → TaskQueue → TaskQueue
cancel token q = record q { cancelled = raise token q.cancelled }

unfoldable pub drain_cancelled : TaskQueue → TaskQueue
drain_cancelled q = record q { waiting_workers = keep_live q.cancelled q.waiting_workers }

-- `TaskQueueAwaitable::await_ready`, of the awaitable `a` with its token.
pub await_ready : ℕ → Option ℕ → TaskQueue → TaskQueue × Bool
unfolding try_get_task_immediately
await_ready a token q =
    if is_cancelled q.cancelled token then (q, true) else store_taken a (try_get_task_immediately q)

abbrev pub result_of : Option TaskMessage → TaskMessage
result_of (some task) = task
result_of none = empty_message

-- `await_resume`: the result is moved out, and the awaitable is destroyed.
pub await_resume : ℕ → TaskQueue → TaskQueue × TaskMessage
await_resume a q =
    let task = result_of (lookup a q.results) in
    (record q { results = erase a q.results; taken = task ∷ q.taken }, task)

-- What `resume()` of a coroutine does to the state: the session's own code, and whatever other
-- threads do while the lock is released.
module _ (resume : ℕ → TaskQueue → TaskQueue) where
  abbrev pub give : TaskMessage → List Waiter → TaskQueue → TaskQueue
  give task [] q = push_back task (record q { waiting_workers = [] })
  give task (w ∷ ws) q = resume w.handle (fill w.awaiter task (record q { waiting_workers = ws }))

  -- The loop of `add_task`: it ends with the first waiter that is not cancelled.
  abbrev pub hand_out : TaskMessage → List Waiter → TaskQueue → TaskQueue
  hand_out task [] q = push_back task (record q { waiting_workers = [] })
  hand_out task (w ∷ ws) q =
      let rest = hand_out task ws q in
      if is_cancelled q.cancelled w.token
      then rest
      else resume w.handle (fill w.awaiter task (record q { waiting_workers = ws }))

  pub add_task : TaskMessage → TaskQueue → TaskQueue
  add_task task q = if q.is_shutdown then q else hand_out task q.waiting_workers (accept task q)

  -- The body of the loop of `add_tasks`: the cancelled waiters are skipped first.
  abbrev pub add_locked : TaskMessage → TaskQueue → TaskQueue
  add_locked task q = give task (skip_cancelled q.cancelled q.waiting_workers) (accept task q)

  pub add_each : List TaskMessage → TaskQueue → TaskQueue
  add_each [] q = q
  add_each (task ∷ tasks) q = add_each tasks (add_locked task q)

  pub add_tasks : List TaskMessage → TaskQueue → TaskQueue
  add_tasks tasks q = if q.is_shutdown then q else add_each tasks q

  -- Each waiter of the swapped-out list; a token may be cancelled by the coroutines before it.
  pub resume_all : List Waiter → TaskQueue → TaskQueue
  resume_all [] q = q
  resume_all (w ∷ ws) q =
      resume_all ws (if is_cancelled q.cancelled w.token then q else resume w.handle q)

  pub shutdown : TaskQueue → TaskQueue
  shutdown q =
      if q.is_shutdown
      then q
      else resume_all q.waiting_workers (record q { is_shutdown = true; waiting_workers = [] })

  abbrev pub cancel_found : Option Waiter → TaskQueue → TaskQueue
  cancel_found none q = q
  cancel_found (some w) q = resume w.handle (invalidate w.awaiter q)

  pub cancel_and_resume_waiter : Option ℕ → TaskQueue → TaskQueue
  cancel_and_resume_waiter token q =
      cancel_found (find_waiter token q.waiting_workers)
        (record q { waiting_workers = remaining token q.waiting_workers })

  abbrev take_or_wait : ℕ → ℕ → Option ℕ → List TaskMessage → TaskQueue → TaskQueue
  take_or_wait handle a token [] q = record q {
    waiting_workers =
        q.waiting_workers ++ record { handle = handle; awaiter = some a; token = token } ∷ [];
  }
  take_or_wait handle a token (task ∷ tasks) q =
      resume handle (record q { tasks = tasks; results = put a task q.results })

  -- `await_suspend`. The second test, under the lock, reads what the first one read.
  pub await_suspend : ℕ → ℕ → Option ℕ → TaskQueue → TaskQueue
  await_suspend handle a token q =
      if q.is_shutdown || is_cancelled q.cancelled token
      then resume handle q
      else take_or_wait handle a token q.tasks q

  -- `co_await get_next_task(token)`, up to the point where the coroutine runs again.
  pub get_next_task : ℕ → ℕ → Option ℕ → TaskQueue → TaskQueue
  unfolding await_ready await_suspend
  get_next_task handle a token q =
      let (q', ready) = await_ready a token q in
      if ready then resume handle q' else await_suspend handle a token q'

  abbrev resume_first : List Waiter → TaskQueue → TaskQueue
  resume_first [] q = q
  resume_first (w ∷ ws) q = resume w.handle (record q { waiting_workers = ws })

  pub resume_waiting_session : TaskQueue → TaskQueue
  resume_waiting_session q = resume_first q.waiting_workers q
