-- ===== src/Generator.antt =====
-- message/ResponseContext.hpp, TaskCompletionSource.hpp and TaskSubmitAwaitable.hpp, and
-- generators/common: the coroutines that submit tasks and wait for their answers. A coroutine and
-- its completion source are made together and named by one number; a suspended coroutine is what
-- `process_single_task` still has to do.
pub mod Ids
pub mod Cases
pub mod Answers
pub mod Reaches
pub mod Dispatch
mod Examples
use task_messenger.Common.{
  ℕ, zero, suc, ◌+◌, ◌%◌, ◌^◌, Bool, true, false, not, ◌&&◌, Option, none, some, List, [], ◌∷◌,
  ◌++◌, if◌then◌else◌, lookup, put, ltb, length, keep, ◌==◌,
}
use task_messenger.Message.{PayloadBuffer, TaskMessage, Result, ok, throw, new_message, span}
use task_messenger.Queue.{TaskQueue, add_task}

-- `TaskCompletionSource`. Whether it has a response context is a flag: there is one context.
pub record Source : Type 0 where
  pub awaiting_handle : Option ℕ
  pub response_context : Bool
  pub response_task_id : ℕ
  pub response_skill_id : ℕ
  pub response_body : List ℕ
  pub completed : Bool
  pub success : Bool

-- `ResponseContext`: its handles wait in the order in which they were posted.
pub record Context : Type 0 where
  pub running : Bool
  pub pending : List ℕ
  pub thread_count : ℕ

-- A suspended or finished `process_single_task`.
pub record Coroutine : Type 0 where
  pub task_id : ℕ
  pub skill_id : ℕ
  pub request_copy : Option PayloadBuffer
  pub is_done : Bool

-- A call of `VerificationHelper::verify`.
pub record Verification : Type 0 where
  pub task_id : ℕ
  pub skill_id : ℕ
  pub request : List ℕ
  pub response : List ℕ

pub record World : Type 0 where
  pub counter : ℕ
  pub stopped : Bool
  pub context : Context
  pub sources : List (ℕ × Source)
  pub coroutines : List (ℕ × Coroutine)
  pub next_handle : ℕ
  pub queue : TaskQueue
  pub verified : List Verification

abbrev pub new_source : Source
new_source = record {
  awaiting_handle = none;
  response_context = false;
  response_task_id = 0;
  response_skill_id = 0;
  response_body = [];
  completed = false;
  success = false;
}

-- `fetch_add` on a uint32_t.
abbrev pub wrap : ℕ → ℕ
wrap n = n % 2 ^ 32

-- `get_next_id`: the counter afterwards, and the id.
unfoldable pub get_next_id : ℕ → ℕ × ℕ
get_next_id counter =
    let next = wrap (counter + 1) in
    if counter == 0 then (wrap (next + 1), next) else (next, counter)

-- `ResponseContext::start`.
pub start : ℕ → Context → Context
start threads c =
    if c.running
    then c
    else record c { running = true; thread_count = if threads == 0 then 1 else threads }

pub post : ℕ → Context → Context
post handle c = if c.running then record c { pending = c.pending ++ handle ∷ [] } else c

-- The rest of `process_single_task` once the answer is there.
abbrev pub check_answer : Option Source → Coroutine → List Verification
check_answer none c = []
check_answer (some source) c = elim c.request_copy [
  | none ↦ []
  | some request ↦
      if source.success
      then record {
        task_id = c.task_id;
        skill_id = c.skill_id;
        request = request.bytes;
        response = source.response_body;
      }
        ∷ []
      else []
]

abbrev pub finish_coroutine : ℕ → Option Coroutine → World → World
finish_coroutine handle none w = w
finish_coroutine handle (some c) w = if c.is_done then w else record w {
  coroutines = put handle (record c { is_done = true }) w.coroutines;
  verified = w.verified ++ check_answer (lookup handle w.sources) c;
}

-- `process_handle`: a handle that is done is left alone.
pub process_handle : ℕ → World → World
process_handle handle w = finish_coroutine handle (lookup handle w.coroutines) w

-- One turn of `worker_loop`: a handle is taken, or the worker waits, or it ends.
pub data Turn : Type 0 where
  takes : ℕ → List ℕ → Turn
  waits ends : Turn

abbrev pub worker_turn : Bool → List ℕ → Turn
worker_turn running [] = if running then waits else ends
worker_turn running (handle ∷ rest) = takes handle rest

-- `worker_loop`, until it waits or ends: whether it has ended.
pub worker_loop : ℕ → World → Option (World × Bool)
worker_loop zero w = none
worker_loop (suc fuel) w = elim (worker_turn w.context.running w.context.pending) [
  | waits ↦ some (w, false)
  | ends ↦ some (w, true)
  | takes handle rest ↦
      worker_loop fuel
        (process_handle handle (record w { context = record (w.context) { pending = rest } }))
]

-- `ResponseContext::stop`: the workers are joined, so each runs to its end.
pub stop : ℕ → World → Option World
stop fuel w =
    if w.context.running
    then elim (worker_loop fuel (record w { context = record (w.context) { running = false } })) [
      | none ↦ none
      | some (w', ended) ↦ some w'
    ]
    else some w

abbrev pub notify : Bool → Option ℕ → World → World
notify in_context none w = w
notify true (some handle) w = record w { context = post handle w.context }
notify false (some handle) w = process_handle handle w

-- `TaskCompletionSource::complete`.
abbrev pub complete_source : ℕ → ℕ → ℕ → List ℕ → Bool → Source → World → World
complete_source a task_id skill_id body success source w =
    notify source.response_context source.awaiting_handle (record w {
      sources =
          put a
            (record source {
              response_task_id = task_id;
              response_skill_id = skill_id;
              response_body = body;
              success = success;
              completed = true;
            })
            w.sources;
    })

abbrev pub complete_found : ℕ → ℕ → ℕ → List ℕ → Bool → Option Source → World → World
complete_found a task_id skill_id body success none w = w
complete_found a task_id skill_id body success (some source) w =
    complete_source a task_id skill_id body success source w

pub complete : ℕ → ℕ → ℕ → List ℕ → Bool → World → World
complete a task_id skill_id body success w =
    complete_found a task_id skill_id body success (lookup a w.sources) w

-- What a test case gives the generator.
pub record TestTask : Type 0 where
  pub skill : ℕ
  pub request : Option PayloadBuffer
  pub response : Option PayloadBuffer

-- What `resume()` of a session does to the queue.
module _ (resume : ℕ → TaskQueue → TaskQueue) where
  -- The end of `TaskSubmitAwaitable::await_suspend`: a message that cannot be made is an exception
  -- that the coroutine swallows, and it ends.
  abbrev pub send : ℕ → Coroutine → Result TaskMessage → World → World
  send handle c (throw e) w = record w {
    coroutines = put handle (record c { is_done = true }) w.coroutines;
  }
  send handle c (ok task) w = record w {
    coroutines = put handle c w.coroutines;
    sources =
        put handle (record new_source { awaiting_handle = some handle; response_context = true })
          w.sources;
    queue = add_task resume (record task { completion_source = some handle }) w.queue;
  }

  -- `process_single_task`, up to where it waits for the answer.
  pub process_single_task :
      ℕ → ℕ → Option PayloadBuffer → Option PayloadBuffer → Option PayloadBuffer → World → World
  process_single_task id skill request response request_copy w =
      send w.next_handle
        (record { task_id = id; skill_id = skill; request_copy = request_copy; is_done = false })
        (new_message id request response) (record w { next_handle = suc w.next_handle })

  abbrev pub launch : Bool → TestTask → World → World
  launch verifying task w =
      let (counter, id) = get_next_id w.counter in
      process_single_task id task.skill task.request task.response
        (if verifying then task.request else none) (record w { counter = counter })

  -- The loop of `dispatch_tasks`: the handles of the coroutines it makes.
  pub dispatch_tasks : Bool → List TestTask → World → World × List ℕ
  dispatch_tasks verifying [] w = (w, [])
  dispatch_tasks verifying (task ∷ tasks) w =
      let (w', handles) = dispatch_tasks verifying tasks (launch verifying task w) in
      if w.stopped then (w, []) else (w', w.next_handle ∷ handles)

abbrev pub done : Option Coroutine → Bool
done none = true
done (some c) = c.is_done

-- `GeneratorCoroutine::done`.
abbrev pub is_finished : World → ℕ → Bool
is_finished w handle = done (lookup handle w.coroutines)

pub all_done : World → List ℕ → Bool
all_done w [] = true
all_done w (handle ∷ handles) = if is_finished w handle then all_done w handles else false
