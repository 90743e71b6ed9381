-- ===== src/Generator/Examples.antt =====
-- message/ResponseContext.hpp and generators/: the theorems at small batches.
use task_messenger.Common.{
  ℕ, ◌≡◌, ◌≢◌, refl, true, false, none, some, List, [], ◌∷◌, ◌++◌, All, arith, lookup,
}
use task_messenger.Message.{PayloadBuffer}
use task_messenger.Queue.{TaskQueue}
use task_messenger.Generator.{
  World, Source, Coroutine, Verification, new_source, TestTask, dispatch_tasks, complete,
  worker_loop, stop, is_finished, all_done,
}
use task_messenger.Generator.Ids.{Distinct}
use task_messenger.Generator.Dispatch.{ids_at, dispatch_tasks-Distinct}
use task_messenger.Generator.Answers.{process_all, stop_resumes}
use task_messenger.Generator.Reaches.{
  verification, answered, answer_reaches, complete_after_stop_strands,
}

abbrev later : ℕ → TaskQueue → TaskQueue
later h q = q

abbrev request : PayloadBuffer
request = record { bytes = 4 ∷ 5 ∷ []; skill_id = 7 }

abbrev two_tasks : List TestTask
two_tasks =
    record { skill = 7; request = some request; response = none }
    ∷ record { skill = 8; request = none; response = none }
    ∷ []

-- The counter is about to wrap around.
abbrev idle : World
idle = record {
  counter = 4_294_967_295;
  stopped = false;
  context = record { running = true; pending = []; thread_count = 1 };
  sources = [];
  coroutines = [];
  next_handle = 0;
  queue = record {
    tasks = [];
    waiting_workers = [];
    is_shutdown = false;
    cancelled = λ t. false;
    results = [];
    submitted = [];
    taken = [];
  };
  verified = [];
}

dispatch_tasks-Distinct_example :
    All
      (λ i. i ≢ 0)
      (ids_at
        (dispatch_tasks later true two_tasks idle).0
        (dispatch_tasks later true two_tasks idle).1)
    × Distinct (
        ids_at
          (dispatch_tasks later true two_tasks idle).0
          (dispatch_tasks later true two_tasks idle).1)
dispatch_tasks-Distinct_example =
    dispatch_tasks-Distinct later true two_tasks idle refl (omega arith) (omega arith)

abbrev waiting_source : ℕ → Source
waiting_source h = record new_source { awaiting_handle = some h; response_context = true }

abbrev waiting : ℕ → Coroutine
waiting id = record { task_id = id; skill_id = 7; request_copy = some request; is_done = false }

-- Coroutines 3 and 4 wait; the answer for 4 has been posted.
abbrev two_wait : World
two_wait = record idle {
  context = record { running = true; pending = 4 ∷ []; thread_count = 1 };
  sources = (3, waiting_source 3) ∷ (4, waiting_source 4) ∷ [];
  coroutines = (3, waiting 11) ∷ (4, waiting 12) ∷ [];
  next_handle = 5;
}

stop_resumes_example :
    stop 2 two_wait
    ≡ some (
        process_all (4 ∷ []) (record two_wait {
          context = record { running = false; pending = []; thread_count = 1 };
        }))
stop_resumes_example = stop_resumes 2 two_wait refl (omega arith)

answer_reaches_example :
    (w' : World) × (earlier : List Verification) × (worker_loop 3
        (complete 3 11 7 (5 ∷ 4 ∷ []) true two_wait)
      ≡ some (w', false))
    × (is_finished w' 3 ≡ true)
    × (w'.verified ≡ earlier ++ verification (waiting 11) request (5 ∷ 4 ∷ []) ∷ [])
answer_reaches_example =
    answer_reaches 3 3 7 (5 ∷ 4 ∷ []) (waiting_source 3) (waiting 11) request two_wait refl
      (refl, tt) refl refl refl refl refl refl (omega arith)

-- The same, with nothing posted before the context was stopped.
abbrev stopped : World
stopped = record two_wait { context = record { running = false; pending = []; thread_count = 1 } }

complete_after_stop_strands_example :
    (w' : World) × (worker_loop 1 (complete 3 11 7 [] true stopped) ≡ some (w', true))
    × (lookup 3 w'.sources ≡ some (answered 11 7 [] true (waiting_source 3)))
    × (all_done w' (3 ∷ []) ≡ false)
complete_after_stop_strands_example =
    complete_after_stop_strands 0 3 7 [] true (waiting_source 3) (waiting 11) stopped refl refl refl
      refl refl refl refl
