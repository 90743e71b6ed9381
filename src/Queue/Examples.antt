-- ===== src/Queue/Examples.antt =====
-- message/TaskMessageQueue.cpp: the theorems at a small queue.
use mathlib.Core.List.{foldl}
use task_messenger.Common.{ℕ, ◌≡◌, refl, inl, false, some, [], ◌∷◌, erase, put, ◌==◌, Unique-erase}
use task_messenger.Message.{TaskMessage, empty_message}
use task_messenger.Queue.{Waiter, TaskQueue, add_task, add_tasks, await_resume, find_waiter}
use task_messenger.Queue.Valid.{IsValid, Expected-erase}
use task_messenger.Queue.Steps.{adds, adds_many, step, step-IsValid}
use task_messenger.Queue.Conserve.{IsBalanced, step-IsBalanced, await_resume-IsBalanced}
use task_messenger.Queue.Service.{Service, withdraw, serve, seen, respond}
use task_messenger.Queue.Submit.{Cooperates}
use task_messenger.Queue.Refines.{respond-seen}
use task_messenger.Queue.Order.{add_task_serves, add_tasks-foldl}

abbrev task : ℕ → TaskMessage
task id = record empty_message { header = record { task_id = id; body_size = 0; skill_id = 1 } }

abbrev waiter : ℕ → Waiter
waiter n = record { handle = n; awaiter = some n; token = some n }

-- The coroutines only come back to the queue later.
abbrev later : ℕ → TaskQueue → TaskQueue
later h q = q

-- Worker 1 is cancelled; workers 2 and 3 wait.
abbrev waiting : TaskQueue
waiting = record {
  tasks = [];
  waiting_workers = waiter 1 ∷ waiter 2 ∷ waiter 3 ∷ [];
  is_shutdown = false;
  cancelled = λ t. t == 1;
  results = [];
  submitted = [];
  taken = [];
}

waiting-IsValid : IsValid waiting
waiting-IsValid = record {
  prompt = inl refl;
  expected = (
    (1, refl, refl, ((λ e. cc), ((λ e. cc), tt))),
    ((2, refl, refl, ((λ e. cc), tt)), ((3, refl, refl, tt), tt)),
  );
  stopped = λ e. absurd (cc);
  single = tt;
}

step-IsValid_example : IsValid (step later (adds (task 7)) waiting)
step-IsValid_example = step-IsValid later (λ h q v. v) (adds (task 7)) waiting tt waiting-IsValid

add_task_serves_example : add_task later (task 7) waiting ≡ record waiting {
  waiting_workers = waiter 3 ∷ [];
  results = put 2 (task 7) [];
  submitted = task 7 ∷ [];
}
add_task_serves_example =
    add_task_serves later (task 7) waiting (waiter 1 ∷ []) (waiter 3 ∷ []) (waiter 2) 2 refl refl
      (refl, tt) refl refl

add_tasks-foldl_example :
    add_tasks later (task 7 ∷ task 8 ∷ []) waiting
    ≡ foldl (λ r t. add_task later t r) waiting (task 7 ∷ task 8 ∷ [])
add_tasks-foldl_example = add_tasks-foldl later (λ h q. refl) (task 7 ∷ task 8 ∷ []) waiting

-- Each coroutine takes the task out of its awaitable.
abbrev collect : ℕ → TaskQueue → TaskQueue
collect h q = (await_resume h q).0

abbrev collected : ℕ → Service → Service
collected h s = record s { handed_over = erase h s.handed_over }

collect-IsValid : (h : ℕ) (q : TaskQueue) → IsValid q → IsValid (collect h q)
unfolding await_resume
collect-IsValid h q v = record {
  prompt = v.prompt;
  expected = Expected-erase h q.results q.waiting_workers v.expected;
  stopped = v.stopped;
  single = Unique-erase h q.results v.single;
}

abbrev ids : TaskMessage → ℕ
ids t = t.header.task_id

collect-IsBalanced :
    (h : ℕ) (q : TaskQueue) → IsValid q → IsBalanced ids q → IsBalanced ids (collect h q)
collect-IsBalanced h q v b =
    await_resume-IsBalanced ids (λ h r. r) (λ h r u. u) (λ h r u c. c) h q refl v b

step-IsBalanced_example : IsBalanced ids (step collect (adds_many (task 7 ∷ task 8 ∷ [])) waiting)
step-IsBalanced_example =
    step-IsBalanced ids collect collect-IsValid collect-IsBalanced
      (adds_many (task 7 ∷ task 8 ∷ [])) waiting refl tt waiting-IsValid refl

collect-Cooperates : Cooperates collect collected
unfolding await_resume
collect-Cooperates = record {
  keeps = collect-IsValid;
  quiet = λ h q. refl;
  lasting = λ h q t e. e;
  agrees = λ h q v. refl;
}

-- Worker 1, whose token is cancelled, is withdrawn.
respond-seen_example :
    seen (respond collect (withdraw 1) waiting)
    ≡ serve collected
        (λ t. find_waiter (some t) waiting.waiting_workers)
        (withdraw 1)
        (seen waiting)
respond-seen_example =
    respond-seen collect collected collect-Cooperates (withdraw 1) waiting refl waiting-IsValid
