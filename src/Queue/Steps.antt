-- ===== src/Queue/Steps.antt =====
-- message/TaskMessageQueue.cpp: every call keeps the queue valid.
use task_messenger.Common.{
  subst, sym, Unique-erase, Unique-put, ℕ, ◌≡◌, refl, ◌≢◌, ◌⊎◌, inl, inr, true, false, Option, none,
  some, List, [], ◌∷◌, ◌++◌, arith, lookup, put, Bool-cases, Option-cases, if_both,
}
use task_messenger.Message.{TaskMessage, empty_message}
use task_messenger.Queue.{
  Waiter, TaskQueue, is_cancelled, skip_cancelled, remaining, find_waiter, give, accept, add_locked,
  add_task, add_each, add_tasks, resume_all, shutdown, cancel_and_resume_waiter, cancel,
  drain_cancelled, await_resume, get_next_task,
}
use task_messenger.Queue.Loops.{add_task-add_locked}
use task_messenger.Queue.Valid.{
  accept-IsValid, Absent, Expected, IsValid, Expected-skip, Expected-put, Expected-erase,
  Expected-snoc, Expected-remaining, Expected-live, Expected-found, AllCancelled-raise,
  AllCancelled-live, AllCancelled-remaining, AllCancelled-skip,
}

-- A call on the queue, by a session or by the dispatcher.
pub data Call : Type 0 where
  adds : TaskMessage → Call
  adds_many : List TaskMessage → Call
  awaits : ℕ → ℕ → Option ℕ → Call
  picks_up : ℕ → Call
  cancels : ℕ → Call
  cancels_waiter : Option ℕ → Call
  drains shuts_down : Call

unfoldable pub step : (ℕ → TaskQueue → TaskQueue) → Call → TaskQueue → TaskQueue
step resume (adds task) q = add_task resume task q
step resume (adds_many tasks) q = add_tasks resume tasks q
step resume (awaits handle a token) q = get_next_task resume handle a token q
step resume (picks_up a) q = (await_resume a q).0
step resume (cancels token) q = cancel token q
step resume (cancels_waiter token) q = cancel_and_resume_waiter resume token q
step resume drains q = drain_cancelled q
step resume shuts_down q = shutdown resume q

-- An awaitable is a new object: it has no result, and nobody waits on it.
abbrev pub IsFresh : Call → TaskQueue → Type 0
IsFresh (awaits handle a token) q = (lookup a q.results ≡ none) × Absent a q.waiting_workers
IsFresh _ q = Unit {0}

-- What awaiting the next task comes to: an empty-handed return, a task, or a place in the line.
abbrev pub Awaited : (ℕ → TaskQueue → TaskQueue) → ℕ → ℕ → Option ℕ → TaskQueue → TaskQueue → Type 0
Awaited resume h a token q r =
    (((q.is_shutdown ≡ true) ⊎ (is_cancelled q.cancelled token ≡ true)) × (r ≡ resume h q))
    ⊎ ((task : TaskMessage) × (rest : List TaskMessage) × (q.tasks ≡ task ∷ rest)
        × (q.is_shutdown ≡ false)
        × (is_cancelled q.cancelled token ≡ false)
        × (r ≡ resume h (record q { tasks = rest; results = put a task q.results })))
    ⊎ ((q.tasks ≡ [])
        × (q.is_shutdown ≡ false)
        × (is_cancelled q.cancelled token ≡ false)
        × (r ≡ record q {
          waiting_workers =
              q.waiting_workers ++ record { handle = h; awaiter = some a; token = token } ∷ [];
        }))

module _ (resume : ℕ → TaskQueue → TaskQueue) where
  get_next_task_cases :
      (h a : ℕ) (token : Option ℕ) (q : TaskQueue) (xs : List TaskMessage)
      → q.tasks ≡ xs
      → Awaited resume h a token q (get_next_task resume h a token q)
  unfolding get_next_task
  get_next_task_cases h a token q [] e = ground arith
  get_next_task_cases h a token q (x ∷ xs) e = ground arith

  -- A worker that asks for a task comes back at once with none if the queue is shut down or its
  -- token is cancelled; else it takes the task at the front; else it waits behind the others.
  pub get_next_task-Awaited :
      (h a : ℕ) (token : Option ℕ) (q : TaskQueue)
      → Awaited resume h a token q (get_next_task resume h a token q)
  get_next_task-Awaited h a token q = get_next_task_cases h a token q q.tasks refl

remaining-IsValid :
    (token : Option ℕ) (q : TaskQueue)
    → IsValid q
    → IsValid (record q { waiting_workers = remaining token q.waiting_workers })
remaining-IsValid token q v = record {
  prompt = elim v.prompt [
    | inl e ↦ inl e
    | inr all ↦ inr (AllCancelled-remaining q.cancelled token q.waiting_workers all)
  ];
  expected = Expected-remaining q.results token q.waiting_workers v.expected;
  stopped = λ e. rw (v.stopped e);
  single = v.single;
}

-- A task has been put into the awaitable of the worker that asks.
pub fetched-IsValid :
    (a : ℕ) (task : TaskMessage) (rest : List TaskMessage) (q : TaskQueue)
    → Absent a q.waiting_workers
    → q.tasks ≡ task ∷ rest
    → IsValid q
    → IsValid (record q { tasks = rest; results = put a task q.results })
fetched-IsValid a task rest q away front v = record {
  prompt = inr (elim v.prompt [ inl empty ↦ absurd (cc) | inr all ↦ all ]);
  expected = Expected-put a task q.results q.waiting_workers away v.expected;
  stopped = v.stopped;
  single = Unique-put a task q.results v.single;
}

module _ (resume : ℕ → TaskQueue → TaskQueue)
    (keeps : (h : ℕ) (q : TaskQueue) → IsValid q → IsValid (resume h q)) where
  give-IsValid :
      (t : TaskMessage) (ws : List Waiter) (q : TaskQueue)
      → IsValid q
      → (q.is_shutdown ≡ true → ws ≡ [])
      → Expected q.results ws
      → (ws ≢ [] → q.tasks ≡ [])
      → IsValid (give resume t ws q)
  give-IsValid t [] q v s x n = record {
    prompt = inr tt;
    expected = tt;
    stopped = λ _. refl;
    single = v.single;
  }
  give-IsValid t (w ∷ ws) q v s x n =
      let (a, here, fresh, away) = x.0 in
      rw here (
        keeps w.handle _ (record {
          prompt = inl (n (λ e. cc));
          expected = Expected-put a t q.results ws away x.1;
          stopped = λ e. absurd (cc (s e));
          single = Unique-put a t q.results v.single;
        }))

  pub add_locked-IsValid :
      (t : TaskMessage) (q : TaskQueue) → IsValid q → IsValid (add_locked resume t q)
  add_locked-IsValid t q v =
      give-IsValid t (skip_cancelled q.cancelled q.waiting_workers) (accept t q)
        (accept-IsValid t q v) (λ e. rw (v.stopped e))
        (Expected-skip q.results q.cancelled q.waiting_workers v.expected)
        λ live. elim v.prompt [
          | inl e ↦ e
          | inr all ↦ absurd (live (AllCancelled-skip q.cancelled q.waiting_workers all))
        ]

  add_each-IsValid :
      (ts : List TaskMessage) (q : TaskQueue) → IsValid q → IsValid (add_each resume ts q)
  unfolding add_each
  add_each-IsValid [] q v = v
  add_each-IsValid (t ∷ ts) q v =
      add_each-IsValid ts (add_locked resume t q) (add_locked-IsValid t q v)

  resume_all-IsValid :
      (ws : List Waiter) (q : TaskQueue) → IsValid q → IsValid (resume_all resume ws q)
  unfolding resume_all
  resume_all-IsValid [] q v = v
  resume_all-IsValid (w ∷ ws) q v = elim (Bool-cases (is_cancelled q.cancelled w.token)) [
    | inl e ↦ rw e (resume_all-IsValid ws q v)
    | inr e ↦ rw e (resume_all-IsValid ws (resume w.handle q) (keeps w.handle q v))
  ]

  get_next_task-IsValid :
      (h a : ℕ) (token : Option ℕ) (q : TaskQueue)
      → IsFresh (awaits h a token) q
      → IsValid q
      → IsValid (get_next_task resume h a token q)
  get_next_task-IsValid h a token q f v = elim (get_next_task-Awaited resume h a token q) [
    | inl (_, e) ↦ rw e (keeps h q v)
    | inr (inl (task, rest, front, on, _, e)) ↦
        rw e (keeps h _ (fetched-IsValid a task rest q f.1 front v))
    | inr (inr (empty, on, _, e)) ↦ rw e (record {
      prompt = inl empty;
      expected = Expected-snoc q.results q.waiting_workers _ a refl f.0 f.1 v.expected;
      stopped = λ off. absurd (cc);
      single = v.single;
    })
  ]

  pub cancel_waiter-IsValid :
      (token : Option ℕ) (q : TaskQueue)
      → IsValid q
      → IsValid (cancel_and_resume_waiter resume token q)
  unfolding cancel_and_resume_waiter
  cancel_waiter-IsValid token q v = elim (Option-cases (find_waiter token q.waiting_workers)) [
    | inl e ↦ rw (e, cancel_and_resume_waiter) (remaining-IsValid token q v)
    | inr (w, e) ↦
        let (a, here, fresh, away) =
          Expected-found q.results token q.waiting_workers w v.expected e in
        let rest = remaining-IsValid token q v in
        rw (e, cancel_and_resume_waiter)
          (rw here (
            keeps w.handle _ (record {
              prompt = rest.prompt;
              expected =
                  Expected-put a empty_message q.results (remaining token q.waiting_workers) away
                    rest.expected;
              stopped = rest.stopped;
              single = Unique-put a empty_message q.results rest.single;
            })))
  ]

  -- Every call keeps the queue valid, if the coroutines do and a new awaitable is fresh: no task
  -- waits while a live worker does, each waiter has an awaitable of its own with no result yet, and
  -- nobody waits after a shutdown.
  pub step-IsValid :
      (c : Call) (q : TaskQueue) → IsFresh c q → IsValid q → IsValid (step resume c q)
  unfolding step add_tasks shutdown await_resume cancel drain_cancelled
  step-IsValid (adds task) q f v =
      subst (λ r. IsValid r) (sym (add_task-add_locked resume task q))
        (if_both IsValid q.is_shutdown _ _ v (add_locked-IsValid task q v))
  step-IsValid (adds_many tasks) q f v =
      if_both IsValid q.is_shutdown _ _ v (add_each-IsValid tasks q v)
  step-IsValid (awaits handle a token) q f v = get_next_task-IsValid handle a token q f v
  step-IsValid (picks_up a) q f v = record {
    prompt = v.prompt;
    expected = Expected-erase a q.results q.waiting_workers v.expected;
    stopped = v.stopped;
    single = Unique-erase a q.results v.single;
  }
  step-IsValid (cancels token) q f v = record {
    prompt = elim v.prompt [
      | inl e ↦ inl e
      | inr all ↦ inr (AllCancelled-raise token q.cancelled q.waiting_workers all)
    ];
    expected = v.expected;
    stopped = v.stopped;
    single = v.single;
  }
  step-IsValid (cancels_waiter token) q f v = cancel_waiter-IsValid token q v
  step-IsValid drains q f v = record {
    prompt = elim v.prompt [
      | inl e ↦ inl e
      | inr all ↦ inr (rw (AllCancelled-live q.cancelled q.waiting_workers all) tt)
    ];
    expected = Expected-live q.results q.cancelled q.waiting_workers v.expected;
    stopped = λ e. rw (v.stopped e);
    single = v.single;
  }
  step-IsValid shuts_down q f v = if_both IsValid q.is_shutdown _ _ v (
      resume_all-IsValid q.waiting_workers _
        (record { prompt = inr tt; expected = tt; stopped = λ _. refl; single = v.single }))
