-- ===== src/Queue/Order.antt =====
-- message/TaskMessageQueue.cpp: who gets a task, who is woken, and in which order.
use mathlib.Core.List.{foldl}
use task_messenger.Common.{
  sym, ℕ, ◌≡◌, refl, ap, ◌∙◌, inl, inr, Bool, true, false, Option, none, some, List, [], ◌∷◌, ◌++◌,
  arith, choose, put, Bool-cases, All, same_pointer, ==_refl,
}
use task_messenger.Message.{TaskMessage, empty_message}
use task_messenger.Queue.{
  Waiter, TaskQueue, is_cancelled, skip_cancelled, keep_live, remaining, find_waiter, give, fill,
  accept, add_locked, add_task, add_each, add_tasks, resume_all, shutdown, cancel_and_resume_waiter,
  await_resume,
}
use task_messenger.Queue.Loops.{add_task-add_locked}
use task_messenger.Queue.Valid.{AllCancelled}

skip_dead :
    (c : ℕ → Bool) (dead : List Waiter) (w : Waiter) (rest : List Waiter)
    → AllCancelled c dead
    → is_cancelled c w.token ≡ false
    → skip_cancelled c (dead ++ w ∷ rest) ≡ w ∷ rest
skip_dead c [] w rest d l = rw l
skip_dead c (v ∷ dead) w rest d l = rw d.0 (skip_dead c dead w rest d.1 l)

abbrev Lacks : Option ℕ → List Waiter → Type 0
Lacks t ws = All (λ w. same_pointer w.token t ≡ false) ws

find_after :
    (t : Option ℕ) (before : List Waiter) (w : Waiter) (after : List Waiter)
    → Lacks t before
    → same_pointer w.token t ≡ true
    → (find_waiter t (before ++ w ∷ after) ≡ some w)
      × (remaining t (before ++ w ∷ after) ≡ before ++ after)
find_after t [] w after n e = rw e (refl, refl)
find_after t (v ∷ before) w after n e =
    let (found, left) = find_after t before w after n.1 e in rw n.0 (found, ap (◌∷◌ v) left)

find_none :
    (t : Option ℕ) (ws : List Waiter)
    → Lacks t ws
    → (find_waiter t ws ≡ none) × (remaining t ws ≡ ws)
find_none t [] n = (refl, refl)
find_none t (w ∷ ws) n = let (found, left) = find_none t ws n.1 in rw n.0 (found, ap (◌∷◌ w) left)

fill_quiet :
    (o : Option ℕ) (task : TaskMessage) (q : TaskQueue)
    → (fill o task q).is_shutdown ≡ q.is_shutdown
fill_quiet none task q = refl
fill_quiet (some a) task q = refl

module _ (resume : ℕ → TaskQueue → TaskQueue) where
  pub add_task_on :
      (task : TaskMessage) (q : TaskQueue)
      → q.is_shutdown ≡ false
      → add_task resume task q ≡ add_locked resume task q
  add_task_on task q on =
      add_task-add_locked resume task q ∙ choose q.is_shutdown q (add_locked resume task q) on

  pub add_task_off :
      (task : TaskMessage) (q : TaskQueue) → q.is_shutdown ≡ true → add_task resume task q ≡ q
  unfolding add_task
  add_task_off task q off = simp off

  -- A task goes to the first waiter whose token is not cancelled: its awaitable gets the task, it
  -- is resumed, the cancelled waiters before it are dropped, and those behind it stay.
  pub add_task_serves :
      (task : TaskMessage) (q : TaskQueue) (dead rest : List Waiter) (w : Waiter) (a : ℕ)
      → q.is_shutdown ≡ false
      → q.waiting_workers ≡ dead ++ w ∷ rest
      → AllCancelled q.cancelled dead
      → is_cancelled q.cancelled w.token ≡ false
      → w.awaiter ≡ some a
      → add_task resume task q
        ≡ resume w.handle (record q {
          waiting_workers = rest;
          results = put a task q.results;
          submitted = task ∷ q.submitted;
        })
  add_task_serves task q dead rest w a on line d l here =
      add_task_on task q on ∙ ground (arith, skip_dead q.cancelled dead w rest d l)

  module _ (quiet : (h : ℕ) (q : TaskQueue) → (resume h q).is_shutdown ≡ q.is_shutdown) where
    pub give_quiet :
        (task : TaskMessage) (ws : List Waiter) (q : TaskQueue)
        → (give resume task ws q).is_shutdown ≡ q.is_shutdown
    give_quiet task [] q = refl
    give_quiet task (w ∷ ws) q = quiet w.handle _ ∙ fill_quiet w.awaiter task _

    add_each-foldl :
        (tasks : List TaskMessage) (q : TaskQueue)
        → q.is_shutdown ≡ false
        → add_each resume tasks q ≡ foldl (λ r task. add_task resume task r) q tasks
    unfolding add_each
    add_each-foldl [] q on = refl
    add_each-foldl (task ∷ tasks) q on = rw (add_task_on task q on) (
        add_each-foldl tasks (add_locked resume task q)
          (give_quiet task (skip_cancelled q.cancelled q.waiting_workers) (accept task q) ∙ on))

    foldl_off :
        (tasks : List TaskMessage) (q : TaskQueue)
        → q.is_shutdown ≡ true
        → foldl (λ r task. add_task resume task r) q tasks ≡ q
    foldl_off [] q off = refl
    foldl_off (task ∷ tasks) q off =
        ap (λ r. foldl (λ r task. add_task resume task r) r tasks) (add_task_off task q off)
        ∙ foldl_off tasks q off

    -- A batch is the same as its tasks one by one, where the coroutines that it wakes do not shut
    -- the queue down; a queue that is shut down takes neither.
    pub add_tasks-foldl :
        (tasks : List TaskMessage) (q : TaskQueue)
        → add_tasks resume tasks q ≡ foldl (λ r task. add_task resume task r) q tasks
    unfolding add_tasks
    add_tasks-foldl tasks q = elim (Bool-cases q.is_shutdown) [
      | inl off ↦ simp off (sym (foldl_off tasks q off))
      | inr on ↦ choose q.is_shutdown _ _ on ∙ add_each-foldl tasks q on
    ]

  -- The waiter that is cancelled is the first with the token. It leaves the line, the others keep
  -- their order, and it is resumed with the invalid task.
  pub cancel_waiter_resumes :
      (token : ℕ) (q : TaskQueue) (before after : List Waiter) (w : Waiter) (a : ℕ)
      → q.waiting_workers ≡ before ++ w ∷ after
      → Lacks (some token) before
      → w.token ≡ some token
      → w.awaiter ≡ some a
      → (q' : TaskQueue) × (cancel_and_resume_waiter resume (some token) q ≡ resume w.handle q')
        × (q'.waiting_workers ≡ before ++ after)
        × (q'.tasks ≡ q.tasks)
        × ((await_resume a q').1 ≡ empty_message)
  unfolding cancel_and_resume_waiter await_resume
  cancel_waiter_resumes token q before after w a line n mine here =
      let (found, left) = find_after (some token) before w after n (rw mine (==_refl token)) in
      (
        record q { waiting_workers = before ++ after; results = put a empty_message q.results },
        ground (arith, found, left),
        refl,
        refl,
        rw (==_refl a, await_resume),
      )

  -- Where no waiter has the token, nothing happens and nobody is resumed.
  pub cancel_waiter_absent :
      (token : Option ℕ) (q : TaskQueue)
      → Lacks token q.waiting_workers
      → cancel_and_resume_waiter resume token q ≡ q
  unfolding cancel_and_resume_waiter
  cancel_waiter_absent token q n =
      let (found, left) = find_none token q.waiting_workers n in ground (arith, found, left)

  resume_all-live :
      ((h : ℕ) (q : TaskQueue) → (resume h q).cancelled ≡ q.cancelled)
      → (c : ℕ → Bool) (ws : List Waiter) (q : TaskQueue) → q.cancelled ≡ c
      → resume_all resume ws q ≡ foldl (λ r (w : Waiter). resume w.handle r) q (keep_live c ws)
  unfolding resume_all
  resume_all-live same c [] q e = refl
  resume_all-live same c (w ∷ ws) q e = elim (Bool-cases (is_cancelled c w.token)) [
    | inl d ↦ simp (e, d) (resume_all-live same c ws q e)
    | inr d ↦ simp (e, d) (resume_all-live same c ws (resume w.handle q) (same w.handle q ∙ e))
  ]

  -- A shutdown wakes each waiter whose token is not cancelled, in the order in which they wait,
  -- and no other, where the coroutines cancel no token.
  pub shutdown_wakes :
      (q : TaskQueue)
      → ((h : ℕ) (r : TaskQueue) → (resume h r).cancelled ≡ r.cancelled)
      → q.is_shutdown ≡ false
      → shutdown resume q
        ≡ foldl
            (λ r (w : Waiter). resume w.handle r)
            (record q { is_shutdown = true; waiting_workers = [] })
            (keep_live q.cancelled q.waiting_workers)
  unfolding shutdown
  shutdown_wakes q same on = simp on (resume_all-live same q.cancelled q.waiting_workers _ refl)
