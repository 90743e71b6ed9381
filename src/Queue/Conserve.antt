-- ===== src/Queue/Conserve.antt =====
-- message/TaskMessageQueue.cpp: no call loses a task or makes one up.
use task_messenger.Common.{
  subst, sym, if_both, ℕ, ◌+◌, ◌≡◌, refl, ap, inl, inr, true, Option, List, [], ◌∷◌, arith, lookup,
  values, weigh, weigh-append, weigh-put_absent, weigh-erase, erase_absent, Bool-cases,
  Option-cases,
}
use task_messenger.Message.{TaskMessage, empty_message}
use task_messenger.Queue.{
  Waiter, TaskQueue, accept, remaining, cancel_found, is_cancelled, skip_cancelled, find_waiter,
  give, add_locked, add_each, add_tasks, resume_all, shutdown, cancel_and_resume_waiter, cancel,
  drain_cancelled, await_resume, get_next_task,
}
use task_messenger.Queue.Loops.{add_task-add_locked}
use task_messenger.Queue.Valid.{IsValid, Expected, Expected-skip, Expected-found}
use task_messenger.Queue.Steps.{
  Call, adds, adds_many, awaits, picks_up, cancels, cancels_waiter, drains, shuts_down, step,
  IsFresh, get_next_task-Awaited, add_locked-IsValid, fetched-IsValid, cancel_waiter-IsValid,
}

-- The tasks that the queue holds, those that wait in an awaitable for their session, and those
-- that have gone to a session: the sum of `f` over all of them.
abbrev pub content : (TaskMessage → ℕ) → TaskQueue → ℕ
content f q = weigh f q.tasks + weigh f (values q.results) + weigh f q.taken

-- What was accepted is what is held, waits or has gone.
abbrev pub IsBalanced : (TaskMessage → ℕ) → TaskQueue → Type 0
IsBalanced f q = content f q ≡ weigh f q.submitted

module _ (f : TaskMessage → ℕ) (resume : ℕ → TaskQueue → TaskQueue)
    (keeps : (h : ℕ) (q : TaskQueue) → IsValid q → IsValid (resume h q))
    (balances : (h : ℕ) (q : TaskQueue)
      → IsValid q
      → IsBalanced f q
      → IsBalanced f (resume h q)) where
  give-IsBalanced :
      (t : TaskMessage) (ws : List Waiter) (q : TaskQueue)
      → Expected q.results ws
      → IsValid (give (λ h r. r) t ws q)
      → f t + content f q ≡ weigh f q.submitted
      → IsBalanced f (give resume t ws q)
  give-IsBalanced t [] q x v b = omega (arith, weigh-append f q.tasks (t ∷ []), b)
  give-IsBalanced t (w ∷ ws) q x v b =
      let (a, here, fresh, away) = x.0 in
      balances w.handle _ v (rw here (omega (arith, weigh-put_absent f a t q.results fresh, b)))

  add_locked-IsBalanced :
      (t : TaskMessage) (q : TaskQueue)
      → IsValid q
      → IsBalanced f q
      → IsBalanced f (add_locked resume t q)
  add_locked-IsBalanced t q v b =
      give-IsBalanced t (skip_cancelled q.cancelled q.waiting_workers) (accept t q)
        (Expected-skip q.results q.cancelled q.waiting_workers v.expected)
        (add_locked-IsValid (λ h r. r) (λ h r u. u) t q v) (omega (arith, b))

  add_each-IsBalanced :
      (ts : List TaskMessage) (q : TaskQueue)
      → IsValid q
      → IsBalanced f q
      → IsBalanced f (add_each resume ts q)
  unfolding add_each
  add_each-IsBalanced [] q v b = b
  add_each-IsBalanced (t ∷ ts) q v b =
      add_each-IsBalanced ts (add_locked resume t q) (add_locked-IsValid resume keeps t q v)
        (add_locked-IsBalanced t q v b)

  resume_all-IsBalanced :
      (ws : List Waiter) (q : TaskQueue)
      → IsValid q
      → IsBalanced f q
      → IsBalanced f (resume_all resume ws q)
  unfolding resume_all
  resume_all-IsBalanced [] q v b = b
  resume_all-IsBalanced (w ∷ ws) q v b = elim (Bool-cases (is_cancelled q.cancelled w.token)) [
    | inl e ↦ rw (e, resume_all) (resume_all-IsBalanced ws q v b)
    | inr e ↦
        rw (e, resume_all)
          (resume_all-IsBalanced ws (resume w.handle q) (keeps w.handle q v)
            (balances w.handle q v b))
  ]

  get_next_task-IsBalanced :
      (h a : ℕ) (token : Option ℕ) (q : TaskQueue)
      → IsFresh (awaits h a token) q
      → IsValid q
      → IsBalanced f q
      → IsBalanced f (get_next_task resume h a token q)
  get_next_task-IsBalanced h a token q n v b = elim (get_next_task-Awaited resume h a token q) [
    | inl (_, e) ↦ rw e (balances h q v b)
    | inr (inl (task, rest, front, _, _, e)) ↦ rw e (
        balances h _ (fetched-IsValid a task rest q n.1 front v)
          (omega (arith, ap (weigh f) front, weigh-put_absent f a task q.results n.0, b)))
    | inr (inr (_, _, _, e)) ↦ rw e b
  ]

  -- The queue of a call of `cancel_and_resume_waiter`, without the waiter.
  abbrev without : Option ℕ → TaskQueue → TaskQueue
  without token q = record q { waiting_workers = remaining token q.waiting_workers }

  cancel_waiter-IsBalanced :
      (token : Option ℕ) (q : TaskQueue)
      → f empty_message ≡ 0
      → IsValid q
      → IsBalanced f q
      → IsBalanced f (cancel_and_resume_waiter resume token q)
  unfolding cancel_and_resume_waiter
  cancel_waiter-IsBalanced token q z v b =
      let valid = cancel_waiter-IsValid (λ h r. r) (λ h r u. u) token q v in
      elim (Option-cases (find_waiter token q.waiting_workers)) [
        | inl e ↦ rw (e, cancel_and_resume_waiter) b
        | inr (w, e) ↦
            let (a, here, fresh, away) =
              Expected-found q.results token q.waiting_workers w v.expected e in
            rw (e, cancel_and_resume_waiter)
              (balances w.handle _
                (subst (λ o. IsValid (cancel_found (λ h r. r) o (without token q))) e valid)
                (rw here (omega (arith, weigh-put_absent f a empty_message q.results fresh, z, b))))
      ]

  pub await_resume-IsBalanced :
      (a : ℕ) (q : TaskQueue)
      → f empty_message ≡ 0
      → IsValid q
      → IsBalanced f q
      → IsBalanced f (await_resume a q).0
  unfolding await_resume
  await_resume-IsBalanced a q z v b = elim (Option-cases (lookup a q.results)) [
    | inl e ↦
        rw (e, await_resume)
          (omega (arith, z, b, ap (λ m. weigh f (values m)) (erase_absent a q.results e)))
    | inr (t, e) ↦ rw (e, await_resume) (omega (arith, b, weigh-erase f a t q.results v.single e))
  ]

  -- After every call, what the queue and the awaitables hold and what has gone to the sessions is
  -- again what was accepted: no task is lost, doubled or made up. What coroutines do when they are
  -- resumed is to keep the queue valid and this balance, as every call on the queue does; the sums
  -- are of any measure of tasks that does not count the empty one.
  pub step-IsBalanced :
      (c : Call) (q : TaskQueue)
      → f empty_message ≡ 0
      → IsFresh c q
      → IsValid q
      → IsBalanced f q
      → IsBalanced f (step resume c q)
  unfolding step add_tasks shutdown cancel drain_cancelled
  step-IsBalanced (adds task) q z n v b =
      subst (IsBalanced f) (sym (add_task-add_locked resume task q))
        (if_both (IsBalanced f) q.is_shutdown _ _ b (add_locked-IsBalanced task q v b))
  step-IsBalanced (adds_many tasks) q z n v b =
      if_both (IsBalanced f) q.is_shutdown _ _ b (add_each-IsBalanced tasks q v b)
  step-IsBalanced (awaits h a token) q z n v b = get_next_task-IsBalanced h a token q n v b
  step-IsBalanced (picks_up a) q z n v b = await_resume-IsBalanced a q z v b
  step-IsBalanced (cancels token) q z n v b = b
  step-IsBalanced (cancels_waiter token) q z n v b = cancel_waiter-IsBalanced token q z v b
  step-IsBalanced drains q z n v b = b
  step-IsBalanced shuts_down q z n v b = if_both (IsBalanced f) q.is_shutdown _ _ b (
      resume_all-IsBalanced q.waiting_workers
        (record q { is_shutdown = true; waiting_workers = [] })
        (record { prompt = inr tt; expected = tt; stopped = λ _. refl; single = v.single }) b)
