-- ===== src/Queue/Loops.antt =====
-- message/TaskMessageQueue.cpp: the loop of `add_task` and the body of that of `add_tasks`.
use task_messenger.Common.{◌≡◌, refl, ap, inl, inr, List, [], ◌∷◌, Bool-cases, if◌then◌else◌, ℕ}
use task_messenger.Message.{TaskMessage}
use task_messenger.Queue.{
  Waiter, TaskQueue, is_cancelled, skip_cancelled, give, hand_out, accept, add_locked, add_task,
}

module _ (resume : ℕ → TaskQueue → TaskQueue) where
  hand_out-give :
      (task : TaskMessage) (ws : List Waiter) (q : TaskQueue)
      → hand_out resume task ws q ≡ give resume task (skip_cancelled q.cancelled ws) q
  hand_out-give task [] q = refl
  hand_out-give task (w ∷ ws) q = elim (Bool-cases (is_cancelled q.cancelled w.token)) [
    | inl e ↦ rw e (hand_out-give task ws q)
    | inr e ↦ rw e refl
  ]

  -- One task is added as by a batch of one.
  pub add_task-add_locked :
      (task : TaskMessage) (q : TaskQueue)
      → add_task resume task q ≡ (if q.is_shutdown then q else add_locked resume task q)
  unfolding add_task
  add_task-add_locked task q =
      ap (λ r. if q.is_shutdown then q else r)
        (hand_out-give task q.waiting_workers (accept task q))
