-- ===== src/Queue/Refines.antt =====
-- message/TaskMessageQueue.cpp: the queue implements the service of Queue/Service.
use task_messenger.Common.{
  ℕ, ◌≡◌, refl, sym, subst, ◌∙◌, ap, ◌≢◌, inl, inr, Bool, true, false, Option, none, some, List, [],
  ◌∷◌, Bool-cases, Option-cases, if◌then◌else◌,
}
use task_messenger.Message.{TaskMessage, empty_message}
use task_messenger.Queue.{
  Waiter, TaskQueue, is_cancelled, keep_live, find_waiter, remaining, resume_all, await_resume,
  cancel_and_resume_waiter, cancel_found, drain_cancelled, shutdown,
}
use task_messenger.Queue.Valid.{IsValid, Expected-found}
use task_messenger.Queue.Steps.{step, cancels_waiter, step-IsValid}
use task_messenger.Queue.Service.{
  Line, closed, Service, hand, Request, submit, submit_all, request_task, pick_up, withdraw, revoke,
  tidy, close, wake_each, close_line, leave, serve, seen_line, seen, respond,
}
use task_messenger.Queue.View.{live_twice, live_struck, seen-closed, live_empty, seen-cancel}
use task_messenger.Queue.Submit.{Cooperates, IsTimely, submit-seen, submit_all-seen, ask-seen}

is_cancelled_still :
    (o : Option ℕ) (c d : ℕ → Bool)
    → ((t : ℕ) → c t ≡ true → d t ≡ true)
    → is_cancelled c o ≡ true
    → is_cancelled d o ≡ true
is_cancelled_still none c d still e = e
is_cancelled_still (some t) c d still e = still t e

module _ (resume : ℕ → TaskQueue → TaskQueue) (served : ℕ → Service → Service)
    (co : Cooperates resume served) where
  resume_all-cons :
      (b : Bool) (w : Waiter) (ws : List Waiter) (r : TaskQueue)
      → is_cancelled r.cancelled w.token ≡ b
      → resume_all resume (w ∷ ws) r ≡ resume_all resume ws (if b then r else resume w.handle r)
  unfolding resume_all
  resume_all-cons b w ws r e = ap (λ x. resume_all resume ws (if x then r else resume w.handle r)) e

  wake_each-cons :
      (b : Bool) (w : Waiter) (ws : List Waiter) (s : Service)
      → is_cancelled s.revoked w.token ≡ b
      → wake_each served (w ∷ ws) s ≡ wake_each served ws (if b then s else served w.handle s)
  wake_each-cons b w ws s e = ap (λ x. wake_each served ws (if x then s else served w.handle s)) e

  keep_live-cons :
      (b : Bool) (w : Waiter) (ws : List Waiter) (c : ℕ → Bool)
      → is_cancelled c w.token ≡ b
      → keep_live c (w ∷ ws) ≡ (if b then keep_live c ws else w ∷ keep_live c ws)
  keep_live-cons b w ws c e = ap (λ x. if x then keep_live c ws else w ∷ keep_live c ws) e

  resume_all-seen :
      (ws : List Waiter) (c : ℕ → Bool) (r : TaskQueue)
      → IsValid r
      → ((t : ℕ) → c t ≡ true → r.cancelled t ≡ true)
      → seen (resume_all resume ws r) ≡ wake_each served (keep_live c ws) (seen r)
  unfolding resume_all
  resume_all-seen [] c r v still = refl
  resume_all-seen (w ∷ ws) c r v still = elim (Bool-cases (is_cancelled c w.token)) [
    | inl d ↦
        ap seen (resume_all-cons true w ws r (is_cancelled_still w.token c r.cancelled still d))
        ∙ resume_all-seen ws c r v still
        ∙ sym (ap (λ l. wake_each served l (seen r)) (keep_live-cons true w ws c d))
    | inr d ↦ elim (Bool-cases (is_cancelled r.cancelled w.token)) [
      | inl gone ↦
          ap seen (resume_all-cons true w ws r gone)
          ∙ resume_all-seen ws c r v still
          ∙ sym (wake_each-cons true w (keep_live c ws) (seen r) gone)
          ∙ sym (ap (λ l. wake_each served l (seen r)) (keep_live-cons false w ws c d))
      | inr live ↦
          ap seen (resume_all-cons false w ws r live)
          ∙ resume_all-seen ws c (resume w.handle r) (co.keeps w.handle r v)
              (λ t e. co.lasting w.handle r t (still t e))
          ∙ ap (wake_each served (keep_live c ws)) (co.agrees w.handle r v)
          ∙ sym (wake_each-cons false w (keep_live c ws) (seen r) live)
          ∙ sym (ap (λ l. wake_each served l (seen r)) (keep_live-cons false w ws c d))
    ]
  ]

  close_line-cases :
      (l : Line) (tasks : List TaskMessage) (ws : List Waiter) (s : Service)
      → (ws ≢ [] → tasks ≡ [])
      → l ≡ seen_line false tasks ws
      → close_line served l s ≡ wake_each served ws (record s { line = closed tasks })
  close_line-cases l tasks [] s n e = rw e refl
  close_line-cases l tasks (w ∷ ws) s n e = rw (e, n (λ p. cc)) refl

  shutdown_on :
      (q : TaskQueue)
      → q.is_shutdown ≡ false
      → shutdown resume q
        ≡ resume_all resume q.waiting_workers
            (record q { is_shutdown = true; waiting_workers = [] })
  unfolding shutdown
  shutdown_on q on = simp on

  shutdown_off : (q : TaskQueue) → q.is_shutdown ≡ true → shutdown resume q ≡ q
  unfolding shutdown
  shutdown_off q off = simp off

  close_line-closed :
      (l : Line) (tasks : List TaskMessage) (s : Service)
      → l ≡ closed tasks
      → close_line served l s ≡ s
  close_line-closed l tasks s e = rw e refl

  close-seen :
      (q : TaskQueue)
      → IsValid q
      → seen (shutdown resume q) ≡ close_line served (seen q).line (seen q)
  close-seen q v = elim (Bool-cases q.is_shutdown) [
    | inl off ↦
        ap seen (shutdown_off q off)
        ∙ sym (close_line-closed _ q.tasks (seen q) (seen-closed q off))
    | inr on ↦
        ap seen (shutdown_on q on)
        ∙ resume_all-seen q.waiting_workers q.cancelled _
            (record { prompt = inr tt; expected = tt; stopped = λ _. refl; single = v.single })
            (λ t e. e)
        ∙ sym (
            close_line-cases _ q.tasks (keep_live q.cancelled q.waiting_workers) (seen q)
              (live_empty q v on)
              (ap (λ b. seen_line b q.tasks (keep_live q.cancelled q.waiting_workers)) on))
  ]

  -- The queue without the first waiter of a token.
  abbrev without : ℕ → TaskQueue → TaskQueue
  without t q = record q { waiting_workers = remaining (some t) q.waiting_workers }

  without-seen : (t : ℕ) (q : TaskQueue) → q.cancelled t ≡ true → seen (without t q) ≡ seen q
  without-seen t q e = rw (live_struck t q.cancelled q.waiting_workers e) refl

  found-seen :
      (t : ℕ) (q : TaskQueue) (w : Waiter) (a : ℕ)
      → w.awaiter ≡ some a
      → IsValid (cancel_found (λ h r. r) (some w) (without t q))
      → q.cancelled t ≡ true
      → seen (cancel_found resume (some w) (without t q)) ≡ leave served (some w) (seen q)
  found-seen t q w a here valid e =
      co.agrees w.handle _ valid
      ∙ ap (served w.handle)
          (rw here (ap (λ s. hand (some a) empty_message s) (without-seen t q e)))

  withdraw-seen :
      (t : ℕ) (q : TaskQueue)
      → IsValid q
      → q.cancelled t ≡ true
      → seen (cancel_and_resume_waiter resume (some t) q)
        ≡ leave served (find_waiter (some t) q.waiting_workers) (seen q)
  unfolding cancel_and_resume_waiter step
  withdraw-seen t q v gone =
      let valid = step-IsValid (λ h r. r) (λ h r x. x) (cancels_waiter (some t)) q tt v in
      elim (Option-cases (find_waiter (some t) q.waiting_workers)) [
        | inl e ↦
            ap (λ o. seen (cancel_found resume o (without t q))) e
            ∙ without-seen t q gone
            ∙ sym (ap (λ o. leave served o (seen q)) e)
        | inr (w, e) ↦
            let (a, here, _, _) =
              Expected-found q.results (some t) q.waiting_workers w v.expected e in
            ap (λ o. seen (cancel_found resume o (without t q))) e
            ∙ found-seen t q w a here
                (subst (λ o. IsValid (cancel_found (λ h r. r) o (without t q))) e valid) gone
            ∙ sym (ap (λ o. leave served o (seen q)) e)
      ]

  -- The queue implements the service: what is seen of the queue after a request is what the service
  -- makes of what was seen before. An awaitable that asks is to be fresh, a worker is withdrawn
  -- when its token has been cancelled, and what the sessions do when they are resumed keeps the
  -- queue valid and open or shut as it is, uncancels no token, and acts on what is seen. The
  -- service leaves open which cancelled workers it has forgotten: the queue's line settles that.
  pub respond-seen :
      (r : Request) (q : TaskQueue)
      → IsTimely r q
      → IsValid q
      → seen (respond resume r q)
        ≡ serve served (λ t. find_waiter (some t) q.waiting_workers) r (seen q)
  unfolding respond serve await_resume drain_cancelled
  respond-seen (submit task) q n v = submit-seen resume served co task q v
  respond-seen (submit_all tasks) q n v = submit_all-seen resume served co tasks q v
  respond-seen (request_task h a token) q n v =
      ask-seen resume served co (λ t. find_waiter (some t) q.waiting_workers) h a token q n v
  respond-seen (pick_up a) q n v = refl
  respond-seen (withdraw t) q n v = withdraw-seen t q v n
  respond-seen (revoke t) q n v = seen-cancel t q v
  respond-seen tidy q n v = rw (live_twice q.cancelled q.waiting_workers) refl
  respond-seen close q n v = close-seen q v
