-- ===== src/Queue/Submit.antt =====
-- message/TaskMessageQueue.cpp: adding a task and asking for one, as the service of Queue/Service
-- sees it.
use task_messenger.Common.{
  ℕ, ◌≡◌, refl, sym, ◌∙◌, ap, inl, inr, true, false, Option, none, some, List, [], ◌∷◌, ◌++◌,
  Bool-cases, put, if_both, Unique-put, lookup,
}
use task_messenger.Message.{TaskMessage}
use task_messenger.Queue.{
  Waiter, TaskQueue, is_cancelled, skip_cancelled, keep_live, give, accept, add_locked, add_task,
  add_each, add_tasks, get_next_task,
}
use task_messenger.Queue.Valid.{
  accept-IsValid, IsValid, Absent, AllCancelled, AllCancelled-live, Expected-put,
}
use task_messenger.Queue.Order.{give_quiet, add_task_off, add_task_on}
use task_messenger.Queue.Steps.{awaits, IsFresh, add_locked-IsValid, get_next_task-Awaited}
use task_messenger.Queue.Service.{
  Line, backlog, closed, Service, in_line, Request, request_task, withdraw, deliver, deliver_all,
  queue_up, serve, seen,
}
use task_messenger.Queue.View.{
  live_after_skip, live_snoc, starved_empty, seen_line_empty, seen_starved, seen_backlog,
  seen-closed, seen_given, skip_live, awaited_some,
}

-- The sessions' code over the queue and over the service: it keeps the queue valid, does not shut
-- it down, uncancels no token, and does the same to what is seen.
pub record Cooperates (resume : ℕ → TaskQueue → TaskQueue) (served : ℕ → Service → Service)
    : Type 0 where
  pub keeps : (h : ℕ) (q : TaskQueue) → IsValid q → IsValid (resume h q)
  pub quiet : (h : ℕ) (q : TaskQueue) → (resume h q).is_shutdown ≡ q.is_shutdown
  -- A cancelled token stays so.
  pub lasting :
      (h : ℕ) (q : TaskQueue) (t : ℕ) → q.cancelled t ≡ true → (resume h q).cancelled t ≡ true
  pub agrees : (h : ℕ) (q : TaskQueue) → IsValid q → seen (resume h q) ≡ served h (seen q)

-- A new awaitable is fresh, and a worker is withdrawn when its token has been cancelled.
abbrev pub IsTimely : Request → TaskQueue → Type 0
IsTimely (request_task h a token) q = (lookup a q.results ≡ none) × Absent a q.waiting_workers
IsTimely (withdraw t) q = q.cancelled t ≡ true
IsTimely _ q = Unit {0}

module _ (resume : ℕ → TaskQueue → TaskQueue) (served : ℕ → Service → Service)
    (co : Cooperates resume served) where
  give-seen :
      (t : TaskMessage) (ws : List Waiter) (q : TaskQueue)
      → skip_cancelled q.cancelled q.waiting_workers ≡ ws
      → IsValid q
      → q.is_shutdown ≡ false
      → IsValid (give (λ h r. r) t ws q)
      → seen (give resume t ws q) ≡ deliver served t (seen q).line (seen q)
  give-seen t [] q e v on _ =
      let live = live_after_skip q.cancelled q.waiting_workers ∙ ap (keep_live q.cancelled) e in
      rw (seen_backlog q on live) (simp on refl)
  give-seen t (w ∷ ws) q e v on valid =
      let live = skip_live q w ws e in
      rw (seen_starved q w (keep_live q.cancelled ws) on live) (
        co.agrees w.handle _ valid
        ∙ ap (served w.handle) (
            seen_given t w.awaiter ws q on (starved_empty q w (keep_live q.cancelled ws) v live)
              (awaited_some q w ws v e)))

  add_locked-seen :
      (t : TaskMessage) (q : TaskQueue)
      → IsValid q
      → q.is_shutdown ≡ false
      → seen (add_locked resume t q) ≡ deliver served t (seen q).line (seen q)
  add_locked-seen t q v on =
      give-seen t (skip_cancelled q.cancelled q.waiting_workers) (accept t q) refl
        (accept-IsValid t q v) on (add_locked-IsValid (λ h r. r) (λ h r x. x) t q v)

  deliver-closed :
      (t : TaskMessage) (tasks : List TaskMessage) (s : Service)
      → s.line ≡ closed tasks
      → deliver served t s.line s ≡ s
  deliver-closed t tasks s e = simp e

  deliver_all-closed :
      (ts tasks : List TaskMessage) (s : Service)
      → s.line ≡ closed tasks
      → deliver_all served ts s ≡ s
  deliver_all-closed [] tasks s e = refl
  deliver_all-closed (t ∷ ts) tasks s e =
      ap (deliver_all served ts) (deliver-closed t tasks s e) ∙ deliver_all-closed ts tasks s e

  add_each-seen :
      (ts : List TaskMessage) (q : TaskQueue)
      → IsValid q
      → q.is_shutdown ≡ false
      → seen (add_each resume ts q) ≡ deliver_all served ts (seen q)
  unfolding add_each
  add_each-seen [] q v on = refl
  add_each-seen (t ∷ ts) q v on =
      add_each-seen ts (add_locked resume t q) (add_locked-IsValid resume co.keeps t q v) (
        give_quiet resume co.quiet t (skip_cancelled q.cancelled q.waiting_workers) (accept t q)
        ∙ on)
      ∙ ap (deliver_all served ts) (add_locked-seen t q v on)

  pub submit-seen :
      (t : TaskMessage) (q : TaskQueue)
      → IsValid q
      → seen (add_task resume t q) ≡ deliver served t (seen q).line (seen q)
  submit-seen t q v = elim (Bool-cases q.is_shutdown) [
    | inl off ↦
        ap seen (add_task_off resume t q off)
        ∙ sym (deliver-closed t q.tasks (seen q) (seen-closed q off))
    | inr on ↦ ap seen (add_task_on resume t q on) ∙ add_locked-seen t q v on
  ]

  add_tasks_on :
      (ts : List TaskMessage) (q : TaskQueue)
      → q.is_shutdown ≡ false
      → add_tasks resume ts q ≡ add_each resume ts q
  unfolding add_tasks
  add_tasks_on ts q on = simp on

  pub submit_all-seen :
      (ts : List TaskMessage) (q : TaskQueue)
      → IsValid q
      → seen (add_tasks resume ts q) ≡ deliver_all served ts (seen q)
  unfolding add_tasks
  submit_all-seen ts q v = elim (Bool-cases q.is_shutdown) [
    | inl off ↦ rw (deliver_all-closed ts q.tasks (seen q) (seen-closed q off)) (simp off refl)
    | inr on ↦ ap seen (add_tasks_on ts q on) ∙ add_each-seen ts q v on
  ]

  -- A worker at the end of the line.
  seen-snoc :
      (v : Waiter) (q : TaskQueue)
      → q.is_shutdown ≡ false
      → q.tasks ≡ []
      → is_cancelled q.cancelled v.token ≡ false
      → seen (record q { waiting_workers = q.waiting_workers ++ v ∷ [] })
        ≡ record (seen q) { line = in_line (keep_live q.cancelled q.waiting_workers ++ v ∷ []) }
  seen-snoc v q on empty live = simp on (
      rw (live_snoc q.cancelled q.waiting_workers v live) (
        rw (seen_line_empty (keep_live q.cancelled q.waiting_workers ++ v ∷ []) q.tasks empty)
          refl))

  queue_up-closed :
      (h a : ℕ) (token : Option ℕ) (l : Line) (tasks : List TaskMessage) (s : Service)
      → l ≡ closed tasks
      → queue_up served h a token l s ≡ served h s
  queue_up-closed h a token l tasks s e = rw e refl

  queue_up-next :
      (h a : ℕ) (token : Option ℕ) (l : Line) (task : TaskMessage) (rest : List TaskMessage)
      (s : Service)
      → l ≡ backlog (task ∷ rest)
      → queue_up served h a token l s
        ≡ served h (record s { line = backlog rest; handed_over = put a task s.handed_over })
  queue_up-next h a token l task rest s e = rw e refl

  queue_up-wait :
      (h a : ℕ) (token : Option ℕ) (l : Line) (ws : List Waiter) (s : Service)
      → l ≡ in_line ws
      → queue_up served h a token l s ≡ record s {
        line = in_line (ws ++ record { handle = h; awaiter = some a; token = token } ∷ []);
      }
  queue_up-wait h a token l [] s e = rw e refl
  queue_up-wait h a token l (w ∷ ws) s e = rw e refl

  take-seen :
      (h a : ℕ) (task : TaskMessage) (rest : List TaskMessage) (q : TaskQueue)
      → Absent a q.waiting_workers
      → IsValid q
      → q.is_shutdown ≡ false
      → AllCancelled q.cancelled q.waiting_workers
      → seen (resume h (record q { tasks = rest; results = put a task q.results }))
        ≡ served h (record (seen q) { line = backlog rest; handed_over = put a task q.results })
  take-seen h a task rest q away v on all =
      co.agrees h _ (record {
        prompt = inr all;
        expected = Expected-put a task q.results q.waiting_workers away v.expected;
        stopped = v.stopped;
        single = Unique-put a task q.results v.single;
      })
      ∙ ap (served h) (simp (on, AllCancelled-live q.cancelled q.waiting_workers all) refl)

  pub ask-seen :
      (struck : ℕ → Option Waiter) (h a : ℕ) (token : Option ℕ) (q : TaskQueue)
      → IsFresh (awaits h a token) q
      → IsValid q
      → seen (get_next_task resume h a token q)
        ≡ serve served struck (request_task h a token) (seen q)
  unfolding serve
  ask-seen struck h a token q f v = elim (get_next_task-Awaited resume h a token q) [
    | inl (inl off, e) ↦
        ap seen e
        ∙ co.agrees h q v
        ∙ if_both (λ s. served h (seen q) ≡ s) (is_cancelled q.cancelled token) _ _ refl
            (sym (queue_up-closed h a token _ q.tasks (seen q) (seen-closed q off)))
    | inl (inr gone, e) ↦ ap seen e ∙ co.agrees h q v ∙ rw gone refl
    | inr (inl (task, rest, front, on, live, e)) ↦
        let all : AllCancelled q.cancelled q.waiting_workers = elim v.prompt [
          | inl empty ↦ absurd (cc)
          | inr all ↦ all
        ] in
        let line = seen_backlog q on (AllCancelled-live q.cancelled q.waiting_workers all) in
        ap seen e
        ∙ take-seen h a task rest q f.1 v on all
        ∙ rw live (sym (queue_up-next h a token _ task rest (seen q) (line ∙ ap backlog front)))
    | inr (inr (empty, on, live, e)) ↦
        let line : (seen q).line ≡ in_line (keep_live q.cancelled q.waiting_workers) =
          rw on (seen_line_empty (keep_live q.cancelled q.waiting_workers) q.tasks empty) in
        ap seen e
        ∙ seen-snoc _ q on empty live
        ∙ rw live (
            sym (queue_up-wait h a token _ (keep_live q.cancelled q.waiting_workers) (seen q) line))
  ]
