-- ===== src/Queue/View.antt =====
-- message/TaskMessageQueue.cpp: what the service of Queue/Service sees of a queue.
use task_messenger.Common.{
  ℕ, ◌≡◌, refl, sym, ◌∙◌, ap, ◌≢◌, ◌⊎◌, inl, inr, Bool, true, false, Option, none, some, List, [],
  ◌∷◌, ◌++◌, arith, Bool-cases, raise,
}
use task_messenger.Message.{TaskMessage}
use task_messenger.Queue.{
  Waiter, TaskQueue, is_cancelled, skip_cancelled, keep_live, remaining, fill, cancel,
}
use task_messenger.Queue.Valid.{IsValid, Expected, Expected-skip, AllCancelled-live, skip_stops}
use task_messenger.Queue.Service.{
  backlog, starved, closed, in_line, hand, with_workers, workers, strike, seen_line, seen,
}

pub List-cases :
    (ws : List Waiter) → (ws ≡ []) ⊎ ((w : Waiter) × (rest : List Waiter) × (ws ≡ w ∷ rest))
List-cases [] = inl refl
List-cases (w ∷ ws) = inr (w, ws, refl)

pub live_after_skip :
    (c : ℕ → Bool) (ws : List Waiter) → keep_live c ws ≡ keep_live c (skip_cancelled c ws)
live_after_skip c [] = refl
live_after_skip c (w ∷ ws) = elim (Bool-cases (is_cancelled c w.token)) [
  | inl e ↦ rw e (live_after_skip c ws)
  | inr e ↦ rw (e, keep_live) (rw e refl)
]

pub live_snoc :
    (c : ℕ → Bool) (ws : List Waiter) (v : Waiter)
    → is_cancelled c v.token ≡ false
    → keep_live c (ws ++ v ∷ []) ≡ keep_live c ws ++ v ∷ []
live_snoc c [] v e = rw e refl
live_snoc c (w ∷ ws) v e = ground (arith, live_snoc c ws v e)

pub live_twice : (c : ℕ → Bool) (ws : List Waiter) → keep_live c (keep_live c ws) ≡ keep_live c ws
live_twice c [] = refl
live_twice c (w ∷ ws) = ground (arith, live_twice c ws)

-- The waiters of a cancelled token are not seen.
pub live_struck :
    (t : ℕ) (c : ℕ → Bool) (ws : List Waiter)
    → c t ≡ true
    → keep_live c (remaining (some t) ws) ≡ keep_live c ws
live_struck t c [] e = refl
live_struck t c (w ∷ ws) e = ground (arith, e, live_struck t c ws e)

pub live_raise :
    (t : ℕ) (c : ℕ → Bool) (ws : List Waiter)
    → keep_live (raise t c) ws ≡ keep_live (raise t c) (keep_live c ws)
live_raise t c [] = refl
live_raise t c (w ∷ ws) = ground (arith, live_raise t c ws)

-- Where a live worker waits, no task does.
pub starved_empty :
    (q : TaskQueue) (w : Waiter) (rest : List Waiter)
    → IsValid q
    → keep_live q.cancelled q.waiting_workers ≡ w ∷ rest
    → q.tasks ≡ []
starved_empty q w rest v e = elim v.prompt [
  | inl empty ↦ empty
  | inr all ↦ absurd (cc (AllCancelled-live q.cancelled q.waiting_workers all))
]

pub seen_line_empty :
    (ws : List Waiter) (tasks : List TaskMessage)
    → tasks ≡ []
    → seen_line false tasks ws ≡ in_line ws
seen_line_empty [] tasks e = ap backlog e
seen_line_empty (w ∷ ws) tasks e = refl

pub seen_starved :
    (q : TaskQueue) (w : Waiter) (rest : List Waiter)
    → q.is_shutdown ≡ false
    → keep_live q.cancelled q.waiting_workers ≡ w ∷ rest
    → (seen q).line ≡ starved w rest
seen_starved q w rest on live = rw (on, live) refl

pub seen_backlog :
    (q : TaskQueue)
    → q.is_shutdown ≡ false
    → keep_live q.cancelled q.waiting_workers ≡ []
    → (seen q).line ≡ backlog q.tasks
seen_backlog q on live = rw (on, live) refl

pub seen-closed : (q : TaskQueue) → q.is_shutdown ≡ true → (seen q).line ≡ closed q.tasks
seen-closed q off = rw off refl

-- A task in the hands of the worker at the head of the line.
pub seen_given :
    (t : TaskMessage) (a : Option ℕ) (ws : List Waiter) (q : TaskQueue)
    → q.is_shutdown ≡ false
    → q.tasks ≡ []
    → a ≢ none
    → seen (fill a t (record q { waiting_workers = ws }))
      ≡ hand a t (record (seen q) { line = in_line (keep_live q.cancelled ws) })
seen_given t none ws q on empty n = absurd (n refl)
seen_given t (some a) ws q on empty n =
    simp on (rw (seen_line_empty (keep_live q.cancelled ws) q.tasks empty) refl)

pub skip_live :
    (q : TaskQueue) (w : Waiter) (ws : List Waiter)
    → skip_cancelled q.cancelled q.waiting_workers ≡ w ∷ ws
    → keep_live q.cancelled q.waiting_workers ≡ w ∷ keep_live q.cancelled ws
skip_live q w ws e =
    live_after_skip q.cancelled q.waiting_workers
    ∙ ap (keep_live q.cancelled) e
    ∙ rw (skip_stops q.cancelled q.waiting_workers w ws e) refl

pub head_awaited :
    (rs : List (ℕ × TaskMessage)) (xs : List Waiter) (w : Waiter) (ws : List Waiter)
    → Expected rs xs
    → xs ≡ w ∷ ws
    → w.awaiter ≢ none
head_awaited rs [] w ws x e = absurd (cc)
head_awaited rs (v ∷ vs) w ws x e =
    let same : v ≡ w = ground arith in let here = x.0.1 in λ n. absurd (cc)

pub awaited_some :
    (q : TaskQueue) (w : Waiter) (ws : List Waiter)
    → IsValid q
    → skip_cancelled q.cancelled q.waiting_workers ≡ w ∷ ws
    → w.awaiter ≢ none
awaited_some q w ws v e =
    head_awaited q.results (skip_cancelled q.cancelled q.waiting_workers) w ws
      (Expected-skip q.results q.cancelled q.waiting_workers v.expected) e

pub with_live :
    (off : Bool) (tasks : List TaskMessage) (c : ℕ → Bool) (ws : List Waiter)
    → (off ≡ false → ws ≢ [] → tasks ≡ [])
    → with_workers (seen_line off tasks ws) (keep_live c (workers (seen_line off tasks ws)))
      ≡ seen_line off tasks (keep_live c ws)
with_live true tasks c ws n = refl
with_live false tasks c [] n = refl
with_live false tasks c (w ∷ ws) n =
    sym (seen_line_empty (keep_live c (w ∷ ws)) tasks (n refl (λ e. cc)))

pub live_empty :
    (q : TaskQueue)
    → IsValid q
    → q.is_shutdown ≡ false
    → keep_live q.cancelled q.waiting_workers ≢ []
    → q.tasks ≡ []
live_empty q v on some_live = elim v.prompt [
  | inl empty ↦ empty
  | inr all ↦ absurd (some_live (AllCancelled-live q.cancelled q.waiting_workers all))
]

pub seen-cancel : (t : ℕ) (q : TaskQueue) → IsValid q → seen (cancel t q) ≡ strike t (seen q)
unfolding cancel
seen-cancel t q v =
    rw
      (with_live q.is_shutdown q.tasks (raise t q.cancelled)
        (keep_live q.cancelled q.waiting_workers) (live_empty q v))
      (rw (live_raise t q.cancelled q.waiting_workers) refl)
