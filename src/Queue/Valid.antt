-- ===== src/Queue/Valid.antt =====
-- message/TaskMessageQueue.cpp: what holds between two calls on the queue.
use task_messenger.Common.{
  Unique, ℕ, ◌≡◌, refl, sym, ◌∙◌, ◌≢◌, ◌⊎◌, inl, inr, Bool, true, false, Option, none, some, List,
  [], ◌∷◌, ◌++◌, arith, All, lookup, put, erase, raise, lookup-put, lookup-erase, Bool-cases,
  same_pointer,
}
use task_messenger.Message.{TaskMessage}
use task_messenger.Queue.{
  Waiter, TaskQueue, is_cancelled, skip_cancelled, remaining, find_waiter, keep_live, accept,
}

abbrev pub AllCancelled : (ℕ → Bool) → List Waiter → Type 0
AllCancelled c ws = All (λ w. is_cancelled c w.token ≡ true) ws

-- No waiter of the list is that of the awaitable `a`.
abbrev pub Absent : ℕ → List Waiter → Type 0
Absent a ws = All (λ w. w.awaiter ≢ some a) ws

-- Each waiter has an awaitable of its own, and that has no result yet.
abbrev pub Expected : List (ℕ × TaskMessage) → List Waiter → Type 0
Expected rs [] = Unit {0}
Expected rs (w ∷ ws) =
    ((a : ℕ) × (w.awaiter ≡ some a) × (lookup a rs ≡ none) × Absent a ws) × Expected rs ws

pub record IsValid (q : TaskQueue) : Type 0 where
  -- A task waits only where no live worker does.
  pub prompt : (q.tasks ≡ []) ⊎ AllCancelled q.cancelled q.waiting_workers
  pub expected : Expected q.results q.waiting_workers
  -- After a shutdown nobody waits.
  pub stopped : q.is_shutdown ≡ true → q.waiting_workers ≡ []
  -- An awaitable has one result.
  pub single : Unique q.results

pub Absent-skip :
    (a : ℕ) (c : ℕ → Bool) (ws : List Waiter) → Absent a ws → Absent a (skip_cancelled c ws)
Absent-skip a c [] h = tt
Absent-skip a c (w ∷ ws) h = ground (arith, Absent-skip a c ws h.1)

pub Expected-skip :
    (rs : List (ℕ × TaskMessage)) (c : ℕ → Bool) (ws : List Waiter)
    → Expected rs ws
    → Expected rs (skip_cancelled c ws)
Expected-skip rs c [] h = tt
Expected-skip rs c (w ∷ ws) h = elim (Bool-cases (is_cancelled c w.token)) [
  | inl e ↦ rw e (Expected-skip rs c ws h.1)
  | inr e ↦ rw e h
]

pub Absent-live :
    (a : ℕ) (c : ℕ → Bool) (ws : List Waiter) → Absent a ws → Absent a (keep_live c ws)
Absent-live a c [] h = tt
Absent-live a c (w ∷ ws) h = ground (arith, Absent-live a c ws h.1)

pub Expected-live :
    (rs : List (ℕ × TaskMessage)) (c : ℕ → Bool) (ws : List Waiter)
    → Expected rs ws
    → Expected rs (keep_live c ws)
Expected-live rs c [] h = tt
Expected-live rs c (w ∷ ws) h = elim (Bool-cases (is_cancelled c w.token)) [
  | inl e ↦ rw e (Expected-live rs c ws h.1)
  | inr e ↦ rw e ((h.0.0, h.0.1, h.0.2, Absent-live h.0.0 c ws h.0.3), Expected-live rs c ws h.1)
]

pub Expected-put :
    (a : ℕ) (t : TaskMessage) (rs : List (ℕ × TaskMessage)) (ws : List Waiter)
    → Absent a ws
    → Expected rs ws
    → Expected (put a t rs) ws
Expected-put a t rs [] n h = tt
Expected-put a t rs (w ∷ ws) n h =
    ((h.0.0, h.0.1, ground (arith, lookup-put a h.0.0 t rs), h.0.3), Expected-put a t rs ws n.1 h.1)

pub Expected-erase :
    (a : ℕ) (rs : List (ℕ × TaskMessage)) (ws : List Waiter)
    → Expected rs ws
    → Expected (erase a rs) ws
Expected-erase a rs [] h = tt
Expected-erase a rs (w ∷ ws) h =
    ((h.0.0, h.0.1, ground (arith, lookup-erase a h.0.0 rs), h.0.3), Expected-erase a rs ws h.1)

pub Absent-snoc :
    (a : ℕ) (ws : List Waiter) (v : Waiter)
    → Absent a ws
    → v.awaiter ≢ some a
    → Absent a (ws ++ v ∷ [])
Absent-snoc a [] v h n = (n, tt)
Absent-snoc a (w ∷ ws) v h n = (h.0, Absent-snoc a ws v h.1 n)

pub Expected-snoc :
    (rs : List (ℕ × TaskMessage)) (ws : List Waiter) (v : Waiter) (a : ℕ)
    → v.awaiter ≡ some a
    → lookup a rs ≡ none
    → Absent a ws
    → Expected rs ws
    → Expected rs (ws ++ v ∷ [])
Expected-snoc rs [] v a e n _ h = ((a, e, n, tt), tt)
Expected-snoc rs (w ∷ ws) v a e n u h = (
  (h.0.0, h.0.1, h.0.2, Absent-snoc h.0.0 ws v h.0.3 (λ p. u.0 (cc))),
  Expected-snoc rs ws v a e n u.1 h.1,
)

pub Absent-remaining :
    (a : ℕ) (t : Option ℕ) (ws : List Waiter) → Absent a ws → Absent a (remaining t ws)
Absent-remaining a t [] h = tt
Absent-remaining a t (w ∷ ws) h = ground (arith, Absent-remaining a t ws h.1)

pub Expected-remaining :
    (rs : List (ℕ × TaskMessage)) (t : Option ℕ) (ws : List Waiter)
    → Expected rs ws
    → Expected rs (remaining t ws)
Expected-remaining rs t [] h = tt
Expected-remaining rs t (w ∷ ws) h = elim (Bool-cases (same_pointer w.token t)) [
  | inl e ↦ rw e h.1
  | inr e ↦
      rw e
        ((h.0.0, h.0.1, h.0.2, Absent-remaining h.0.0 t ws h.0.3), Expected-remaining rs t ws h.1)
]

pub Absent-found :
    (a : ℕ) (t : Option ℕ) (ws : List Waiter) (w : Waiter)
    → Absent a ws
    → find_waiter t ws ≡ some w
    → w.awaiter ≢ some a
Absent-found a t [] w h e = absurd (cc)
Absent-found a t (v ∷ ws) w h e = elim (Bool-cases (same_pointer v.token t)) [
  | inl p ↦ let same : v ≡ w = ground arith in rw (← same) h.0
  | inr p ↦ Absent-found a t ws w h.1 (ground arith)
]

-- The waiter that is taken out has an awaitable that none of the others has.
pub Expected-found :
    (rs : List (ℕ × TaskMessage)) (t : Option ℕ) (ws : List Waiter) (w : Waiter)
    → Expected rs ws
    → find_waiter t ws ≡ some w
    → (a : ℕ) × (w.awaiter ≡ some a) × (lookup a rs ≡ none) × Absent a (remaining t ws)
Expected-found rs t [] w h e = absurd (cc)
Expected-found rs t (v ∷ ws) w h e = elim (Bool-cases (same_pointer v.token t)) [
  | inl p ↦ let same : v ≡ w = ground arith in rw (p, ← same) h.0
  | inr p ↦
      let (a, here, fresh, away) = Expected-found rs t ws w h.1 (ground arith) in
      let apart = Absent-found h.0.0 t ws w h.0.3 (ground arith) in
      rw p (a, here, fresh, (λ q. apart (here ∙ sym q ∙ h.0.1), away))
]

pub AllCancelled-raise :
    (t : ℕ) (c : ℕ → Bool) (ws : List Waiter) → AllCancelled c ws → AllCancelled (raise t c) ws
AllCancelled-raise t c [] h = tt
AllCancelled-raise t c (w ∷ ws) h = (ground arith, AllCancelled-raise t c ws h.1)

pub AllCancelled-live : (c : ℕ → Bool) (ws : List Waiter) → AllCancelled c ws → keep_live c ws ≡ []
AllCancelled-live c [] h = refl
AllCancelled-live c (w ∷ ws) h = rw h.0 (AllCancelled-live c ws h.1)

pub AllCancelled-remaining :
    (c : ℕ → Bool) (t : Option ℕ) (ws : List Waiter)
    → AllCancelled c ws
    → AllCancelled c (remaining t ws)
AllCancelled-remaining c t [] h = tt
AllCancelled-remaining c t (w ∷ ws) h = ground (arith, AllCancelled-remaining c t ws h.1)

-- What `skip_cancelled` stops at is live.
pub skip_stops :
    (c : ℕ → Bool) (ws : List Waiter) (w : Waiter) (rest : List Waiter)
    → skip_cancelled c ws ≡ w ∷ rest
    → is_cancelled c w.token ≡ false
skip_stops c [] w rest e = absurd (cc)
skip_stops c (v ∷ ws) w rest e = ground (arith, skip_stops c ws w rest)

pub AllCancelled-skip :
    (c : ℕ → Bool) (ws : List Waiter) → AllCancelled c ws → skip_cancelled c ws ≡ []
AllCancelled-skip c [] h = refl
AllCancelled-skip c (w ∷ ws) h = rw h.0 (AllCancelled-skip c ws h.1)

-- The record of what was accepted does not matter.
pub accept-IsValid : (task : TaskMessage) (q : TaskQueue) → IsValid q → IsValid (accept task q)
accept-IsValid task q v = record {
  prompt = v.prompt;
  expected = v.expected;
  stopped = v.stopped;
  single = v.single;
}
