-- ===== src/Manager/Tokens.antt =====
-- dispatcher/session/SessionManager.cpp: the tokens of the sessions that are told to terminate.
use task_messenger.Common.{
  ℕ, ◌≡◌, ap, ◌∙◌, ◌⊎◌, inl, inr, Bool, true, Option, none, some, List, [], ◌∷◌, ==_refl, raise,
  All, arith, if◌then◌else◌,
}
use task_messenger.Queue.{Waiter, TaskQueue, is_cancelled, cancel}
use task_messenger.Queue.Valid.{AllCancelled}
use task_messenger.Session.{Now, Session}
use task_messenger.Session.Coroutine.{Around}
use task_messenger.Manager.{Manager, over_sessions, terminate_one, terminate_all_sessions}
use task_messenger.Manager.Sweeps.{terminate-Each, terminate_stays, cancel_passes}

-- A session of the list has the waiter's token.
abbrev pub HasSession : Waiter → List (ℕ × Session) → Type 0
HasSession x [] = ⊥
HasSession x ((id, s) ∷ xs) = (x.token ≡ some s.cancel_token) ⊎ HasSession x xs

-- A waiter that is cancelled, or is that of a session.
abbrev pub IsKnown : (ℕ → Bool) → List (ℕ × Session) → Waiter → Type 0
IsKnown cancelled xs x = (is_cancelled cancelled x.token ≡ true) ⊎ HasSession x xs

abbrev pub IsStaffed : Manager → Type 0
IsStaffed m = All (λ x. IsKnown m.queue.cancelled m.active_sessions x) m.queue.waiting_workers

raise_still :
    (o : Option ℕ) (t : ℕ) (c : ℕ → Bool)
    → is_cancelled c o ≡ true
    → is_cancelled (raise t c) o ≡ true
raise_still none t c e = e
raise_still (some u) t c e = ground arith

raise_own : (o : Option ℕ) (t : ℕ) (c : ℕ → Bool) → o ≡ some t → is_cancelled (raise t c) o ≡ true
raise_own o t c e =
    ap (λ o. is_cancelled (raise t c) o) e ∙ ap (λ b. if b then true else c t) (==_refl t)

terminate_cancels :
    (now : Now) (xs : List (ℕ × Session)) (q : TaskQueue) (x : Waiter)
    → IsKnown q.cancelled xs x
    → is_cancelled (over_sessions (terminate_one now) xs q).1.cancelled x.token ≡ true
unfolding over_sessions cancel
terminate_cancels now [] q x (inl e) = e
terminate_cancels now [] q x (inr h) = absurd h
terminate_cancels now ((id, s) ∷ xs) q x (inl e) =
    terminate_cancels now xs (cancel s.cancel_token q) x
      (inl (raise_still x.token s.cancel_token q.cancelled e))
terminate_cancels now ((id, s) ∷ xs) q x (inr (inl e)) =
    terminate_cancels now xs (cancel s.cancel_token q) x
      (inl (raise_own x.token s.cancel_token q.cancelled e))
terminate_cancels now ((id, s) ∷ xs) q x (inr (inr h)) =
    terminate_cancels now xs (cancel s.cancel_token q) x (inr h)

terminate-AllCancelled :
    (now : Now) (xs : List (ℕ × Session)) (q : TaskQueue) (ws : List Waiter)
    → All (λ x. IsKnown q.cancelled xs x) ws
    → AllCancelled (over_sessions (terminate_one now) xs q).1.cancelled ws
terminate-AllCancelled now xs q [] h = tt
terminate-AllCancelled now xs q (x ∷ ws) h =
    (terminate_cancels now xs q x h.0, terminate-AllCancelled now xs q ws h.1)

-- When all sessions have been told to terminate, nobody in the line is left to be resumed.
pub terminate_all-AllCancelled :
    (w : Around) (m : Manager)
    → IsStaffed m
    → let q = (terminate_all_sessions w m).queue in AllCancelled q.cancelled q.waiting_workers
unfolding terminate_all_sessions
terminate_all-AllCancelled w m h =
    let told = over_sessions (terminate_one w.now) m.active_sessions m.queue in
    let (_, _, same) = terminate_stays w.now m.active_sessions m.queue in
    rw (cancel_passes w told.0 told.1 (terminate-Each w.now m.active_sessions m.queue), same)
      (terminate-AllCancelled w.now m.active_sessions m.queue m.queue.waiting_workers h)
