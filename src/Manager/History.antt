-- ===== src/Manager/History.antt =====
-- dispatcher/session/SessionManager.cpp: session ids, what a cleanup keeps, and the history.
use task_messenger.Common.{
  ℕ, suc, ◌+◌, ◌-◌, ◌^◌, ◌≤◌, ◌<◌, ◌≡◌, refl, sym, ap, ◌≢◌, false, none, some, List, [], ◌∷◌, arith,
  ltb, if◌then◌else◌, length, take, length-take-le, All, lookup, erase_absent,
}
use Prim.Native.String.{String}
use mathlib.Core.Path.{subst}
use task_messenger.Queue.{TaskQueue}
use task_messenger.Session.{u32, Now, Session, is_completed, Liveness, run, new_session}
use task_messenger.Session.Coroutine.{Around}
use task_messenger.Manager.{
  RecentDisconnect, Manager, over_sessions, probe_one, cancel_one, sweep, remember, disconnect_of,
  cleanup_completed_sessions, recent_disconnect_history_cap, create_session,
}
use task_messenger.Manager.Sweeps.{Each}

-- Every id in use is below the next one.
abbrev pub Below : ℕ → List (ℕ × Session) → Type 0
Below n xs = All (λ (p : ℕ × Session). p.0 < n) xs

Below-absent : (n : ℕ) (xs : List (ℕ × Session)) → Below n xs → lookup n xs ≡ none
Below-absent n [] h = refl
Below-absent n ((id, s) ∷ xs) h = ground (arith, Below-absent n xs h.1)

Below-suc : (n : ℕ) (xs : List (ℕ × Session)) → Below n xs → Below (n + 1) xs
Below-suc n [] h = tt
Below-suc n ((id, s) ∷ xs) h = (omega arith, Below-suc n xs h.1)

-- While the ids of 32 bits last, a new session gets an id that no session has, which is not 0, the
-- answer of a failure; the other sessions stay, and the ids in use stay below the next one.
pub create_session_fresh :
    (endpoint : String) (token : ℕ) (now : Now) (m : Manager)
    → Below m.next_session_id m.active_sessions
    → 0 < m.next_session_id
    → m.next_session_id < 2 ^ 32 - 1
    → let (m', id) = create_session (some (endpoint, token)) now m in
      (id ≢ 0)
      × (lookup id m.active_sessions ≡ none)
      × (m'.active_sessions ≡ (id, run now (new_session id token endpoint now)) ∷ m.active_sessions)
      × Below m'.next_session_id m'.active_sessions
      × (0 < m'.next_session_id)
unfolding create_session
create_session_fresh endpoint token now m below pos room =
    let gone = Below-absent m.next_session_id m.active_sessions below in
    let next : u32 (m.next_session_id + 1) ≡ m.next_session_id + 1 = omega arith in
    (
      omega arith,
      gone,
      rw (erase_absent m.next_session_id m.active_sessions gone),
      rw (erase_absent m.next_session_id m.active_sessions gone) (
        omega arith,
        subst (λ k. Below k m.active_sessions) (sym next)
            (Below-suc m.next_session_id m.active_sessions below),
      ),
      omega arith,
    )

abbrev IsBounded : List RecentDisconnect → Type 0
IsBounded ds = length ds ≤ recent_disconnect_history_cap

cut_le :
    (n : ℕ) (ds : List RecentDisconnect) → length (if ltb n (length ds) then take n ds else ds) ≤ n
cut_le n ds = ground (arith, length-take-le n ds)

remember-IsBounded : (d : RecentDisconnect) (ds : List RecentDisconnect) → IsBounded (remember d ds)
remember-IsBounded d ds = cut_le recent_disconnect_history_cap (d ∷ ds)

sweep-IsBounded :
    (now : Now) (xs : List (ℕ × Session)) (ds : List RecentDisconnect)
    → IsBounded ds
    → IsBounded (sweep now xs ds).1
unfolding sweep
sweep-IsBounded now [] ds h = h
sweep-IsBounded now ((id, s) ∷ xs) ds h = ground (
  arith,
  sweep-IsBounded now xs ds h,
  sweep-IsBounded now xs (remember (disconnect_of now id s) ds)
      (remember-IsBounded (disconnect_of now id s) ds),
)

sweep_counts :
    (now : Now) (xs : List (ℕ × Session)) (ds : List RecentDisconnect)
    → (sweep now xs ds).2 + length (sweep now xs ds).0 ≡ length xs
unfolding sweep
sweep_counts now [] ds = refl
sweep_counts now ((id, s) ∷ xs) ds =
    ground
      (arith, sweep_counts now xs ds, sweep_counts now xs (remember (disconnect_of now id s) ds))

sweep_keeps :
    (now : Now) (xs : List (ℕ × Session)) (ds : List RecentDisconnect)
    → Each (λ s. is_completed s ≡ false) (sweep now xs ds).0
unfolding sweep
sweep_keeps now [] ds = tt
sweep_keeps now ((id, s) ∷ xs) ds =
    ground (arith, sweep_keeps now xs ds, sweep_keeps now xs (remember (disconnect_of now id s) ds))

length-over_sessions :
    (f : ℕ → Session → TaskQueue → Session × TaskQueue) (xs : List (ℕ × Session)) (q : TaskQueue)
    → length (over_sessions f xs q).0 ≡ length xs
unfolding over_sessions
length-over_sessions f [] q = refl
length-over_sessions f ((id, s) ∷ xs) q = ap suc (length-over_sessions f xs (f id s q).1)

-- A cleanup keeps no completed session, its count is that of the sessions that are gone, and the
-- history stays within its 100 entries.
pub cleanup_accounts :
    (w : Around) (liveness : ℕ → Liveness) (m : Manager)
    → length m.recent_disconnects ≤ recent_disconnect_history_cap
    → let (m', n) = cleanup_completed_sessions w liveness m in
      Each (λ s. is_completed s ≡ false) m'.active_sessions
      × (n + length m'.active_sessions ≡ length m.active_sessions)
      × (length m'.recent_disconnects ≤ recent_disconnect_history_cap)
unfolding cleanup_completed_sessions
cleanup_accounts w liveness m h =
    let (probed, q) = over_sessions (probe_one w.now liveness) m.active_sessions m.queue in
    let (resumed, q') = over_sessions (cancel_one w) probed q in
    (
      sweep_keeps w.now resumed m.recent_disconnects,
      omega (
        arith,
        sweep_counts w.now resumed m.recent_disconnects,
        length-over_sessions (cancel_one w) probed q,
        length-over_sessions (probe_one w.now liveness) m.active_sessions m.queue,
      ),
      sweep-IsBounded w.now resumed m.recent_disconnects h,
    )
