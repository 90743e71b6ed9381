-- ===== src/Manager/Examples.antt =====
-- dispatcher/session/SessionManager.cpp: the theorems at a dispatcher with one worker.
use task_messenger.Common.{◌+◌, ◌≤◌, ◌≡◌, true, false, some, [], ◌∷◌, arith, length}
use task_messenger.Queue.{TaskQueue}
use task_messenger.Session.{
  Now, Session, terminated, waiting_for_task, awaiting_task, finished, is_completed, alive,
  new_session, run,
}
use task_messenger.Session.Coroutine.{Around}
use task_messenger.Manager.{
  Manager, new_manager, cleanup_completed_sessions, recent_disconnect_history_cap,
}
use task_messenger.Manager.Sweeps.{Each}
use task_messenger.Manager.History.{cleanup_accounts}

abbrev noon : Now
noon = record { steady = 100; system = 5_000_000 }

abbrev around : Around
around = record { now = noon; is_open = true; completion_throws = false }

abbrev idle_queue : TaskQueue
idle_queue = record {
  tasks = [];
  waiting_workers = record { handle = 1; awaiter = some 1; token = some 9 } ∷ [];
  is_shutdown = false;
  cancelled = λ t. false;
  results = [];
  submitted = [];
  taken = [];
}

abbrev waiting : Session
waiting = record (run noon (new_session 1 9 "10.0.0.7:5" noon)) {
  state = waiting_for_task;
  frame = awaiting_task;
}

abbrev gone : Session
gone = record waiting { state = terminated; frame = finished }

abbrev staffed : Manager
staffed = record (new_manager idle_queue) {
  next_session_id = 3;
  active_sessions = (1, waiting) ∷ (2, gone) ∷ [];
}

cleanup_accounts_example :
    let (m', n) = cleanup_completed_sessions around (λ id. alive) staffed in
    Each (λ s. is_completed s ≡ false) m'.active_sessions
    × (n + length m'.active_sessions ≡ 2)
    × (length m'.recent_disconnects ≤ recent_disconnect_history_cap)
cleanup_accounts_example = cleanup_accounts around (λ id. alive) staffed (omega arith)
