-- ===== src/Session/Accounting.antt =====
-- dispatcher/session/Session.cpp: what becomes of a task that a session took, and what the counters say.
use task_messenger.Common.{
  ℕ, ◌+◌, ◌≡◌, refl, ◌⊎◌, Bool, true, false, Option, none, some, List, [], ◌∷◌, arith,
}
use task_messenger.Message.{TaskMessage}
use task_messenger.Session.{
  u32, Frame, not_started, reading_greeting, awaiting_task, finished, writing_header,
  writing_payload, reading_header, reading_body, Session, Effect, requeues, closes_socket,
}
use task_messenger.Session.Coroutine.{Event, greeting_read, Around, task_of, dispatch, wake}

abbrev pub in_flight : Option TaskMessage → ℕ
in_flight none = 0
in_flight (some _) = 1

-- Every task that was sent has been counted as completed or as failed, but for the one in flight.
abbrev pub Balanced : Session → Type 0
Balanced s =
    s.stats.tasks_sent
    ≡ u32 (s.stats.tasks_completed + s.stats.tasks_failed + in_flight (task_of s.frame))

dispatch-Balanced :
    (w : Around) (fr : Frame) (ev : Event) (s : Session)
    → w.completion_throws ≡ false
    → s.frame ≡ fr
    → s.stats.tasks_sent
      ≡ u32 (s.stats.tasks_completed + s.stats.tasks_failed + in_flight (task_of fr))
    → Balanced (dispatch w fr ev s).0
unfolding dispatch
dispatch-Balanced w reading_greeting (greeting_read g) s q e h = ground arith
dispatch-Balanced w _ _ s q e h = ground arith

-- Each step of the coroutine keeps the counters balanced, where telling of a completion throws no
-- exception.
pub wake-Balanced :
    (w : Around) (ev : Event) (s : Session)
    → w.completion_throws ≡ false
    → Balanced s
    → Balanced (wake w ev s).0
unfolding wake
wake-Balanced w ev s q h = dispatch-Balanced w s.frame ev s q refl h

abbrev pub requeued : List Effect → List TaskMessage
requeued [] = []
requeued (requeues task ∷ es) = task ∷ requeued es
requeued (_ ∷ es) = requeued es

abbrev pub closes : List Effect → Bool
closes [] = false
closes (closes_socket ∷ es) = true
closes (_ ∷ es) = closes es

-- The session still holds the task, or has put it back and counted it as failed, or has counted it
-- as completed: one of the three.
abbrev pub Fate : TaskMessage → Session → Session × List Effect → Type 0
Fate task s (s', effects) =
    ((task_of s'.frame ≡ some task)
      × (requeued effects ≡ [])
      × (s'.stats.tasks_completed ≡ s.stats.tasks_completed)
      × (s'.stats.tasks_failed ≡ s.stats.tasks_failed))
    ⊎ ((task_of s'.frame ≡ none)
        × (requeued effects ≡ task ∷ [])
        × (s'.stats.tasks_completed ≡ s.stats.tasks_completed)
        × (s'.stats.tasks_failed ≡ u32 (s.stats.tasks_failed + 1)))
    ⊎ ((task_of s'.frame ≡ none)
        × (requeued effects ≡ [])
        × (s'.stats.tasks_completed ≡ u32 (s.stats.tasks_completed + 1))
        × (s'.stats.tasks_failed ≡ s.stats.tasks_failed))

dispatch-Fate :
    (w : Around) (fr : Frame) (ev : Event) (s : Session) (task : TaskMessage)
    → w.completion_throws ≡ false
    → s.frame ≡ fr
    → task_of fr ≡ some task
    → Fate task s (dispatch w fr ev s)
unfolding dispatch
dispatch-Fate w (writing_header t start) ev s task q e h = ground arith
dispatch-Fate w (writing_payload t start) ev s task q e h = ground arith
dispatch-Fate w (reading_header t start) ev s task q e h = ground arith
dispatch-Fate w (reading_body t start r) ev s task q e h = ground arith
dispatch-Fate w not_started ev s task q e h = absurd (cc)
dispatch-Fate w reading_greeting ev s task q e h = absurd (cc)
dispatch-Fate w awaiting_task ev s task q e h = absurd (cc)
dispatch-Fate w finished ev s task q e h = absurd (cc)

-- A step decides what becomes of the task that the session holds: it holds it still, or has put it
-- back and counted it as failed, or has counted it as completed, where telling of a completion
-- throws no exception.
pub wake-Fate :
    (w : Around) (ev : Event) (s : Session) (task : TaskMessage)
    → w.completion_throws ≡ false
    → task_of s.frame ≡ some task
    → Fate task s (wake w ev s)
unfolding wake
wake-Fate w ev s task q h = dispatch-Fate w s.frame ev s task q refl h
