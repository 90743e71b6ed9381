-- ===== src/Session/Round.antt =====
-- dispatcher/session/Session.cpp: a whole round of one task.
use task_messenger.Common.{
  ℕ, suc, ◌+◌, ◌<◌, ◌++◌, ◌≡◌, true, false, some, List, [], ◌∷◌, arith, length,
}
use task_messenger.Message.{TaskHeader, TaskMessage, payload_bytes, is_valid}
use task_messenger.Session.{
  u32, u64, awaiting_task, writing_header, writing_payload, reading_header, reading_body, Session,
  Effect, completes,
}
use task_messenger.Session.Coroutine.{
  Event, task_ready, written, header_read, body_read, Around, dispatch, wake, header_size,
}

-- The coroutine through a list of events, one step to an event, in one setting.
pub serve : Around → List Event → Session → Session × List Effect
serve w [] s = (s, [])
serve w (ev ∷ evs) s =
    let (s', effects) = wake w ev s in let (s'', more) = serve w evs s' in (s'', effects ++ more)

module _ (w : Around) (s : Session) (task : TaskMessage) where
  step_task :
      s.frame ≡ awaiting_task
      → is_valid task ≡ true
      → s.termination_requested ≡ false
      → let (s', effects) = wake w (task_ready task) s in
        (s'.frame ≡ writing_header task w.now.steady)
        × (s'.termination_requested ≡ false)
        × (effects ≡ [])
        × (s'.stats ≡ record (s.stats) { tasks_sent = u32 (s.stats.tasks_sent + 1) })
  unfolding wake dispatch
  step_task fr v n = ground arith

  module _ (start : ℕ) where
    step_header :
        {b : ℕ} {payload : List ℕ}
        → payload_bytes task ≡ b ∷ payload
        → s.frame ≡ writing_header task start
        → s.termination_requested ≡ false
        → let (s', effects) = wake w written s in
          (s'.frame ≡ writing_payload task start)
          × (s'.termination_requested ≡ false)
          × (effects ≡ [])
          × (s'.stats ≡ s.stats)
    unfolding wake dispatch
    step_header p fr n = ground arith

    step_payload :
        s.frame ≡ writing_payload task start
        → s.termination_requested ≡ false
        → let (s', effects) = wake w written s in
          (s'.frame ≡ reading_header task start)
          × (s'.termination_requested ≡ false)
          × (effects ≡ [])
          × (s'.stats ≡ record (s.stats) {
            bytes_sent = u64 (s.stats.bytes_sent + (header_size + length (payload_bytes task)));
          })
    unfolding wake dispatch
    step_payload fr n = ground arith

    module _ (response : TaskHeader) where
      step_answer :
          response.task_id ≡ task.header.task_id
          → 0 < response.body_size
          → s.frame ≡ reading_header task start
          → s.termination_requested ≡ false
          → let (s', effects) = wake w (header_read response) s in
            (s'.frame ≡ reading_body task start response)
            × (s'.termination_requested ≡ false)
            × (effects ≡ [])
            × (s'.stats
                ≡ record (s.stats) { bytes_received = u64 (s.stats.bytes_received + header_size) })
      unfolding wake dispatch
      step_answer i z fr n = ground arith

      step_body :
          (body : List ℕ) (source : ℕ)
          → response.skill_id ≡ task.header.skill_id
          → task.completion_source ≡ some source
          → w.completion_throws ≡ false
          → w.is_open ≡ true
          → s.frame ≡ reading_body task start response
          → s.termination_requested ≡ false
          → let (s', effects) = wake w (body_read body) s in
            (s'.frame ≡ awaiting_task)
            × (effects ≡ completes task response body ∷ [])
            × (s'.stats.tasks_sent ≡ s.stats.tasks_sent)
            × (s'.stats.tasks_completed ≡ u32 (s.stats.tasks_completed + 1))
            × (s'.stats.tasks_failed ≡ s.stats.tasks_failed)
            × (s'.stats.bytes_sent ≡ s.stats.bytes_sent)
            × (s'.stats.bytes_received ≡ u64 (s.stats.bytes_received + length body))
      unfolding wake dispatch
      step_body body source k c q o fr n = ground arith

-- A valid task with a payload is sent, answered and reported: its source is told the answer, the
-- counters and byte counts say so, nothing is put back, and the session waits for its next task.
pub serve_round :
    (w : Around) (s : Session) (task : TaskMessage) (response : TaskHeader) (b : ℕ)
    (payload body : List ℕ) (source : ℕ)
    → s.frame ≡ awaiting_task
    → is_valid task ≡ true
    → payload_bytes task ≡ b ∷ payload
    → response.task_id ≡ task.header.task_id
    → response.skill_id ≡ task.header.skill_id
    → 0 < response.body_size
    → task.completion_source ≡ some source
    → w.completion_throws ≡ false
    → w.is_open ≡ true
    → s.termination_requested ≡ false
    → let (s', effects) =
        serve w
          (task_ready task ∷ written ∷ written ∷ header_read response ∷ body_read body ∷ [])
          s in
      (s'.frame ≡ awaiting_task)
      × (effects ≡ completes task response body ∷ [])
      × (s'.stats.tasks_sent ≡ u32 (s.stats.tasks_sent + 1))
      × (s'.stats.tasks_completed ≡ u32 (s.stats.tasks_completed + 1))
      × (s'.stats.tasks_failed ≡ s.stats.tasks_failed)
      × (s'.stats.bytes_sent ≡ u64 (s.stats.bytes_sent + (header_size + suc (length payload))))
      × (s'.stats.bytes_received ≡ u64 (s.stats.bytes_received + (header_size + length body)))
unfolding serve
serve_round w s task response b payload body source fr v p i k z c q o n =
    let s₁ = (wake w (task_ready task) s).0 in
    let s₂ = (wake w written s₁).0 in
    let s₃ = (wake w written s₂).0 in
    let s₄ = (wake w (header_read response) s₃).0 in
    let start = w.now.steady in
    let taken = step_task w s task fr v n in
    let head = step_header w s₁ task start p taken.0 taken.1 in
    let rest = step_payload w s₂ task start head.0 head.1 in
    let answer = step_answer w s₃ task start response i z rest.0 rest.1 in
    let told = step_body w s₄ task start response body source k c q o answer.0 answer.1 in
    (told.0, ground arith, ground arith, ground arith, ground arith, ground arith, ground arith)
