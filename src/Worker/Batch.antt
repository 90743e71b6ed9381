-- ===== src/Worker/Batch.antt =====
-- worker/runtime/BlockingRuntime.cpp: a whole run of the loop.
use task_messenger.Common.{
  ℕ, zero, suc, ◌+◌, ◌≤◌, ◌<◌, ◌≡◌, refl, sym, ◌∙◌, Bool, true, false, Option, some, List, [], ◌∷◌,
  ◌++◌, append_assoc, append-nil, arith, length, length-append,
}
use task_messenger.Message.{u32_max}
use task_messenger.Session.{Errc}
use task_messenger.Transport.Blocking.{Stream}
use task_messenger.Skills.{SkillRegistry}
use task_messenger.Worker.Frames.{read_task}
use task_messenger.Worker.Runtime.{Runtime, Turn, returns, goes_on, run_turn, loop, run_loop}
use task_messenger.Worker.Serving.{wire, Task, frame_of, IsSendable, response, after_task, turn_lem}

-- No pause is requested meanwhile.
abbrev pub never : ℕ → Bool
never _ = false

abbrev pub frames_of : List Task → List ℕ
frames_of [] = []
frames_of (t ∷ ts) = frame_of t ++ frames_of ts

-- The tasks are sendable, and each has the response beside it.
abbrev pub Answered : SkillRegistry → List (Task × Task) → Type 0
Answered registry [] = Unit {0}
Answered registry ((t, t') ∷ pairs) =
    (IsSendable t × (response registry t ≡ some t') × (length t'.payload ≤ u32_max))
    × Answered registry pairs

abbrev pub tasks : List (Task × Task) → List Task
tasks [] = []
tasks ((t, t') ∷ pairs) = t ∷ tasks pairs

abbrev pub responses : List (Task × Task) → List Task
responses [] = []
responses ((t, t') ∷ pairs) = t' ∷ responses pairs

-- The runtime when it has served all of them.
abbrev pub after_tasks : List (Task × Task) → Stream → Runtime → Runtime
after_tasks pairs s r = record r {
  socket = some s;
  tasks_completed = r.tasks_completed + length pairs;
  bytes_sent = r.bytes_sent + length (frames_of (responses pairs));
  bytes_received = r.bytes_received + length (frames_of (tasks pairs));
}

end_lem :
    (registry : SkillRegistry) (out : List ℕ) (s : Stream) (r : Runtime) (e : Errc)
    → s.ends ≡ true
    → s.read_fault ≡ some e
    → r.pause_requested ≡ false
    → run_turn registry (wire s [] out) r
      ≡ (returns false, record r { socket = some (wire s [] out) })
unfolding run_turn read_task
end_lem registry out s r e c h p = ground (arith, c, h)

loop_step :
    (registry : SkillRegistry) (fuel : ℕ) (s s' : Stream) (r r' : Runtime)
    → run_turn registry s r ≡ (goes_on, r')
    → r'.socket ≡ some s'
    → loop registry never (suc fuel) s r ≡ loop registry never fuel s' r'
unfolding loop
loop_step registry fuel s s' r r' e h = ground (arith, e, h)

loop_end :
    (registry : SkillRegistry) (fuel : ℕ) (s : Stream) (r r' : Runtime) (b : Bool)
    → run_turn registry s r ≡ (returns b, r')
    → loop registry never (suc fuel) s r ≡ some (returns b, r')
unfolding loop
loop_end registry fuel s r r' b e = ground (arith, e)

-- A runtime with these totals has ended its loop.
abbrev ended : ℕ → ℕ → ℕ → List ℕ → Stream → Runtime → Option (Turn × Runtime)
ended n sent received out s r = some (
  returns false,
  record r {
    socket = some (wire s [] out);
    tasks_completed = n;
    bytes_sent = sent;
    bytes_received = received;
  },
)

same_end :
    {n n' b b' c c' : ℕ} {out out' : List ℕ} (s : Stream) (r : Runtime)
    → n ≡ n'
    → b ≡ b'
    → c ≡ c'
    → out ≡ out'
    → ended n b c out s r ≡ ended n' b' c' out' s r
same_end s r e f g h = rw (e, f, g, h) refl

length-frame :
    (t : Task) (n : ℕ) (rest : List ℕ)
    → n + (12 + length t.payload) + length rest ≡ n + length (frame_of t ++ rest)
length-frame t n rest = omega (arith, length-append t.payload rest)

loop_lem :
    (registry : SkillRegistry) (pairs : List (Task × Task)) (fuel : ℕ) (out : List ℕ) (s : Stream)
    (r : Runtime) (e : Errc)
    → Answered registry pairs
    → length pairs < fuel
    → s.ends ≡ true
    → s.read_fault ≡ some e
    → r.pause_requested ≡ false
    → loop registry never fuel (wire s (frames_of (tasks pairs)) out) r
      ≡ some (returns false, after_tasks pairs (wire s [] (out ++ frames_of (responses pairs))) r)
loop_lem registry pairs zero out s r e a f c h p = absurd (omega arith)
loop_lem registry [] (suc fuel) out s r e a f c h p =
    loop_end registry fuel (wire s [] out) r _ false (end_lem registry out s r e c h p)
    ∙ same_end s r (omega arith) (omega arith) (omega arith) (sym (append-nil out))
loop_lem registry ((t, t') ∷ pairs) (suc fuel) out s r e a f c h p =
    let rest = frames_of (tasks pairs) in
    let s' = wire s rest (out ++ frame_of t') in
    let r' = after_task t t' s' r in
    loop_step registry fuel (wire s (frame_of t ++ rest) out) s' r r'
      (turn_lem registry t t' rest out s r a.0.0 a.0.1 a.0.2 p) refl
    ∙ (loop_lem registry pairs fuel (out ++ frame_of t') s r' e a.1 (omega arith) c h p
        ∙ same_end s r (omega arith) (length-frame t' r.bytes_sent (frames_of (responses pairs)))
            (length-frame t r.bytes_received rest)
            (append_assoc out (frame_of t') (frames_of (responses pairs))))

run_loop_on :
    (registry : SkillRegistry) (fuel : ℕ) (s : Stream) (r : Runtime)
    → r.socket ≡ some s
    → run_loop registry never fuel r
      ≡ loop registry never fuel s
          (record r { pause_requested = false; disconnect_requested = false })
unfolding run_loop
run_loop_on registry fuel s r h = ground (arith, h)

-- A worker that is sent tasks back to back answers each of them in order with its skill's response,
-- counts the tasks and the bytes of both directions, and comes back with a failure when the
-- connection ends, provided that the tasks fit, their skills succeed, and no pause is requested.
pub run_loop_serves :
    (registry : SkillRegistry) (pairs : List (Task × Task)) (fuel : ℕ) (s : Stream) (r : Runtime)
    (e : Errc)
    → Answered registry pairs
    → length pairs < fuel
    → s.ends ≡ true
    → s.read_fault ≡ some e
    → r.socket ≡ some (wire s (frames_of (tasks pairs)) [])
    → run_loop registry never fuel r
      ≡ some (
        returns false,
        after_tasks pairs
            (wire s [] (frames_of (responses pairs)))
            (record r { pause_requested = false; disconnect_requested = false }),
      )
run_loop_serves registry pairs fuel s r e a f c h o =
    run_loop_on registry fuel (wire s (frames_of (tasks pairs)) []) r o
    ∙ loop_lem registry pairs fuel [] s
        (record r { pause_requested = false; disconnect_requested = false }) e a f c h refl
