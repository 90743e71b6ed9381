-- ===== src/Worker/Progress.antt =====
-- worker/runtime/BlockingRuntime.cpp: the loop over the tasks of a connection ends.
use task_messenger.Common.{
  ℕ, zero, suc, ◌+◌, ◌≤◌, ◌<◌, ◌≡◌, refl, ◌∙◌, Bool, true, false, Option, none, some, List, [], ◌∷◌,
  arith, length, take, drop, if◌then◌else◌, if_both, sym, subst,
}
use task_messenger.Message.{
  TaskHeader, PayloadBuffer, TaskMessage, Result, new_message, payload_bytes,
}
use task_messenger.Transport.Blocking.{Stream, limit, read_some-ends, is_waiting_ends}
use task_messenger.Skills.{SkillRegistry, create_response_buffer, dispatch}
use task_messenger.Worker.Frames.{
  TaskError, stream_failed, protocol_error, message_size, length_error, add_count, Done, ok, throws,
  waits, Read, decode_header, read_whole, read_rest, read_task, write_whole, write_response,
  after_header, write_payload, write_parts, encode_header,
}
use task_messenger.Worker.Runtime.{
  Runtime, Turn, returns, goes_on, escapes, stuck, pause, run_turn, loop, run_loop, current,
  execute, answer, count_sent, serve_read,
}

length-take-drop : (k : ℕ) (xs : List ℕ) → length (take k xs) + length (drop k xs) ≡ length xs
length-take-drop zero xs = omega arith
length-take-drop (suc k) [] = omega arith
length-take-drop (suc k) (x ∷ xs) = omega (arith, length-take-drop k xs)

-- A read does not wait; where it succeeds, it takes at least `n` bytes from the stream, whose
-- connection ends as before.
abbrev Takes {ℓ} : {A : Type ℓ} → ℕ → Stream → Done A × Stream → Type 0
Takes n s (ok _, s') = (length s'.incoming + n ≤ length s.incoming) × (s'.ends ≡ true)
Takes n s (throws _, s') = Unit {0}
Takes n s (waits, s') = ⊥

read_whole-Takes : (n : ℕ) (s : Stream) → s.ends ≡ true → Takes n s (read_whole n s)
read_whole-Takes n s e = ground (
  arith,
  is_waiting_ends s e,
  read_some-ends n s ∙ e,
  length-take-drop (limit s.chunks n) s.incoming,
)

read_rest-Takes :
    (header : TaskHeader) (s : Stream) → s.ends ≡ true → Takes 0 s (read_rest header s)
read_rest-Takes header s e = ground (arith, e, read_whole-Takes header.body_size s e)

Takes-trans :
    {A : Type 0} (n : ℕ) (s s1 : Stream) (r : Done A × Stream)
    → length s1.incoming + n ≤ length s.incoming
    → Takes 0 s1 r
    → Takes n s r
Takes-trans n s s1 (ok a, s') h (t, e) = (omega arith, e)
Takes-trans n s s1 (throws e, s') h t = tt
Takes-trans n s s1 (waits, s') h t = absurd t

after_header-Takes :
    (d : Done (List ℕ)) (s s1 : Stream) → Takes 12 s (d, s1) → Takes 12 s (after_header (d, s1))
after_header-Takes (ok bs) s s1 t =
    Takes-trans 12 s s1 (read_rest (decode_header bs) s1) t.0
      (read_rest-Takes (decode_header bs) s1 t.1)
after_header-Takes (throws e) s s1 t = tt
after_header-Takes waits s s1 t = absurd t

read_task-Takes : (s : Stream) → s.ends ≡ true → Takes 12 s (read_task s)
unfolding read_task
read_task-Takes s e =
    after_header-Takes (read_whole 12 s).0 s (read_whole 12 s).1 (read_whole-Takes 12 s e)

-- A write leaves what is to be read, and the end of the connection.
abbrev IsUnread : Stream → Stream → Type 0
IsUnread s s' = (s'.incoming ≡ s.incoming) × (s'.ends ≡ s.ends)

write_whole-IsUnread : (bs : List ℕ) (s : Stream) → IsUnread s (write_whole bs s).1
write_whole-IsUnread bs s = ground arith

-- A write comes to something.
abbrev Wrote : Stream → Done ℕ × Stream → Type 0
Wrote s (ok n, s') = IsUnread s s'
Wrote s (throws e, s') = IsUnread s s'
Wrote s (waits, s') = ⊥

write_whole-Wrote : (bs : List ℕ) (s : Stream) → Wrote s (write_whole bs s)
write_whole-Wrote bs s = ground (arith, write_whole-IsUnread bs s)

add_count-Wrote : (n : ℕ) (s : Stream) (x : Done ℕ × Stream) → Wrote s x → Wrote s (add_count n x)
add_count-Wrote n s (ok k, s') h = h
add_count-Wrote n s (throws e, s') h = h
add_count-Wrote n s (waits, s') h = absurd h

Wrote-trans : (s s1 : Stream) (x : Done ℕ × Stream) → IsUnread s s1 → Wrote s1 x → Wrote s x
Wrote-trans s s1 (ok k, s') (a, b) (c, d) = (c ∙ a, d ∙ b)
Wrote-trans s s1 (throws e, s') (a, b) (c, d) = (c ∙ a, d ∙ b)
Wrote-trans s s1 (waits, s') u h = absurd h

write_payload-Wrote :
    (bs : List ℕ) (s : Stream) (x : Done ℕ × Stream) → Wrote s x → Wrote s (write_payload bs x)
write_payload-Wrote bs s (throws e, s1) h = h
write_payload-Wrote bs s (waits, s1) h = absurd h
write_payload-Wrote [] s (ok n, s1) h = h
write_payload-Wrote (b ∷ bs) s (ok n, s1) h =
    Wrote-trans s s1 _ h
      (add_count-Wrote n s1 (write_whole (b ∷ bs) s1) (write_whole-Wrote (b ∷ bs) s1))

write_parts-Wrote : (m : Result TaskMessage) (s : Stream) → Wrote s (write_parts m s)
write_parts-Wrote (Result.throw e) s = (refl, refl)
write_parts-Wrote (Result.ok m) s =
    write_payload-Wrote (payload_bytes m) s (write_whole (encode_header m.header) s)
      (write_whole-Wrote (encode_header m.header) s)

write_response-Wrote :
    (id : ℕ) (payload : PayloadBuffer) (s : Stream) → Wrote s (write_response id payload s)
unfolding write_response
write_response-Wrote id payload s = write_parts-Wrote (new_message id (some payload) none) s

-- The loop returns, or an exception leaves it.
abbrev pub IsOver : Turn → Type 0
IsOver (returns b) = Unit {0}
IsOver escapes = Unit {0}
IsOver goes_on = ⊥
IsOver stuck = ⊥

-- The loop has come to an end.
abbrev pub Finishes : Option (Turn × Runtime) → Type 0
Finishes none = ⊥
Finishes (some (turn, r)) = IsOver turn

module _ (registry : SkillRegistry) where
  -- A turn ends the loop, or has taken a header from the stream that the loop goes on with, and
  -- whose connection ends.
  abbrev Advances : Stream → Turn × Runtime → Type 0
  Advances s (returns b, r) = Unit {0}
  Advances s (escapes, r) = Unit {0}
  Advances s (stuck, r) = ⊥
  Advances s (goes_on, r) =
      (length (current registry s r.socket).incoming < length s.incoming)
      × ((current registry s r.socket).ends ≡ true)

  throws-Advances :
      (e : TaskError) (s s0 : Stream) (r : Runtime)
      → Advances s0 (count_sent registry (throws e, s) r)
  throws-Advances length_error s s0 r = tt
  throws-Advances (stream_failed e) s s0 r = tt
  throws-Advances protocol_error s s0 r = tt
  throws-Advances message_size s s0 r = tt

  count_sent-Advances :
      (x : Done ℕ × Stream) (s s0 : Stream) (r : Runtime)
      → (length s.incoming < length s0.incoming) × (s.ends ≡ true)
      → Wrote s x
      → Advances s0 (count_sent registry x r)
  count_sent-Advances (ok n, s1) s s0 r (h, e) (same, still) = (rw same h, still ∙ e)
  count_sent-Advances (throws e, s1) s s0 r h w = throws-Advances e s1 s0 r
  count_sent-Advances (waits, s1) s s0 r h w = absurd w

  answer-Advances :
      (header : TaskHeader) (buffer : PayloadBuffer) (done : Bool × List ℕ) (s s0 : Stream)
      (r : Runtime)
      → (length s.incoming < length s0.incoming) × (s.ends ≡ true)
      → Advances s0 (answer registry header buffer done s r)
  answer-Advances header buffer (false, bytes) s s0 r h = tt
  answer-Advances header buffer (true, bytes) s s0 r h =
      let reply : PayloadBuffer = record buffer { bytes = bytes } in
      count_sent-Advances (write_response header.task_id reply s) s s0 r h
        (write_response-Wrote header.task_id reply s)

  execute-Advances :
      (header : TaskHeader) (payload : List ℕ) (o : Option PayloadBuffer) (s s0 : Stream)
      (r : Runtime)
      → (length s.incoming < length s0.incoming) × (s.ends ≡ true)
      → Advances s0 (execute registry header payload o s r)
  execute-Advances header payload none s s0 r h = tt
  execute-Advances header payload (some buffer) s s0 r h =
      answer-Advances header buffer (dispatch registry header.skill_id payload buffer.bytes) s s0 r
        h

  serve_read-Advances :
      (d : Done Read) (s s0 : Stream) (r : Runtime)
      → Takes 12 s0 (d, s)
      → Advances s0 (serve_read registry (d, s) r)
  serve_read-Advances (throws e) s s0 r t = tt
  serve_read-Advances waits s s0 r t = absurd t
  serve_read-Advances (ok (header, payload, n)) s s0 r t =
      execute-Advances header payload (create_response_buffer registry header.skill_id payload) s s0
        (record r { bytes_received = r.bytes_received + n }) (omega arith, t.1)

  run_turn-Advances :
      (s : Stream) (r : Runtime) → s.ends ≡ true → Advances s (run_turn registry s r)
  unfolding run_turn
  run_turn-Advances s r e =
      if_both (Advances s) r.pause_requested _ _ tt
        (serve_read-Advances (read_task s).0 (read_task s).1 s r (read_task-Takes s e))

  -- The rest of the loop behind a turn.
  abbrev behind : (ℕ → Bool) → ℕ → Stream → Turn × Runtime → Option (Turn × Runtime)
  behind pauses fuel s (turn, r') =
      let rest = loop registry pauses fuel (current registry s r'.socket) r' in
      elim turn [
        | returns success ↦ some (returns success, r')
        | goes_on ↦ rest
        | escapes ↦ some (escapes, r')
        | stuck ↦ some (stuck, r')
      ]

  behind-Finishes :
      (pauses : ℕ → Bool) (fuel : ℕ) (s : Stream) (x : Turn × Runtime)
      → Advances s x
      → ((s' : Stream) (r' : Runtime)
          → length s'.incoming < length s.incoming
          → s'.ends ≡ true
          → Finishes (loop registry pauses fuel s' r'))
      → Finishes (behind pauses fuel s x)
  behind-Finishes pauses fuel s (returns b, r) a ih = tt
  behind-Finishes pauses fuel s (escapes, r) a ih = tt
  behind-Finishes pauses fuel s (stuck, r) a ih = absurd a
  behind-Finishes pauses fuel s (goes_on, r) (h, e) ih = ih (current registry s r.socket) r h e

  loop-Finishes :
      (pauses : ℕ → Bool) (fuel : ℕ) (s : Stream) (r : Runtime)
      → length s.incoming < fuel
      → s.ends ≡ true
      → Finishes (loop registry pauses fuel s r)
  unfolding loop
  loop-Finishes pauses zero s r h e = absurd (omega arith)
  loop-Finishes pauses (suc fuel) s r h e =
      let asked = if pauses fuel then pause r else r in
      behind-Finishes pauses fuel s (run_turn registry s asked) (run_turn-Advances s asked e)
        (λ s' r' l e'. loop-Finishes pauses fuel s' r' (omega arith) e')

  -- The loop of a worker comes to an end, by its result or by an exception that it does not catch,
  -- where its connection ends after what the dispatcher has sent: with more turns than there are
  -- bytes to read it is over, whatever the bytes are, however the stream cuts them up, whatever the
  -- skills do, and whenever a pause is requested.
  pub run_loop-Finishes :
      (pauses : ℕ → Bool) (fuel : ℕ) (s : Stream) (r : Runtime)
      → r.socket ≡ some s
      → length s.incoming < fuel
      → s.ends ≡ true
      → Finishes (run_loop registry pauses fuel r)
  unfolding run_loop
  run_loop-Finishes pauses fuel s r h l e =
      subst
        (λ o. Finishes (elim o as (λ _. Option (Turn × Runtime)) [
          | none ↦ some (returns false, r)
          | some s ↦
              loop registry pauses fuel s
                (record r { pause_requested = false; disconnect_requested = false })
        ]))
        (sym h)
        (loop-Finishes pauses fuel s
          (record r { pause_requested = false; disconnect_requested = false }) l e)
