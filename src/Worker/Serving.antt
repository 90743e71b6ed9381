-- ===== src/Worker/Serving.antt =====
-- worker/runtime/BlockingRuntime.cpp: what a worker does with the tasks that it is sent. Here each
-- call on the stream moves all that it can, as the calls of a blocking ZeroTier socket do.
use task_messenger.Common.{
  Option-cases, Bool-cases, ℕ, suc, ◌+◌, ◌≤◌, ◌<◌, ◌^◌, ◌≡◌, refl, ap, sym, ◌∙◌, inl, inr, Bool,
  true, false, Option, none, some, List, [], ◌∷◌, ◌++◌, append_assoc, arith, length, take,
  take-append, drop-append, if◌then◌else◌,
}
use task_messenger.Message.{TaskHeader, PayloadBuffer, u32_max}
use task_messenger.Transport.Blocking.{Stream, from_le32-le32}
use task_messenger.Skills.{SkillRegistry, create_response_buffer, dispatch}
use task_messenger.Worker.Frames.{
  ok, encode_header, decode_header, max_frame_size, read_whole, read_rest, read_task, write_whole,
  write_response,
}
use task_messenger.Worker.Runtime.{
  execute, serve_read, answer, count_sent, Runtime, Turn, goes_on, run_turn,
}

-- A stream with these bytes to read, and these written so far.
abbrev pub wire : Stream → List ℕ → List ℕ → Stream
wire s incoming outgoing = record s {
  incoming = incoming;
  chunks = [];
  write_fault = none;
  outgoing = outgoing;
  takes = [];
}

-- A task as the dispatcher sends it.
pub record Task : Type 0 where
  pub task_id : ℕ
  pub skill_id : ℕ
  pub payload : List ℕ

abbrev pub header_of : Task → TaskHeader
header_of t = record { task_id = t.task_id; body_size = length t.payload; skill_id = t.skill_id }

abbrev pub frame_of : Task → List ℕ
frame_of t = encode_header (header_of t) ++ t.payload

abbrev pub IsSendable : Task → Type 0
IsSendable t = (t.task_id < 2 ^ 32) × (t.skill_id < 2 ^ 32) × (length t.payload ≤ max_frame_size)

read_whole_lem :
    (b : ℕ) (bs rest out : List ℕ) (s : Stream)
    → read_whole (suc (length bs)) (wire s (b ∷ bs ++ rest) out) ≡ (ok (b ∷ bs), wire s rest out)
read_whole_lem b bs rest out s = rw (take-append bs rest, drop-append bs rest) (ground arith)

take_whole : (bs : List ℕ) → take (length bs) bs ≡ bs
take_whole [] = refl
take_whole (b ∷ bs) = ap (λ zs. b ∷ zs) (take_whole bs)

write_whole_lem :
    (b : ℕ) (bs incoming out : List ℕ) (s : Stream)
    → write_whole (b ∷ bs) (wire s incoming out)
      ≡ (ok (suc (length bs)), wire s incoming (out ++ b ∷ bs))
write_whole_lem b bs incoming out s = rw (take_whole bs) (ground arith)

decode-encode :
    (t : Task) → IsSendable t → decode_header (encode_header (header_of t)) ≡ header_of t
decode-encode t h =
    rw
      (
        from_le32-le32 t.task_id h.0,
        from_le32-le32 (length t.payload) (omega arith),
        from_le32-le32 t.skill_id h.1,
      )
      refl

read_rest_lem :
    (id skill : ℕ) (payload rest out : List ℕ) (s : Stream)
    → length payload ≤ max_frame_size
    → let header : TaskHeader = record {
      task_id = id;
      body_size = length payload;
      skill_id = skill;
    } in
      read_rest header (wire s (payload ++ rest) out)
      ≡ (ok (header, payload, 12 + length payload), wire s rest out)
read_rest_lem id skill [] rest out s h = ground arith
read_rest_lem id skill (b ∷ bs) rest out s h = ground (arith, read_whole_lem b bs rest out s)

read_task_lem :
    (t : Task) (rest out : List ℕ) (s : Stream)
    → IsSendable t
    → read_task (wire s (frame_of t ++ rest) out)
      ≡ (ok (header_of t, t.payload, 12 + length t.payload), wire s rest out)
unfolding read_task
read_task_lem t rest out s h =
    ap (λ header. read_rest header (wire s (t.payload ++ rest) out)) (decode-encode t h)
    ∙ read_rest_lem t.task_id t.skill_id t.payload rest out s h.2

-- The response to a task, where its skill succeeds.
abbrev response_of : Task → PayloadBuffer → Bool × List ℕ → Option Task
response_of t buffer (false, _) = none
response_of t buffer (true, bytes) =
    some (record { task_id = t.task_id; skill_id = buffer.skill_id; payload = bytes })

abbrev pub response : SkillRegistry → Task → Option Task
response registry t = elim (create_response_buffer registry t.skill_id t.payload) [
  | none ↦ none
  | some buffer ↦ response_of t buffer (dispatch registry t.skill_id t.payload buffer.bytes)
]

write_parts_lem :
    (id skill : ℕ) (bytes incoming out : List ℕ) (s : Stream)
    → length bytes ≤ u32_max
    → write_response id (record { bytes = bytes; skill_id = skill }) (wire s incoming out) ≡ (
      ok (12 + length bytes),
      wire s incoming
          (out ++ frame_of (record { task_id = id; skill_id = skill; payload = bytes })),
    )
unfolding write_response
write_parts_lem id skill [] incoming out s h = refl
write_parts_lem id skill (b ∷ bs) incoming out s h =
    let header : TaskHeader = record {
      task_id = id;
      body_size = suc (length bs);
      skill_id = skill;
    } in
    ground (
      arith,
      write_whole_lem b bs incoming (out ++ encode_header header) s,
      append_assoc out (encode_header header) (b ∷ bs),
    )

response_parts :
    (registry : SkillRegistry) (t t' : Task)
    → response registry t ≡ some t'
    → (buffer : PayloadBuffer) × (create_response_buffer registry t.skill_id t.payload
        ≡ some buffer)
      × (let done = dispatch registry t.skill_id t.payload buffer.bytes in
          (done.0 ≡ true)
          × (t' ≡ record { task_id = t.task_id; skill_id = buffer.skill_id; payload = done.1 }))
response_parts registry t t' e =
    elim (Option-cases (create_response_buffer registry t.skill_id t.payload)) [
      | inl c ↦ absurd (ground arith)
      | inr (buffer, c) ↦
          elim (Bool-cases (dispatch registry t.skill_id t.payload buffer.bytes).0) [
            | inr d ↦ absurd (ground arith)
            | inl d ↦ (buffer, c, (d, ground arith))
          ]
    ]

-- The runtime when it has served `t` with `t'`.
abbrev pub after_task : Task → Task → Stream → Runtime → Runtime
after_task t t' s r = record r {
  socket = some s;
  tasks_completed = suc r.tasks_completed;
  bytes_sent = r.bytes_sent + (12 + length t'.payload);
  bytes_received = r.bytes_received + (12 + length t.payload);
}

goes_past : (b : Bool) (x y : Turn × Runtime) → b ≡ false → (if b then x else y) ≡ y
goes_past b x y p = ground arith

pub turn_lem :
    (registry : SkillRegistry) (t t' : Task) (rest out : List ℕ) (s : Stream) (r : Runtime)
    → IsSendable t
    → response registry t ≡ some t'
    → length t'.payload ≤ u32_max
    → r.pause_requested ≡ false
    → run_turn registry (wire s (frame_of t ++ rest) out) r
      ≡ (goes_on, after_task t t' (wire s rest (out ++ frame_of t')) r)
unfolding run_turn
turn_lem registry t t' rest out s r h e l p =
    let (buffer, c, (d, same)) = response_parts registry t t' e in
    let done = dispatch registry t.skill_id t.payload buffer.bytes in
    let header = header_of t in
    let s1 = wire s rest out in
    let r1 = record r { bytes_received = r.bytes_received + (12 + length t.payload) } in
    let fits : length done.1 ≤ u32_max = rw (← ap (λ u. length u.payload) same) l in
    let reads : run_turn registry (wire s (frame_of t ++ rest) out) r
        ≡ execute registry header t.payload (create_response_buffer registry t.skill_id t.payload)
            s1 r1 =
      goes_past r.pause_requested _ _ p
      ∙ ap (λ m. serve_read registry m r) (read_task_lem t rest out s h) in
    reads
    ∙ (ap (λ o. execute registry header t.payload o s1 r1) c
        ∙ (ap (λ b. answer registry header buffer (b, done.1) s1 r1) d
            ∙ (ap (λ m. count_sent registry m r1)
                  (write_parts_lem t.task_id buffer.skill_id done.1 rest out s fits)
                ∙ ap (λ u. (goes_on, after_task t u (wire s rest (out ++ frame_of u)) r))
                    (sym same))))
