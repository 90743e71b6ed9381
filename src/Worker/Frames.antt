-- ===== src/Worker/Frames.antt =====
-- worker/runtime/BlockingRuntime.cpp: reading a task and writing a response.
use task_messenger.Common.{
  ℕ, ◌+◌, true, false, none, some, List, [], ◌∷◌, ◌++◌, ltb, ◌==◌, if◌then◌else◌, length, drop,
}
use task_messenger.Message.{
  TaskHeader, PayloadBuffer, TaskMessage, Result, new_message, payload_bytes,
}
use task_messenger.Session.{Errc}
use task_messenger.Transport.Blocking.{Stream, is_waiting, read_some, write_some, le32, from_le32}

pub data TaskError : Type 0 where
  stream_failed : Errc → TaskError
  protocol_error message_size length_error : TaskError

-- What a read or a write comes to; `waits` is a read of an open connection that brings nothing.
pub data Done {ℓ} (A : Type ℓ) : Type ℓ where
  ok : A → Done A
  throws : TaskError → Done A
  waits : Done A

abbrev pub max_frame_size : ℕ
max_frame_size = 16777216

-- A `TaskHeader` as it lies in memory.
abbrev pub encode_header : TaskHeader → List ℕ
encode_header h = le32 h.task_id ++ le32 h.body_size ++ le32 h.skill_id

abbrev word : List ℕ → ℕ
word (a ∷ b ∷ c ∷ d ∷ _) = from_le32 a b c d
word _ = 0

abbrev pub decode_header : List ℕ → TaskHeader
decode_header bs = record {
  task_id = word bs;
  body_size = word (drop 4 bs);
  skill_id = word (drop 8 bs);
}

-- One read that has to be whole.
abbrev pub read_whole : ℕ → Stream → Done (List ℕ) × Stream
read_whole size s = elim (is_waiting s) [
  | true ↦ (waits, s)
  | false ↦
      let ((bs, e), s') = read_some size s in
      elim e [
        | some x ↦ (throws (stream_failed x), s')
        | none ↦ if length bs == size then (ok bs, s') else (throws protocol_error, s')
      ]
]

-- The header, the payload, and the count of bytes read.
abbrev pub Read : Type 0
Read = TaskHeader × List ℕ × ℕ

abbrev pub with_body : TaskHeader → Done (List ℕ) × Stream → Done Read × Stream
with_body header (ok payload, s) = (ok (header, payload, 12 + length payload), s)
with_body header (throws e, s) = (throws e, s)
with_body header (waits, s) = (waits, s)

abbrev pub read_rest : TaskHeader → Stream → Done Read × Stream
read_rest header s =
    if ltb max_frame_size header.body_size
    then (throws message_size, s)
    else if ltb 0 header.body_size
    then with_body header (read_whole header.body_size s)
    else (ok (header, [], 12), s)

abbrev pub after_header : Done (List ℕ) × Stream → Done Read × Stream
after_header (ok bs, s) = read_rest (decode_header bs) s
after_header (throws e, s) = (throws e, s)
after_header (waits, s) = (waits, s)

unfoldable pub read_task : Stream → Done Read × Stream
read_task s = after_header (read_whole 12 s)

abbrev pub write_whole : List ℕ → Stream → Done ℕ × Stream
write_whole bs s =
    let ((n, e), s') = write_some bs s in
    elim e [
      | some x ↦ (throws (stream_failed x), s')
      | none ↦ if n == length bs then (ok n, s') else (throws protocol_error, s')
    ]

abbrev pub add_count : ℕ → Done ℕ × Stream → Done ℕ × Stream
add_count n (ok k, s) = (ok (n + k), s)
add_count n (throws e, s) = (throws e, s)
add_count n (waits, s) = (waits, s)

abbrev pub write_payload : List ℕ → Done ℕ × Stream → Done ℕ × Stream
write_payload payload (throws e, s) = (throws e, s)
write_payload payload (waits, s) = (waits, s)
write_payload payload (ok n, s) = elim payload [
  | [] ↦ (ok n, s)
  | b ∷ bs ↦ add_count n (write_whole (b ∷ bs) s)
]

abbrev pub write_parts : Result TaskMessage → Stream → Done ℕ × Stream
write_parts (Result.throw _) s = (throws length_error, s)
write_parts (Result.ok response) s =
    write_payload (payload_bytes response) (write_whole (encode_header response.header) s)

-- The count of bytes written.
unfoldable pub write_response : ℕ → PayloadBuffer → Stream → Done ℕ × Stream
unfolding new_message
write_response task_id payload s = write_parts (new_message task_id (some payload) none) s
