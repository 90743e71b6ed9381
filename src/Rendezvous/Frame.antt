-- ===== src/Rendezvous/Frame.antt =====
-- rendezvous/RendezvousProtocol.hpp: framed messages over a blocking stream.
use task_messenger.Common.{
  ℕ, zero, suc, ◌+◌, ◌-◌, ◌%◌, ◌^◌, true, false, none, some, List, ◌≡◌, ap, [], ◌∷◌, ◌++◌, ltb,
  ◌==◌, if◌then◌else◌, length, drop,
}
use task_messenger.Session.{Errc}
use task_messenger.Transport.Blocking.{Stream, is_waiting, read_some, write_some, le32, from_le32}

pub data FrameError : Type 0 where
  stream_error : Errc → FrameError
  connection_closed too_short too_long : FrameError

-- What a call comes to; `blocked` is one that waits for bytes which do not come. Fuel that is used
-- up would give it too; the loops are given a turn for each byte, which is enough.
pub data Outcome {ℓ} (A : Type ℓ) : Type ℓ where
  ok : A → Outcome A
  throws : FrameError → Outcome A
  blocked : Outcome A

abbrev pub Action {ℓ} : Type ℓ → Type ℓ
Action A = Stream → Outcome A × Stream

abbrev pub return {ℓ} : {A : Type ℓ} → A → Action A
return a s = (ok a, s)

abbrev pub raise {ℓ} : {A : Type ℓ} → FrameError → Action A
raise e s = (throws e, s)

abbrev pub continue {ℓ κ} : {A : Type ℓ} {B : Type κ} → Outcome A → (A → Action B) → Action B
continue (ok a) f s = f a s
continue (throws e) f s = (throws e, s)
continue blocked f s = (blocked, s)

infixl 5 ◌>>=◌
abbrev pub ◌>>=◌ {ℓ κ} : {A : Type ℓ} {B : Type κ} → Action A → (A → Action B) → Action B
(m >>= f) s = continue (m s).0 f (m s).1

abbrev pub max_frame_payload : ℕ
max_frame_payload = 65536

-- The loop of `read_exact`: each turn brings a byte at least, so that `size` turns are enough.
unfoldable pub read_exact_from : ℕ → ℕ → List ℕ → Action (List ℕ)
read_exact_from zero remaining got s = if ltb 0 remaining then (blocked, s) else (ok got, s)
read_exact_from (suc fuel) remaining got s = elim (ltb 0 remaining) [
  | false ↦ (ok got, s)
  | true ↦ elim (is_waiting s) [
    | true ↦ (blocked, s)
    | false ↦
        let ((bs, e), s') = read_some remaining s in
        elim e [
          | some x ↦ (throws (stream_error x), s')
          | none ↦
              if length bs == 0
              then (throws connection_closed, s')
              else read_exact_from fuel (remaining - length bs) (got ++ bs) s'
        ]
  ]
]

unfoldable pub read_exact : ℕ → Action (List ℕ)
unfolding read_exact_from
read_exact size = read_exact_from size size []

unfoldable pub write_exact_from : ℕ → List ℕ → Action (Unit {0})
write_exact_from zero bs s = if ltb 0 (length bs) then (blocked, s) else (ok tt, s)
write_exact_from (suc fuel) bs s = elim (ltb 0 (length bs)) [
  | false ↦ (ok tt, s)
  | true ↦
      let ((n, e), s') = write_some bs s in
      elim e [
        | some x ↦ (throws (stream_error x), s')
        | none ↦
            if n == 0 then (throws connection_closed, s') else write_exact_from fuel (drop n bs) s'
      ]
]

unfoldable pub write_exact : List ℕ → Action (Unit {0})
unfolding write_exact_from
write_exact bs = write_exact_from (length bs) bs

abbrev pub head_of : List ℕ → ℕ
head_of [] = 0
head_of (b ∷ bs) = b

abbrev pub decode_length : List ℕ → ℕ
decode_length (a ∷ b ∷ c ∷ d ∷ _) = from_le32 a b c d
decode_length _ = 0

unfoldable pub read_body : ℕ → Action (List ℕ)
read_body json_len = if ltb 0 json_len then read_exact json_len else return []

abbrev pub read_parts : ℕ → Action (ℕ × List ℕ)
read_parts json_len = do
  type_byte ← read_exact 1
  json_body ← read_body json_len
  return (head_of type_byte, json_body)

-- `read_message` behind the length. The type byte is not checked here.
unfoldable pub read_payload : ℕ → Action (ℕ × List ℕ)
read_payload payload_len =
    if ltb payload_len 1
    then raise too_short
    else if ltb max_frame_payload payload_len
    then raise too_long
    else read_parts (payload_len - 1)

unfoldable pub read_message : Action (ℕ × List ℕ)
read_message = do len_buf ← read_exact 4; read_payload (decode_length len_buf)

abbrev pub write_parts : List ℕ → List ℕ → List ℕ → Action (Unit {0})
write_parts len_buf type_byte json_body = do
  _ ← write_exact len_buf
  _ ← write_exact type_byte
  write_exact json_body

-- `1 + json_body.size()` is cast to 32 bits before it is tested.
unfoldable pub write_message : ℕ → List ℕ → Action (Unit {0})
write_message type json_body =
    let payload_len = (1 + length json_body) % 2 ^ 32 in
    if ltb max_frame_payload payload_len
    then raise too_long
    else write_parts (le32 payload_len) (type ∷ []) json_body

-- An action goes on with what the one before it gives.
pub bind_ok {ℓ κ} :
    {A : Type ℓ} {B : Type κ} (m : Action A) (f : A → Action B) (s : Stream) {s' : Stream} {a : A}
    → m s ≡ (ok a, s')
    → (m >>= f) s ≡ f a s'
bind_ok m f s e = ap (λ r. continue r.0 f r.1) e
