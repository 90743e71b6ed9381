-- ===== src/Rendezvous/Messages.antt =====
-- rendezvous/RendezvousProtocol.hpp: whole messages.
use task_messenger.Common.{
  ◌-◌, ℕ, ◌+◌, ◌%◌, ◌^◌, ◌≤◌, ◌<◌, ◌≡◌, refl, none, List, [], ◌∷◌, ◌++◌, append_assoc, arith,
  length, All, ap, refl, ◌∙◌, ltb, if◌then◌else◌,
}
use task_messenger.Transport.Blocking.{Stream, le32, from_le32-le32}
use task_messenger.Rendezvous.Frame.{
  ok, read_body, read_message, read_payload, write_message, max_frame_payload, decode_length,
  write_exact, write_parts, bind_ok, ◌>>=◌, Action, return, head_of, read_parts, read_payload,
  decode_length, read_exact,
}
use task_messenger.Rendezvous.RoundTrip.{read_exact_lem, write_exact_lem}

-- The bytes of a message on the wire.
abbrev pub frame : ℕ → List ℕ → List ℕ
frame type body = le32 (1 + length body) ++ type ∷ body

-- A message that the format can hold.
abbrev pub Sendable : List ℕ → Type 0
Sendable body = 1 + length body ≤ max_frame_payload

wrap_lem : (n : ℕ) → 1 + n ≤ max_frame_payload → (1 + n) % 2 ^ 32 ≡ 1 + n
wrap_lem n h = omega arith

pub write_parts_lem :
    (bs type body : List ℕ) (s : Stream)
    → s.write_fault ≡ none
    → All (λ c. 0 < c) s.takes
    → (ts : List ℕ) × (write_parts bs type body s
        ≡ (ok tt, record s { outgoing = ((s.outgoing ++ bs) ++ type) ++ body; takes = ts }))
write_parts_lem bs type body s w p =
    let (ts, q, e) = write_exact_lem bs s w p in
    let s1 = record s { outgoing = s.outgoing ++ bs; takes = ts } in
    let (ts', q', e') = write_exact_lem type s1 w q in
    let s2 = record s1 { outgoing = s1.outgoing ++ type; takes = ts' } in
    let (ts2, q2, e2) = write_exact_lem body s2 w q' in
    (
      ts2,
      bind_ok (write_exact bs) (λ _. write_exact type >>= λ _. write_exact body) s e
          ∙ (bind_ok (write_exact type) (λ _. write_exact body) s1 e' ∙ e2),
    )

frame_lem :
    (out : List ℕ) (type : ℕ) (body : List ℕ)
    → ((out ++ le32 (1 + length body)) ++ type ∷ []) ++ body ≡ out ++ frame type body
frame_lem out type body =
    rw
      (
        append_assoc out (le32 (1 + length body)) (type ∷ []),
        append_assoc out (le32 (1 + length body) ++ type ∷ []) body,
      )
      refl

-- The tests on the length of a message that the format can hold.
not_too_long :
    {A : Type 0} (n : ℕ) (a b : Action A) (s : Stream)
    → n ≤ max_frame_payload
    → (if ltb max_frame_payload n then a else b) s ≡ b s
not_too_long n a b s h = ground arith

not_too_short :
    {A : Type 0} (n : ℕ) (a b : Action A) (s : Stream) → 1 ≤ n → (if ltb n 1 then a else b) s ≡ b s
not_too_short n a b s h = ground arith

fits_lem :
    (type : ℕ) (body : List ℕ) (s : Stream)
    → Sendable body
    → write_message type body s ≡ write_parts (le32 (1 + length body)) (type ∷ []) body s
unfolding write_message
fits_lem type body s h = rw (wrap_lem (length body) h) (not_too_long (1 + length body) _ _ s h)

pub write_message_lem :
    (type : ℕ) (body : List ℕ) (s : Stream)
    → Sendable body
    → s.write_fault ≡ none
    → All (λ c. 0 < c) s.takes
    → (ts : List ℕ) × (write_message type body s
        ≡ (ok tt, record s { outgoing = s.outgoing ++ frame type body; takes = ts }))
write_message_lem type body s h w p =
    let (ts, e) = write_parts_lem (le32 (1 + length body)) (type ∷ []) body s w p in
    (
      ts,
      fits_lem type body s h
          ∙ (e
              ∙ ap (λ out. (ok tt, record s { outgoing = out; takes = ts }))
                  (frame_lem s.outgoing type body)),
    )

read_body_lem :
    (body rest : List ℕ) (s : Stream)
    → s.incoming ≡ body ++ rest
    → All (λ c. 0 < c) s.chunks
    → (cs : List ℕ) × (read_body (length body) s
        ≡ (ok body, record s { incoming = rest; chunks = cs }))
unfolding read_body
read_body_lem [] rest s w p = (s.chunks, ground (arith, w))
read_body_lem (b ∷ body) rest s w p =
    let (cs, q, e) = read_exact_lem (b ∷ body) rest s p w in (cs, ground (arith, e))

decode_lem : (n : ℕ) → n < 2 ^ 32 → decode_length (le32 n) ≡ n
decode_lem n h = from_le32-le32 n h

parts_lem :
    (type : ℕ) (body rest : List ℕ) (s : Stream)
    → s.incoming ≡ type ∷ body ++ rest
    → All (λ c. 0 < c) s.chunks
    → (cs : List ℕ) × (read_parts (length body) s
        ≡ (ok (type, body), record s { incoming = rest; chunks = cs }))
parts_lem type body rest s w p =
    let (cs, q, e) = read_exact_lem (type ∷ []) (body ++ rest) s p w in
    let (cs', e') =
      read_body_lem body rest (record s { incoming = body ++ rest; chunks = cs }) refl q in
    (
      cs',
      bind_ok (read_exact 1)
            (λ t. read_body (length body) >>= λ json_body. return (head_of t, json_body)) s e
          ∙ bind_ok (read_body (length body)) (λ json_body. return (type, json_body))
              (record s { incoming = body ++ rest; chunks = cs }) e',
    )

minus_lem : (n : ℕ) → 1 + n - 1 ≡ n
minus_lem n = omega arith

payload_lem :
    (type : ℕ) (body : List ℕ) (s : Stream)
    → Sendable body
    → read_payload (1 + length body) s ≡ read_parts (length body) s
unfolding read_payload
payload_lem type body s h =
    not_too_short (1 + length body) _ _ s (omega arith)
    ∙ (not_too_long (1 + length body) _ _ s h ∙ ap (λ n. read_parts n s) (minus_lem (length body)))

pub read_message_lem :
    (type : ℕ) (body rest : List ℕ) (s : Stream)
    → Sendable body
    → s.incoming ≡ frame type body ++ rest
    → All (λ c. 0 < c) s.chunks
    → (cs : List ℕ) × (read_message s
        ≡ (ok (type, body), record s { incoming = rest; chunks = cs }))
unfolding read_message
read_message_lem type body rest s h w p =
    let n = 1 + length body in
    let (cs, q, e) = read_exact_lem (le32 n) (type ∷ body ++ rest) s p w in
    let s1 = record s { incoming = type ∷ body ++ rest; chunks = cs } in
    let (cs', e') = parts_lem type body rest s1 refl q in
    (
      cs',
      bind_ok (read_exact 4) (λ b. read_payload (decode_length b)) s e
          ∙ (ap (λ k. read_payload k s1) (decode_lem n (omega arith))
              ∙ (payload_lem type body s1 h ∙ e')),
    )
