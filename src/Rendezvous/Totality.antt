-- ===== src/Rendezvous/Totality.antt =====
-- rendezvous/RendezvousProtocol.hpp and services/rendezvous/RendezvousServer.cpp: the loops end.
use task_messenger.Common.{
  if_both, ℕ, zero, suc, ◌+◌, ◌%◌, ◌^◌, ◌-◌, ◌≤◌, ◌≡◌, refl, inl, inr, List, [], ◌∷◌, ◌++◌, arith,
  ltb, length, drop, length-drop, Bool-cases, true, none, some, ◌∙◌,
}
use task_messenger.Transport.Blocking.{
  Stream, is_waiting_ends, read_some-ends, read_some, write_some, le32,
}
use task_messenger.Rendezvous.Frame.{
  Outcome, ok, throws, blocked, Action, return, ◌>>=◌, continue, read_exact_from, read_exact,
  write_exact_from, write_exact, read_body, read_parts, read_payload, read_message, write_parts,
  write_message, decode_length, head_of, max_frame_payload,
}
use task_messenger.Rendezvous.Server.{
  Json, Server, handle_connection, dispatch_message, answer_to, is_request,
}

-- The action comes back, with a result or an exception.
abbrev pub Returns {ℓ} : {A : Type ℓ} → Outcome A → Type 0
Returns (ok _) = Unit {0}
Returns (throws _) = Unit {0}
Returns blocked = ⊥

-- It comes back, and leaves a connection that ends after what it still brings.
abbrev pub Comes {ℓ} : {A : Type ℓ} → Outcome A × Stream → Type 0
Comes (o, s) = Returns o × (s.ends ≡ true)

write_some-ends : (bs : List ℕ) (s : Stream) → (write_some bs s).1.ends ≡ s.ends
write_some-ends bs s =
    elim s.write_fault as (λ e. (write_some bs (record s { write_fault = e })).1.ends ≡ s.ends) [
      | none ↦ refl
      | some e ↦ refl
    ]

read_exact_from-Comes :
    (fuel remaining : ℕ) (got : List ℕ) (s : Stream)
    → remaining ≤ fuel
    → s.ends ≡ true
    → Comes (read_exact_from fuel remaining got s)
unfolding read_exact_from
read_exact_from-Comes zero remaining got s h e = ground arith
read_exact_from-Comes (suc fuel) remaining got s h e =
    let bs = (read_some remaining s).0.0 in
    ground (
      arith,
      is_waiting_ends s e,
      read_some-ends remaining s ∙ e,
      read_exact_from-Comes fuel (remaining - length bs) (got ++ bs) (read_some remaining s).1,
    )

write_exact_from-Comes :
    (fuel : ℕ) (bs : List ℕ) (s : Stream)
    → length bs ≤ fuel
    → s.ends ≡ true
    → Comes (write_exact_from fuel bs s)
unfolding write_exact_from
write_exact_from-Comes zero bs s h e = ground arith
write_exact_from-Comes (suc fuel) bs s h e =
    let n = (write_some bs s).0.0 in
    ground (
      arith,
      length-drop n bs,
      write_some-ends bs s ∙ e,
      write_exact_from-Comes fuel (drop n bs) (write_some bs s).1,
    )

bind-Comes :
    {A B : Type 0} (x : Outcome A × Stream) (f : A → Action B)
    → Comes x
    → ((a : A) → x.1.ends ≡ true → Comes (f a x.1))
    → Comes (continue x.0 f x.1)
bind-Comes (ok a, s) f h g = g a h.1
bind-Comes (throws e, s) f h g = (tt, h.1)
bind-Comes (blocked, s) f h g = absurd h.0

read_exact-Comes : (size : ℕ) (s : Stream) → s.ends ≡ true → Comes (read_exact size s)
unfolding read_exact
read_exact-Comes size s e = read_exact_from-Comes size size [] s (omega arith) e

write_exact-Comes : (bs : List ℕ) (s : Stream) → s.ends ≡ true → Comes (write_exact bs s)
unfolding write_exact
write_exact-Comes bs s e = write_exact_from-Comes (length bs) bs s (omega arith) e

read_body-Comes : (n : ℕ) (s : Stream) → s.ends ≡ true → Comes (read_body n s)
unfolding read_body
read_body-Comes n s e =
    if_both (λ (m : Action (List ℕ)). Comes (m s)) (ltb 0 n) _ _ (read_exact-Comes n s e) (tt, e)

read_parts-Comes : (n : ℕ) (s : Stream) → s.ends ≡ true → Comes (read_parts n s)
read_parts-Comes n s e =
    bind-Comes (read_exact 1 s) (λ t. read_body n >>= λ json_body. return (head_of t, json_body))
      (read_exact-Comes 1 s e)
      (λ t e1.
        bind-Comes (read_body n (read_exact 1 s).1) (λ json_body. return (head_of t, json_body))
          (read_body-Comes n (read_exact 1 s).1 e1) (λ _ e2. (tt, e2)))

read_payload-Comes : (n : ℕ) (s : Stream) → s.ends ≡ true → Comes (read_payload n s)
unfolding read_payload
read_payload-Comes n s e = elim (Bool-cases (ltb n 1)) [
  | inl short ↦ simp short (tt, e)
  | inr enough ↦ elim (Bool-cases (ltb max_frame_payload n)) [
    | inl long ↦ simp (enough, long) (tt, e)
    | inr fits ↦ simp (enough, fits) (read_parts-Comes (n - 1) s e)
  ]
]

-- `read_message` comes back, with a message or an exception, on every stream that ends.
pub read_message-Comes : (s : Stream) → s.ends ≡ true → Comes (read_message s)
unfolding read_message
read_message-Comes s e =
    bind-Comes (read_exact 4 s) (λ b. read_payload (decode_length b)) (read_exact-Comes 4 s e)
      (λ b e'. read_payload-Comes (decode_length b) (read_exact 4 s).1 e')

write_parts-Comes : (a b c : List ℕ) (s : Stream) → s.ends ≡ true → Comes (write_parts a b c s)
write_parts-Comes a b c s e =
    bind-Comes (write_exact a s) (λ _. write_exact b >>= λ _. write_exact c)
      (write_exact-Comes a s e)
      (λ _ e1.
        bind-Comes (write_exact b (write_exact a s).1) (λ _. write_exact c)
          (write_exact-Comes b (write_exact a s).1 e1)
          (λ _ e2. write_exact-Comes c (write_exact b (write_exact a s).1).1 e2))

write_message-Comes :
    (type : ℕ) (body : List ℕ) (s : Stream) → s.ends ≡ true → Comes (write_message type body s)
unfolding write_message
write_message-Comes type body s e =
    let n = (1 + length body) % 2 ^ 32 in
    elim (Bool-cases (ltb max_frame_payload n)) [
      | inl long ↦ simp long (tt, e)
      | inr fits ↦ simp fits (write_parts-Comes (le32 n) (type ∷ []) body s e)
    ]

answer_to-Returns :
    (json : Json) (now : ℕ) (st : Server) (x : Outcome (ℕ × List ℕ) × Stream)
    → Comes x
    → Returns (answer_to json now x st).0.0
answer_to-Returns json now st (ok (type, body), s) h =
    let reply = json.dump (dispatch_message json now type body st).0 in
    if_both (λ (m : Action (Unit {0})). Returns (m s).0) (is_request type) _ _
      (write_message-Comes (suc type) reply s h.1).0 tt
answer_to-Returns json now st (throws e, s) h = tt
answer_to-Returns json now st (blocked, s) h = absurd h.0

-- The server is done with a client, with or without an exception, whatever the client sends and
-- however the stream moves its bytes, where the connection ends after what the client sends (one
-- that stays open and silent is waited for).
pub handle_connection-Returns :
    (json : Json) (now : ℕ) (st : Server) (s : Stream)
    → s.ends ≡ true
    → Returns (handle_connection json now st s).0.0
unfolding handle_connection
handle_connection-Returns json now st s e =
    answer_to-Returns json now st (read_message s) (read_message-Comes s e)
