-- ===== src/Transport/Delivery.antt =====
-- transport/coro/CoroSocketAdapter.hpp and ZeroTierSocket.cpp: what a read delivers.
use task_messenger.Common.{
  ℕ, ◌+◌, ◌-◌, ◌≤◌, ◌<◌, ◌≡◌, refl, ◌≢◌, ◌⊎◌, inl, inr, Bool, true, false, Option, none, some, List,
  [], ◌∷◌, ◌++◌, arith, length, length-append, append-nil,
}
use task_messenger.Session.{Errc}
use task_messenger.Transport.Stream.{
  would_block, other, Recv, received, end_of_stream, Turn, recv_bytes,
}
use task_messenger.Transport.Adapter.{
  Adapter, Attempt, read_operation, no_operation, try_complete_current_operation, drive, async_read,
}

-- Each answer of `zts_recv` fits into what is left of the buffer.
abbrev pub Fits : ℕ → List Attempt → Type 0
Fits room [] = Unit {0}
Fits room (t ∷ ts) =
    (length (recv_bytes t.recv) ≤ room) × Fits (room - length (recv_bytes t.recv)) ts

-- A read that is under way, with `left` bytes to go.
abbrev IsReading : ℕ → Adapter → Type 0
IsReading left a =
    (a.has_socket ≡ true)
    × (a.current_operation ≡ read_operation)
    × (a.read_offset ≡ length a.read_buffer)
    × (a.read_offset + left ≡ a.read_size)

abbrev pub Delivered : ℕ → Adapter → Type 0
Delivered size a =
    ((a.last_error ≡ none) × (length a.read_buffer ≡ size) × (a.last_bytes_transferred ≡ size))
    ⊎ ((e : Errc) × (a.last_error ≡ some e)
        × (a.last_bytes_transferred ≡ length a.read_buffer)
        × (length a.read_buffer ≤ size))

-- One attempt: it completes with all bytes or with an error, or it goes on with fewer to go.
abbrev Attempted : ℕ → Attempt → Adapter → Adapter × Bool → Type 0
Attempted left t a (a', done) =
    (a'.read_size ≡ a.read_size)
    × (((done ≡ true)
          × Delivered a.read_size a'
          × (a'.read_offset ≡ 0)
          × (a'.current_operation ≡ no_operation))
        ⊎ ((done ≡ false)
            × IsReading (left - length (recv_bytes t.recv)) a'
            × (0 < left - length (recv_bytes t.recv))
            × (a'.read_buffer ≡ a.read_buffer ++ recv_bytes t.recv)
            × (a'.is_open ≡ a.is_open)))

attempt_lem :
    (left : ℕ) (t : Attempt) (a : Adapter) (r : Recv)
    → t.recv ≡ r
    → IsReading left a
    → length (recv_bytes r) ≤ left
    → Attempted left t a (try_complete_current_operation t a)
unfolding try_complete_current_operation
attempt_lem left t a (received bs) e h f = ground (
  arith,
  length-append a.read_buffer bs,
  length-append a.read_buffer [],
  append-nil a.read_buffer,
)
attempt_lem left t a (end_of_stream x) e h f =
    ground (arith, length-append a.read_buffer [], append-nil a.read_buffer)
attempt_lem left t a (Recv.failed x) e h f =
    ground (arith, length-append a.read_buffer [], append-nil a.read_buffer)

drive-Delivered :
    (ts : List Attempt) (left : ℕ) (a : Adapter) {b : Adapter}
    → IsReading left a
    → Fits left ts
    → drive ts a ≡ some b
    → Delivered a.read_size b
unfolding drive
drive-Delivered [] left a h f e = absurd (cc)
drive-Delivered (t ∷ ts) left a {b} h f e =
    let (same, outcome) = attempt_lem left t a t.recv refl h f.0 in
    elim outcome [
      | inl (done, got, _, _) ↦
          let hit : (try_complete_current_operation t a).0 ≡ b = ground arith in rw (← hit) got
      | inr (more, still, _, _, _) ↦
          let rest : drive ts (try_complete_current_operation t a).0 ≡ some b = ground arith in
          rw (← same) (drive-Delivered ts (left - length (recv_bytes t.recv)) _ still f.1 rest)
    ]

-- A read that completes has filled the buffer, and says so, or has met an error, and says how many
-- bytes it had by then.
pub async_read-Delivered :
    (size : ℕ) (ts : List Attempt) (a b : Adapter)
    → a.has_socket ≡ true
    → Fits size ts
    → async_read size ts a ≡ some b
    → Delivered size b
unfolding async_read
async_read-Delivered size ts a b s f e = drive-Delivered ts size _ (s, refl, refl, omega arith) f e

-- The bytes on the way.
abbrev pub bytes_of : List Attempt → ℕ
bytes_of [] = 0
bytes_of (t ∷ ts) = length (recv_bytes t.recv) + bytes_of ts

drive_completes :
    (ts : List Attempt) (left : ℕ) (a : Adapter)
    → IsReading left a
    → Fits left ts
    → 0 < left
    → left ≤ bytes_of ts
    → drive ts a ≢ none
unfolding drive
drive_completes [] left a h f p n = absurd (omega arith)
drive_completes (t ∷ ts) left a h f p n =
    let (same, outcome) = attempt_lem left t a t.recv refl h f.0 in
    elim outcome [
      | inl (done, _, _, _) ↦ λ e. ground arith
      | inr (more, still, room, _, _) ↦
          let ih =
            drive_completes ts (left - length (recv_bytes t.recv))
              (try_complete_current_operation t a).0 still f.1 room (omega arith) in
          λ e. ih (ground arith)
    ]

-- A read for which enough bytes arrive completes.
pub async_read_completes :
    (size : ℕ) (ts : List Attempt) (a : Adapter)
    → a.has_socket ≡ true
    → Fits size ts
    → 0 < size
    → size ≤ bytes_of ts
    → async_read size ts a ≢ none
unfolding async_read
async_read_completes size ts a s f p n =
    drive_completes ts size _ (s, refl, refl, omega arith) f p n

-- The answers on which a blocking read and an awaited one do not part: the timeouts and the shutdown
-- code, which only the blocking read retries, and `in_progress`, are left out.
abbrev pub is_plain : Recv → Bool
is_plain (received bs) = true
is_plain (end_of_stream e) = true
is_plain (Recv.failed would_block) = true
is_plain (Recv.failed (other e)) = true
is_plain _ = false

abbrev pub turn : Attempt → Turn Recv
turn t = record { shutdown_requested = false; is_open = true; answer = t.recv; still_open = true }

abbrev pub outcome : Adapter → List ℕ × Option Errc
outcome a = (a.read_buffer, a.last_error)

abbrev Continues : Adapter → Adapter × Bool → Option Errc → List ℕ → Type 0
Continues a (a', done) failure bytes =
    (a'.has_socket ≡ true)
    × (a'.is_open ≡ true)
    × (a'.read_size ≡ a.read_size)
    × (((failure ≡ none)
          × (a'.read_buffer ≡ a.read_buffer ++ bytes)
          × (a'.last_error ≡ none)
          × (((done ≡ true) × (a.read_size ≤ length a'.read_buffer))
              ⊎ ((done ≡ false)
                  × (length a'.read_buffer < a.read_size)
                  × (a'.current_operation ≡ read_operation)
                  × (a'.read_offset ≡ length a'.read_buffer))))
        ⊎ ((e : Errc) × (failure ≡ some e)
            × (a'.last_error ≡ some e)
            × (done ≡ true)
            × (a'.read_buffer ≡ a.read_buffer)))

abbrev pub result_of : Option Adapter → Option (List ℕ × Option Errc)
result_of none = none
result_of (some a) = some (outcome a)
