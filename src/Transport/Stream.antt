-- ===== src/Transport/Stream.antt =====
-- transport/socket/zerotier/ZeroTierSocket.cpp: reading and writing over `zts_recv` and `zts_send`.
-- What those calls answer comes from outside. An error number is its class after
-- `normalize_errno`: the codes that the socket or its callers tell apart.
use task_messenger.Common.{
  ℕ, ◌+◌, Bool, true, false, Option, none, some, List, [], ◌∷◌, ◌++◌, ltb, ◌==◌, ◌&&◌,
  if◌then◌else◌, length,
}
use task_messenger.Session.{
  Errc, not_connected, connection_aborted, bad_file_descriptor, other_error,
}

pub data Errno : Type 0 where
  no_errno would_block in_progress timed_out shut_down : Errno
  other : Errc → Errno

-- `zts_recv`: some bytes, an orderly end with what `zts_errno` then says, or a failure.
pub data Recv : Type 0 where
  received : List ℕ → Recv
  end_of_stream failed : Errno → Recv

-- `zts_send`: how many bytes were taken, or a failure.
pub data Send : Type 0 where
  taken : ℕ → Send
  failed : Errno → Send

pub record Tried : Type 0 where
  pub bytes : List ℕ
  pub error : Option Errc
  pub complete : Bool

pub record TriedWrite : Type 0 where
  pub count : ℕ
  pub error : Option Errc
  pub complete : Bool

abbrev pub translate_error : Errno → Errc
translate_error (other e) = e
translate_error shut_down = connection_aborted
translate_error _ = other_error

abbrev pub is_would_block_error : Errno → Bool
is_would_block_error would_block = true
is_would_block_error in_progress = true
is_would_block_error _ = false

abbrev pub closed_error : Errno → Errc
closed_error no_errno = not_connected
closed_error e = translate_error e

abbrev pub try_recv : ℕ → Recv → Tried
try_recv size (received bs) = record { bytes = bs; error = none; complete = length bs == size }
try_recv size (end_of_stream e) = record {
  bytes = [];
  error = some (closed_error e);
  complete = true;
}
try_recv size (Recv.failed e) =
    if is_would_block_error e
    then record { bytes = []; error = none; complete = false }
    else record { bytes = []; error = some (translate_error e); complete = true }

unfoldable pub try_read : Bool → ℕ → Recv → Tried
try_read is_open size r =
    if is_open
    then try_recv size r
    else record { bytes = []; error = some bad_file_descriptor; complete = true }

abbrev pub try_send : ℕ → Send → TriedWrite
try_send size (taken n) = record { count = n; error = none; complete = ltb 0 n && n == size }
try_send size (Send.failed e) =
    if is_would_block_error e
    then record { count = 0; error = none; complete = false }
    else record { count = 0; error = some (translate_error e); complete = true }

unfoldable pub try_write : Bool → ℕ → Send → TriedWrite
try_write is_open size r =
    if is_open
    then try_send size r
    else record { count = 0; error = some bad_file_descriptor; complete = true }

-- One turn of the blocking loops: what is read under way, and the answer of the call.
pub record Turn (A : Type 0) : Type 0 where
  pub shutdown_requested : Bool
  pub is_open : Bool
  pub answer : A
  pub still_open : Bool

-- The loop of `read`; `none` while the script of turns has not let it end.
abbrev is_retried : Errno → Bool
is_retried timed_out = true
is_retried shut_down = true
is_retried would_block = true
is_retried _ = false

abbrev after_recv : Bool → Recv → Option Errc
after_recv still (received bs) = none
after_recv still (end_of_stream e) = some (closed_error e)
after_recv still (Recv.failed e) =
    if is_retried e
    then if still then none else some bad_file_descriptor
    else some (translate_error e)

-- A turn ends the loop with an error, or adds bytes.
abbrev pub read_failed : Turn Recv → Option Errc
read_failed t =
    if t.shutdown_requested
    then some bad_file_descriptor
    else if t.is_open
    then after_recv t.still_open t.answer
    else some bad_file_descriptor

abbrev pub recv_bytes : Recv → List ℕ
recv_bytes (received bs) = bs
recv_bytes _ = []

unfoldable pub read_from : List (Turn Recv) → ℕ → List ℕ → Option (List ℕ × Option Errc)
read_from [] size total = if ltb (length total) size then none else some (total, none)
read_from (t ∷ ts) size total = elim (ltb (length total) size) [
  | false ↦ some (total, none)
  | true ↦ elim (read_failed t) [
    | some e ↦ some (total, some e)
    | none ↦ read_from ts size (total ++ recv_bytes t.answer)
  ]
]

-- `read`: the buffer's contents, with the error.
unfoldable pub read : List (Turn Recv) → ℕ → Option (List ℕ × Option Errc)
unfolding read_from
read turns size = read_from turns size []

abbrev after_send : Bool → Send → Option Errc
after_send still (taken n) = none
after_send still (Send.failed e) =
    if is_retried e
    then if still then none else some bad_file_descriptor
    else some (translate_error e)

abbrev pub write_failed : Turn Send → Option Errc
write_failed t =
    if t.shutdown_requested
    then some bad_file_descriptor
    else if t.is_open
    then after_send t.still_open t.answer
    else some bad_file_descriptor

abbrev pub send_count : Send → ℕ
send_count (taken n) = n
send_count _ = 0

unfoldable pub write_from : List (Turn Send) → ℕ → ℕ → Option (ℕ × Option Errc)
write_from [] size total = if ltb total size then none else some (total, none)
write_from (t ∷ ts) size total = elim (ltb total size) [
  | false ↦ some (total, none)
  | true ↦ elim (write_failed t) [
    | some e ↦ some (total, some e)
    | none ↦ write_from ts size (total + send_count t.answer)
  ]
]

unfoldable pub write : List (Turn Send) → ℕ → Option (ℕ × Option Errc)
unfolding write_from
write turns size = write_from turns size 0

-- `check_alive`, over a peek.
abbrev pub peeked : Recv → Bool × Option Errc
peeked (received bs) = (true, none)
peeked (end_of_stream e) = (false, some (closed_error e))
peeked (Recv.failed e) =
    if is_would_block_error e then (true, none) else (false, some (translate_error e))

unfoldable pub check_alive : Bool → Recv → Bool × Option Errc
check_alive is_open r = if is_open then peeked r else (false, some bad_file_descriptor)
