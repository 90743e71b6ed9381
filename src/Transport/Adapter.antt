-- ===== src/Transport/Adapter.antt =====
-- transport/coro/CoroSocketAdapter.hpp: an operation that is tried until it is complete. The bytes of
-- the buffer that have been read are a list; a buffer to write is its length.
use task_messenger.Common.{
  ℕ, ◌+◌, ◌-◌, Bool, true, false, Option, none, some, List, [], ◌∷◌, ◌++◌, leb, if◌then◌else◌,
  length,
}
use task_messenger.Session.{Errc, bad_file_descriptor}
use task_messenger.Transport.Stream.{Recv, Send, try_read, try_write}

pub data OperationType : Type 0 where
  no_operation read_operation read_header_operation write_operation : OperationType

pub record Adapter : Type 0 where
  pub has_socket : Bool
  pub is_open : Bool
  pub current_operation : OperationType
  pub last_error : Option Errc
  pub last_bytes_transferred : ℕ
  pub read_buffer : List ℕ
  pub read_size : ℕ
  pub read_offset : ℕ
  pub write_size : ℕ
  pub write_offset : ℕ

-- What the socket would answer at this attempt.
pub record Attempt : Type 0 where
  pub recv : Recv
  pub send : Send

abbrev pub end_read : Adapter → Adapter
end_read a = record a {
  last_bytes_transferred = a.read_offset;
  read_offset = 0;
  current_operation = no_operation;
}

abbrev pub end_write : Adapter → Adapter
end_write a = record a {
  last_bytes_transferred = a.write_offset;
  write_offset = 0;
  current_operation = no_operation;
}

abbrev after_read : Adapter → Adapter × Bool
after_read a = elim a.last_error [
  | some e ↦ (end_read a, true)
  | none ↦ if leb a.read_size a.read_offset then (end_read a, true) else (a, false)
]

abbrev after_write : Adapter → Adapter × Bool
after_write a = elim a.last_error [
  | some e ↦ (end_write a, true)
  | none ↦ if leb a.write_size a.write_offset then (end_write a, true) else (a, false)
]

abbrev no_socket : Adapter → Adapter × Bool
no_socket a = (record a { last_error = some bad_file_descriptor }, true)

abbrev advance_read : Recv → Adapter → Adapter × Bool
advance_read r a =
    let t = try_read a.is_open (a.read_size - a.read_offset) r in
    after_read (record a {
      last_error = t.error;
      read_buffer = a.read_buffer ++ t.bytes;
      read_offset = a.read_offset + length t.bytes;
    })

abbrev advance_write : Send → Adapter → Adapter × Bool
advance_write r a =
    let t = try_write a.is_open (a.write_size - a.write_offset) r in
    after_write (record a { last_error = t.error; write_offset = a.write_offset + t.count })

try_operation : OperationType → Attempt → Adapter → Adapter × Bool
unfolding try_read try_write
try_operation no_operation t a = (a, true)
try_operation read_operation t a = if a.has_socket then advance_read t.recv a else no_socket a
try_operation read_header_operation t a =
    if a.has_socket then advance_read t.recv a else no_socket a
try_operation write_operation t a = if a.has_socket then advance_write t.send a else no_socket a

unfoldable pub try_complete_current_operation : Attempt → Adapter → Adapter × Bool
unfolding try_operation
try_complete_current_operation t a = try_operation a.current_operation t a

abbrev pub prepare_read_operation : ℕ → Adapter → Adapter
prepare_read_operation size a = record a { read_buffer = []; read_size = size; read_offset = 0 }

abbrev pub prepare_write_operation : ℕ → Adapter → Adapter
prepare_write_operation size a = record a { write_size = size; write_offset = 0 }

-- An operation from its `await_ready` on: `none` while the attempts given do not complete it.
unfoldable pub drive : List Attempt → Adapter → Option Adapter
drive [] a = none
drive (t ∷ ts) a =
    let (a', done) = try_complete_current_operation t a in
    elim done [ true ↦ some a' | false ↦ drive ts a' ]

unfoldable pub async_read : ℕ → List Attempt → Adapter → Option Adapter
unfolding drive
async_read size attempts a =
    drive attempts (record (prepare_read_operation size a) { current_operation = read_operation })

unfoldable pub async_read_header : ℕ → List Attempt → Adapter → Option Adapter
unfolding drive
async_read_header size attempts a =
    drive attempts
      (record (prepare_read_operation size a) { current_operation = read_header_operation })

unfoldable pub async_write : ℕ → List Attempt → Adapter → Option Adapter
unfolding drive
async_write size attempts a =
    drive attempts (record (prepare_write_operation size a) { current_operation = write_operation })
