-- ===== src/Message.antt =====
-- message/TaskMessage.hpp, message/CancellationToken.hpp.
use task_messenger.Common.{
  ℕ, ◌-◌, ◌^◌, Bool, not, Option, none, some, List, [], ltb, ◌==◌, if◌then◌else◌, length,
}

-- `TaskHeader`: three uint32_t, in wire order.
pub record TaskHeader : Type 0 where
  pub task_id : ℕ
  pub body_size : ℕ
  pub skill_id : ℕ

-- `PayloadBufferBase`: the bytes that `span()` shows, and the skill that they belong to.
pub record PayloadBuffer : Type 0 where
  pub bytes : List ℕ
  pub skill_id : ℕ

-- `TaskMessage`. A completion source is shared: the field is its address. `created_time_` is left
-- out: only `get_age` reads it.
pub record TaskMessage : Type 0 where
  pub header : TaskHeader
  pub payload_buffer : Option PayloadBuffer
  pub response_buffer : Option PayloadBuffer
  pub completion_source : Option ℕ

pub data Thrown : Type 0 where
  invalid_argument length_error : Thrown

pub data Result {ℓ} (A : Type ℓ) : Type ℓ where
  ok : A → Result A
  throw : Thrown → Result A

infixl 5 ◌>>=◌
abbrev pub ◌>>=◌ {ℓ κ} : {A : Type ℓ} {B : Type κ} → Result A → (A → Result B) → Result B
ok a >>= f = f a
throw e >>= f = throw e

abbrev pub u32_max : ℕ
u32_max = 2 ^ 32 - 1

-- `TaskMessage()`: the invalid message.
abbrev pub empty_message : TaskMessage
empty_message = record {
  header = record { task_id = 0; body_size = 0; skill_id = 0 };
  payload_buffer = none;
  response_buffer = none;
  completion_source = none;
}

abbrev pub validated_payload_size : Option PayloadBuffer → Result ℕ
validated_payload_size none = throw invalid_argument
validated_payload_size (some buf) =
    if ltb u32_max (length buf.bytes) then throw length_error else ok (length buf.bytes)

abbrev skill_of : Option PayloadBuffer → ℕ
skill_of none = 0
skill_of (some buf) = buf.skill_id

-- The constructors: the response buffer is `none` for the two-argument one.
unfoldable pub new_message : ℕ → Option PayloadBuffer → Option PayloadBuffer → Result TaskMessage
new_message id buffer response = do
  size ← validated_payload_size buffer
  ok (record {
    header = record { task_id = id; body_size = size; skill_id = skill_of buffer };
    payload_buffer = buffer;
    response_buffer = response;
    completion_source = none;
  })

abbrev pub is_valid : TaskMessage → Bool
is_valid task = not (task.header.task_id == 0)

abbrev pub span : Option PayloadBuffer → List ℕ
span none = []
span (some buf) = buf.bytes

abbrev pub payload_bytes : TaskMessage → List ℕ
payload_bytes task = span task.payload_buffer

unfoldable pub release_payload : TaskMessage → TaskMessage × Option PayloadBuffer
release_payload task = elim task.payload_buffer [
  | none ↦ (task, none)
  | some buf ↦ (
    record task { header = record (task.header) { body_size = 0 }; payload_buffer = none },
    some buf,
  )
]
