-- ===== src/Wire/Message.antt =====
-- The messages of crates/gylo-core/src/protocol.rs, its constants and its errors.
-- Byte strings and texts are lists of bytes; an `i64` or `i16` is a signed integer.
use gylo.Prelude.{ℕ, ◌*◌, Bool, List}
use gylo.Prelude.Int.{ℤ}
use gylo.Wire.Words.{Bytes, IsI64, IsI16}
use gylo.Wire.Utf8.{IsUtf8}
use Prim.Native.String.{String}

abbrev pub header_bytes : ℕ
header_bytes = 4

abbrev pub kind_dispatch : ℕ
kind_dispatch = 0

abbrev pub kind_complete : ℕ
kind_complete = 1

abbrev pub kind_register : ℕ
kind_register = 2

abbrev pub kind_steps : ℕ
kind_steps = 3

abbrev pub kind_record : ℕ
kind_record = 4

abbrev pub kind_stored : ℕ
kind_stored = 5

abbrev pub outcome_success : ℕ
outcome_success = 0

abbrev pub outcome_retry : ℕ
outcome_retry = 1

abbrev pub outcome_terminal : ℕ
outcome_terminal = 2

abbrev pub compact_threshold : ℕ
compact_threshold = 65536

abbrev pub max_frame_bytes : ℕ
max_frame_bytes = 16 * 1024 * 1024

abbrev pub dispatch_head_bytes : ℕ
dispatch_head_bytes = 15

abbrev pub complete_head_bytes : ℕ
complete_head_bytes = 10

-- What a finished job reports: a result, or an error and whether to retry.
pub data Outcome : Type 0 where
  success : Bytes → Outcome
  failure : Bytes → Bool → Outcome

-- One replayed step on the wire.
pub record WireStep : Type 0 where
  pub name : Bytes
  pub result : Bytes

pub record WireRecord : Type 0 where
  pub id : ℤ
  pub name : Bytes
  pub result : Bytes

pub record CronRegistration : Type 0 where
  pub name : Bytes
  pub queue : Bytes
  pub task : Bytes
  pub expression : Bytes
  pub timezone : Bytes
  pub payload : Bytes

-- The fields of `Message::Dispatch`.
pub record Dispatched : Type 0 where
  pub id : ℤ
  pub attempt : ℤ
  pub max_attempts : ℤ
  pub task : Bytes
  pub payload : Bytes

pub data Message : Type 0 where
  register : List CronRegistration → Message
  steps : ℤ → List (Bytes × Bytes) → Message
  recorded : ℤ → Bytes → Bytes → Message
  stored : ℤ → Bytes → Message
  dispatch : Dispatched → Message
  complete : ℤ → Outcome → Message

pub data ProtocolError : Type 0 where
  frame_too_large : ℕ → ProtocolError
  truncated : ProtocolError
  unknown_kind : ℕ → ProtocolError
  unknown_outcome : ℕ → ProtocolError
  not_utf8 : String → ProtocolError
  task_name_too_long : ℕ → ProtocolError
  malformed : Bytes → ProtocolError

-- What Rust's types promise of the hand-framed messages: machine integers in range, texts in UTF-8.
-- The other messages pass through the MessagePack library whole.
abbrev pub OutcomeIsTyped : Outcome → Type 0
OutcomeIsTyped (success result) = Unit
OutcomeIsTyped (failure error retry) = IsUtf8 error

abbrev pub IsTyped : Message → Type 0
IsTyped (register entries) = Unit
IsTyped (steps id done) = Unit
IsTyped (recorded id name result) = Unit
IsTyped (stored id name) = Unit
IsTyped (dispatch d) = IsI64 d.id × IsI16 d.attempt × IsI16 d.max_attempts × IsUtf8 d.task
IsTyped (complete id outcome) = IsI64 id × OutcomeIsTyped outcome
