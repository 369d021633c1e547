-- ===== src/Wire/Decode.antt =====
-- `Decoder` and `decode_body` of crates/gylo-core/src/protocol.rs.
use gylo.Prelude.{
  ℕ, ◌+◌, ◌-◌, List, [], ◌∷◌, ◌++◌, map, Option, none, some, ltb, leb, ◌==◌, ◌||◌, if◌then◌else◌,
  length, take, drop,
}
use gylo.Prelude.Int.{ℤ}
use gylo.Prelude.Results.{Result, ok, err, ◌>>=◌, ◌>>◌, reject_if, map_ok}
use gylo.Wire.Words.{Bytes, from_le, i64_from, i16_from}
use gylo.Wire.Utf8.{is_utf8}
use gylo.Wire.Message.{
  Outcome, success, failure, WireStep, WireRecord, Message, register, steps, recorded, stored,
  dispatch, complete, ProtocolError, frame_too_large, truncated, unknown_kind, unknown_outcome,
  not_utf8, header_bytes, max_frame_bytes, compact_threshold, kind_dispatch, kind_complete,
  kind_register, kind_steps, kind_record, kind_stored, outcome_success, outcome_retry,
  outcome_terminal,
}
use gylo.Wire.MessagePack.{MessagePack, unpack}
use Prim.Native.String.{String}

-- `&bytes[from..to]`.
abbrev pub slice : ℕ → ℕ → Bytes → Bytes
slice from to bytes = take (to - from) (drop from bytes)

-- `std::str::from_utf8(bytes).map_err(..)?.to_owned()`.
unfoldable pub text_from : String → Bytes → Result ProtocolError Bytes
text_from what bytes = if is_utf8 bytes then ok bytes else err (not_utf8 what)

unfoldable pub decode_dispatch : Bytes → Result ProtocolError Message
unfolding text_from
decode_dispatch rest = do
  reject_if (ltb (length rest) 14) truncated
  let id = i64_from (take 8 rest)
  let attempt = i16_from (slice 8 10 rest)
  let max_attempts = i16_from (slice 10 12 rest)
  let name_len = from_le (slice 12 14 rest)
  let tail = drop 14 rest
  reject_if (ltb (length tail) name_len) truncated
  task ← text_from "task name" (take name_len tail)
  ok (
      dispatch (record {
        id = id;
        attempt = attempt;
        max_attempts = max_attempts;
        task = task;
        payload = drop name_len tail;
      }))

-- The match on the outcome's code.
unfoldable pub decode_outcome : Bytes → Result ProtocolError Outcome
unfolding text_from
decode_outcome [] = err truncated
decode_outcome (code ∷ bytes) =
    if code == outcome_success
    then ok (success bytes)
    else if code == outcome_retry || code == outcome_terminal
    then (do error ← text_from "error message" bytes; ok (failure error (code == outcome_retry)))
    else err (unknown_outcome code)

unfoldable pub decode_complete : Bytes → Result ProtocolError Message
unfolding decode_outcome
decode_complete rest = do
  reject_if (ltb (length rest) 9) truncated
  let id = i64_from (take 8 rest)
  outcome ← decode_outcome (drop 8 rest)
  ok (complete id outcome)

unfoldable pub step_pair : WireStep → Bytes × Bytes
step_pair w = (w.name, w.result)

unfoldable pub decode_body : MessagePack → Bytes → Result ProtocolError Message
unfolding decode_dispatch decode_complete step_pair
decode_body mp [] = err truncated
decode_body mp (kind ∷ rest) =
    if kind == kind_dispatch
    then decode_dispatch rest
    else if kind == kind_complete
    then decode_complete rest
    else if kind == kind_register
    then map_ok register (unpack (mp.entries_from_slice rest))
    else if kind == kind_steps
    then map_ok (λ (v : ℤ × List WireStep). steps v.0 (map step_pair v.1))
        (unpack (mp.steps_from_slice rest))
    else if kind == kind_record
    then map_ok (λ (r : WireRecord). recorded r.id r.name r.result)
        (unpack (mp.record_from_slice rest))
    else if kind == kind_stored
    then map_ok (λ (v : ℤ × Bytes). stored v.0 v.1) (unpack (mp.stored_from_slice rest))
    else err (unknown_kind kind)

-- `Decoder { buf, pos }`.
pub record Decoder : Type 0 where
  pub buf : Bytes
  pub pos : ℕ

abbrev pub new_decoder : Decoder
new_decoder = record { buf = []; pos = 0 }

unfoldable pub extend : Decoder → Bytes → Decoder
extend d bytes = record d { buf = d.buf ++ bytes }

unfoldable pub buffered : Decoder → ℕ
buffered d = length d.buf - d.pos

-- The end of `next_message`: past the threshold, what was read is dropped from the buffer.
unfoldable pub compact : Decoder → Decoder
compact d = if leb compact_threshold d.pos then record { buf = drop d.pos d.buf; pos = 0 } else d

-- The end of `next_message`: a message that was decoded moves the position to the end of its frame.
unfoldable pub advance :
    Decoder → ℕ → Result ProtocolError Message → Decoder × Result ProtocolError (Option Message)
advance d end (err e) = (d, err e)
advance d end (ok m) = (compact (record d { pos = end }), ok (some m))

-- `next_message`; on every early return the decoder is as it was.
unfoldable pub next_message :
    MessagePack → Decoder → Decoder × Result ProtocolError (Option Message)
unfolding advance
next_message mp d =
    let body_len = from_le (slice d.pos (d.pos + header_bytes) d.buf) in
    let body_start = d.pos + header_bytes in
    let body = slice body_start (body_start + body_len) d.buf in
    if ltb (buffered d) header_bytes
    then (d, ok none)
    else if ltb max_frame_bytes body_len
    then (d, err (frame_too_large body_len))
    else if ltb (buffered d - header_bytes) body_len
    then (d, ok none)
    else advance d (body_start + body_len) (decode_body mp body)
