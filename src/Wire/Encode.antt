-- ===== src/Wire/Encode.antt =====
-- `encode` and `encode_frame` of crates/gylo-core/src/protocol.rs.
-- The shared output buffer is passed in and returned, on the error paths too.
use gylo.Prelude.{
  ◌≡◌, ◌<◌, ◌≤◌, ◌⊎◌, inl, inr, Bool-cases, ltb→lt, arith, ℕ, ◌+◌, ◌^◌, [], ◌∷◌, ◌++◌, map, ltb,
  if◌then◌else◌, length, take,
}
use gylo.Prelude.Results.{Result, ok, err, ◌>>=◌, ◌>>◌, reject_if}
use gylo.Wire.Words.{Bytes, to_le, i64_bytes, i16_bytes}
use gylo.Wire.Message.{
  Outcome, success, failure, WireStep, Message, register, steps, recorded, stored, dispatch,
  complete, ProtocolError, frame_too_large, task_name_too_long, dispatch_head_bytes,
  complete_head_bytes, max_frame_bytes, kind_dispatch, kind_complete, kind_register, kind_steps,
  kind_record, kind_stored, outcome_success, outcome_retry, outcome_terminal,
}
use gylo.Wire.MessagePack.{MessagePack, pack}

-- `WireStepRef { name, result }`.
unfoldable pub wire_step : Bytes × Bytes → WireStep
wire_step (name, result) = record { name = name; result = result }

-- `u16::try_from(task.len())` with its error.
unfoldable pub name_len : Bytes → Result ProtocolError ℕ
name_len task =
    if ltb (length task) (2 ^ 16) then ok (length task) else err (task_name_too_long (length task))

-- `name_len` succeeds on the names that a `u16` can measure, and on no other.
pub name_len_cases :
    (task : Bytes)
    → ((name_len task ≡ ok (length task)) × (length task < 2 ^ 16))
      ⊎ ((name_len task ≡ err (task_name_too_long (length task))) × (2 ^ 16 ≤ length task))
unfolding name_len
name_len_cases task = elim (Bool-cases (ltb (length task) (2 ^ 16))) [
  | inl short ↦ inl (rw short, ltb→lt _ _ short)
  | inr long ↦ inr (rw long, ground arith)
]

-- `u32::try_from(body_len)` with its error.
unfoldable pub header_of : ℕ → Result ProtocolError ℕ
header_of n = if ltb n (2 ^ 32) then ok n else err (frame_too_large n)

-- The first match of `encode_frame`: the length of the body, and the bytes packed for it.
unfoldable pub measure : MessagePack → Message → Result ProtocolError (ℕ × Bytes)
unfolding wire_step
measure mp (register entries) = do
  packed ← pack (mp.entries_to_vec entries)
  ok (1 + length packed, packed)
measure mp (steps id done) = do
  packed ← pack (mp.steps_to_vec (id, map wire_step done))
  ok (1 + length packed, packed)
measure mp (recorded id name result) = do
  packed ← pack (mp.record_to_vec (record { id = id; name = name; result = result }))
  ok (1 + length packed, packed)
measure mp (stored id name) = do
  packed ← pack (mp.stored_to_vec (id, name))
  ok (1 + length packed, packed)
measure mp (dispatch d) = do
  _ ← name_len d.task
  ok (dispatch_head_bytes + length d.task + length d.payload, [])
measure mp (complete id (success result)) = ok (complete_head_bytes + length result, [])
measure mp (complete id (failure error retry)) = ok (complete_head_bytes + length error, [])

-- The bytes that follow the outcome's code, and the code.
unfoldable pub outcome_bytes : Outcome → Bytes
outcome_bytes (success result) = outcome_success ∷ result
outcome_bytes (failure error retry) = (if retry then outcome_retry else outcome_terminal) ∷ error

-- The second match of `encode_frame`: what it appends to the buffer, and its result.
unfoldable pub write_body : Message → Bytes → Bytes → Bytes × Result ProtocolError (Unit {0})
unfolding outcome_bytes
write_body (register entries) packed out = (out ++ kind_register ∷ packed, ok tt)
write_body (steps id done) packed out = (out ++ kind_steps ∷ packed, ok tt)
write_body (recorded id name result) packed out = (out ++ kind_record ∷ packed, ok tt)
write_body (stored id name) packed out = (out ++ kind_stored ∷ packed, ok tt)
write_body (dispatch d) packed out = elim (name_len d.task) [
  | err e ↦ (out, err e)
  | ok n ↦ (
    out
        ++ kind_dispatch
          ∷ (i64_bytes d.id
              ++ (i16_bytes d.attempt
                  ++ (i16_bytes d.max_attempts ++ (to_le 2 n ++ (d.task ++ d.payload))))),
    ok tt,
  )
]
write_body (complete id outcome) packed out =
    (out ++ kind_complete ∷ (i64_bytes id ++ outcome_bytes outcome), ok tt)

-- The steps of `encode_frame` before its first write.
unfoldable pub prepare : MessagePack → Message → Result ProtocolError (ℕ × Bytes)
unfolding header_of
prepare mp m = do
  (body_len, packed) ← measure mp m
  reject_if (ltb max_frame_bytes body_len) (frame_too_large body_len)
  header ← header_of body_len
  ok (header, packed)

unfoldable pub encode_frame :
    MessagePack → Message → Bytes → Bytes × Result ProtocolError (Unit {0})
encode_frame mp m out = elim (prepare mp m) [
  | err e ↦ (out, err e)
  | ok (header, packed) ↦ write_body m packed (out ++ to_le 4 header)
]

-- The match of `encode` on the result: a failure cuts the buffer back to where it stood.
unfoldable pub settle :
    ℕ → Bytes × Result ProtocolError (Unit {0}) → Bytes × Result ProtocolError (Unit {0})
settle start (written, ok _) = (written, ok tt)
settle start (written, err e) = (take start written, err e)

unfoldable pub encode : MessagePack → Message → Bytes → Bytes × Result ProtocolError (Unit {0})
unfolding settle
encode mp m out = settle (length out) (encode_frame mp m out)
