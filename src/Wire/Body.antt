-- ===== src/Wire/Body.antt =====
-- The body of a frame: what the two matches of `encode_frame` agree on, and that `decode_body`
-- reads it back (crates/gylo-core/src/protocol.rs).
use gylo.Prelude.{
  ℕ, ◌+◌, ◌^◌, ◌<◌, ◌≡◌, refl, ap, ◌∙◌, true, false, List, [], ◌∷◌, ◌++◌, map, arith, ltb, length,
  length-append, take, drop, take-append_left, drop-append_left, inl, inr,
}
use gylo.Prelude.Int.{ℤ}
use gylo.Prelude.Results.{ok}
use gylo.Wire.Words.{
  Bytes, to_le, to_word, i64_bytes, i16_bytes, from_le-to_le, i64_from, i16_from, i64_from-bytes,
  i16_from-bytes,
}
use gylo.Wire.Utf8.{is_utf8}
use gylo.Wire.Message.{
  Outcome, success, failure, Dispatched, Message, register, steps, recorded, stored, dispatch,
  complete, kind_dispatch, kind_complete, kind_register, kind_steps, kind_record, kind_stored,
  IsTyped, OutcomeIsTyped,
}
use gylo.Wire.MessagePack.{MessagePack, IsLossless}
use gylo.Wire.Encode.{measure, write_body, name_len_cases, outcome_bytes, wire_step}
use gylo.Wire.Decode.{
  decode_body, decode_dispatch, decode_complete, decode_outcome, text_from, slice, step_pair,
}

-- What `write_body` appends for a message whose name is not too long.
unfoldable pub body : Message → Bytes → Bytes
unfolding outcome_bytes
body (register entries) packed = kind_register ∷ packed
body (steps id done) packed = kind_steps ∷ packed
body (recorded id name result) packed = kind_record ∷ packed
body (stored id name) packed = kind_stored ∷ packed
body (dispatch d) packed =
    kind_dispatch
    ∷ (i64_bytes d.id
        ++ (i16_bytes d.attempt
            ++ (i16_bytes d.max_attempts ++ (to_le 2 (length d.task) ++ (d.task ++ d.payload)))))
body (complete id outcome) packed = kind_complete ∷ (i64_bytes id ++ outcome_bytes outcome)

pub write_body_lem :
    (mp : MessagePack) (m : Message) (n : ℕ) (packed out : Bytes)
    → measure mp m ≡ ok (n, packed)
    → write_body m packed out ≡ (out ++ body m packed, ok tt)
unfolding measure write_body body
write_body_lem mp (register entries) n packed out h = refl
write_body_lem mp (steps id done) n packed out h = refl
write_body_lem mp (recorded id name result) n packed out h = refl
write_body_lem mp (stored id name) n packed out h = refl
write_body_lem mp (dispatch d) n packed out h = elim (name_len_cases d.task) [
  | inl (fits, _) ↦ rw (fits, write_body)
  | inr (long, _) ↦ cc (h, long)
]
write_body_lem mp (complete id outcome) n packed out h = refl

-- The length measured before the first write is the length written.
pub length-body :
    (mp : MessagePack) (m : Message) (n : ℕ) (packed : Bytes)
    → measure mp m ≡ ok (n, packed)
    → length (body m packed) ≡ n
unfolding measure body i64_bytes i16_bytes to_le
length-body mp (register entries) n packed h = ground arith
length-body mp (steps id done) n packed h = ground arith
length-body mp (recorded id name result) n packed h = ground arith
length-body mp (stored id name) n packed h = ground arith
length-body mp (dispatch d) n packed h = elim (name_len_cases d.task) [
  | inl (fits, _) ↦ ground (arith, fits, length-append d.task d.payload)
  | inr (long, _) ↦ cc (h, long)
]
length-body mp (complete id (success result)) n packed h = ground arith
length-body mp (complete id (failure error retry)) n packed h = ground arith

-- Where the fields of a dispatch lie.
module _ (w x y z : ℕ) (tail : Bytes) where
  dispatch_rest : Bytes
  dispatch_rest = to_le 8 w ++ (to_le 2 x ++ (to_le 2 y ++ (to_le 2 z ++ tail)))

  length-dispatch_rest : length dispatch_rest ≡ 14 + length tail
  unfolding dispatch_rest to_le
  length-dispatch_rest = omega arith

  dispatch_fields :
      (take 8 dispatch_rest ≡ to_le 8 w)
      × (slice 8 10 dispatch_rest ≡ to_le 2 x)
      × (slice 10 12 dispatch_rest ≡ to_le 2 y)
      × (slice 12 14 dispatch_rest ≡ to_le 2 z)
      × (drop 14 dispatch_rest ≡ tail)
  unfolding dispatch_rest to_le
  dispatch_fields = (refl, refl, refl, refl, refl)

decode_dispatch_lem :
    (w x y : ℕ) (task payload : Bytes)
    → length task < 2 ^ 16
    → is_utf8 task ≡ true
    → decode_dispatch (dispatch_rest w x y (length task) (task ++ payload))
      ≡ ok (
          dispatch (record {
            id = i64_from (to_le 8 w);
            attempt = i16_from (to_le 2 x);
            max_attempts = i16_from (to_le 2 y);
            task = task;
            payload = payload;
          }))
unfolding decode_dispatch
decode_dispatch_lem w x y task payload short valid =
    let f = dispatch_fields w x y (length task) (task ++ payload) in
    ground (
      arith,
      f,
      length-dispatch_rest w x y (length task) (task ++ payload),
      length-append task payload,
      take-append_left (length task) task payload refl,
      drop-append_left (length task) task payload refl,
      from_le-to_le 2 (length task),
      valid,
    )

module _ (mp : MessagePack) where
  decode-dispatch :
      (d : Dispatched) (n : ℕ) (packed : Bytes)
      → IsTyped (dispatch d)
      → measure mp (dispatch d) ≡ ok (n, packed)
      → decode_body mp (body (dispatch d) packed) ≡ ok (dispatch d)
  unfolding body decode_body measure dispatch_rest i64_bytes i16_bytes
  decode-dispatch d n packed t h = elim (name_len_cases d.task) [
    | inl (_, short) ↦
        decode_dispatch_lem (to_word 64 d.id) (to_word 16 d.attempt) (to_word 16 d.max_attempts)
          d.task d.payload short t.3
        ∙ (λ i. ok (
            dispatch (record {
              id = i64_from-bytes d.id t.0 i;
              attempt = i16_from-bytes d.attempt t.1 i;
              max_attempts = i16_from-bytes d.max_attempts t.2 i;
              task = d.task;
              payload = d.payload;
            })))
    | inr (long, _) ↦ cc (h, long)
  ]

  complete_rest :
      (w : ℕ) (bytes : Bytes)
      → (length (to_le 8 w ++ bytes) ≡ 8 + length bytes)
        × (take 8 (to_le 8 w ++ bytes) ≡ to_le 8 w)
        × (drop 8 (to_le 8 w ++ bytes) ≡ bytes)
  unfolding to_le
  complete_rest w bytes = (omega arith, refl, refl)

  decode_outcome-bytes :
      (outcome : Outcome)
      → OutcomeIsTyped outcome
      → (decode_outcome (outcome_bytes outcome) ≡ ok outcome) × (0 < length (outcome_bytes outcome))
  unfolding decode_outcome outcome_bytes
  decode_outcome-bytes (success result) t = (refl, omega arith)
  decode_outcome-bytes (failure error true) t = (rw (t, text_from), omega arith)
  decode_outcome-bytes (failure error false) t = (rw (t, text_from), omega arith)

  decode-complete :
      (id : ℤ) (outcome : Outcome) (packed : Bytes)
      → IsTyped (complete id outcome)
      → decode_body mp (body (complete id outcome) packed) ≡ ok (complete id outcome)
  unfolding body decode_body decode_complete i64_bytes
  decode-complete id outcome packed t =
      let bytes = outcome_bytes outcome in
      let rest = complete_rest (to_word 64 id) bytes in
      let back = decode_outcome-bytes outcome t.1 in
      let enough : ltb (8 + length bytes) 9 ≡ false = ground arith in
      let same : i64_from (to_le 8 (to_word 64 id)) ≡ id = i64_from-bytes id t.0 in
      rw (rest.0, enough, rest.1, rest.2, back.0, same)

  module _ (lossless : IsLossless mp) where
    -- Mapping a step to its wire form and back.
    step_pair-wire : (done : List (Bytes × Bytes)) → map step_pair (map wire_step done) ≡ done
    unfolding step_pair wire_step
    step_pair-wire [] = refl
    step_pair-wire (s ∷ done) = ap (◌∷◌ s) (step_pair-wire done)

    -- `decode_body` reads the body of any message back.
    pub decode-body :
        (m : Message) (n : ℕ) (packed : Bytes)
        → IsTyped m
        → measure mp m ≡ ok (n, packed)
        → decode_body mp (body m packed) ≡ ok m
    unfolding body decode_body measure
    decode-body (register entries) n packed t h =
        ground (arith, lossless.entries entries {b = packed})
    decode-body (steps id done) n packed t h =
        ground (arith, lossless.steps (id, map wire_step done) {b = packed}, step_pair-wire done)
    decode-body (recorded id name result) n packed t h =
        ground
          (arith, lossless.step (record { id = id; name = name; result = result }) {b = packed})
    decode-body (stored id name) n packed t h =
        ground (arith, lossless.stored (id, name) {b = packed})
    decode-body (dispatch d) n packed t h = decode-dispatch d n packed t h
    decode-body (complete id outcome) n packed t h = decode-complete id outcome packed t
