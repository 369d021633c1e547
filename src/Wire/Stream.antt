-- ===== src/Wire/Stream.antt =====
-- The decoder of crates/gylo-core/src/protocol.rs against a specification that has no buffer and no
-- position: a function on the bytes that are not yet read.
use gylo.Prelude.{
  ◌++◌, ℕ, ◌+◌, ◌-◌, ◌<◌, ◌≤◌, ◌≡◌, refl, sym, ap, ◌∙◌, Option, none, some, arith, ltb, leb,
  if◌then◌else◌, length, length-drop, take, drop, drop-drop, drop-append_le, Bool-cases, inl, inr,
}
use gylo.Prelude.Results.{Result, ok, err}
use gylo.Wire.Words.{Bytes, from_le}
use gylo.Wire.Message.{
  Message, ProtocolError, frame_too_large, header_bytes, max_frame_bytes, compact_threshold,
}
use gylo.Wire.MessagePack.{MessagePack}
use gylo.Wire.Decode.{Decoder, buffered, extend, compact, advance, next_message, decode_body, slice}

-- The bytes that the decoder has not read.
unfoldable pub unread : Decoder → Bytes
unread d = drop d.pos d.buf

-- The position is inside the buffer, and below the threshold at which the buffer is compacted.
pub record IsValid (d : Decoder) : Type 0 where
  pub inside : d.pos ≤ length d.buf
  pub compacted : d.pos < compact_threshold

-- More bytes read from the socket join the end.
pub unread-extend :
    (d : Decoder) (bytes : Bytes) → IsValid d → unread (extend d bytes) ≡ unread d ++ bytes
unfolding unread extend
unread-extend d bytes v = drop-append_le d.pos d.buf bytes v.inside

-- One message off the front of a stream: what is left of it, and the answer.
unfoldable pub rest_of :
    Bytes → ℕ → Result ProtocolError Message → Bytes × Result ProtocolError (Option Message)
rest_of p n (err e) = (p, err e)
rest_of p n (ok m) = (drop n p, ok (some m))

unfoldable pub parse : MessagePack → Bytes → Bytes × Result ProtocolError (Option Message)
unfolding rest_of
parse mp p =
    let n = from_le (take 4 p) in
    if ltb (length p) 4
    then (p, ok none)
    else if ltb max_frame_bytes n
    then (p, err (frame_too_large n))
    else if ltb (length p - 4) n
    then (p, ok none)
    else rest_of p (4 + n) (decode_body mp (take n (drop 4 p)))

abbrev pub observe :
    Decoder × Result ProtocolError (Option Message) → Bytes × Result ProtocolError (Option Message)
observe (d, r) = (unread d, r)

buffered_lem : (d : Decoder) → buffered d ≡ length (unread d)
unfolding buffered unread
buffered_lem d = sym (length-drop d.pos d.buf)

slice_header : (d : Decoder) → slice d.pos (d.pos + header_bytes) d.buf ≡ take 4 (unread d)
unfolding unread
slice_header d = let e : d.pos + 4 - d.pos ≡ 4 = omega arith in rw e

slice_body :
    (d : Decoder) (n : ℕ)
    → slice (d.pos + header_bytes) (d.pos + header_bytes + n) d.buf ≡ take n (drop 4 (unread d))
unfolding unread
slice_body d n =
    let e : d.pos + 4 + n - (d.pos + 4) ≡ n = omega arith in rw (e, drop-drop d.pos 4 d.buf)

unread-compact : (d : Decoder) → unread (compact d) ≡ unread d
unfolding unread compact
unread-compact d = elim (Bool-cases (leb compact_threshold d.pos)) [ inl e ↦ rw e | inr e ↦ rw e ]

unread-advance :
    (d : Decoder) (n : ℕ)
    → unread (compact (record d { pos = d.pos + header_bytes + n })) ≡ drop (4 + n) (unread d)
unread-advance d n =
    unread-compact _
    ∙ unfold unread in
      (let e : d.pos + 4 + n ≡ d.pos + (4 + n) = omega arith in
        rw (e, drop-drop d.pos (4 + n) d.buf))

advance-rest_of :
    (d : Decoder) (n : ℕ) (r : Result ProtocolError Message)
    → observe (advance d (d.pos + header_bytes + n) r) ≡ rest_of (unread d) (4 + n) r
unfolding advance rest_of
advance-rest_of d n (err e) = refl
advance-rest_of d n (ok m) = ap (λ (p : Bytes). (p, ok (some m))) (unread-advance d n)

-- On every state next_message does to the unread bytes what the specification parse does: the
-- buffer, the position and the compaction are not observable.
pub next_message-parse :
    (mp : MessagePack) (d : Decoder) → observe (next_message mp d) ≡ parse mp (unread d)
unfolding next_message parse
next_message-parse mp d =
    let p = unread d in
    let n = from_le (take 4 p) in
    let seen = slice_header d in
    let body = slice_body d n in
    elim (Bool-cases (ltb (length p) 4)) [
      | inl short ↦ rw (buffered_lem d, short)
      | inr more ↦ elim (Bool-cases (ltb max_frame_bytes n)) [
        | inl big ↦ rw (buffered_lem d, more, seen, big)
        | inr fits ↦ elim (Bool-cases (ltb (length p - 4) n)) [
          | inl part ↦ rw (buffered_lem d, more, seen, fits, part)
          | inr whole ↦ rw (buffered_lem d, more, seen, fits, whole, body) (advance-rest_of d n _)
        ]
      ]
    ]
