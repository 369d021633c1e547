-- ===== src/Wire/Buffer.antt =====
-- The decoder's buffer: its position stays inside, and the part already read stays below the
-- threshold (crates/gylo-core/src/protocol.rs).
use gylo.Prelude.{
  ℕ, zero, suc, ◌+◌, ◌-◌, ◌≤◌, List, Option, none, some, arith, ltb, leb, length, length-append,
  Bool-cases, inl, inr,
}
use gylo.Prelude.Results.{Result, ok, err}
use gylo.Wire.Words.{Bytes, from_le}
use gylo.Wire.Message.{Message, ProtocolError, header_bytes, max_frame_bytes, compact_threshold}
use gylo.Wire.MessagePack.{MessagePack}
use gylo.Wire.Decode.{Decoder, new_decoder, extend, buffered, compact, advance, next_message, slice}
use gylo.Wire.Stream.{IsValid}
use gylo.Wire.Batch.{collect, decode_all}

pub new_decoder-IsValid : IsValid new_decoder
new_decoder-IsValid = omega arith

pub extend-IsValid : (d : Decoder) (bytes : Bytes) → IsValid d → IsValid (extend d bytes)
unfolding extend
extend-IsValid d bytes v = record {
  inside = omega (arith, v.inside, length-append d.buf bytes);
  compacted = v.compacted;
}

advance-IsValid :
    (d : Decoder) (end : ℕ) (r : Result ProtocolError Message)
    → IsValid d
    → end ≤ length d.buf
    → IsValid (advance d end r).0
unfolding advance compact
advance-IsValid d end (err e) v h = v
advance-IsValid d end (ok m) v h = elim (Bool-cases (leb compact_threshold end)) [
  | inl past ↦ rw past (omega arith)
  | inr below ↦ rw below (record { inside = h; compacted = ground arith })
]

-- Whatever bytes arrive, next_message keeps the position inside the buffer and the part already read
-- below the threshold.
pub next_message-IsValid :
    (mp : MessagePack) (d : Decoder) → IsValid d → IsValid (next_message mp d).0
unfolding next_message buffered
next_message-IsValid mp d v =
    let n = from_le (slice d.pos (d.pos + header_bytes) d.buf) in
    elim (Bool-cases (ltb (length d.buf - d.pos) header_bytes)) [
      | inl short ↦ rw short v
      | inr more ↦ elim (Bool-cases (ltb max_frame_bytes n)) [
        | inl big ↦ rw (more, big) v
        | inr fits ↦ elim (Bool-cases (ltb (length d.buf - d.pos - header_bytes) n)) [
          | inl part ↦ rw (more, fits, part) v
          | inr whole ↦
              let enough : d.pos + header_bytes + n ≤ length d.buf = ground arith in
              rw (more, fits, whole) (advance-IsValid d (d.pos + header_bytes + n) _ v enough)
        ]
      ]
    ]

collect-IsValid :
    (rest : Decoder → Decoder × List Message)
    → ((d : Decoder) → IsValid d → IsValid (rest d).0)
    → (r : Decoder × Result ProtocolError (Option Message)) → IsValid r.0
    → IsValid (collect rest r).0
unfolding collect
collect-IsValid rest keep (d, ok (some m)) v = keep d v
collect-IsValid rest keep (d, ok none) v = v
collect-IsValid rest keep (d, err e) v = v

pub decode_all-IsValid :
    (mp : MessagePack) (fuel : ℕ) (d : Decoder) → IsValid d → IsValid (decode_all mp fuel d).0
unfolding decode_all
decode_all-IsValid mp zero d v = v
decode_all-IsValid mp (suc fuel) d v =
    collect-IsValid (decode_all mp fuel) (decode_all-IsValid mp fuel) (next_message mp d)
      (next_message-IsValid mp d v)
