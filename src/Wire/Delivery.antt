-- ===== src/Wire/Delivery.antt =====
-- From `encode` on one side of the socket to `Decoder` on the other
-- (crates/gylo-core/src/protocol.rs, and the batches of crates/gylo-core/tests/properties.rs).
use gylo.Prelude.{
  ◌≡◌, refl, sym, ap, ap₂, subst, ◌∙◌, List, [], ◌∷◌, ◌++◌, some, append-nil, append_assoc, arith,
  inl, inr, length, All,
}
use gylo.Prelude.Results.{Result-cases, Result, ok, err}
use gylo.Wire.Words.{Bytes}
use gylo.Wire.Message.{Message, ProtocolError, IsTyped}
use gylo.Wire.MessagePack.{MessagePack, IsLossless}
use gylo.Wire.Encode.{prepare, encode}
use gylo.Wire.Decode.{Decoder, new_decoder, extend, next_message}
use gylo.Wire.Frame.{frame, encode_ok, encode_err}
use gylo.Wire.Buffer.{new_decoder-IsValid, extend-IsValid, decode_all-IsValid}
use gylo.Wire.Stream.{unread, parse, observe, next_message-parse, unread-extend, IsValid}
use gylo.Wire.Parse.{parse-frame}
use gylo.Wire.Batch.{Frames, Pending, drain, decode_all, decode_all-drain, receive, feed, flatten}
use gylo.Wire.Drain.{drain-Frames, Pending-Frames, Pending-nil, Frames-Pending}

-- A batch: messages encoded one after the other into one buffer, up to the first refusal.
unfoldable pub and_then :
    (Bytes → Bytes × Result ProtocolError (Unit {0}))
    → Bytes × Result ProtocolError (Unit {0})
    → Bytes × Result ProtocolError (Unit {0})
and_then rest (out, ok _) = rest out
and_then rest (out, err e) = (out, err e)

module _ (mp : MessagePack) where
  unfoldable pub encode_batch : List Message → Bytes → Bytes × Result ProtocolError (Unit {0})
  unfolding and_then
  encode_batch [] out = (out, ok tt)
  encode_batch (m ∷ ms) out = and_then (encode_batch ms) (encode mp m out)

  encode_batch-Frames :
      (ms : List Message) (out bytes : Bytes)
      → All IsTyped ms
      → encode_batch ms out ≡ (bytes, ok tt)
      → (fs : Bytes) × (bytes ≡ out ++ fs) × Frames mp ms fs
  unfolding encode_batch
  encode_batch-Frames [] out bytes ty h = ([], ap (λ x. x.0) (sym h) ∙ sym (append-nil out), refl)
  encode_batch-Frames (m ∷ ms) out bytes (t, ty) h = elim (Result-cases (prepare mp m)) [
    | inl ((n, packed), pr) ↦
        let next : encode_batch ms (out ++ frame m n packed) ≡ (bytes, ok tt) =
          sym (ap (and_then (encode_batch ms)) (encode_ok mp m n packed out pr)) ∙ h in
        let (fs, same, frames) = encode_batch-Frames ms (out ++ frame m n packed) bytes ty next in
        (
          frame m n packed ++ fs,
          same ∙ append_assoc out (frame m n packed) fs,
          (n, packed, fs, pr, t, refl, frames),
        )
    | inr (e, pr) ↦
        let next = sym (ap (and_then (encode_batch ms)) (encode_err mp m e out pr)) ∙ h in cc next
  ]

  feed-Pending :
      IsLossless mp
      → (ms : List Message) (r : Bytes) (chunks : List Bytes) → Pending mp ms r (flatten chunks)
      → feed mp r chunks ≡ ([], ms)
  unfolding feed
  feed-Pending lossless ms r [] pending =
      let (ms_nil, r_nil) = Pending-nil mp lossless ms r pending in
      ap₂ (λ (x : Bytes) (y : List Message). (x, y)) r_nil (sym ms_nil)
  feed-Pending lossless ms r (chunk ∷ chunks) pending =
      let b = (r ++ chunk) ++ flatten chunks in
      let frames = Pending-Frames mp lossless ms r (chunk ++ flatten chunks) pending in
      let (left, same, more) =
        drain-Frames mp lossless ms (r ++ chunk) (flatten chunks) (r ++ (chunk ++ flatten chunks))
          (length (r ++ chunk)) (append_assoc r chunk (flatten chunks)) frames (omega arith) in
      let rest =
        feed-Pending lossless left (drain mp (length (r ++ chunk)) (r ++ chunk)).0 chunks more in
      ap
        (λ (z : Bytes × List Message).
          (z.0, (drain mp (length (r ++ chunk)) (r ++ chunk)).1 ++ z.1))
        rest
      ∙ ap (λ (y : List Message). ([], y)) (sym same)

  receive-feed :
      (d : Decoder) (chunks : List Bytes)
      → IsValid d
      → (unread (receive mp d chunks).0, (receive mp d chunks).1) ≡ feed mp (unread d) chunks
  unfolding receive feed
  receive-feed d [] v = refl
  receive-feed d (chunk ∷ chunks) v =
      let held = extend d chunk in
      let valid = extend-IsValid d chunk v in
      let fuel = length (unread held) in
      let read = decode_all mp fuel held in
      let after : Bytes × List Message → Bytes × List Message =
        λ (y : Bytes × List Message). ((feed mp y.0 chunks).0, y.1 ++ (feed mp y.0 chunks).1) in
      ap (λ (z : Bytes × List Message). (z.0, read.1 ++ z.1))
        (receive-feed read.0 chunks (decode_all-IsValid mp fuel held valid))
      ∙ ap after (decode_all-drain mp fuel held)
      ∙ ap (λ (p : Bytes). after (drain mp (length p) p)) (unread-extend d chunk v)

-- If messages whose fields are in the range of their types are all encoded into one buffer, then the
-- decoder, reading these bytes in pieces cut at any places, returns exactly these messages, in
-- order, and has no byte left over.
pub receive-encode_batch :
    (mp : MessagePack) (ms : List Message) (bytes : Bytes) (chunks : List Bytes)
    → IsLossless mp
    → All IsTyped ms
    → encode_batch mp ms [] ≡ (bytes, ok tt)
    → flatten chunks ≡ bytes
    → ((receive mp new_decoder chunks).1 ≡ ms) × (unread (receive mp new_decoder chunks).0 ≡ [])
receive-encode_batch mp ms bytes chunks lossless ty done cut =
    let (fs, same, frames) = encode_batch-Frames mp ms [] bytes ty done in
    let pending = Frames-Pending mp lossless ms fs frames in
    let whole : flatten chunks ≡ fs = cut ∙ same in
    let fed : feed mp [] chunks ≡ ([], ms) =
      feed-Pending mp lossless ms [] chunks (subst (Pending mp ms []) (sym whole) pending) in
    let start : feed mp (unread new_decoder) chunks ≡ ([], ms) = unfold unread in fed in
    let all = receive-feed mp new_decoder chunks new_decoder-IsValid ∙ start in
    (ap (λ (x : Bytes × List Message). x.1) all, ap (λ (x : Bytes × List Message). x.0) all)

-- A decoder whose unread bytes begin with an encoded message returns that message, whatever follows
-- it, and is left with what follows it.
pub next_message-encode :
    (mp : MessagePack) (m : Message) (bytes more : Bytes) (d : Decoder)
    → IsLossless mp
    → IsTyped m
    → encode mp m [] ≡ (bytes, ok tt)
    → unread d ≡ bytes ++ more
    → ((next_message mp d).1 ≡ ok (some m)) × (unread (next_message mp d).0 ≡ more)
next_message-encode mp m bytes more d lossless ty done held = elim (Result-cases (prepare mp m)) [
  | inl ((n, packed), pr) ↦
      let wrote : bytes ≡ frame m n packed =
        ap (λ (x : Bytes × Result ProtocolError (Unit {0})). x.0)
          (sym done ∙ encode_ok mp m n packed [] pr) in
      let read : observe (next_message mp d) ≡ (more, ok (some m)) =
        next_message-parse mp d
        ∙ ap (parse mp) (held ∙ ap (λ (x : Bytes). x ++ more) wrote)
        ∙ parse-frame mp m n packed pr more lossless ty in
      (ap (λ x. x.1) read, ap (λ x. x.0) read)
  | inr (e, pr) ↦ cc (done, encode_err mp m e [] pr)
]
