-- ===== src/Wire/Parse.antt =====
-- What `next_message` of crates/gylo-core/src/protocol.rs answers on a whole frame and on a part of one.
use gylo.Prelude.{
  ℕ, ◌+◌, ◌-◌, ◌<◌, ◌≤◌, ◌≡◌, refl, sym, ap, ◌∙◌, [], ◌++◌, none, some, append-nil, arith, ltb,
  length, length-append, take, drop, take-append-drop, take-append_left, take-append_le,
  drop-append_left, drop-append_le, Bool-cases, true, false, inl, inr,
}
use gylo.Prelude.Results.{ok}
use gylo.Wire.Words.{Bytes, to_le, from_le, from_le-to_le, length-to_le}
use gylo.Wire.Message.{Message, IsTyped, max_frame_bytes}
use gylo.Wire.MessagePack.{MessagePack, IsLossless}
use gylo.Wire.Encode.{prepare}
use gylo.Wire.Body.{body, decode-body}
use gylo.Wire.Frame.{frame, prepare-measure, take-frame, drop-frame}
use gylo.Wire.Stream.{parse, rest_of}

module _ (mp : MessagePack) where
  module _ (m : Message) (n : ℕ) (packed : Bytes) (prepared : prepare mp m ≡ ok (n, packed)) where
    small : n ≤ max_frame_bytes
    small = (prepare-measure mp m n packed prepared).1

    pub length-frame : length (frame m n packed) ≡ 4 + n
    unfolding frame
    length-frame = omega (
      arith,
      length-append (to_le 4 n) (body m packed),
      length-to_le 4 n,
      (prepare-measure mp m n packed prepared).2,
    )

    header :
        (p q rest : Bytes)
        → 4 ≤ length p
        → p ++ q ≡ frame m n packed ++ rest
        → from_le (take 4 p) ≡ n
    header p q rest long e =
        ap from_le (sym (take-append_le 4 p q long) ∙ ap (take 4) e ∙ take-frame m n packed rest)
        ∙ from_le-to_le 4 n (omega (arith, small))

    -- A part of a frame is answered by `None`, and is kept.
    pub parse-part :
        (p q rest : Bytes)
        → p ++ q ≡ frame m n packed ++ rest
        → length p < 4 + n
        → parse mp p ≡ (p, ok none)
    unfolding parse
    parse-part p q rest e short = elim (Bool-cases (ltb (length p) 4)) [
      | inl cut ↦ rw cut
      | inr more ↦
          let size = header p q rest (ground arith) e in
          let fits : ltb max_frame_bytes n ≡ false = ground (arith, small) in
          let part : ltb (length p - 4) n ≡ true = ground arith in rw (more, size, fits, part)
    ]

    -- A whole frame is answered by its message, and what follows it is left.
    pub parse-frame :
        (rest : Bytes)
        → IsLossless mp
        → IsTyped m
        → parse mp (frame m n packed ++ rest) ≡ (rest, ok (some m))
    unfolding parse
    parse-frame rest lossless typed =
        let p = frame m n packed ++ rest in
        let long : length p ≡ 4 + n + length rest =
          omega (arith, length-append (frame m n packed) rest, length-frame) in
        let more : ltb (length p) 4 ≡ false = ground arith in
        let size = header p [] rest (omega arith) (append-nil p) in
        let fits : ltb max_frame_bytes n ≡ false = ground (arith, small) in
        let whole : ltb (length p - 4) n ≡ false = ground arith in
        let facts = prepare-measure mp m n packed prepared in
        let taken : take n (drop 4 p) ≡ body m packed =
          ap (take n) (drop-frame m n packed rest)
          ∙ take-append_left n (body m packed) rest facts.2 in
        let left : drop (4 + n) p ≡ rest =
          drop-append_left (4 + n) (frame m n packed) rest length-frame in
        rw
          (
            more,
            size,
            fits,
            whole,
            taken,
            decode-body mp lossless m n packed typed facts.0,
            rest_of,
          )
          (rw (size, left))

-- If a frame `f` stands at the front of `p ++ q` and `p` is long enough, it stands at the front of `p`.
pub split_frame :
    (f p q rest : Bytes)
    → p ++ q ≡ f ++ rest
    → length f ≤ length p
    → (p ≡ f ++ drop (length f) p) × (drop (length f) p ++ q ≡ rest)
split_frame f p q rest e long = (
  sym (take-append-drop (length f) p)
      ∙ ap (λ (x : Bytes). x ++ drop (length f) p)
          (sym (take-append_le (length f) p q long)
            ∙ ap (take (length f)) e
            ∙ take-append_left (length f) f rest refl),
  sym (drop-append_le (length f) p q long)
      ∙ ap (drop (length f)) e
      ∙ drop-append_left (length f) f rest refl,
)
