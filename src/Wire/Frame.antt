-- ===== src/Wire/Frame.antt =====
-- Whole frames: what `encode` of crates/gylo-core/src/protocol.rs leaves in the shared buffer.
use gylo.Prelude.{
  ℕ, ◌+◌, ◌^◌, ◌<◌, ◌≤◌, ◌≡◌, refl, ap, List, [], ◌∷◌, ◌++◌, append_assoc, arith, ltb, length,
  length-append, take, drop, take-append_left, ◌⊎◌, inl, inr, Bool-cases,
}
use gylo.Prelude.Results.{Result-cases, ok, err}
use gylo.Wire.Words.{Bytes, to_le, length-to_le, from_le, from_le-to_le}
use gylo.Wire.Message.{
  Message, dispatch, Dispatched, ProtocolError, max_frame_bytes, frame_too_large,
  task_name_too_long, dispatch_head_bytes,
}
use gylo.Wire.MessagePack.{MessagePack}
use gylo.Wire.Encode.{measure, prepare, encode, encode_frame, name_len_cases}
use gylo.Wire.Body.{body, write_body_lem, length-body}

-- The header and the body.
unfoldable pub frame : Message → ℕ → Bytes → Bytes
frame m n packed = to_le 4 n ++ body m packed

pub take-frame :
    (m : Message) (n : ℕ) (packed more : Bytes) → take 4 (frame m n packed ++ more) ≡ to_le 4 n
unfolding frame to_le
take-frame m n packed more = refl

pub drop-frame :
    (m : Message) (n : ℕ) (packed more : Bytes)
    → drop 4 (frame m n packed ++ more) ≡ body m packed ++ more
unfolding frame to_le
drop-frame m n packed more = refl

take-length {ℓ} : {A : Type ℓ} (xs : List A) → take (length xs) xs ≡ xs
take-length [] = refl
take-length (x ∷ xs) = ap (◌∷◌ x) (take-length xs)

module _ (mp : MessagePack) (m : Message) where
  -- A message that passes the checks has a body of at most the limit, measured as it is written.
  pub prepare-measure :
      (n : ℕ) (packed : Bytes)
      → prepare mp m ≡ ok (n, packed)
      → (measure mp m ≡ ok (n, packed)) × (n ≤ max_frame_bytes) × (length (body m packed) ≡ n)
  unfolding prepare
  prepare-measure n packed h =
      let facts : (measure mp m ≡ ok (n, packed)) × (n ≤ max_frame_bytes) = ground arith in
      (facts.0, facts.1, length-body mp m n packed facts.0)

  encode_frame_ok :
      (n : ℕ) (packed out : Bytes)
      → prepare mp m ≡ ok (n, packed)
      → encode_frame mp m out ≡ (out ++ frame m n packed, ok tt)
  unfolding encode_frame frame
  encode_frame_ok n packed out h =
      let facts = prepare-measure n packed h in
      let written = write_body_lem mp m n packed (out ++ to_le 4 n) facts.0 in
      rw (h, encode_frame) (rw (written, append_assoc))

  pub encode_ok :
      (n : ℕ) (packed out : Bytes)
      → prepare mp m ≡ ok (n, packed)
      → encode mp m out ≡ (out ++ frame m n packed, ok tt)
  unfolding encode
  encode_ok n packed out h = rw (encode_frame_ok n packed out h, encode)

  encode_frame_err :
      (e : ProtocolError) (out : Bytes)
      → prepare mp m ≡ err e
      → encode_frame mp m out ≡ (out, err e)
  unfolding encode_frame
  encode_frame_err e out h = rw (h, encode_frame)

  pub encode_err :
      (e : ProtocolError) (out : Bytes) → prepare mp m ≡ err e → encode mp m out ≡ (out, err e)
  unfolding encode
  encode_err e out h =
      rw (encode_frame_err e out h, encode) (ap (λ (b : Bytes). (b, err e)) (take-length out))

  -- What one call of `encode` may do to a buffer.
  abbrev pub AppendsOrRefuses : Type 0
  AppendsOrRefuses =
      ((f : Bytes) × (from_le (take 4 f) + 4 ≡ length f)
        × (length f ≤ max_frame_bytes + 4)
        × ((out : Bytes) → encode mp m out ≡ (out ++ f, ok tt)))
      ⊎ ((e : ProtocolError) × ((out : Bytes) → encode mp m out ≡ (out, err e)))

  -- Encode either appends one whole frame, whose header is the length of its body and within the
  -- limit, or fails and leaves the buffer as it was; which of the two does not depend on the buffer.
  pub encode_atomic : AppendsOrRefuses
  unfolding frame
  encode_atomic = elim (Result-cases (prepare mp m)) [
    | inl ((n, packed), h) ↦
        let facts = prepare-measure n packed h in
        let size : length (frame m n packed) ≡ 4 + n =
          omega (arith, length-append (to_le 4 n) (body m packed), length-to_le 4 n, facts.2) in
        let header : from_le (take 4 (frame m n packed)) ≡ n =
          rw (take-append_left 4 (to_le 4 n) (body m packed) (length-to_le 4 n))
            (from_le-to_le 4 n (omega (arith, facts.1))) in
        inl (
          frame m n packed,
          omega (arith, size, header),
          omega (arith, size, facts.1),
          λ out. encode_ok n packed out h,
        )
    | inr (e, h) ↦ inr (e, λ out. encode_err e out h)
  ]

module _ (mp : MessagePack) (d : Dispatched) where
  abbrev dispatch_size : ℕ
  dispatch_size = dispatch_head_bytes + length d.task + length d.payload

  prepare-dispatch :
      ((length d.task < 2 ^ 16)
        × (dispatch_size ≤ max_frame_bytes)
        × (prepare mp (dispatch d) ≡ ok (dispatch_size, [])))
      ⊎ ((length d.task < 2 ^ 16)
          × (max_frame_bytes < dispatch_size)
          × (prepare mp (dispatch d) ≡ err (frame_too_large dispatch_size)))
      ⊎ ((2 ^ 16 ≤ length d.task)
          × (prepare mp (dispatch d) ≡ err (task_name_too_long (length d.task))))
  unfolding prepare measure
  prepare-dispatch = elim (name_len_cases d.task) [
    | inl (fits, short) ↦ elim (Bool-cases (ltb max_frame_bytes dispatch_size)) [
      | inl big ↦ inr (inl (short, ground arith, rw (fits, big)))
      | inr small ↦ inl (short, ground arith, rw (fits, small) (ground arith))
    ]
    | inr (long, over) ↦ inr (inr (over, rw long))
  ]

  -- What `encode` does with a dispatch, by the sizes of its name and of its body.
  abbrev pub DispatchEncodes : Type 0
  DispatchEncodes =
      ((length d.task < 2 ^ 16)
        × (dispatch_size ≤ max_frame_bytes)
        × ((out : Bytes)
            → (length (encode mp (dispatch d) out).0 ≡ length out + 4 + dispatch_size)
              × ((encode mp (dispatch d) out).1 ≡ ok tt)))
      ⊎ ((length d.task < 2 ^ 16)
          × (max_frame_bytes < dispatch_size)
          × ((out : Bytes)
              → encode mp (dispatch d) out ≡ (out, err (frame_too_large dispatch_size))))
      ⊎ ((2 ^ 16 ≤ length d.task)
          × ((out : Bytes)
              → encode mp (dispatch d) out ≡ (out, err (task_name_too_long (length d.task)))))

  -- A dispatch is encoded exactly when its name is shorter than 2 ^ 16 bytes and its body, of 15
  -- bytes, the name and the payload, is within the limit; otherwise the buffer stays and the error
  -- says which of the two was too long, the name being reported first.
  pub encode-dispatch : DispatchEncodes
  unfolding frame
  encode-dispatch = elim prepare-dispatch [
    | inl (short, fits, pr) ↦ inl (
      short,
      fits,
      λ out.
          let wrote = encode_ok mp (dispatch d) dispatch_size [] out pr in
          let size = (prepare-measure mp (dispatch d) dispatch_size [] pr).2 in
          rw wrote (
            omega (
              arith,
              length-append out (to_le 4 dispatch_size ++ body (dispatch d) []),
              length-append (to_le 4 dispatch_size) (body (dispatch d) []),
              length-to_le 4 dispatch_size,
              size,
            ),
            refl,
          ),
    )
    | inr (inl (short, big, pr)) ↦
        inr (
          inl
            (short, big, λ out. encode_err mp (dispatch d) (frame_too_large dispatch_size) out pr))
    | inr (inr (long, pr)) ↦
        inr (
          inr (long, λ out. encode_err mp (dispatch d) (task_name_too_long (length d.task)) out pr))
  ]
