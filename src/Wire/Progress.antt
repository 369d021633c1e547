-- ===== src/Wire/Progress.antt =====
-- The loop over `next_message` (crates/gylo-core/src/protocol.rs) ends: a message takes bytes, and
-- any other answer leaves them.
use gylo.Prelude.{
  ℕ, zero, suc, ◌+◌, ◌-◌, ◌<◌, ◌≤◌, ◌≡◌, refl, ap, List, [], ◌∷◌, Option, none, some, arith, ltb,
  length, length-drop, take, Bool-cases, inl, inr, subst,
}
use gylo.Prelude.Results.{Result, ok, err}
use gylo.Wire.Words.{Bytes, from_le}
use gylo.Wire.Message.{Message, ProtocolError, max_frame_bytes}
use gylo.Wire.MessagePack.{MessagePack}
use gylo.Wire.Decode.{Decoder, next_message}
use gylo.Wire.Stream.{unread, parse, rest_of, observe, next_message-parse}
use gylo.Wire.Batch.{collect, decode_all, drain, decode_all-drain}

-- What an answer does to the bytes.
abbrev pub Answered : Bytes → Bytes × Result ProtocolError (Option Message) → Type 0
Answered p (r, ok (some m)) = length r < length p
Answered p (r, ok none) = r ≡ p
Answered p (r, err e) = r ≡ p

rest_of-Answered :
    (p : Bytes) (n : ℕ) (answer : Result ProtocolError Message)
    → 4 ≤ length p
    → Answered p (rest_of p (4 + n) answer)
unfolding rest_of
rest_of-Answered p n (err x) long = refl
rest_of-Answered p n (ok m) long = omega (arith, length-drop (4 + n) p)

parse-Answered : (mp : MessagePack) (p : Bytes) → Answered p (parse mp p)
unfolding parse
parse-Answered mp p =
    let n = from_le (take 4 p) in
    elim (Bool-cases (ltb (length p) 4)) [
      | inl short ↦ rw short refl
      | inr more ↦ elim (Bool-cases (ltb max_frame_bytes n)) [
        | inl big ↦ rw (more, big) refl
        | inr fits ↦ elim (Bool-cases (ltb (length p - 4) n)) [
          | inl part ↦ rw (more, fits, part) refl
          | inr whole ↦
              let long : 4 ≤ length p = ground arith in
              rw (more, fits, whole) (rest_of-Answered p n _ long)
        ]
      ]
    ]

-- An answer without a message.
abbrev pub IsDry : Bytes × Result ProtocolError (Option Message) → Type 0
IsDry (p, ok (some m)) = ⊥
IsDry (p, ok none) = Unit
IsDry (p, err e) = Unit

module _ (mp : MessagePack) where
  collect-IsDry :
      (fuel : ℕ) (p : Bytes)
      → ((q : Bytes) → length q ≤ fuel → IsDry (parse mp (drain mp fuel q).0))
      → length p ≤ suc fuel
      → (answer : Bytes × Result ProtocolError (Option Message)) → parse mp p ≡ answer
      → IsDry (parse mp (collect (drain mp fuel) answer).0)
  unfolding collect
  collect-IsDry fuel p ih h (r, ok (some m)) e =
      let takes : length r < length p = subst (Answered p) e (parse-Answered mp p) in
      ih r (omega (arith, takes, h))
  collect-IsDry fuel p ih h (r, ok none) e =
      let same : r ≡ p = subst (Answered p) e (parse-Answered mp p) in rw (same, e) tt
  collect-IsDry fuel p ih h (r, err x) e =
      let same : r ≡ p = subst (Answered p) e (parse-Answered mp p) in rw (same, e) tt

  drain-IsDry : (fuel : ℕ) (p : Bytes) → length p ≤ fuel → IsDry (parse mp (drain mp fuel p).0)
  unfolding drain
  drain-IsDry zero [] h = unfold parse in tt
  drain-IsDry zero (b ∷ p) h = absurd (omega arith)
  drain-IsDry (suc fuel) p h = collect-IsDry fuel p (drain-IsDry fuel) h (parse mp p) refl

  -- With as many rounds as there are unread bytes, the loop over next_message stops because the
  -- decoder has no further message to give, not because the rounds ran out.
  pub decode_all-IsDry :
      (fuel : ℕ) (d : Decoder)
      → length (unread d) ≤ fuel
      → IsDry (observe (next_message mp (decode_all mp fuel d).0))
  decode_all-IsDry fuel d h =
      let end = (decode_all mp fuel d).0 in
      let same : unread end ≡ (drain mp fuel (unread d)).0 =
        ap (λ (x : Bytes × List Message). x.0) (decode_all-drain mp fuel d) in
      rw (next_message-parse mp end, same) (drain-IsDry fuel (unread d) h)
