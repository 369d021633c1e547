-- ===== src/Wire/Drain.antt =====
-- Draining a buffer that holds a part of a batch of frames.
use gylo.Prelude.{
  ℕ, zero, suc, ◌+◌, ◌≤◌, ◌≡◌, refl, sym, ap, ◌∙◌, List, [], ◌∷◌, ◌++◌, none, some, append-nil,
  arith, length, length-append, drop, dec_lt,
}
use gylo.Prelude.Results.{ok}
use gylo.Wire.Words.{Bytes}
use gylo.Wire.Message.{Message}
use gylo.Wire.MessagePack.{MessagePack, IsLossless}
use gylo.Wire.Frame.{frame}
use gylo.Wire.Stream.{parse}
use gylo.Wire.Parse.{parse-part, parse-frame, length-frame, split_frame}
use gylo.Wire.Batch.{drain, Frames, Pending}

module _ (mp : MessagePack) where
  drain-nil : (fuel : ℕ) → drain mp fuel [] ≡ ([], [])
  unfolding drain parse
  drain-nil zero = refl
  drain-nil (suc fuel) = refl

  -- What `drain` leaves of the messages that stand in `p ++ q`.
  abbrev pub Drained : List Message → Bytes → Bytes × List Message → Type 0
  Drained ms q (r, out) = (left : List Message) × (ms ≡ out ++ left) × Pending mp left r q

  drain-part : (p : Bytes) (fuel : ℕ) → parse mp p ≡ (p, ok none) → drain mp fuel p ≡ (p, [])
  unfolding drain
  drain-part p zero e = refl
  drain-part p (suc fuel) e = rw e

  drain-step :
      (p r : Bytes) (m : Message) (fuel : ℕ)
      → parse mp p ≡ (r, ok (some m))
      → drain mp (suc fuel) p ≡ ((drain mp fuel r).0, m ∷ (drain mp fuel r).1)
  unfolding drain
  drain-step p r m fuel e = rw e

  append-eq-nil : (p q : Bytes) → p ++ q ≡ [] → (p ≡ []) × (q ≡ [])
  append-eq-nil [] q e = (refl, e)
  append-eq-nil (x ∷ p) q e = cc

  module _ (lossless : IsLossless mp) where
    pub drain-Frames :
        (ms : List Message) (p q b : Bytes) (fuel : ℕ)
        → p ++ q ≡ b
        → Frames mp ms b
        → length p ≤ fuel
        → Drained ms q (drain mp fuel p)
    drain-Frames [] p q b fuel e f h =
        let (p_nil, q_nil) = append-eq-nil p q (e ∙ f) in
        rw (p_nil, drain-nil fuel) ([], refl, (refl, q_nil))
    drain-Frames (m ∷ ms) p q b zero e (n, packed, rest, pr, ty, eb, fr) h =
        unfold drain in (m ∷ ms, refl, (n, packed, rest, pr, ty, e ∙ eb, omega arith, fr))
    drain-Frames (m ∷ ms) p q b (suc fuel) e (n, packed, rest, pr, ty, eb, fr) h =
        elim (dec_lt (length p) (4 + n)) [
          | yes short ↦
              rw (drain-part p (suc fuel) (parse-part mp m n packed pr p q rest (e ∙ eb) short))
                (m ∷ ms, refl, (n, packed, rest, pr, ty, e ∙ eb, short, fr))
          | no long ↦
              let f = frame m n packed in
              let size = length-frame mp m n packed pr in
              let (front, back) = split_frame f p q rest (e ∙ eb) (omega (arith, size)) in
              let p' = drop (length f) p in
              let step : parse mp p ≡ (p', ok (some m)) =
                ap (parse mp) front ∙ parse-frame mp m n packed pr p' lossless ty in
              let shorter : length p ≡ 4 + n + length p' =
                ap length front ∙ omega (arith, length-append f p', size) in
              let (left, same, pending) =
                drain-Frames ms p' q rest fuel back fr (omega (arith, shorter, h)) in
              rw (drain-step p p' m fuel step) (left, ap (◌∷◌ m) same, pending)
        ]

    pub Pending-Frames :
        (ms : List Message) (r q : Bytes) → Pending mp ms r q → Frames mp ms (r ++ q)
    Pending-Frames [] r q (r_nil, q_nil) = rw (r_nil, q_nil)
    Pending-Frames (m ∷ ms) r q (n, packed, rest, pr, ty, e, short, fr) =
        (n, packed, rest, pr, ty, e, fr)

    -- With nothing to come, nothing is pending.
    pub Pending-nil : (ms : List Message) (r : Bytes) → Pending mp ms r [] → (ms ≡ []) × (r ≡ [])
    Pending-nil [] r (r_nil, q_nil) = (refl, r_nil)
    Pending-nil (m ∷ ms) r (n, packed, rest, pr, ty, e, short, fr) = absurd (
        omega (
          arith,
          short,
          ap length (sym (append-nil r) ∙ e),
          length-append (frame m n packed) rest,
          length-frame mp m n packed pr,
        ))

    pub Frames-Pending : (ms : List Message) (b : Bytes) → Frames mp ms b → Pending mp ms [] b
    Frames-Pending [] b e = (refl, e)
    Frames-Pending (m ∷ ms) b (n, packed, rest, pr, ty, e, fr) =
        (n, packed, rest, pr, ty, e, omega arith, fr)
