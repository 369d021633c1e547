-- ===== src/Wire/Batch.antt =====
-- Batches of frames cut into reads at arbitrary places, as crates/gylo-core/tests/properties.rs
-- describes them: `decode_all` and the reads of `a_batch_survives_any_split_points`.
use gylo.Prelude.{
  ℕ, zero, suc, ◌+◌, ◌<◌, ◌≡◌, refl, ap, ◌∙◌, List, [], ◌∷◌, ◌++◌, Option, none, some, length,
}
use gylo.Prelude.Results.{Result, ok, err}
use gylo.Wire.Words.{Bytes}
use gylo.Wire.Message.{Message, ProtocolError, IsTyped}
use gylo.Wire.MessagePack.{MessagePack}
use gylo.Wire.Encode.{prepare}
use gylo.Wire.Decode.{Decoder, extend, next_message}
use gylo.Wire.Frame.{frame}
use gylo.Wire.Stream.{unread, parse, observe, next_message-parse}

-- The step of `decode_all` on an answer of the decoder; `rest` goes on with the state after it.
unfoldable pub collect {ℓ} :
    {S : Type ℓ}
    → (S → S × List Message)
    → S × Result ProtocolError (Option Message)
    → S × List Message
collect rest (s, ok (some m)) = let (s', ms) = rest s in (s', m ∷ ms)
collect rest (s, ok none) = (s, [])
collect rest (s, err e) = (s, [])

abbrev pub flatten : List Bytes → Bytes
flatten [] = []
flatten (chunk ∷ chunks) = chunk ++ flatten chunks

module _ (mp : MessagePack) where
  -- `decode_all`: messages until there is no whole one left, or an error.
  unfoldable pub decode_all : ℕ → Decoder → Decoder × List Message
  unfolding collect
  decode_all zero d = (d, [])
  decode_all (suc fuel) d = collect (decode_all fuel) (next_message mp d)

  -- Reads of the socket, each followed by `decode_all`. A message takes a byte at least, so the
  -- number of bytes held is fuel enough.
  unfoldable pub receive : Decoder → List Bytes → Decoder × List Message
  receive d [] = (d, [])
  receive d (chunk ∷ chunks) =
      let held = extend d chunk in
      let (d', ms) = decode_all (length (unread held)) held in
      let (d'', ms') = receive d' chunks in (d'', ms ++ ms')

  -- The same on the bytes not yet read.
  unfoldable pub drain : ℕ → Bytes → Bytes × List Message
  unfolding collect
  drain zero p = (p, [])
  drain (suc fuel) p = collect (drain fuel) (parse mp p)

  abbrev unread_all : Decoder × List Message → Bytes × List Message
  unread_all (d, ms) = (unread d, ms)

  collect-unread :
      (fuel : ℕ)
      → ((d : Decoder) → unread_all (decode_all fuel d) ≡ drain fuel (unread d))
      → (r : Decoder × Result ProtocolError (Option Message))
      → unread_all (collect (decode_all fuel) r) ≡ collect (drain fuel) (observe r)
  unfolding collect
  collect-unread fuel ih (d, ok (some m)) = ap (λ (x : Bytes × List Message). (x.0, m ∷ x.1)) (ih d)
  collect-unread fuel ih (d, ok none) = refl
  collect-unread fuel ih (d, err e) = refl

  pub decode_all-drain :
      (fuel : ℕ) (d : Decoder) → unread_all (decode_all fuel d) ≡ drain fuel (unread d)
  unfolding decode_all drain
  decode_all-drain zero d = refl
  decode_all-drain (suc fuel) d =
      collect-unread fuel (decode_all-drain fuel) (next_message mp d)
      ∙ ap (collect (drain fuel)) (next_message-parse mp d)

  -- Bytes that are whole frames, one for each message.
  abbrev pub Frames : List Message → Bytes → Type 0
  Frames [] b = b ≡ []
  Frames (m ∷ ms) b =
      (n : ℕ) × (packed : Bytes) × (rest : Bytes) × (prepare mp m ≡ ok (n, packed))
      × IsTyped m
      × (b ≡ frame m n packed ++ rest)
      × Frames ms rest

  -- Messages of which a part `r` is read, too short for the first frame, and `q` is to come.
  abbrev pub Pending : List Message → Bytes → Bytes → Type 0
  Pending [] r q = (r ≡ []) × (q ≡ [])
  Pending (m ∷ ms) r q =
      (n : ℕ) × (packed : Bytes) × (rest : Bytes) × (prepare mp m ≡ ok (n, packed))
      × IsTyped m
      × (r ++ q ≡ frame m n packed ++ rest)
      × (length r < 4 + n)
      × Frames ms rest

  -- `receive` on the bytes not yet read.
  unfoldable pub feed : Bytes → List Bytes → Bytes × List Message
  feed p [] = (p, [])
  feed p (chunk ∷ chunks) =
      let (r, ms) = drain (length (p ++ chunk)) (p ++ chunk) in
      let (r', ms') = feed r chunks in (r', ms ++ ms')
