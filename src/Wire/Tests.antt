-- ===== src/Wire/Tests.antt =====
-- Runs of the codec, and its theorems at concrete inputs.
use gylo.Prelude.{ℕ, zero, suc, ◌≡◌, refl, List, [], ◌∷◌, ◌++◌, false, arith, take, drop}
use gylo.Prelude.Int.{ℤ, pos, negsuc}
use gylo.Prelude.Results.{Result, ok, err}
use gylo.Wire.Words.{
  Bytes, to_le, from_le, to_word, from_word, i64_bytes, i64_from, i16_bytes, i16_from,
}
use gylo.Wire.Utf8.{is_utf8}
use gylo.Wire.Message.{Message, dispatch, complete, failure, CronRegistration, unknown_kind}
use gylo.Wire.MessagePack.{MessagePack, IsLossless}
use gylo.Wire.Encode.{encode, encode_frame, prepare, measure, write_body, name_len}
use gylo.Wire.Decode.{
  Decoder, new_decoder, extend, next_message, buffered, compact, decode_body, decode_dispatch,
  decode_complete,
}
use gylo.Wire.Frame.{encode_atomic, DispatchEncodes, encode-dispatch, AppendsOrRefuses}
use gylo.Wire.Stream.{unread, observe, parse, next_message-parse}
use gylo.Wire.Batch.{receive, decode_all}
use gylo.Wire.Delivery.{encode_batch, receive-encode_batch}

-- A library that packs an acknowledgement as the job's id and the step's name, an empty
-- registration as one byte, and refuses the rest.
unpack_stored : Bytes → Result Bytes (ℤ × Bytes)
unpack_stored [] = err []
unpack_stored (sign ∷ []) = err []
unpack_stored (sign ∷ size ∷ name) = ok (sign_of sign size, name)
  where
    sign_of : ℕ → ℕ → ℤ
    sign_of zero n = pos n
    sign_of (suc _) n = negsuc n

pack_stored : ℤ × Bytes → Result Bytes Bytes
pack_stored (pos n, name) = ok (0 ∷ n ∷ name)
pack_stored (negsuc n, name) = ok (1 ∷ n ∷ name)

pack_entries : List CronRegistration → Result Bytes Bytes
pack_entries [] = ok (0x90 ∷ [])
pack_entries (e ∷ entries) = err []

unpack_entries : Bytes → Result Bytes (List CronRegistration)
unpack_entries b = ok []

toy : MessagePack
unfolding unpack_entries pack_stored unpack_stored pack_entries
toy = record {
  entries_to_vec = pack_entries;
  entries_from_slice = unpack_entries;
  steps_to_vec = λ v. err [];
  steps_from_slice = λ b. err [];
  record_to_vec = λ v. err [];
  record_from_slice = λ b. err [];
  stored_to_vec = pack_stored;
  stored_from_slice = unpack_stored;
}

toy-stored : (v : ℤ × Bytes) {b : Bytes} → pack_stored v ≡ ok b → unpack_stored b ≡ ok v
unfolding pack_stored unpack_stored
toy-stored (pos n, name) {b} h = ground arith
toy-stored (negsuc n, name) {b} h = ground arith

toy-entries :
    (v : List CronRegistration) {b : Bytes} → pack_entries v ≡ ok b → unpack_entries b ≡ ok v
unfolding unpack_entries pack_entries
toy-entries [] h = refl
toy-entries (e ∷ entries) h = cc

toy-IsLossless : IsLossless toy
unfolding toy
toy-IsLossless = record {
  entries = toy-entries;
  steps = λ v h. cc;
  step = λ v h. cc;
  stored = toy-stored;
}

-- `charge`, as in the source's own tests.
abbrev charge : Message
charge = dispatch (record {
  id = negsuc 41;
  attempt = pos 3;
  max_attempts = pos 20;
  task = 0x62 ∷ 0xc3 ∷ 0xa9 ∷ [];
  payload = 0x93 ∷ 0x01 ∷ [];
})

abbrev done : Message
done = complete (pos 7) (failure (0x6e ∷ 0x6f ∷ []) false)

abbrev charge_bytes : Bytes
charge_bytes =
    20 ∷ 0 ∷ 0 ∷ 0 ∷ 0 ∷ 0xd6 ∷ 0xff ∷ 0xff ∷ 0xff ∷ 0xff ∷ 0xff ∷ 0xff ∷ 0xff ∷ 3 ∷ 0 ∷ 20 ∷ 0 ∷ 3
    ∷ 0 ∷ 0x62 ∷ 0xc3 ∷ 0xa9 ∷ 0x93 ∷ 0x01 ∷ []

abbrev done_bytes : Bytes
done_bytes = 12 ∷ 0 ∷ 0 ∷ 0 ∷ 1 ∷ 7 ∷ 0 ∷ 0 ∷ 0 ∷ 0 ∷ 0 ∷ 0 ∷ 0 ∷ 2 ∷ 0x6e ∷ 0x6f ∷ []

both_encode : encode_batch toy (charge ∷ done ∷ []) [] ≡ (charge_bytes ++ done_bytes, ok tt)
unfolding encode_batch encode encode_frame prepare measure write_body name_len i64_bytes i16_bytes
    to_le to_word
both_encode = refl

charge_encodes : encode toy charge [] ≡ (charge_bytes, ok tt)
unfolding encode encode_frame prepare measure write_body name_len i64_bytes i16_bytes to_le to_word
charge_encodes = refl

-- The batch in three reads, cut inside the header of the first frame and inside the second body.
abbrev reads : List Bytes
reads = take 2 charge_bytes ∷ (drop 2 charge_bytes ++ take 7 done_bytes) ∷ drop 7 done_bytes ∷ []

receive_runs : (receive toy new_decoder reads).1 ≡ charge ∷ done ∷ []
unfolding receive decode_all next_message buffered compact decode_body decode_dispatch
    decode_complete extend unread from_le i64_from i16_from from_word is_utf8
receive_runs = refl

unknown_kind_runs :
    (next_message toy (record { buf = 1 ∷ 0 ∷ 0 ∷ 0 ∷ 0xfe ∷ []; pos = 0 })).1
    ≡ err (unknown_kind 0xfe)
unfolding next_message buffered decode_body from_le
unknown_kind_runs = refl

receive-encode_batch_example :
    ((receive toy new_decoder reads).1 ≡ charge ∷ done ∷ [])
    × (unread (receive toy new_decoder reads).0 ≡ [])
unfolding is_utf8
receive-encode_batch_example =
    receive-encode_batch toy (charge ∷ done ∷ []) (charge_bytes ++ done_bytes) reads toy-IsLossless
      ((omega arith, omega arith, omega arith, refl), ((omega arith, refl), tt)) both_encode refl

after_charge : Decoder
after_charge = record { buf = 0 ∷ charge_bytes ++ done_bytes; pos = 1 }

encode_atomic_example : AppendsOrRefuses toy charge
encode_atomic_example = encode_atomic toy charge

encode-dispatch_example :
    DispatchEncodes toy
      (record { id = pos 1; attempt = pos 1; max_attempts = pos 1; task = []; payload = [] })
encode-dispatch_example =
    encode-dispatch toy
      (record { id = pos 1; attempt = pos 1; max_attempts = pos 1; task = []; payload = [] })

next_message-parse_example :
    observe (next_message toy after_charge) ≡ parse toy (unread after_charge)
next_message-parse_example = next_message-parse toy after_charge
