-- ===== src/Worker/Reading.antt =====
-- The inner loop of `collect_completions` of crates/gylo-worker/src/lib.rs takes every whole frame that
-- has come: the number of bytes unread is fuel enough for it.
use gylo.Prelude.{
  ℕ, zero, suc, ◌≤◌, ◌≡◌, refl, sym, ap, subst, ◌∙◌, List, Option, none, some, length,
}
use gylo.Prelude.Int.{ℤ}
use gylo.Prelude.Results.{Result, ok, err}
use gylo.Wire.Words.{Bytes}
use gylo.Wire.MessagePack.{MessagePack}
use gylo.Wire.Message.{
  Message, register, steps, recorded, stored, dispatch, complete, ProtocolError,
}
use gylo.Wire.Decode.{Decoder, next_message}
use gylo.Wire.Stream.{unread, observe}
use gylo.Wire.Batch.{collect, decode_all}
use gylo.Wire.Progress.{IsDry, decode_all-IsDry}
use gylo.Schedule.{Text, CronCrate}
use gylo.Pg.Steps.{Step}
use gylo.Worker.Collect.{Collecting, Moment, Pace, acknowledge, handle, on_answer, handle_all}

acknowledge-decoder :
    (id : ℤ) (name : Bytes) (st : Collecting) (answer : Option (List Step))
    → (acknowledge id name st answer).decoder ≡ st.decoder
acknowledge-decoder id name st none = refl
acknowledge-decoder id name st (some steps') = refl

module _ (mp : MessagePack) (crate : CronCrate) (chars : Bytes → Text) (id_of : ℤ → ℕ)
    (pace : Pace) where
  handle-decoder :
      (at : Moment) (m : Message) (st : Collecting)
      → (handle mp crate chars id_of pace at m st).decoder ≡ st.decoder
  unfolding handle
  handle-decoder at (complete id outcome) st = refl
  handle-decoder at (register entries) st = refl
  handle-decoder at (recorded id name result) st = acknowledge-decoder id name st _
  handle-decoder at (steps id done) st = refl
  handle-decoder at (stored id name) st = refl
  handle-decoder at (dispatch d) st = refl

  on_answer-decoder :
      (fuel : ℕ) (at : Moment) (st : Collecting)
      (answer : Decoder × Result ProtocolError (Option Message))
      → ((st : Collecting)
          → (handle_all mp crate chars id_of pace fuel at st).0.decoder
            ≡ (decode_all mp fuel st.decoder).0)
      → (on_answer mp crate chars id_of pace
          (handle_all mp crate chars id_of pace fuel at)
          at
          st
          answer).0.decoder
        ≡ (collect (decode_all mp fuel) answer).0
  unfolding collect
  on_answer-decoder fuel at st (d, ok none) rest = refl
  on_answer-decoder fuel at st (d, ok (some m)) rest =
      let st' = handle mp crate chars id_of pace at m (record st { decoder = d }) in
      rest st'
      ∙ ap (λ d'. (decode_all mp fuel d').0) (handle-decoder at m (record st { decoder = d }))
  on_answer-decoder fuel at st (d, err e) rest = refl

  handle_all-decode_all :
      (fuel : ℕ) (at : Moment) (st : Collecting)
      → (handle_all mp crate chars id_of pace fuel at st).0.decoder
        ≡ (decode_all mp fuel st.decoder).0
  unfolding handle_all decode_all
  handle_all-decode_all zero at st = refl
  handle_all-decode_all (suc fuel) at st =
      on_answer-decoder fuel at st (next_message mp st.decoder) (handle_all-decode_all fuel at)

  -- With as many rounds as there are unread bytes, the inner loop of collect_completions stops
  -- because the decoder has no further message to give, not because the rounds ran out.
  pub handle_all-IsDry :
      (fuel : ℕ) (at : Moment) (st : Collecting)
      → length (unread st.decoder) ≤ fuel
      → IsDry
          (observe (next_message mp (handle_all mp crate chars id_of pace fuel at st).0.decoder))
  handle_all-IsDry fuel at st h =
      subst (λ (d : Decoder). IsDry (observe (next_message mp d)))
        (sym (handle_all-decode_all fuel at st)) (decode_all-IsDry mp fuel st.decoder h)
