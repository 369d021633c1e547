-- ===== src/Worker/Handled.antt =====
-- What every message keeps, the whole of `collect_completions` of crates/gylo-worker/src/lib.rs keeps.
use gylo.Prelude.{
  ℕ, zero, suc, inl, inr, Bool, true, false, List, [], ◌∷◌, Option, none, some, length, leb,
  Bool-cases,
}
use gylo.Prelude.Int.{ℤ}
use gylo.Prelude.Results.{Result, ok, err}
use gylo.Wire.Words.{Bytes}
use gylo.Wire.MessagePack.{MessagePack}
use gylo.Wire.Message.{Message, ProtocolError}
use gylo.Wire.Decode.{Decoder, extend, next_message}
use gylo.Wire.Stream.{unread}
use gylo.Schedule.{Text, CronCrate}
use gylo.Pg.Row.{Row}
use gylo.Worker.Pending.{len}
use gylo.Worker.Collect.{
  Collecting, Moment, Pace, Event, readable, closed, elapsed, others, interleave, handle, on_answer,
  handle_all, write_pending, untimed, after_read, turn, collect_completions,
}

module _ (mp : MessagePack) (crate : CronCrate) (chars : Bytes → Text) (id_of : ℤ → ℕ) (pace : Pace)
    (P : Collecting → Type 0)
    (handles : (at : Moment) (m : Message) (st : Collecting)
      → P st
      → P (handle mp crate chars id_of pace at m st))
    (decodes : (d : Decoder) (st : Collecting) → P st → P (record st { decoder = d })) where
  on_answer-keeps :
      (rest : Collecting → Collecting × Bool) (at : Moment) (st : Collecting)
      (answer : Decoder × Result ProtocolError (Option Message))
      → ((st : Collecting) → P st → P (rest st).0)
      → P st
      → P (on_answer mp crate chars id_of pace rest at st answer).0
  on_answer-keeps rest at st (d, ok none) keeps v = decodes d st v
  on_answer-keeps rest at st (d, ok (some m)) keeps v =
      keeps _ (handles at m (record st { decoder = d }) (decodes d st v))
  on_answer-keeps rest at st (d, err e) keeps v = decodes d st v

  pub handle_all-keeps :
      (fuel : ℕ) (at : Moment) (st : Collecting)
      → P st
      → P (handle_all mp crate chars id_of pace fuel at st).0
  unfolding handle_all
  handle_all-keeps zero at st v = v
  handle_all-keeps (suc fuel) at st v =
      on_answer-keeps (handle_all mp crate chars id_of pace fuel at) at st
        (next_message mp st.decoder) (handle_all-keeps fuel at) v

  module _ (writes : (at : Moment) (st : Collecting) → P st → P (write_pending at st))
      (untimes : (st : Collecting) → P st → P (untimed st))
      (others_keep : (gone : List ℕ) (change : Row → Row) (st : Collecting)
        → P st
        → P (interleave gone change st)) where
    after_read-keeps :
        (at : Moment) (result : Collecting × Bool) → P result.0 → P (after_read pace at result).0
    after_read-keeps at (st, false) v = writes at st v
    after_read-keeps at (st, true) v = elim (Bool-cases (leb pace.batch (len st.pending))) [
      | inl full ↦ rw full (untimes _ (writes at st v))
      | inr room ↦ rw room v
    ]

    turn-keeps :
        (at : Moment) (event : Event) (st : Collecting)
        → P st
        → P (turn mp crate chars id_of pace at event st).0
    unfolding turn
    turn-keeps at (readable bytes) st v =
        let held = extend st.decoder bytes in
        let read =
          handle_all-keeps (length (unread held)) at (record st { decoder = held })
            (decodes held st v) in
        after_read-keeps at
          (handle_all mp crate chars id_of pace (length (unread held)) at
            (record st { decoder = held }))
          read
    turn-keeps at closed st v = writes at st v
    turn-keeps at elapsed st v = untimes _ (writes at st v)
    turn-keeps at (others gone change) st v = others_keep gone change st v

    pub collect_completions-keeps :
        (events : List (Moment × Event)) (st : Collecting)
        → P st
        → P (collect_completions mp crate chars id_of pace events st).0
    unfolding collect_completions
    collect_completions-keeps [] st v = v
    collect_completions-keeps (e ∷ events) st v =
        let kept = turn-keeps e.0 e.1 st v in
        elim (Bool-cases (turn mp crate chars id_of pace e.0 e.1 st).1) [
          | inl goes ↦ rw goes (collect_completions-keeps events _ kept)
          | inr ends ↦ rw ends kept
        ]
