-- ===== src/Worker/Collect.antt =====
-- `collect_completions` of crates/gylo-worker/src/lib.rs: what the supervisor does with the bytes that a
-- child sends and with the timer of the reports. The reads and the timer are events, in the order in
-- which the `select!` takes them. Ids are numbers here, which `id_of` reads off the wire.
use gylo.Prelude.{
  ℕ, zero, suc, ◌+◌, Bool, true, false, List, [], ◌∷◌, map, Option, none, some, length, leb,
  if◌then◌else◌,
}
use gylo.Prelude.Int.{ℤ}
use gylo.Prelude.Results.{Result, ok, err}
use gylo.Wire.Words.{Bytes}
use gylo.Wire.MessagePack.{MessagePack}
use gylo.Wire.Message.{
  Message, register, steps, recorded, stored, dispatch, complete, ProtocolError,
}
use gylo.Wire.Decode.{Decoder, extend, next_message}
use gylo.Wire.Stream.{unread}
use gylo.Schedule.{Text, CronCrate}
use gylo.Pg.Row.{Row, any_id}
use gylo.Pg.Retention.{delete_ids}
use gylo.Pg.Cron.{CronRow}
use gylo.Pg.Steps.{Step, record_step}
use gylo.Worker.InFlight.{InFlight}
use gylo.Worker.Pending.{Pending, push, len}
use gylo.Worker.Flush.{Flushing, flush}
use gylo.Worker.Schedules.{register_schedules}

pub record Collecting : Type 0 where
  pub decoder : Decoder
  pub pending : Pending
  pub in_flight : InFlight
  pub deadline : Option ℕ
  pub rows : List Row
  pub recorded_steps : List Step
  pub crons : List CronRow
  -- What was sent on `acks`, the last one first.
  pub acks : List Message

-- What one round of the loop finds around it: the clocks, the statements that reach the database.
pub record Moment : Type 0 where
  pub instant : ℕ
  pub utc : ℕ
  pub flushing : Flushing
  pub upserts : Bool
  pub records : Bool

-- `config.completion_batch` and `config.completion_linger`.
pub record Pace : Type 0 where
  pub batch : ℕ
  pub linger : ℕ

pub data Event : Type 0 where
  readable : Bytes → Event
  -- The end of the stream, or an error of the socket.
  closed : Event
  elapsed : Event
  -- What other transactions do between two rounds: the jobs that they delete, and how they change the
  -- rest, whose ids stay. Jobs that are new meanwhile are left out.
  others : List ℕ → (Row → Row) → Event

-- `if deadline.is_none() { deadline = Some(..) }`.
abbrev pub or_timer : ℕ → Option ℕ → Option ℕ
or_timer at none = some at
or_timer at (some t) = some t

-- What `record_step` answers: the step is acknowledged once it is stored.
abbrev pub acknowledge : ℤ → Bytes → Collecting → Option (List Step) → Collecting
acknowledge id name st none = st
acknowledge id name st (some steps') = record st {
  recorded_steps = steps';
  acks = stored id name ∷ st.acks;
}

-- `REFERENCES gylo_job (id) ON DELETE CASCADE` of gylo_step.
unfoldable pub steps_left : List ℕ → List Step → List Step
steps_left gone [] = []
steps_left gone (s ∷ steps') =
    let rest = steps_left gone steps' in if any_id s.job_id gone then rest else s ∷ rest

abbrev pub changed_by : (Row → Row) → Row → Row
changed_by change r = record (change r) { id = r.id }

unfoldable pub interleave : List ℕ → (Row → Row) → Collecting → Collecting
interleave gone change st = record st {
  rows = map (changed_by change) (delete_ids gone st.rows).0;
  recorded_steps = steps_left gone st.recorded_steps;
}

-- `pending.flush(..)`.
unfoldable pub write_pending : Moment → Collecting → Collecting
write_pending at st =
    let (p, (s, rows')) = flush at.flushing st.pending st.in_flight st.rows in
    record st { pending = p; in_flight = s; rows = rows' }

abbrev pub untimed : Collecting → Collecting
untimed st = record st { deadline = none }

-- After the inner loop.
abbrev pub after_read : Pace → Moment → Collecting × Bool → Collecting × Bool
after_read pace at (st, false) = (write_pending at st, false)
after_read pace at (st, true) =
    if leb pace.batch (len st.pending) then (untimed (write_pending at st), true) else (st, true)

module _ (mp : MessagePack) (crate : CronCrate) (chars : Bytes → Text) (id_of : ℤ → ℕ)
    (pace : Pace) where
  unfoldable pub handle : Moment → Message → Collecting → Collecting
  handle at (complete id outcome) st = record st {
    pending = push (id_of id) outcome st.pending;
    deadline = or_timer (at.instant + pace.linger) st.deadline;
  }
  handle at (register entries) st = record st {
    crons =
        register_schedules crate chars at.flushing.text at.upserts at.utc at.flushing.now entries
          st.crons;
  }
  handle at (recorded id name result) st = acknowledge id name st (
      if at.records
      then record_step at.flushing.now (id_of id) name result st.rows st.recorded_steps
      else none)
  handle at (steps id done) st = st
  handle at (stored id name) st = st
  handle at (dispatch d) st = st

  -- One answer of the decoder; `rest` goes on with the state after it. The flag is false for an
  -- unreadable frame.
  abbrev pub on_answer :
      (Collecting → Collecting × Bool)
      → Moment
      → Collecting
      → Decoder × Result ProtocolError (Option Message)
      → Collecting × Bool
  on_answer rest at st (d, ok none) = (record st { decoder = d }, true)
  on_answer rest at st (d, ok (some m)) = rest (handle at m (record st { decoder = d }))
  on_answer rest at st (d, err e) = (record st { decoder = d }, false)

  -- The inner loop. A message takes a byte at least, so the bytes unread are fuel enough.
  unfoldable pub handle_all : ℕ → Moment → Collecting → Collecting × Bool
  handle_all zero at st = (st, true)
  handle_all (suc fuel) at st = on_answer (handle_all fuel at) at st (next_message mp st.decoder)

  -- One turn of the loop, and whether the loop goes on.
  unfoldable pub turn : Moment → Event → Collecting → Collecting × Bool
  turn at (readable bytes) st =
      let held = extend st.decoder bytes in
      after_read pace at (handle_all (length (unread held)) at (record st { decoder = held }))
  turn at closed st = (write_pending at st, false)
  turn at elapsed st = (untimed (write_pending at st), true)
  turn at (others gone change) st = (interleave gone change st, true)

  -- `collect_completions` over the events that come; those after its end are not taken.
  unfoldable pub collect_completions : List (Moment × Event) → Collecting → Collecting × Bool
  collect_completions [] st = (st, true)
  collect_completions (e ∷ events) st =
      let (st', goes_on) = turn e.0 e.1 st in
      let rest = collect_completions events st' in if goes_on then rest else (st', false)
