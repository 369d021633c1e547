-- ===== src/Worker/Timely.antt =====
-- The timer of `collect_completions` of crates/gylo-worker/src/lib.rs: reports wait only under a timer.
use gylo.Prelude.{
  ℕ, ◌+◌, ◌≤◌, ◌<◌, ◌≡◌, refl, ◌⊎◌, inl, inr, Bool, true, false, List, [], ◌∷◌, Option, none, some,
  length, leb, arith, Bool-cases, ◌==◌,
}
use gylo.Prelude.Int.{ℤ}
use gylo.Wire.Words.{Bytes}
use gylo.Wire.MessagePack.{MessagePack}
use gylo.Wire.Message.{Message, register, steps, recorded, stored, dispatch, complete}
use gylo.Wire.Decode.{extend}
use gylo.Wire.Stream.{unread}
use gylo.Schedule.{Text, CronCrate}
use gylo.Pg.Row.{is_some}
use gylo.Pg.Steps.{Step}
use gylo.Worker.Pending.{len}
use gylo.Worker.Flush.{flush}
use gylo.Worker.Handled.{handle_all-keeps}
use gylo.Worker.Collect.{
  Collecting, Moment, Pace, Event, readable, closed, elapsed, others, interleave, or_timer,
  acknowledge, handle, handle_all, write_pending, after_read, turn, collect_completions,
}

-- No report waits without a timer.
abbrev pub IsTimed : Collecting → Type 0
IsTimed st = (len st.pending ≡ 0) ⊎ (is_some st.deadline ≡ true)

or_timer-is_some : (at : ℕ) (deadline : Option ℕ) → is_some (or_timer at deadline) ≡ true
or_timer-is_some at none = refl
or_timer-is_some at (some t) = refl

write_pending-len : (at : Moment) (st : Collecting) → len (write_pending at st).pending ≡ 0
unfolding write_pending flush len
write_pending-len at st = elim (Bool-cases (len st.pending == 0)) [
  | inl idle ↦ rw idle (ground arith)
  | inr busy ↦ rw busy refl
]

-- How a turn of the loop leaves its state.
abbrev pub Turned : Pace → Collecting × Bool → Type 0
Turned pace result =
    IsTimed result.0
    × (result.1 ≡ true → len result.0.pending < pace.batch)
    × (result.1 ≡ false → len result.0.pending ≡ 0)

module _ (mp : MessagePack) (crate : CronCrate) (chars : Bytes → Text) (id_of : ℤ → ℕ)
    (pace : Pace) where
  acknowledge-IsTimed :
      (id : ℤ) (name : Bytes) (st : Collecting) (answer : Option (List Step))
      → IsTimed st
      → IsTimed (acknowledge id name st answer)
  acknowledge-IsTimed id name st none v = v
  acknowledge-IsTimed id name st (some steps') v = v

  handle-IsTimed :
      (at : Moment) (m : Message) (st : Collecting)
      → IsTimed st
      → IsTimed (handle mp crate chars id_of pace at m st)
  unfolding handle
  handle-IsTimed at (complete id outcome) st v =
      inr (or_timer-is_some (at.instant + pace.linger) st.deadline)
  handle-IsTimed at (register entries) st v = v
  handle-IsTimed at (recorded id name result) st v = acknowledge-IsTimed id name st _ v
  handle-IsTimed at (steps id done) st v = v
  handle-IsTimed at (stored id name) st v = v
  handle-IsTimed at (dispatch d) st v = v

  after_read-Turned :
      (at : Moment) (result : Collecting × Bool)
      → 1 ≤ pace.batch
      → IsTimed result.0
      → Turned pace (after_read pace at result)
  after_read-Turned at (st, false) some_batch v =
      let empty = write_pending-len at st in (inl empty, (λ h. cc h), λ h. empty)
  after_read-Turned at (st, true) some_batch v =
      elim (Bool-cases (leb pace.batch (len st.pending))) [
        | inl full ↦
            let empty = write_pending-len at st in
            rw full (inl empty, (λ h. omega (arith, empty, some_batch)), λ h. empty)
        | inr room ↦ rw room (v, (λ h. ground arith), λ h. cc h)
      ]

  turn-Turned :
      (at : Moment) (event : Event) (st : Collecting)
      → 1 ≤ pace.batch
      → IsTimed st
      → len st.pending < pace.batch
      → Turned pace (turn mp crate chars id_of pace at event st)
  unfolding turn interleave
  turn-Turned at (readable bytes) st some_batch v few =
      let held = extend st.decoder bytes in
      let read =
        handle_all-keeps mp crate chars id_of pace IsTimed handle-IsTimed (λ d s w. w)
          (length (unread held)) at (record st { decoder = held }) v in
      after_read-Turned at
        (handle_all mp crate chars id_of pace (length (unread held)) at
          (record st { decoder = held }))
        some_batch read
  turn-Turned at closed st some_batch v few =
      let empty = write_pending-len at st in (inl empty, (λ h. cc h), λ h. empty)
  turn-Turned at elapsed st some_batch v few =
      let empty = write_pending-len at st in
      (inl empty, (λ h. omega (arith, empty, some_batch)), λ h. empty)
  turn-Turned at (others gone change) st some_batch v few = (v, (λ h. few), λ h. cc h)

  -- With a batch of one at least, and starting with fewer reports than a batch, none of them without
  -- a timer, whatever a child sends: while collect_completions goes on, fewer reports than a batch
  -- wait, and only under a timer; when it has ended, none waits.
  pub collect_completions-Turned :
      (events : List (Moment × Event)) (st : Collecting)
      → 1 ≤ pace.batch
      → IsTimed st
      → len st.pending < pace.batch
      → Turned pace (collect_completions mp crate chars id_of pace events st)
  unfolding collect_completions
  collect_completions-Turned [] st some_batch v room = (v, (λ h. room), λ h. cc h)
  collect_completions-Turned (e ∷ events) st some_batch v room =
      let turned = turn-Turned e.0 e.1 st some_batch v room in
      elim (Bool-cases (turn mp crate chars id_of pace e.0 e.1 st).1) [
        | inl goes ↦
            rw goes (collect_completions-Turned events _ some_batch turned.0 (turned.1 goes))
        | inr ends ↦ rw ends (turned.0, (λ h. cc h), λ h. turned.2 ends)
      ]
