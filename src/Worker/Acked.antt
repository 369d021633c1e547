-- ===== src/Worker/Acked.antt =====
-- The acknowledgements that `collect_completions` of crates/gylo-worker/src/lib.rs sends to a child.
use gylo.Prelude.{
  ℕ, ◌≡◌, refl, sym, ap, ◌∙◌, inl, inr, true, List, [], ◌∷◌, Option, none, some, Bool-cases,
}
use gylo.Prelude.Int.{ℤ}
use gylo.Wire.Words.{Bytes}
use gylo.Wire.MessagePack.{MessagePack}
use gylo.Wire.Message.{Message, register, steps, recorded, stored, dispatch, complete}
use gylo.Schedule.{Text, CronCrate}
use gylo.Pg.Row.{Row, is_some, any_id, ids_of}
use gylo.Pg.Steps.{Step, record_step, find_step, first_of, insert_step-keeps, insert_step-found}
use gylo.Worker.Handled.{collect_completions-keeps}
use gylo.Worker.Named.{flush-ids, interleave-any_id, steps_left-find}
use gylo.Worker.Collect.{
  Collecting, Moment, Pace, Event, acknowledge, handle, write_pending, steps_left, interleave,
  collect_completions,
}

-- Only `Stored` is sent, and the table holds the step of it for as long as it holds the job.
abbrev pub IsKnown : (ℤ → ℕ) → List Row → List Step → Message → Type 0
IsKnown id_of rows steps' (stored id name) =
    any_id (id_of id) (ids_of rows) ≡ true → is_some (find_step (id_of id) name steps') ≡ true
IsKnown id_of rows steps' _ = ⊥

abbrev pub AllKnown : (ℤ → ℕ) → List Row → List Step → List Message → Type 0
AllKnown id_of rows steps' [] = Unit
AllKnown id_of rows steps' (m ∷ acks) =
    IsKnown id_of rows steps' m × AllKnown id_of rows steps' acks

abbrev pub IsHonest : (ℤ → ℕ) → Collecting → Type 0
IsHonest id_of st = AllKnown id_of st.rows st.recorded_steps st.acks

-- No job is new, and the steps of those that are left are found as before.
abbrev Grows : List Row → List Step → List Row → List Step → Type 0
Grows rows before rows' after =
    (job : ℕ)
    → any_id job (ids_of rows') ≡ true
    → (any_id job (ids_of rows) ≡ true)
      × ((name : Bytes)
          → is_some (find_step job name before) ≡ true
          → is_some (find_step job name after) ≡ true)

module _ (id_of : ℤ → ℕ) (rows : List Row) (before : List Step) (rows' : List Row)
    (after : List Step) (grows : Grows rows before rows' after) where
  IsKnown-Grows : (m : Message) → IsKnown id_of rows before m → IsKnown id_of rows' after m
  IsKnown-Grows (stored id name) k =
      λ there. let (was, found) = grows (id_of id) there in found name (k was)
  IsKnown-Grows (complete id outcome) k = k
  IsKnown-Grows (register entries) k = k
  IsKnown-Grows (recorded id name result) k = k
  IsKnown-Grows (steps id done) k = k
  IsKnown-Grows (dispatch d) k = k

  AllKnown-Grows :
      (acks : List Message) → AllKnown id_of rows before acks → AllKnown id_of rows' after acks
  AllKnown-Grows [] k = k
  AllKnown-Grows (m ∷ acks) (k, known) = (IsKnown-Grows m k, AllKnown-Grows acks known)

first_of-is_some : (o : Option Bytes) (result : Bytes) → is_some (first_of o result) ≡ true
first_of-is_some none result = refl
first_of-is_some (some old) result = refl

module _ (mp : MessagePack) (crate : CronCrate) (chars : Bytes → Text) (id_of : ℤ → ℕ)
    (pace : Pace) where
  record_step-IsHonest :
      (now : ℕ) (id : ℤ) (name result : Bytes) (rows : List Row) (st : Collecting)
      → IsHonest id_of st
      → IsHonest id_of
          (acknowledge id name st (record_step now (id_of id) name result rows st.recorded_steps))
  unfolding record_step
  record_step-IsHonest now id name result rows st v =
      elim (Bool-cases (any_id (id_of id) (ids_of rows))) [
        | inr gone ↦ rw gone v
        | inl known ↦
            let found = insert_step-found now (id_of id) name result st.recorded_steps in
            rw known (
              (λ there.
                  ap is_some found
                  ∙ first_of-is_some (find_step (id_of id) name st.recorded_steps) result),
              AllKnown-Grows id_of st.rows st.recorded_steps st.rows _
                  (λ job there. (
                    there,
                    λ other h.
                        ap is_some (
                          insert_step-keeps now (id_of id) job name other result st.recorded_steps
                            h)
                        ∙ h,
                  ))
                  st.acks v,
            )
      ]

  handle-IsHonest :
      (at : Moment) (m : Message) (st : Collecting)
      → IsHonest id_of st
      → IsHonest id_of (handle mp crate chars id_of pace at m st)
  unfolding handle
  handle-IsHonest at (complete id outcome) st v = v
  handle-IsHonest at (register entries) st v = v
  handle-IsHonest at (recorded id name result) st v = elim (Bool-cases at.records) [
    | inl sent ↦ rw sent (record_step-IsHonest at.flushing.now id name result st.rows st v)
    | inr failed ↦ rw failed v
  ]
  handle-IsHonest at (steps id done) st v = v
  handle-IsHonest at (stored id name) st v = v
  handle-IsHonest at (dispatch d) st v = v

  write_pending-IsHonest :
      (at : Moment) (st : Collecting) → IsHonest id_of st → IsHonest id_of (write_pending at st)
  unfolding write_pending
  write_pending-IsHonest at st v =
      let same = flush-ids at.flushing st.pending st.in_flight st.rows in
      AllKnown-Grows id_of st.rows st.recorded_steps _ st.recorded_steps
        (λ job there. (sym (ap (any_id job) same) ∙ there, λ name found. found)) st.acks v

  interleave-IsHonest :
      (gone : List ℕ) (change : Row → Row) (st : Collecting)
      → IsHonest id_of st
      → IsHonest id_of (interleave gone change st)
  unfolding interleave
  interleave-IsHonest gone change st v =
      AllKnown-Grows id_of st.rows st.recorded_steps _ (steps_left gone st.recorded_steps)
        (λ job there.
          let (was, left) = interleave-any_id job gone change st.rows there in
          (
            was,
            λ name found. ap is_some (steps_left-find job name gone st.recorded_steps left) ∙ found,
          ))
        st.acks v

  -- An acknowledgement names a step that the table holds for as long as it holds the job: if this is
  -- so of every acknowledgement sent so far, it stays so, whatever a child sends, whatever
  -- statements fail, and whichever jobs other transactions change or delete meanwhile, their steps
  -- with them; nothing else is sent as an acknowledgement. Jobs that are new meanwhile are left out.
  pub collect_completions-IsHonest :
      (events : List (Moment × Event)) (st : Collecting)
      → IsHonest id_of st
      → IsHonest id_of (collect_completions mp crate chars id_of pace events st).0
  collect_completions-IsHonest =
      collect_completions-keeps mp crate chars id_of pace (IsHonest id_of) handle-IsHonest
        (λ d st v. v) write_pending-IsHonest (λ st v. v) interleave-IsHonest
