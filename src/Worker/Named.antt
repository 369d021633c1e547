-- ===== src/Worker/Named.antt =====
-- Which jobs the table has while reports are written by crates/gylo-worker/src/lib.rs: no statement of a
-- flush changes an id, and the deletion of jobs takes their steps with them.
use gylo.Prelude.{
  ℕ, ◌≡◌, refl, ◌∙◌, ap, inl, inr, Bool, true, false, not, ◌&&◌, List, [], ◌∷◌, map, Option, arith,
  Bool-cases, Option-cases, ◌==◌, if◌then◌else◌,
}
use gylo.Wire.Words.{Bytes}
use Prim.Native.String.{String}
use gylo.Pg.Row.{Row, Edge, any_id, ids_of, rows_where, value_of}
use gylo.Pg.Ids.{ids_of-map}
use gylo.Pg.Settle.{
  complete, complete_many, complete_many_with_results, complete_row, done_row, release_row,
  discard_row, dead_row, cascade_row, discard_many, retry_row, retry_many,
}
use gylo.Pg.Retention.{delete_ids}
use gylo.Pg.Steps.{Step, find_step}
use gylo.Worker.Pending.{Pending, len}
use gylo.Worker.InFlight.{InFlight}
use gylo.Worker.Flush.{Flushing, write_reports, flush}
use gylo.Worker.Collect.{steps_left, changed_by}

module _ (now : ℕ) (ids : List ℕ) (worker : ℕ) (r : Row) where
  complete_row-id :
      (edges : List Edge) (results : List (Option Bytes)) (done : List ℕ)
      → (complete_row now edges ids results worker done r).id ≡ r.id
  unfolding complete_row done_row release_row
  complete_row-id edges results done = elim (Option-cases (value_of r.id ids results)) [
    | inl e ↦ rw e (ground arith)
    | inr (v, e) ↦ rw e (ground arith)
  ]

  discard_row-id :
      (errors : List String) (walked : List ℕ)
      → (discard_row now ids errors worker walked r).id ≡ r.id
  unfolding discard_row dead_row cascade_row
  discard_row-id errors walked = elim (Option-cases (value_of r.id ids errors)) [
    | inl e ↦ rw e (ground arith)
    | inr (v, e) ↦ rw e (ground arith)
  ]

  retry_row-id :
      (errors : List String) (base cap : ℕ) (roll : ℕ → ℕ)
      → (retry_row now ids errors worker base cap roll r).id ≡ r.id
  unfolding retry_row
  retry_row-id errors base cap roll = elim (Option-cases (value_of r.id ids errors)) [
    | inl e ↦ rw e (ground arith)
    | inr (v, e) ↦ rw e (ground arith)
  ]

module _ (now worker : ℕ) (rows : List Row) where
  complete-ids :
      (edges : List Edge) (ids : List ℕ) (results : List (Option Bytes))
      → ids_of (complete now edges ids results worker rows).0 ≡ ids_of rows
  unfolding complete
  complete-ids edges [] results = refl
  complete-ids edges (x ∷ ids) results =
      ids_of-map _ rows (λ r m. complete_row-id now (x ∷ ids) worker r edges results _)

  discard_many-ids :
      (edges : List Edge) (ids : List ℕ) (errors : List String)
      → ids_of (discard_many now edges ids errors worker rows).0 ≡ ids_of rows
  unfolding discard_many
  discard_many-ids edges [] errors = refl
  discard_many-ids edges (x ∷ ids) errors =
      ids_of-map _ rows (λ r m. discard_row-id now (x ∷ ids) worker r errors _)

  retry_many-ids :
      (ids : List ℕ) (errors : List String) (base cap : ℕ) (roll : ℕ → ℕ)
      → ids_of (retry_many now ids errors worker base cap roll rows).0 ≡ ids_of rows
  unfolding retry_many
  retry_many-ids [] errors base cap roll = refl
  retry_many-ids (x ∷ ids) errors base cap roll =
      ids_of-map _ rows (λ r m. retry_row-id now (x ∷ ids) worker r errors base cap roll)

-- A statement that may fail.
ids_of-if :
    (sent : Bool) (after rows : List Row)
    → ids_of after ≡ ids_of rows
    → ids_of (if sent then after else rows) ≡ ids_of rows
ids_of-if true after rows e = e
ids_of-if false after rows e = refl

write_reports-ids :
    (w : Flushing) (p : Pending) (rows : List Row) → ids_of (write_reports w p rows) ≡ ids_of rows
unfolding write_reports complete_many complete_many_with_results
write_reports-ids w p rows =
    ids_of-if w.discards _ _ (discard_many-ids w.now w.worker _ w.edges p.terminal _)
    ∙ (ids_of-if w.retries _ _
          (retry_many-ids w.now w.worker _ p.retry _ w.retry_base w.retry_cap w.roll)
        ∙ (ids_of-if w.stores _ _ (complete-ids w.now w.worker _ w.edges p.with_result _)
            ∙ ids_of-if w.completes _ _ (complete-ids w.now w.worker rows w.edges p.completed _)))

pub flush-ids :
    (w : Flushing) (p : Pending) (s : InFlight) (rows : List Row)
    → ids_of (flush w p s rows).1.1 ≡ ids_of rows
unfolding flush
flush-ids w p s rows = elim (Bool-cases (len p == 0)) [
  | inl none_left ↦ rw none_left refl
  | inr some_left ↦ rw some_left (write_reports-ids w p rows)
]

delete_ids-any_id :
    (y : ℕ) (gone : List ℕ) (rows : List Row)
    → any_id y (ids_of (delete_ids gone rows).0) ≡ (any_id y (ids_of rows) && not (any_id y gone))
unfolding delete_ids rows_where any_id
delete_ids-any_id y gone [] = refl
delete_ids-any_id y gone (r ∷ rows) =
    let rest : any_id y (ids_of (rows_where (λ r. not (any_id r.id gone)) rows))
        ≡ (any_id y (ids_of rows) && not (any_id y gone)) =
      delete_ids-any_id y gone rows in
    elim (Bool-cases (r.id == y)) [
      | inl same ↦
          let e : r.id ≡ y = ground arith in
          let own : any_id r.id gone ≡ any_id y gone = ap (λ (k : ℕ). any_id k gone) e in
          elim (Bool-cases (any_id r.id gone)) [
            | inl taken ↦ rw (taken, same) (ground (arith, rest, own, taken))
            | inr left ↦ rw (left, same) (ground (arith, rest, own, left, same))
          ]
      | inr other ↦ elim (Bool-cases (any_id r.id gone)) [
        | inl taken ↦ rw (taken, other) rest
        | inr left ↦ rw (left, other) (ground (arith, rest, other))
      ]
    ]

-- A job that is left was there, and was not deleted.
pub interleave-any_id :
    (y : ℕ) (gone : List ℕ) (change : Row → Row) (rows : List Row)
    → any_id y (ids_of (map (changed_by change) (delete_ids gone rows).0)) ≡ true
    → (any_id y (ids_of rows) ≡ true) × (any_id y gone ≡ false)
interleave-any_id y gone change rows h =
    let same = ids_of-map (changed_by change) (delete_ids gone rows).0 (λ r m. refl) in
    let named = ap (any_id y) same in
    let split = delete_ids-any_id y gone rows in (ground arith, ground arith)

-- The steps of a job that is left stay.
pub steps_left-find :
    (y : ℕ) (name : Bytes) (gone : List ℕ) (steps' : List Step)
    → any_id y gone ≡ false
    → find_step y name (steps_left gone steps') ≡ find_step y name steps'
unfolding steps_left find_step
steps_left-find y name gone [] h = refl
steps_left-find y name gone (s ∷ steps') h =
    let rest = steps_left-find y name gone steps' h in
    elim (Bool-cases (any_id s.job_id gone)) [
      | inr left ↦ rw left (rw rest refl)
      | inl taken ↦
          let other : (s.job_id == y) ≡ false = elim (Bool-cases (s.job_id == y)) [
            | inr n ↦ n
            | inl same ↦
                let e : s.job_id ≡ y = ground arith in
                absurd (cc (taken, h, ap (λ (k : ℕ). any_id k gone) e))
          ] in
          rw (taken, other) rest
    ]
