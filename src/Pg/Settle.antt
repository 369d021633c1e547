-- ===== src/Pg/Settle.antt =====
-- What becomes of a job that ended: `complete`, `discard_many`, `retry_many`, `cancel` and
-- `retry_discarded` of crates/gylo-pg/src/lib.rs.
use gylo.Prelude.{
  ℕ, zero, suc, ◌+◌, ◌-◌, ◌*◌, ◌/◌, ◌^◌, Bool, true, ◌&&◌, List, [], ◌∷◌, ◌++◌, map, Option, none,
  some, leb, ltb, ◌==◌, if◌then◌else◌, length, min,
}
use gylo.Prelude.Int.{pos, ◌-ℤ◌, eq_ℤ}
use gylo.Wire.Words.{Bytes}
use gylo.Pg.Row.{
  Row, Edge, JobError, at, available, completed, discarded, cancelled, is_available, is_discarded,
  held_by, any_id, value_of, set_if, rows_where, ids_of,
}
use Prim.Native.String.{String}
use text.Mathlib.Text.{◌==◌ as str_eq}

-- The rows that a statement over `unnest($ids, ..)` settles: those the worker still holds.
abbrev pub settles : List ℕ → ℕ → Row → Bool
settles ids worker r = any_id r.id ids && held_by worker r

-- A value of a list that `unnest` pads with NULL.
abbrev pub padded : Option (Option Bytes) → Option Bytes
padded none = none
padded (some value) = value

-- `done` of COMPLETE, on one row that it names; `results` is positional and nullable.
unfoldable pub done_row : ℕ → List ℕ → List (Option Bytes) → ℕ → Row → Row
done_row now ids results worker r =
    if held_by worker r
    then record r {
      state = completed;
      finalized_at = some now;
      locked_by = none;
      lease_expires_at = none;
      result = padded (value_of r.id ids results);
    }
    else r

-- `counted` of COMPLETE: how many of a child's parents are done.
unfoldable pub counted : List Edge → List ℕ → ℕ → ℕ
counted [] done child = 0
counted (e ∷ edges) done child =
    let rest = counted edges done child in
    if e.child == child && any_id e.parent done then 1 + rest else rest

-- `released` of COMPLETE, on one row: one dependency less for each parent that is done, and runnable
-- when none is left. `CHECK (pending_deps >= 0)` is left out: a count below 0, which would fail the
-- statement, is kept as a negative number.
unfoldable pub release_row : ℕ → ℕ → Row → Row
release_row now n r =
    let pending = r.pending_deps -ℤ pos n in
    if n == 0 then r else record r {
      pending_deps = pending;
      scheduled_at = if eq_ℤ pending (pos 0) then at now else r.scheduled_at;
    }

-- `complete`, on one row, by the jobs that are done. The parts see one snapshot, and a row that is done is not also released.
unfoldable pub complete_row : ℕ → List Edge → List ℕ → List (Option Bytes) → ℕ → List ℕ → Row → Row
complete_row now edges ids results worker done r =
    if settles ids worker r
    then done_row now ids results worker r
    else release_row now (counted edges done r.id) r

unfoldable pub complete : ℕ → List Edge → List ℕ → List (Option Bytes) → ℕ → List Row → List Row × ℕ
complete now edges [] results worker rows = (rows, 0)
complete now edges (x ∷ ids) results worker rows =
    let done = ids_of (rows_where (settles (x ∷ ids) worker) rows) in
    (map (complete_row now edges (x ∷ ids) results worker done) rows, length done)

-- `complete_many` stores no results, `complete_many_with_results` one for each job.
abbrev pub nulls : List ℕ → List (Option Bytes)
nulls [] = []
nulls (x ∷ ids) = none ∷ nulls ids

unfoldable pub complete_many : ℕ → List Edge → List ℕ → ℕ → List Row → List Row × ℕ
complete_many now edges ids worker rows = complete now edges ids (nulls ids) worker rows

unfoldable pub complete_many_with_results :
    ℕ → List Edge → List ℕ → List Bytes → ℕ → List Row → List Row × ℕ
complete_many_with_results now edges ids results worker rows =
    complete now edges ids (map some results) worker rows

-- One more entry of `errors`.
abbrev pub with_error : ℕ → String → Row → List JobError
with_error now message r =
    r.errors ++ record { attempt = r.attempt; time = now; error = message } ∷ []

abbrev pub discard : ℕ → String → Row → Row
discard now message r = record r {
  state = discarded;
  finalized_at = some now;
  locked_by = none;
  lease_expires_at = none;
  errors = with_error now message r;
}

-- `dead` of DISCARD_MANY, on one row. A message that `unnest` pads with NULL leaves the row here, as it does in
-- `retry_row`: the callers keep the lengths equal, so that this does not happen.
unfoldable pub dead_row : ℕ → List ℕ → List String → ℕ → Row → Row
dead_row now ids errors worker r =
    if held_by worker r
    then elim (value_of r.id ids errors) [ none ↦ r | some message ↦ discard now message r ]
    else r

-- The edges that lead out of a set of jobs, by their children, and the edges that do not.
unfoldable pub children : List ℕ → List Edge → List ℕ
children ids [] = []
children ids (e ∷ edges) =
    let rest = children ids edges in if any_id e.parent ids then e.child ∷ rest else rest

unfoldable pub unwalked : List ℕ → List Edge → List Edge
unwalked ids [] = []
unwalked ids (e ∷ edges) =
    let rest = unwalked ids edges in if any_id e.parent ids then rest else e ∷ rest

-- The recursive `walk` of DISCARD_MANY, with the jobs that it starts from: it goes on until a round
-- finds no new edge. Every other round uses up an edge, so there are no more rounds than edges.
unfoldable pub walk : ℕ → List Edge → List ℕ → List ℕ
walk zero edges reached = reached
walk (suc fuel) edges reached = elim (children reached edges) [
  | [] ↦ reached
  | c ∷ cs ↦ walk fuel (unwalked reached edges) ((c ∷ cs) ++ reached)
]

-- `cancelled` of DISCARD_MANY, on one row.
unfoldable pub cascade_row : ℕ → List ℕ → Row → Row
cascade_row now ids =
    set_if (λ r. any_id r.id ids && is_available r.state)
      (λ r. record r { state = cancelled; finalized_at = some now })

-- `discard_many`, on one row, by the jobs that are walked.
unfoldable pub discard_row : ℕ → List ℕ → List String → ℕ → List ℕ → Row → Row
discard_row now ids errors worker walked r =
    if settles ids worker r then dead_row now ids errors worker r else cascade_row now walked r

unfoldable pub discard_many : ℕ → List Edge → List ℕ → List String → ℕ → List Row → List Row × ℕ
discard_many now edges [] errors worker rows = (rows, 0)
discard_many now edges (x ∷ ids) errors worker rows =
    let dead = ids_of (rows_where (settles (x ∷ ids) worker) rows) in
    let walked = walk (length edges) edges dead in
    (map (discard_row now (x ∷ ids) errors worker walked) rows, length dead)

-- CANCEL, on one row.
unfoldable pub cancel_row : ℕ → List ℕ → Row → Row
cancel_row now ids =
    set_if (λ r. any_id r.id ids && is_available r.state)
      (λ r. record r {
        state = cancelled;
        finalized_at = some now;
        locked_by = none;
        lease_expires_at = none;
      })

unfoldable pub cancel : ℕ → List ℕ → List Row → List Row × ℕ
cancel now [] rows = (rows, 0)
cancel now (x ∷ ids) rows = (
  map (cancel_row now (x ∷ ids)) rows,
  length (rows_where (λ r. any_id r.id (x ∷ ids) && is_available r.state) rows),
)

-- `least(base * power(2, attempt - 1), cap) * (0.5 + random() * 0.5)`, in microseconds; `random()` is
-- the fraction `roll / rolls`.
abbrev pub rolls : ℕ
rolls = 2 ^ 32

unfoldable pub nominal : ℕ → ℕ → ℕ → ℕ
nominal base cap attempt = min (base * 2 ^ (attempt - 1)) cap

unfoldable pub jittered : ℕ → ℕ → ℕ
jittered delay roll = delay * (rolls + roll) / (2 * rolls)

-- RETRY_MANY, on one row.
unfoldable pub retry_row : ℕ → List ℕ → List String → ℕ → ℕ → ℕ → (ℕ → ℕ) → Row → Row
unfolding nominal jittered
retry_row now ids errors worker base cap roll r =
    if held_by worker r
    then elim (value_of r.id ids errors) [
      | none ↦ r
      | some message ↦
          if ltb r.attempt r.max_attempts
          then record r {
            state = available;
            locked_by = none;
            lease_expires_at = none;
            scheduled_at = at (now + jittered (nominal base cap r.attempt) (roll r.id));
            errors = with_error now message r;
          }
          else discard now message r
    ]
    else r

-- `Retried`.
pub record Retried : Type 0 where
  pub scheduled : ℕ
  pub exhausted : ℕ

-- `retry_many`.
unfoldable pub retry_many :
    ℕ → List ℕ → List String → ℕ → ℕ → ℕ → (ℕ → ℕ) → List Row → List Row × Retried
retry_many now [] errors worker base cap roll rows = (rows, record { scheduled = 0; exhausted = 0 })
retry_many now (x ∷ ids) errors worker base cap roll rows = (
  map (retry_row now (x ∷ ids) errors worker base cap roll) rows,
  record {
    scheduled =
        length (rows_where (λ r. settles (x ∷ ids) worker r && ltb r.attempt r.max_attempts) rows);
    exhausted =
        length (rows_where (λ r. settles (x ∷ ids) worker r && leb r.max_attempts r.attempt) rows);
  },
)

-- `$1 IS NULL OR id = ANY($1)` and `$2 IS NULL OR queue = $2`.
abbrev pub in_scope : Option (List ℕ) → Option String → Row → Bool
in_scope ids queue r =
    elim ids [ none ↦ true | some xs ↦ any_id r.id xs ]
    && elim queue [ none ↦ true | some q ↦ str_eq r.queue q ]

-- RETRY_DISCARDED, on one row.
unfoldable pub retry_discarded_row : ℕ → Option (List ℕ) → Option String → Row → Row
retry_discarded_row now ids queue =
    set_if (λ r. is_discarded r.state && in_scope ids queue r)
      (λ r. record r {
        state = available;
        attempt = 0;
        scheduled_at = at now;
        locked_by = none;
        lease_expires_at = none;
        finalized_at = none;
      })

-- `retry_discarded`, with the ids that it returns.
unfoldable pub retry_discarded : ℕ → Option (List ℕ) → Option String → List Row → List Row × List ℕ
retry_discarded now ids queue rows = (
  map (retry_discarded_row now ids queue) rows,
  ids_of (rows_where (λ r. is_discarded r.state && in_scope ids queue r) rows),
)
