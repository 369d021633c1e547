-- ===== src/Pg/Listing.antt =====
-- What crates/gylo-pg/src/lib.rs tells of the table: `depth`, `queues`, `list_discarded` and `outcome`.
use gylo.Prelude.{
  ℕ, Bool, true, false, not, ◌&&◌, ◌||◌, List, [], ◌∷◌, map, Option, none, some, take, ltb, ◌==◌,
  if◌then◌else◌,
}
use gylo.Wire.Words.{Bytes}
use gylo.Pg.Row.{
  Row, JobState, JobError, When, at, infinity, any_queue, rows_where, is_available, is_running,
  is_discarded, is_due,
}
use gylo.Pg.Count.{count}
use gylo.Pg.Retention.{in_queue, is_unfinished}
use Prim.Native.String.{String}
use text.Mathlib.Text.{◌==◌ as str_eq}

pub record Depth : Type 0 where
  pub ready : ℕ
  pub scheduled : ℕ
  pub blocked : ℕ
  pub running : ℕ

-- `scheduled_at > now() AND scheduled_at <> 'infinity'`.
abbrev pub is_later : ℕ → When → Bool
is_later now (at t) = ltb now t
is_later now infinity = false

-- `scheduled_at = 'infinity'`.
abbrev pub is_parked : When → Bool
is_parked (at t) = false
is_parked infinity = true

module _ (now : ℕ) (queue : String) where
  abbrev pub is_ready : Row → Bool
  is_ready r = str_eq r.queue queue && (is_available r.state && is_due now r.scheduled_at)

  abbrev pub is_scheduled : Row → Bool
  is_scheduled r = str_eq r.queue queue && (is_available r.state && is_later now r.scheduled_at)

  abbrev pub is_blocked : Row → Bool
  is_blocked r = str_eq r.queue queue && (is_available r.state && is_parked r.scheduled_at)

  abbrev pub runs_in : Row → Bool
  runs_in r = str_eq r.queue queue && is_running r.state

  unfoldable pub depth : List Row → Depth
  depth rows = record {
    ready = count is_ready rows;
    scheduled = count is_scheduled rows;
    blocked = count is_blocked rows;
    running = count runs_in rows;
  }

-- `SELECT DISTINCT queue .. ORDER BY queue`; the order of texts is the collation's, an argument.
module _ (text_before : String → String → Bool) where
  unfoldable pub place_queue : String → List String → List String
  place_queue q [] = q ∷ []
  place_queue q (p ∷ queues) =
      let later = p ∷ place_queue q queues in if text_before q p then q ∷ p ∷ queues else later

  unfoldable pub queues : List Row → List String
  queues [] = []
  queues (r ∷ rows) =
      let rest = queues rows in
      if is_unfinished r.state && not (any_queue r.queue rest)
      then place_queue r.queue rest
      else rest

-- `Discarded`.
pub record Discarded : Type 0 where
  pub id : ℕ
  pub queue : String
  pub task : Bytes
  pub attempt : ℕ
  pub finalized_at : Option ℕ
  pub error : Option String

-- `errors -> -1 ->> 'error'`.
unfoldable pub last_error : List JobError → Option String
last_error [] = none
last_error (e ∷ []) = some e.error
last_error (e ∷ f ∷ errors) = last_error (f ∷ errors)

-- `ORDER BY finalized_at DESC NULLS LAST, id DESC`.
abbrev pub newer : Option ℕ → ℕ → Option ℕ → ℕ → Bool
newer none i none j = ltb j i
newer none i (some t) j = false
newer (some s) i none j = true
newer (some s) i (some t) j = ltb t s || (s == t && ltb j i)

unfoldable pub insert_newest : Row → List Row → List Row
insert_newest r [] = r ∷ []
insert_newest r (s ∷ rows) =
    let later = s ∷ insert_newest r rows in
    if newer r.finalized_at r.id s.finalized_at s.id then r ∷ s ∷ rows else later

unfoldable pub newest_first : List Row → List Row
newest_first [] = []
newest_first (r ∷ rows) = insert_newest r (newest_first rows)

unfoldable pub discarded_from : Row → Discarded
discarded_from r = record {
  id = r.id;
  queue = r.queue;
  task = r.task;
  attempt = r.attempt;
  finalized_at = r.finalized_at;
  error = last_error r.errors;
}

unfoldable pub list_discarded : Option String → ℕ → List Row → List Discarded
list_discarded queue limit rows =
    map discarded_from
      (take limit (newest_first (rows_where (λ r. is_discarded r.state && in_queue queue r) rows)))

-- `JobOutcome`.
pub record JobOutcome : Type 0 where
  pub state : JobState
  pub result : Option Bytes
  pub errors : List JobError

unfoldable pub outcome : ℕ → List Row → Option JobOutcome
outcome id [] = none
outcome id (r ∷ rows) =
    if r.id == id
    then some (record { state = r.state; result = r.result; errors = r.errors })
    else outcome id rows
