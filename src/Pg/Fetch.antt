-- ===== src/Pg/Fetch.antt =====
-- Leasing jobs: FETCH_UNKEYED, KEYED_WAITING, FETCH_KEYED and `fetch` of crates/gylo-pg/src/lib.rs.
-- `busy` says which rows other transactions have locked, which `SKIP LOCKED` passes over.
use gylo.Prelude.{
  ℕ, ◌+◌, ◌-◌, Bool, true, false, not, ◌&&◌, ◌||◌, List, [], ◌∷◌, ◌++◌, map, none, some, ltb, leb,
  ◌==◌, if◌then◌else◌, length, take, max,
}
use gylo.Prelude.Int.{ltb_ℤ, eq_ℤ}
use gylo.Wire.Words.{Bytes}
use gylo.Pg.Row.{
  Row, When, at, infinity, running, is_available, is_running, is_due, is_some, any_id, any_queue,
  set_if, rows_where, ids_of,
}
use Prim.Native.String.{String}
use text.Mathlib.Text.{◌==◌ as str_eq}

-- `gylo_core::Job`.
pub record Job : Type 0 where
  pub id : ℕ
  pub task : Bytes
  pub payload : Bytes
  pub attempt : ℕ
  pub max_attempts : ℕ
  pub durable : Bool

unfoldable pub job_from : Row → Job
job_from r = record {
  id = r.id;
  task = r.task;
  payload = r.payload;
  attempt = r.attempt;
  max_attempts = r.max_attempts;
  durable = r.durable;
}

-- `ORDER BY priority, scheduled_at, id`.
abbrev time_before : When → When → Bool
time_before (at s) (at t) = ltb s t
time_before (at s) infinity = true
time_before infinity w = false

abbrev time_same : When → When → Bool
time_same (at s) (at t) = s == t
time_same infinity infinity = true
time_same _ _ = false

unfoldable pub runs_before : Row → Row → Bool
runs_before r s =
    ltb_ℤ r.priority s.priority
    || (eq_ℤ r.priority s.priority
        && (time_before r.scheduled_at s.scheduled_at
            || (time_same r.scheduled_at s.scheduled_at && ltb r.id s.id)))

unfoldable pub insert_row : Row → List Row → List Row
insert_row r [] = r ∷ []
insert_row r (s ∷ rows) =
    let later = s ∷ insert_row r rows in if runs_before r s then r ∷ s ∷ rows else later

unfoldable pub order_rows : List Row → List Row
order_rows [] = []
order_rows (r ∷ rows) = insert_row r (order_rows rows)

-- `state = 'available' AND queue = ANY($1) AND scheduled_at <= now()`.
unfoldable pub waits : ℕ → List String → Row → Bool
waits now queues r = is_available r.state && any_queue r.queue queues && is_due now r.scheduled_at

abbrev pub is_keyed : Row → Bool
is_keyed r = is_some r.concurrency_key

-- The `SET` clause that both fetches share.
unfoldable pub lease_row : ℕ → ℕ → ℕ → Row → Row
lease_row now worker lease r = record r {
  state = running;
  locked_by = some worker;
  lease_expires_at = some (now + lease);
  started_at = some now;
  attempt = r.attempt + 1;
}

-- `UPDATE .. WHERE j.id = c.id RETURNING ..`: the table, and the jobs leased.
unfoldable pub lease_ids : ℕ → ℕ → ℕ → List ℕ → List Row → List Row × List Job
lease_ids now worker lease ids rows = (
  map (set_if (λ r. any_id r.id ids) (lease_row now worker lease)) rows,
  map (λ r. job_from (lease_row now worker lease r)) (rows_where (λ r. any_id r.id ids) rows),
)

module _ (busy : ℕ → Bool) (now : ℕ) (queues : List String) where
  -- `locked` of FETCH_UNKEYED.
  unfoldable pub unkeyed_batch : ℕ → List Row → List Row
  unkeyed_batch limit rows = take limit (
      order_rows (rows_where (λ r. waits now queues r && not (is_keyed r) && not (busy r.id)) rows))

  unfoldable pub fetch_unkeyed : ℕ → ℕ → ℕ → List Row → List Row × List Job
  fetch_unkeyed limit worker lease rows =
      lease_ids now worker lease (ids_of (unkeyed_batch limit rows)) rows

  -- KEYED_WAITING, and the column `keyed_waiting` of FETCH_UNKEYED.
  unfoldable pub keyed_waiting : List Row → Bool
  unfolding waits
  keyed_waiting [] = false
  keyed_waiting (r ∷ rows) = (waits now queues r && is_keyed r) || keyed_waiting rows

-- Whether a row has a key.
unfoldable pub has_key : String → Row → Bool
has_key k r = elim r.concurrency_key [ none ↦ false | some s ↦ str_eq s k ]

-- `active` of FETCH_KEYED: how many jobs with a key are running.
abbrev pub runs_with : String → Row → Bool
runs_with k r = is_running r.state && has_key k r

unfoldable pub active : String → List Row → ℕ
active k rows = length (rows_where (runs_with k) rows)

-- `COALESCE(a.running, 0) < max_concurrency`, for a row with a key.
unfoldable pub has_room : List Row → Row → Bool
has_room rows r = elim r.concurrency_key [
  | none ↦ false
  | some k ↦ ltb (active k rows) r.max_concurrency
]

-- `admitted` of FETCH_KEYED: a locked row passes if its rank among the locked rows with its key, in
-- their order, still fits beside those that run. The rows before it in the order come first.
unfoldable pub fits : (String → ℕ) → List Row → Row → Bool
fits already before r = elim r.concurrency_key [
  | none ↦ false
  | some k ↦ leb (already k + (1 + length (rows_where (has_key k) before))) r.max_concurrency
]

unfoldable pub admitted : (String → ℕ) → List Row → List Row → List Row
admitted already before [] = []
admitted already before (r ∷ rows) =
    let rest = admitted already (r ∷ before) rows in
    if fits already before r then r ∷ rest else rest

module _ (busy : ℕ → Bool) (now : ℕ) (queues : List String) where
  -- `locked` of FETCH_KEYED.
  unfoldable pub keyed_batch : ℕ → List Row → List Row
  keyed_batch limit rows =
      take limit (
        order_rows
          (rows_where (λ r. waits now queues r && has_room rows r && not (busy r.id)) rows))

  -- FETCH_KEYED, which runs alone under the advisory lock.
  unfoldable pub fetch_keyed : ℕ → ℕ → ℕ → List Row → List Row × List Job
  fetch_keyed limit worker lease rows =
      lease_ids now worker lease
        (ids_of (admitted (λ k. active k rows) [] (keyed_batch limit rows))) rows

-- `fetch`: the second pass is made only if a job with a key waits, and then has room for one at least.
-- Each pass is a statement with a clock and with locked rows of its own; nothing else is run between them.
module _ (busy busy' : ℕ → Bool) (now later : ℕ) (queues : List String) where
  unfoldable pub fetch : ℕ → ℕ → ℕ → List Row → List Row × List Job
  fetch limit worker lease rows =
      let (rows', jobs) = fetch_unkeyed busy now queues limit worker lease rows in
      let spare = max (limit - length jobs) 1 in
      let (rows'', keyed) = fetch_keyed busy' later queues spare worker lease rows' in
      if keyed_waiting busy now queues rows then (rows'', jobs ++ keyed) else (rows', jobs)
