-- ===== src/Pg/Row.antt =====
-- The job table of crates/gylo-pg/src/lib.rs: its rows, and what the statements test on them.
-- Times are microseconds; the server's clock is an argument of each statement. A job's id comes from
-- an identity column, and `attempt` counts up from 0.
use gylo.Prelude.{
  ℕ, ◌≤◌, ◌<◌, ◌≡◌, Bool, true, false, ◌&&◌, ◌||◌, List, [], ◌∷◌, Option, none, some, ltb, leb,
  ◌==◌, if◌then◌else◌,
}
use gylo.Prelude.Int.{ℤ}
use gylo.Wire.Words.{Bytes}
use Prim.Native.String.{String}
use text.Mathlib.Text.{◌==◌ as str_eq}

-- `gylo_job_state`.
pub data JobState : Type 0 where
  available running completed discarded cancelled : JobState

-- `scheduled_at`, which is `'infinity'` while a job waits for others.
pub data When : Type 0 where
  at : ℕ → When
  infinity : When

-- One entry of `errors`.
pub record JobError : Type 0 where
  pub attempt : ℕ
  pub time : ℕ
  pub error : String

-- `unique_key` and its partial unique index are left out: an insertion or a return to the queue never
-- fails on a clash of keys here.
pub record Row : Type 0 where
  pub id : ℕ
  pub queue : String
  pub task : Bytes
  pub state : JobState
  pub priority : ℤ
  pub payload : Bytes
  pub attempt : ℕ
  pub max_attempts : ℕ
  pub errors : List JobError
  pub scheduled_at : When
  pub started_at : Option ℕ
  pub finalized_at : Option ℕ
  pub locked_by : Option ℕ
  pub lease_expires_at : Option ℕ
  pub result : Option Bytes
  pub concurrency_key : Option String
  pub max_concurrency : ℕ
  pub durable : Bool
  pub workflow_id : Option ℕ
  pub pending_deps : ℤ

-- A row of `gylo_edge`.
pub record Edge : Type 0 where
  pub parent : ℕ
  pub child : ℕ

abbrev pub is_available : JobState → Bool
is_available available = true
is_available _ = false

abbrev pub is_running : JobState → Bool
is_running running = true
is_running _ = false

abbrev pub is_discarded : JobState → Bool
is_discarded discarded = true
is_discarded _ = false

-- `scheduled_at <= now()`.
abbrev pub is_due : ℕ → When → Bool
is_due now (at t) = leb t now
is_due now infinity = false

abbrev pub is_some {ℓ} : {A : Type ℓ} → Option A → Bool
is_some none = false
is_some (some a) = true

-- `locked_by = $worker`, which is not true of a null.
abbrev pub locked_is : ℕ → Option ℕ → Bool
locked_is worker none = false
locked_is worker (some w) = w == worker

-- `j.locked_by = $worker AND j.state = 'running'`.
abbrev pub held_by : ℕ → Row → Bool
held_by worker r = locked_is worker r.locked_by && is_running r.state

-- `lease_expires_at < now()`.
abbrev pub has_expired : ℕ → Option ℕ → Bool
has_expired now none = false
has_expired now (some t) = ltb t now

-- `id = ANY($ids)`.
unfoldable pub any_id : ℕ → List ℕ → Bool
any_id id [] = false
any_id id (x ∷ ids) = x == id || any_id id ids

-- `queue = ANY($queues)`.
unfoldable pub any_queue : String → List String → Bool
any_queue queue [] = false
any_queue queue (q ∷ queues) = str_eq q queue || any_queue queue queues

-- `unnest($ids, $values) AS v(id, value)` joined on a row's id.
unfoldable pub value_of {ℓ} : {V : Type ℓ} → ℕ → List ℕ → List V → Option V
value_of id [] vs = none
value_of id (x ∷ ids) [] = none
value_of id (x ∷ ids) (v ∷ vs) = if x == id then some v else value_of id ids vs

-- `UPDATE gylo_job SET .. WHERE ..`: the row as it is set, or as it was.
abbrev pub set_if : (Row → Bool) → (Row → Row) → Row → Row
set_if test change r = if test r then change r else r

-- The rows of which a test holds.
unfoldable pub rows_where : (Row → Bool) → List Row → List Row
rows_where test [] = []
rows_where test (r ∷ rows) = let rest = rows_where test rows in if test r then r ∷ rest else rest

abbrev pub ids_of : List Row → List ℕ
ids_of [] = []
ids_of (r ∷ rows) = r.id ∷ ids_of rows

-- The constraints of the table (attempts within bounds, a worker exactly with a lease), with what the
-- statements keep besides: at least one attempt allowed, a lease exactly while running, an end exactly in a final state, and an
-- attempt left for every job that waits.
abbrev pub is_final : JobState → Bool
is_final available = false
is_final running = false
is_final _ = true

pub record IsSound (r : Row) : Type 0 where
  pub tryable : 1 ≤ r.max_attempts
  pub bounds : r.attempt ≤ r.max_attempts
  pub left : r.state ≡ available → r.attempt < r.max_attempts
  pub locked : is_some r.locked_by ≡ is_running r.state
  pub leased : is_some r.lease_expires_at ≡ is_running r.state
  pub ended : is_some r.finalized_at ≡ is_final r.state
