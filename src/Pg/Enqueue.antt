-- ===== src/Pg/Enqueue.antt =====
-- `NewJob` and `enqueue` of crates/gylo-pg/src/lib.rs, and the table with its identity column.
use gylo.Prelude.{ℕ, ◌+◌, Bool, false, List, [], ◌∷◌, Option, none, some}
use gylo.Prelude.Int.{ℤ, pos}
use gylo.Wire.Words.{Bytes}
use gylo.Pg.Row.{Row, at, available}
use Prim.Native.String.{String}

pub record NewJob : Type 0 where
  pub queue : String
  pub task : Bytes
  pub payload : Bytes
  pub priority : ℤ
  pub max_attempts : ℕ
  pub delay : ℕ
  pub concurrency : Option (String × ℕ)
  pub durable : Bool

unfoldable pub new_job : Bytes → Bytes → NewJob
new_job task payload = record {
  queue = "default";
  task = task;
  payload = payload;
  priority = pos 0;
  max_attempts = 20;
  delay = 0;
  concurrency = none;
  durable = false;
}

unfoldable pub on_queue : NewJob → String → NewJob
on_queue job queue = record job { queue = queue }

unfoldable pub delayed_by : NewJob → ℕ → NewJob
delayed_by job delay = record job { delay = delay }

unfoldable pub with_priority : NewJob → ℤ → NewJob
with_priority job priority = record job { priority = priority }

unfoldable pub limited_to : NewJob → String → ℕ → NewJob
limited_to job key at_once = record job { concurrency = some (key, at_once) }

-- The rows, and the next value of the identity column.
pub record Table : Type 0 where
  pub rows : List Row
  pub next_id : ℕ

-- A row as ENQUEUE inserts it, the other columns at their defaults. `max_concurrency` is null exactly
-- with the key, and is then never read.
unfoldable pub inserted : ℕ → ℕ → NewJob → Row
inserted now id job = record {
  id = id;
  queue = job.queue;
  task = job.task;
  state = available;
  priority = job.priority;
  payload = job.payload;
  attempt = 0;
  max_attempts = job.max_attempts;
  errors = [];
  scheduled_at = at (now + job.delay);
  started_at = none;
  finalized_at = none;
  locked_by = none;
  lease_expires_at = none;
  result = none;
  concurrency_key = elim job.concurrency [ none ↦ none | some c ↦ some c.0 ];
  max_concurrency = elim job.concurrency [ none ↦ 0 | some c ↦ c.1 ];
  durable = job.durable;
  workflow_id = none;
  pending_deps = pos 0;
}

unfoldable pub enqueue : ℕ → NewJob → Table → Table × ℕ
unfolding inserted
enqueue now job t =
    (record { rows = inserted now t.next_id job ∷ t.rows; next_id = t.next_id + 1 }, t.next_id)
