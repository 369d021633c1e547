-- ===== src/Pg/Samples.antt =====
-- The theorems on the schedules and steps of crates/gylo-pg/src/lib.rs at concrete tables.
use gylo.Prelude.{◌≡◌, refl, true, List, [], ◌∷◌, none, some}
use gylo.Prelude.Int.{pos}
use gylo.Pg.Row.{Row, available, at, any_id}
use gylo.Pg.Cron.{CronEntry, CronRow, eq_bytes, upsert_cron}
use gylo.Pg.Firing.{Kept, find_cron, upsert_cron-Kept}
use gylo.Pg.Steps.{Step, record_step, Recorded, record_step-Recorded}

abbrev nightly : CronEntry
nightly = record {
  name = 110 ∷ [];
  queue = "default";
  task = 116 ∷ [];
  payload = [];
  expression = 42 ∷ [];
  timezone = 85 ∷ [];
}

abbrev paused_nightly : CronRow
paused_nightly = record {
  entry = nightly;
  paused = true;
  next_run_at = 50;
  last_run_at = some 20;
  updated_at = 20;
}

found_nightly : find_cron (110 ∷ []) (paused_nightly ∷ []) ≡ some paused_nightly
unfolding find_cron eq_bytes
found_nightly = refl

upsert_cron-Kept_example :
    (s : CronRow) × (find_cron (110 ∷ []) (upsert_cron 60 nightly 90 (paused_nightly ∷ []))
      ≡ some s)
    × Kept nightly paused_nightly s
upsert_cron-Kept_example =
    upsert_cron-Kept 60 nightly 90 (paused_nightly ∷ []) paused_nightly found_nightly

abbrev waiting : Row
waiting = record {
  id = 4;
  queue = "default";
  task = [];
  state = available;
  priority = pos 0;
  payload = [];
  attempt = 0;
  max_attempts = 20;
  errors = [];
  scheduled_at = at 5;
  started_at = none;
  finalized_at = none;
  locked_by = none;
  lease_expires_at = none;
  result = none;
  concurrency_key = none;
  max_concurrency = 0;
  durable = true;
  workflow_id = none;
  pending_deps = pos 0;
}

known : any_id 4 (4 ∷ []) ≡ true
unfolding any_id
known = refl

record_step-Recorded_example :
    (after : List Step) × (record_step 30 4 (99 ∷ []) (1 ∷ []) (waiting ∷ []) [] ≡ some after)
    × Recorded 31 4 (99 ∷ []) (1 ∷ []) (2 ∷ []) (waiting ∷ []) [] after
record_step-Recorded_example =
    record_step-Recorded 30 31 4 (99 ∷ []) (1 ∷ []) (2 ∷ []) (waiting ∷ []) [] known
