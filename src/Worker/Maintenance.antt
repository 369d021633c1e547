-- ===== src/Worker/Maintenance.antt =====
-- `retain`, `recover` and `renew` of crates/gylo-worker/src/lib.rs, one tick of each: the waits between
-- the ticks carry no data. The clocks, the rows that others have locked, and which statements fail are
-- arguments, by the number of the statement; so is the time that has passed in the tick.
use gylo.Prelude.{
  ℕ, zero, suc, ◌+◌, Bool, not, ◌&&◌, ◌||◌, List, Option, none, some, ltb, leb, if◌then◌else◌,
}
use gylo.Prelude.Options.{◌>>=◌}
use gylo.Wire.Words.{Bytes}
use gylo.Schedule.{Text, CronCrate}
use gylo.Pg.Row.{Row}
use gylo.Pg.Enqueue.{Table}
use gylo.Pg.Cron.{CronRow}
use gylo.Pg.Lease.{reclaim_expired, renew_leases}
use gylo.Pg.Retention.{well, dead, prune_states, prune_workflows}
use gylo.Worker.InFlight.{InFlight, snapshot}
use gylo.Worker.Schedules.{fire_due_schedules}

-- TICK_BUDGET, in microseconds.
abbrev pub tick_budget : ℕ
tick_budget = 5000000

pub record Retaining : Type 0 where
  pub clock : ℕ → ℕ
  pub elapsed : ℕ → ℕ
  pub busy : ℕ → ℕ → Bool
  pub fails : ℕ → Bool
  pub retain_completed : ℕ
  pub retain_discarded : ℕ
  pub prune_batch : ℕ

-- One statement of the tick: the rows, and how many are removed, or none when it fails.
abbrev pub prune_step : Retaining → ℕ → List Row → Option (List Row × ℕ)
prune_step c k rows =
    if c.fails k
    then none
    else some (prune_states (c.busy k) (c.clock k) well c.retain_completed none c.prune_batch rows)

-- `batch < config.prune_batch || started.elapsed() > TICK_BUDGET`.
abbrev pub is_last : Retaining → ℕ → ℕ → Bool
is_last c k batch = ltb batch c.prune_batch || ltb tick_budget (c.elapsed k)

-- What follows one statement, `rest` being the rounds after it.
abbrev pub after_prune :
    (List Row → ℕ → Option (List Row × ℕ))
    → Retaining
    → ℕ
    → List Row
    → ℕ
    → Option (List Row × ℕ)
    → Option (List Row × ℕ)
after_prune rest c k rows removed none = some (rows, removed)
after_prune rest c k rows removed (some (left, batch)) =
    let more = rest left (removed + batch) in
    if is_last c k batch then some (left, removed + batch) else more

-- The inner loop of `retain`, at its statement `k`.
unfoldable pub retain_loop : Retaining → ℕ → ℕ → List Row → ℕ → Option (List Row × ℕ)
retain_loop c zero k rows removed = none
retain_loop c (suc fuel) k rows removed =
    after_prune (retain_loop c fuel (suc k)) c k rows removed (prune_step c k rows)

-- The dead letters, when there is time left; `k` is the number of their statement.
abbrev pub retain_dead : Retaining → ℕ → List Row × ℕ → List Row × ℕ
retain_dead c k (rows, removed) =
    let (left, batch) =
      prune_states (c.busy k) (c.clock k) dead c.retain_discarded none c.prune_batch rows in
    if leb (c.elapsed k) tick_budget && not (c.fails k)
    then (left, removed + batch)
    else (rows, removed)

-- The workflows, when anything was removed.
abbrev pub retain_workflows : Bool → List Row × ℕ → List ℕ → List ℕ
retain_workflows works (rows, zero) workflows = workflows
retain_workflows works (rows, suc n) workflows =
    if works then (prune_workflows rows workflows).0 else workflows

-- One tick of `retain`: the rows with how many were removed, and the workflows.
unfoldable pub retain_tick :
    Retaining → ℕ → ℕ → Bool → List Row → List ℕ → Option ((List Row × ℕ) × List ℕ)
retain_tick c fuel last works rows workflows = do
  first ← retain_loop c fuel 0 rows 0
  some (retain_dead c last first, retain_workflows works (retain_dead c last first) workflows)

-- One tick of `recover`, less the samples of depth, which change nothing.
unfoldable pub recover_tick :
    (crate : CronCrate)
    → (Bytes → Text)
    → (Bytes → Bool)
    → Bool
    → ℕ
    → ℕ
    → ℕ
    → ℕ
    → List ℕ
    → List CronRow
    → Table
    → List CronRow × Table
recover_tick crate chars fires reclaims utc now cron_limit reclaim_limit found crons t =
    let (crons', t') = fire_due_schedules crate chars fires utc now cron_limit crons t in
    let t'' : Table = record t' { rows = (reclaim_expired now reclaim_limit found t'.rows).0 } in
    if reclaims then (crons', t'') else (crons', t')

-- One tick of `renew`.
unfoldable pub renew_tick : ℕ → ℕ → ℕ → Bool → InFlight → List Row → List Row
renew_tick now worker lease works s rows =
    if works then (renew_leases now (snapshot s) worker lease rows).0 else rows
