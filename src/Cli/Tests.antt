-- ===== src/Cli/Tests.antt =====
-- The theorems on crates/gylo-cli/src/main.rs at a concrete table.
use gylo.Prelude.{
  ◌↔◌, ℕ, zero, suc, ◌==◌, ◌+◌, ◌≡◌, refl, Bool, true, false, [], ◌∷◌, none, some, arith,
}
use gylo.Prelude.Int.{pos}
use gylo.Pg.Row.{Row, at, available, completed, any_id}
use gylo.Pg.Count.{count}
use gylo.Pg.Retention.{is_unfinished}
use gylo.Cli.Prune.{Left, Finished, prune_finished, prune_finished-Finished}
use gylo.Prelude.Results.{ok}
use gylo.Capability.{pg_capabilities}
use gylo.Worker.Settings.{start}
use gylo.Cli.Start.{only_app, config_of, IsStartable, start-IsStartable}
use gylo.Cli.Show.{shown, show_queues, show_queues-count}
use Prim.Native.String.{String}

abbrev waiting : Row
waiting = record {
  id = 4;
  queue = "default";
  task = [];
  state = available;
  priority = pos 0;
  payload = [];
  attempt = 0;
  max_attempts = 20;
  errors = [];
  scheduled_at = at 5;
  started_at = none;
  finalized_at = none;
  locked_by = none;
  lease_expires_at = none;
  result = none;
  concurrency_key = none;
  max_concurrency = 0;
  durable = false;
  workflow_id = some 2;
  pending_deps = pos 0;
}

abbrev done : Row
done = record waiting { id = 5; state = completed; finalized_at = some 10; workflow_id = none }

-- Another transaction has locked job 5 at the first statement of each loop.
abbrev locked_once : ℕ → ℕ → Bool
locked_once zero id = id == 5
locked_once (suc k) id = false

prune_finished-Finished_example :
    (left : Left) × (prune_finished
        (λ k. 100 + k)
        locked_once
        20
        none
        (λ k. 200 + k)
        locked_once
        true
        3
        (waiting ∷ done ∷ [])
        (2 ∷ [])
      ≡ some left)
    × Finished 100 locked_once locked_once 20 none true (waiting ∷ done ∷ []) (2 ∷ []) left
unfolding any_id
prune_finished-Finished_example =
    prune_finished-Finished 100 (λ k. 100 + k) (λ k. 200 + k) (λ k. omega arith) (λ k. omega arith)
      locked_once locked_once 20 none true 3 (waiting ∷ done ∷ []) (2 ∷ []) (refl, (refl, tt))
      (omega arith)

abbrev before : String → String → Bool
before p q = false

show_queues-count_example :
    shown (show_queues before (λ k. 100 + k) none (waiting ∷ done ∷ []))
    ≡ count (λ r. is_unfinished r.state) (waiting ∷ done ∷ [])
show_queues-count_example = show_queues-count before (λ k. 100 + k) (waiting ∷ done ∷ [])

start-IsStartable_example :
    (start pg_capabilities (config_of 4 (only_app "shop:app")) ≡ ok tt)
    ↔ IsStartable 4 (only_app "shop:app")
start-IsStartable_example = start-IsStartable pg_capabilities 4 (only_app "shop:app")
