-- ===== src/Worker/Ticks.antt =====
-- The theorems on the rounds of dispatch and the ticks of retention of crates/gylo-worker/src/lib.rs at concrete inputs.
use gylo.Prelude.{List, ℕ, ◌+◌, ◌≡◌, refl, true, false, [], ◌∷◌, none, some, arith}
use gylo.Prelude.Int.{pos}
use gylo.Worker.Maintenance.{Retaining, retain_tick}
use gylo.Worker.Retained.{Retained, retain_tick-Retained}
use gylo.Pg.Row.{Row, completed, available, at, any_id}
use gylo.Worker.Round.{Round, Dispatching}

abbrev waiting : Row
waiting = record {
  id = 9;
  queue = "default";
  task = [];
  state = available;
  priority = pos 0;
  payload = [];
  attempt = 0;
  max_attempts = 20;
  errors = [];
  scheduled_at = at 5;
  started_at = none;
  finalized_at = none;
  locked_by = none;
  lease_expires_at = none;
  result = none;
  concurrency_key = none;
  max_concurrency = 0;
  durable = false;
  workflow_id = none;
  pending_deps = pos 0;
}

abbrev one_round : Round
one_round = record {
  busy = λ id. false;
  busy_keyed = λ id. false;
  now = 20;
  later = 21;
  queues = "default" ∷ [];
  batch = 8;
  lease = 30;
  worker = 7;
  edges = [];
  steps_read = λ id. none;
  reason = λ id. "broken";
  leases = true;
  discards = λ id. true;
}

abbrev starting : Dispatching
starting = record { in_flight = record { ids = 4 ∷ []; limit = 3 }; rows = waiting ∷ []; sent = [] }

abbrev ticking : Retaining
ticking = record {
  clock = λ k. 1000 + k;
  elapsed = λ k. k;
  busy = λ k id. false;
  fails = λ k. false;
  retain_completed = 20;
  retain_discarded = 40;
  prune_batch = 2;
}

abbrev ended : Row
ended = record waiting { id = 3; state = completed; finalized_at = some 10 }

retain_tick-Retained_example :
    (result : (List Row × ℕ) × List ℕ) × (retain_tick ticking 3 1 true
        (waiting ∷ ended ∷ [])
        (2 ∷ [])
      ≡ some result)
    × Retained (waiting ∷ ended ∷ []) 0 result.0
unfolding any_id
retain_tick-Retained_example =
    retain_tick-Retained ticking (omega arith) 3 1 true (waiting ∷ ended ∷ []) (2 ∷ [])
      (refl, (refl, tt)) (omega arith)
