-- ===== src/Worker/Tests.antt =====
-- The theorems on the supervisor at concrete inputs.
use gylo.Prelude.{ℕ, ◌+◌, ◌≡◌, refl, true, false, List, [], ◌∷◌, ◌++◌, none, some, arith, length}
use gylo.Prelude.Results.{err}
use gylo.Wire.Message.{Outcome, success, failure}
use gylo.Wire.MessagePack.{MessagePack}
use gylo.Wire.Delivery.{encode_batch}
use gylo.Pg.Row.{any_id}
use gylo.Pg.Fetch.{Job}
use gylo.Worker.InFlight.{InFlight, IsUnique}
use gylo.Worker.Pending.{Pending, no_reports, IsPaired}
use gylo.Worker.Flush.{Flushing, flush}
use gylo.Worker.Settled.{Flushed, flush-Flushed}
use gylo.Worker.HandBack.{HandingBack, hand_back, hand_back-NoneHeld}
use gylo.Pg.Held.{NoneHeld}
use gylo.Pg.Row.{Row, running, at}
use gylo.Prelude.Int.{pos}
use gylo.Worker.Restart.{failed, ended, supervise, gave_up, supervise-short_failures}
use gylo.Worker.Dispatch.{Sending, Carries, send_jobs, send_jobs-Carries}

abbrev two_held : InFlight
two_held = record { ids = 4 ∷ 9 ∷ []; limit = 3 }

two_held-IsUnique : IsUnique two_held.ids
unfolding any_id
two_held-IsUnique = (refl, (refl, tt))

abbrev two_reports : List (ℕ × Outcome)
two_reports = (4, success []) ∷ (9, failure (98 ∷ []) true) ∷ []

no_reports-IsPaired : IsPaired no_reports
no_reports-IsPaired = record { stored = refl; retried = refl; failed = refl }

abbrev writing : Flushing
writing = record {
  now = 20;
  edges = [];
  worker = 7;
  retry_base = 1000000;
  retry_cap = 3600000000;
  roll = λ id. 5;
  text = λ b. "broken";
  completes = true;
  stores = true;
  retries = true;
  discards = true;
}

abbrev reported : Pending
reported = record no_reports { completed = 4 ∷ []; retry = 9 ∷ []; retry_errors = (98 ∷ []) ∷ [] }

flush-Flushed_example : Flushed writing reported two_held (flush writing reported two_held [])
flush-Flushed_example =
    flush-Flushed writing reported two_held []
      (record { stored = refl; retried = refl; failed = refl }) (refl, refl, refl, refl)
      two_held-IsUnique

abbrev leased_row : Row
leased_row = record {
  id = 4;
  queue = "default";
  task = [];
  state = running;
  priority = pos 0;
  payload = [];
  attempt = 1;
  max_attempts = 20;
  errors = [];
  scheduled_at = at 5;
  started_at = some 10;
  finalized_at = none;
  locked_by = some 7;
  lease_expires_at = some 100;
  result = none;
  concurrency_key = none;
  max_concurrency = 0;
  durable = false;
  workflow_id = none;
  pending_deps = pos 0;
}

abbrev handing : HandingBack
handing = record {
  now = 20;
  later = 21;
  worker = 7;
  reclaim_limit = 2;
  found = 4 ∷ 9 ∷ [];
  abandons = true;
  reclaims = true;
}

hand_back-NoneHeld_example :
    ((hand_back handing two_held (leased_row ∷ [])).0.ids ≡ [])
    × NoneHeld two_held.ids 7 (hand_back handing two_held (leased_row ∷ [])).1
hand_back-NoneHeld_example =
    hand_back-NoneHeld handing two_held (leased_row ∷ []) (refl, refl) (omega arith, omega arith)
      (λ y h. h)

supervise-short_failures_example :
    supervise 1 0 (failed 40000 ∷ (failed 10 ∷ []) ++ ended ∷ []) ≡ gave_up
supervise-short_failures_example =
    supervise-short_failures 1 0 40000 (failed 10 ∷ []) (ended ∷ []) (omega arith) (omega arith, tt)
      (omega arith)

-- A library that packs nothing, which a dispatch does not need.
abbrev pub refusing : MessagePack
refusing = record {
  entries_to_vec = λ v. err [];
  entries_from_slice = λ b. err [];
  steps_to_vec = λ v. err [];
  steps_from_slice = λ b. err [];
  record_to_vec = λ v. err [];
  record_from_slice = λ b. err [];
  stored_to_vec = λ v. err [];
  stored_from_slice = λ b. err [];
}

abbrev charge_job : Job
charge_job = record {
  id = 4;
  task = 99 ∷ [];
  payload = 1 ∷ 2 ∷ [];
  attempt = 2;
  max_attempts = 5;
  durable = true;
}

abbrev nothing_sent : Sending
nothing_sent = record { buffer = []; reserved = []; refused = [] }

nothing_sent-Carries : Carries refusing nothing_sent
unfolding encode_batch
nothing_sent-Carries = ([], refl, refl)

send_jobs-Carries_example :
    Carries refusing (send_jobs refusing (λ id. none) (charge_job ∷ []) nothing_sent)
    × (length (send_jobs refusing (λ id. none) (charge_job ∷ []) nothing_sent).reserved
          + length (send_jobs refusing (λ id. none) (charge_job ∷ []) nothing_sent).refused
        ≡ 0 + 0 + 1)
send_jobs-Carries_example =
    send_jobs-Carries refusing (λ id. none) (charge_job ∷ []) nothing_sent nothing_sent-Carries
