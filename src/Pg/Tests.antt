-- ===== src/Pg/Tests.antt =====
-- The theorems on the job table at concrete tables.
use gylo.Prelude.{
  ℕ, ◌+◌, ◌≤◌, ◌≡◌, refl, ap, ◌/◌, ◌↔◌, ◌⊎◌, inl, inr, Bool, true, false, List, [], ◌∷◌, none, some,
  arith, max, length,
}
use gylo.Prelude.Int.{pos}
use gylo.Pg.Row.{Row, Edge, at, available, running, cancelled, any_id, any_queue, rows_where}
use gylo.Pg.Enqueue.{NewJob, Table, new_job}
use gylo.Pg.Fetch.{
  has_key, active, fetch_keyed, fetch_unkeyed, fetch, waits, unkeyed_batch, lease_ids, order_rows,
  insert_row, runs_before, keyed_batch, admitted, fits, lease_row, has_room, keyed_waiting,
}
use gylo.Pg.Settle.{walk, discard_many, complete, nominal, jittered}
use gylo.Pg.Lease.{abandon_row, reclaim_row}
use gylo.Pg.Machine.{created, stepped, apply, enqueues, fetches_unkeyed, completes}
use gylo.Pg.Ids.{In, Distinct}
use gylo.Pg.History.{IsSoundTable, Reach-IsSoundTable}
use gylo.Pg.Admission.{fetch_keyed-active}
use gylo.Pg.Cascade.{Descends, Descends-child, direct, further}
use gylo.Pg.Discard.{walk_iff, discard_many-Descends, discard_many-other, dead_ids}
use gylo.Pg.Batch.{fetch-length}
use gylo.Pg.Leasing.{Leased, IsWaiting, HasRoom, fetch_unkeyed-Leased, fetch_keyed-Leased}
use gylo.Pg.Report.{complete-twice}
use gylo.Pg.Recover.{HandedBack, reclaim-abandon, jittered_bounds}
use Prim.Native.String.{String}

abbrev waiting : ℕ → Row
waiting id = record {
  id = id;
  queue = "default";
  task = [];
  state = available;
  priority = pos 0;
  payload = [];
  attempt = 0;
  max_attempts = 20;
  errors = [];
  scheduled_at = at 5;
  started_at = none;
  finalized_at = none;
  locked_by = none;
  lease_expires_at = none;
  result = none;
  concurrency_key = none;
  max_concurrency = 0;
  durable = false;
  workflow_id = none;
  pending_deps = pos 0;
}

abbrev leased : ℕ → Row
leased id = record (waiting id) {
  state = running;
  attempt = 1;
  locked_by = some 7;
  lease_expires_at = some 100;
  started_at = some 10;
}

abbrev keyed : ℕ → Row
keyed id = record (waiting id) { concurrency_key = some "mail"; max_concurrency = 1 }

-- One job runs; the second waits for it, the third for the second, and the fourth for nothing.
abbrev family : List Row
family = leased 1 ∷ waiting 2 ∷ waiting 3 ∷ waiting 4 ∷ []

abbrev family_edges : List Edge
family_edges = record { parent = 2; child = 3 } ∷ record { parent = 1; child = 2 } ∷ []

family-Distinct : Distinct family
unfolding any_id
family-Distinct = (refl, (refl, (refl, (refl, tt))))

abbrev mails : List Row
mails = keyed 1 ∷ keyed 2 ∷ waiting 3 ∷ []

mails-Distinct : Distinct mails
unfolding any_id
mails-Distinct = (refl, (refl, (refl, tt)))

abbrev nobody : ℕ → Bool
nobody id = false

abbrev queues : List String
queues = "default" ∷ []

mails_within : (r : Row) → In r mails → has_key "mail" r ≡ true → r.max_concurrency ≤ 1
mails_within r (inl e) h =
    let limit : 1 ≡ r.max_concurrency = ap (λ (x : Row). x.max_concurrency) e in
    omega (arith, limit)
mails_within r (inr (inl e)) h =
    let limit : 1 ≡ r.max_concurrency = ap (λ (x : Row). x.max_concurrency) e in
    omega (arith, limit)
mails_within r (inr (inr (inr m))) h = absurd m
mails_within r (inr (inr (inl e))) h =
    let limit : 0 ≡ r.max_concurrency = ap (λ (x : Row). x.max_concurrency) e in
    omega (arith, limit)

abbrev empty : Table
empty = record { rows = []; next_id = 1 }

abbrev mail_job : NewJob
mail_job = new_job [] []

abbrev mail_job-tryable : 1 ≤ mail_job.max_attempts
unfolding new_job
mail_job-tryable = omega arith

Reach-IsSoundTable_example : IsSoundTable (
    apply 11
      (completes [] (1 ∷ []) (none ∷ []) 7)
      (apply 10 (fetches_unkeyed nobody queues 5 7 90) (apply 5 (enqueues mail_job) empty)))
Reach-IsSoundTable_example = Reach-IsSoundTable (
    stepped 11 (completes [] (1 ∷ []) (none ∷ []) 7) tt (
      stepped 10 (fetches_unkeyed nobody queues 5 7 90) tt
        (stepped 5 (enqueues mail_job) mail_job-tryable (created refl))))

fetch_keyed-active_example :
    active "mail" (fetch_keyed nobody 10 queues 5 7 90 mails).0 ≤ max (active "mail" mails) 1
fetch_keyed-active_example =
    fetch_keyed-active "mail" 1 nobody 10 queues 5 7 90 mails mails-Distinct mails_within

fetch-length_example :
    (length (fetch nobody nobody 10 11 queues 1 7 90 mails).1 ≤ 1 + 1)
    × (keyed_waiting nobody 10 queues mails ≡ false
        → length (fetch nobody nobody 10 11 queues 1 7 90 mails).1 ≤ 1)
fetch-length_example = fetch-length 10 7 90 nobody queues nobody 11 1 mails mails-Distinct

-- The second pass may go one beyond the limit.
fetch_overshoots : length (fetch nobody nobody 10 11 queues 1 7 90 mails).1 ≡ 2
unfolding fetch fetch_unkeyed unkeyed_batch lease_ids rows_where any_id any_queue waits
    keyed_waiting order_rows insert_row runs_before fetch_keyed keyed_batch admitted fits has_key
    has_room active lease_row
fetch_overshoots = refl

fetch_unkeyed-Leased_example :
    Leased
      (λ r. IsWaiting nobody 10 queues r × (r.concurrency_key ≡ none))
      10
      7
      90
      mails
      (fetch_unkeyed nobody 10 queues 5 7 90 mails)
fetch_unkeyed-Leased_example = fetch_unkeyed-Leased nobody 10 queues 5 7 90 mails mails-Distinct

fetch_keyed-Leased_example :
    Leased
      (λ r. IsWaiting nobody 10 queues r × HasRoom mails r)
      10
      7
      90
      mails
      (fetch_keyed nobody 10 queues 5 7 90 mails)
fetch_keyed-Leased_example = fetch_keyed-Leased nobody 10 queues 5 7 90 mails mails-Distinct

abbrev second_edge : Edge
second_edge = record { parent = 2; child = 3 }

abbrev first_edge : Edge
first_edge = record { parent = 1; child = 2 }

third-Descends : Descends family_edges (dead_ids (1 ∷ []) 7 family) 3
unfolding any_id rows_where
third-Descends = further second_edge (inl refl) (direct first_edge (inr (inl refl)) refl)

walk_iff_example :
    (any_id 3 (walk 2 family_edges (1 ∷ [])) ≡ true)
    ↔ ((any_id 3 (1 ∷ []) ≡ true) ⊎ Descends family_edges (1 ∷ []) 3)
walk_iff_example = walk_iff family_edges (1 ∷ []) 3

discard_many-Descends_example :
    In
      (record (waiting 3) { state = cancelled; finalized_at = some 20 })
      (discard_many 20 family_edges (1 ∷ []) ("broken" ∷ []) 7 family).0
discard_many-Descends_example =
    discard_many-Descends 20 family_edges (1 ∷ []) ("broken" ∷ []) 7 family (waiting 3)
      (inr (inr (inl refl))) refl third-Descends

fourth_apart : ¬ Descends family_edges (dead_ids (1 ∷ []) 7 family) 4
fourth_apart d =
    let (e, m, child) = Descends-child d in
    elim m [
      | inl second ↦
          let third : 3 ≡ e.child = ap (λ (x : Edge). x.child) second in
          absurd (omega (arith, third, child))
      | inr rest ↦ elim rest [
        | inl first ↦
            let other : 2 ≡ e.child = ap (λ (x : Edge). x.child) first in
            absurd (omega (arith, other, child))
        | inr none_left ↦ none_left
      ]
    ]

discard_many-other_example :
    In (waiting 4) (discard_many 20 family_edges (1 ∷ []) ("broken" ∷ []) 7 family).0
discard_many-other_example =
    discard_many-other 20 family_edges (1 ∷ []) ("broken" ∷ []) 7 family (waiting 4) family-Distinct
      (inr (inr (inr (inl refl)))) refl fourth_apart

complete-twice_example :
    (complete 30 family_edges
      (1 ∷ [])
      (none ∷ [])
      7
      (complete 20 family_edges (1 ∷ []) (none ∷ []) 7 family).0).1
    ≡ 0
complete-twice_example =
    complete-twice 20 30 family_edges family_edges (1 ∷ []) (none ∷ []) (none ∷ []) 7 family

reclaim-abandon_example :
    HandedBack (leased 1) (reclaim_row 21 (1 ∷ []) (abandon_row 20 (1 ∷ []) 7 (leased 1)))
unfolding any_id
reclaim-abandon_example =
    reclaim-abandon 20 21 (1 ∷ []) (1 ∷ []) 7 (leased 1) (omega arith) (omega arith) refl refl refl

jittered_bounds_example :
    (nominal 1000000 3600000000 3 / 2 ≤ jittered (nominal 1000000 3600000000 3) 12345)
    × (jittered (nominal 1000000 3600000000 3) 12345 ≤ nominal 1000000 3600000000 3)
    × (jittered (nominal 1000000 3600000000 3) 12345 ≤ 3600000000)
jittered_bounds_example = jittered_bounds 1000000 3600000000 3 12345 (omega arith)
