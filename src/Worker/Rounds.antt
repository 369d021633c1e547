-- ===== src/Worker/Rounds.antt =====
-- The rounds of `dispatch` in crates/gylo-worker/src/lib.rs: how many jobs may be in flight, and that no
-- leased job is forgotten.
use gylo.Prelude.{ℕ, ◌+◌, ◌≤◌, ◌≡◌, none, ◌++◌, true, ◌||◌, [], ◌∷◌}
use gylo.Wire.MessagePack.{MessagePack}
use gylo.Pg.Row.{Row, discarded, held_by, any_id}
use gylo.Pg.Ids.{In}
use gylo.Worker.InFlight.{held, spare}
use gylo.Worker.Round.{Round, Dispatching, send_batch, fetched}
use gylo.Worker.Placing.{job_ids}

module _ (mp : MessagePack) (r : Round) (d : Dispatching) where
  -- A row that the worker held after the fetch, and that ends with an error of its own.
  abbrev pub Refused : ℕ → Dispatching → Type 0
  Refused y after =
      (x : Row) × (s : Row) × In x (fetched mp r d).0
      × In s after.rows
      × (x.id ≡ y)
      × (held_by r.worker x ≡ true)
      × (s.id ≡ y)
      × (s.state ≡ discarded)
      × (s.locked_by ≡ none)
      × (s.errors
          ≡ x.errors ++ record { attempt = x.attempt; time = r.now; error = r.reason y } ∷ [])

  -- What a round does with the jobs that it leases.
  abbrev pub Handed : Dispatching → Type 0
  Handed after =
      (held after.in_flight ≤ d.in_flight.limit + 1)
      × ((y : ℕ) → any_id y d.in_flight.ids ≡ true → any_id y after.in_flight.ids ≡ true)
      × ((y : ℕ)
          → 1 ≤ spare d.in_flight
          → any_id y (job_ids (fetched mp r d).1) ≡ true
          → (any_id y after.in_flight.ids || any_id y (send_batch mp r (fetched mp r d).1).refused)
            ≡ true)
      × ((y : ℕ)
          → 1 ≤ spare d.in_flight
          → any_id y (send_batch mp r (fetched mp r d).1).refused ≡ true
          → r.discards y ≡ true
          → Refused y after)
