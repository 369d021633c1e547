-- ===== src/Worker/Round.antt =====
-- One round of `dispatch` in crates/gylo-worker/src/lib.rs: what it leases, sends and discards. The clock,
-- the rows that others have locked, what `steps_for` reads and which statements fail are arguments; the
-- waits for a wakeup, for a free place and after an error carry no data.
use gylo.Prelude.{ℕ, zero, suc, min, Bool, List, [], ◌∷◌, Option, if◌then◌else◌}
use gylo.Wire.Words.{Bytes}
use gylo.Wire.MessagePack.{MessagePack}
use gylo.Pg.Row.{Row, Edge}
use gylo.Pg.Fetch.{Job, fetch}
use gylo.Pg.Settle.{discard_many}
use gylo.Worker.InFlight.{InFlight, spare, reserve}
use gylo.Worker.Dispatch.{Sending, send_jobs}
use Prim.Native.String.{String}

pub record Round : Type 0 where
  pub busy : ℕ → Bool
  pub busy_keyed : ℕ → Bool
  pub now : ℕ
  pub later : ℕ
  pub queues : List String
  pub batch : ℕ
  pub lease : ℕ
  pub worker : ℕ
  pub edges : List Edge
  pub steps_read : ℕ → Option (List (Bytes × Bytes))
  -- The text of the error of a job that cannot be encoded.
  pub reason : ℕ → String
  pub leases : Bool
  pub discards : ℕ → Bool

-- What a round leaves: the jobs in flight, the job table, and the bytes sent to the child.
pub record Dispatching : Type 0 where
  pub in_flight : InFlight
  pub rows : List Row
  pub sent : List Bytes

-- The jobs refused by the encoder, each with a statement of its own.
unfoldable pub discard_each : Round → List ℕ → List Row → List Row
discard_each r [] rows = rows
discard_each r (id ∷ ids) rows =
    let rows' = (discard_many r.now r.edges (id ∷ []) (r.reason id ∷ []) r.worker rows).0 in
    if r.discards id then discard_each r ids rows' else discard_each r ids rows

-- `if !reserved.is_empty()`.
abbrev pub hand_over : Sending → Dispatching → Dispatching
hand_over st d = elim st.reserved [
  | [] ↦ d
  | id ∷ ids ↦ record d { in_flight = reserve (id ∷ ids) d.in_flight; sent = st.buffer ∷ d.sent }
]

module _ (mp : MessagePack) where
  -- What a batch becomes.
  abbrev pub send_batch : Round → List Job → Sending
  send_batch r jobs =
      send_jobs mp r.steps_read jobs (record { buffer = []; reserved = []; refused = [] })

  -- The rows after the fetch, with the jobs that it leased.
  abbrev pub place_batch : Round → List Row × List Job → Dispatching → Dispatching
  place_batch r (rows, jobs) d =
      let st = send_batch r jobs in
      hand_over st (record d { rows = discard_each r st.refused rows })

  unfoldable pub fetched : Round → Dispatching → List Row × List Job
  fetched r d =
      let limit = min r.batch (spare d.in_flight) in
      if r.leases
      then fetch r.busy r.busy_keyed r.now r.later r.queues limit r.worker r.lease d.rows
      else (d.rows, [])

  -- No place left: the round waits. No job leased: the round ends.
  abbrev pub with_room : Round → ℕ → Dispatching → Dispatching
  with_room r zero d = d
  with_room r (suc room) d = place_batch r (fetched r d) d

  unfoldable pub dispatch_round : Round → Dispatching → Dispatching
  dispatch_round r d = with_room r (spare d.in_flight) d
