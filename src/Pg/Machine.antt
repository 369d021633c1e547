-- ===== src/Pg/Machine.antt =====
-- The statements of crates/gylo-pg/src/lib.rs as the steps of one machine. Postgres runs the
-- statements of concurrent workers on a row one after the other, so a history is a sequence of steps,
-- each at its own time and with what the server chose.
use gylo.Prelude.{ℕ, ◌≤◌, Bool, List, [], ◌≡◌, Option}
use gylo.Wire.Words.{Bytes}
use gylo.Pg.Row.{JobState, Row, Edge}
use gylo.Pg.Enqueue.{NewJob, Table, enqueue}
use gylo.Pg.Fetch.{fetch_unkeyed, fetch_keyed}
use gylo.Pg.Lease.{renew_leases, abandon_leases, reclaim_expired}
use gylo.Pg.Retention.{prune_states, purge_discarded}
use gylo.Pg.Settle.{complete, discard_many, cancel, retry_many, retry_discarded}
use Prim.Native.String.{String}

pub data Statement : Type 0 where
  enqueues : NewJob → Statement
  fetches_unkeyed fetches_keyed : (ℕ → Bool) → List String → ℕ → ℕ → ℕ → Statement
  completes : List Edge → List ℕ → List (Option Bytes) → ℕ → Statement
  discards : List Edge → List ℕ → List String → ℕ → Statement
  retries : List ℕ → List String → ℕ → ℕ → ℕ → (ℕ → ℕ) → Statement
  cancels : List ℕ → Statement
  renews : List ℕ → ℕ → ℕ → Statement
  abandons : List ℕ → ℕ → Statement
  reclaims : ℕ → List ℕ → Statement
  requeues : Option (List ℕ) → Option String → Statement
  prunes : (ℕ → Bool) → List JobState → ℕ → Option String → ℕ → Statement
  purges : Option String → Statement

abbrev with_rows : Table → List Row → Table
with_rows t rows = record t { rows = rows }

unfoldable pub apply : ℕ → Statement → Table → Table
apply now (enqueues job) t = (enqueue now job t).0
apply now (fetches_unkeyed busy queues limit worker lease) t =
    with_rows t (fetch_unkeyed busy now queues limit worker lease t.rows).0
apply now (fetches_keyed busy queues limit worker lease) t =
    with_rows t (fetch_keyed busy now queues limit worker lease t.rows).0
apply now (completes edges ids results worker) t =
    with_rows t (complete now edges ids results worker t.rows).0
apply now (discards edges ids errors worker) t =
    with_rows t (discard_many now edges ids errors worker t.rows).0
apply now (retries ids errors worker base cap roll) t =
    with_rows t (retry_many now ids errors worker base cap roll t.rows).0
apply now (cancels ids) t = with_rows t (cancel now ids t.rows).0
apply now (renews ids worker lease) t = with_rows t (renew_leases now ids worker lease t.rows).0
apply now (abandons ids worker) t = with_rows t (abandon_leases now ids worker t.rows).0
apply now (reclaims limit found) t = with_rows t (reclaim_expired now limit found t.rows).0
apply now (requeues ids queue) t = with_rows t (retry_discarded now ids queue t.rows).0
apply now (prunes busy states older_than queue limit) t =
    with_rows t (prune_states busy now states older_than queue limit t.rows).0
apply now (purges queue) t = with_rows t (purge_discarded queue t.rows).0

-- A statement that the program sends: a job may be tried once at least.
abbrev pub IsSent : Statement → Type 0
IsSent (enqueues job) = 1 ≤ job.max_attempts
IsSent _ = Unit

-- The tables that a history leads to.
pub data Reach : Table → Type 0 where
  created : {t : Table} → t.rows ≡ [] → Reach t
  stepped : {t : Table} (now : ℕ) (s : Statement) → IsSent s → Reach t → Reach (apply now s t)
