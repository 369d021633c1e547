-- ===== src/Worker/Flush.antt =====
-- `Pending::flush` of crates/gylo-worker/src/lib.rs, on the job table and the jobs in flight. A statement
-- that fails is logged and leaves the table as it is; which of the four fail is an argument.
use gylo.Prelude.{ℕ, Bool, List, map, if◌then◌else◌, ◌==◌}
use gylo.Wire.Words.{Bytes}
use Prim.Native.String.{String}
use gylo.Pg.Row.{Row, Edge}
use gylo.Pg.Settle.{complete_many, complete_many_with_results, discard_many, retry_many}
use gylo.Worker.InFlight.{InFlight, release}
use gylo.Worker.Pending.{Pending, no_reports, len, settled}

-- What the statements are given, and which of them reach the table.
pub record Flushing : Type 0 where
  pub now : ℕ
  pub edges : List Edge
  pub worker : ℕ
  pub retry_base : ℕ
  pub retry_cap : ℕ
  pub roll : ℕ → ℕ
  pub text : Bytes → String
  pub completes : Bool
  pub stores : Bool
  pub retries : Bool
  pub discards : Bool

unfoldable pub write_reports : Flushing → Pending → List Row → List Row
write_reports w p rows =
    let done =
      if w.completes then (complete_many w.now w.edges p.completed w.worker rows).0 else rows in
    let stored =
      if w.stores
      then (complete_many_with_results w.now w.edges p.with_result p.results w.worker done).0
      else done in
    let again =
      if w.retries
      then (retry_many w.now p.retry (map w.text p.retry_errors) w.worker w.retry_base w.retry_cap
          w.roll stored).0
      else stored in
    if w.discards
    then (discard_many w.now w.edges p.terminal (map w.text p.terminal_errors) w.worker again).0
    else again

unfoldable pub flush : Flushing → Pending → InFlight → List Row → Pending × (InFlight × List Row)
flush w p s rows =
    if len p == 0
    then (p, (s, rows))
    else (no_reports, (release (settled p) s, write_reports w p rows))
