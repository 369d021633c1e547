-- ===== src/Pg/Lease.antt =====
-- Leases: `renew_leases`, `abandon_leases` and `reclaim_expired` of crates/gylo-pg/src/lib.rs.
use gylo.Prelude.{
  ℕ, ◌+◌, ◌-◌, Bool, not, ◌&&◌, List, [], ◌∷◌, ◌++◌, map, none, some, leb, if◌then◌else◌, length,
  take,
}
use gylo.Pg.Row.{
  Row, available, discarded, is_running, held_by, has_expired, any_id, set_if, rows_where,
}
use Prim.Native.String.{String}

-- RENEW, on one row.
unfoldable pub renew_row : ℕ → List ℕ → ℕ → ℕ → Row → Row
renew_row now ids worker lease =
    set_if (λ r. any_id r.id ids && held_by worker r)
      (λ r. record r { lease_expires_at = some (now + lease) })

-- The rows after `renew_leases`, and how many were extended.
unfoldable pub renew_leases : ℕ → List ℕ → ℕ → ℕ → List Row → List Row × ℕ
renew_leases now [] worker lease rows = (rows, 0)
renew_leases now (x ∷ ids) worker lease rows = (
  map (renew_row now (x ∷ ids) worker lease) rows,
  length (rows_where (λ r. any_id r.id (x ∷ ids) && held_by worker r) rows),
)

-- ABANDON, on one row: the lease is set to have ended a microsecond ago.
unfoldable pub abandon_row : ℕ → List ℕ → ℕ → Row → Row
abandon_row now ids worker =
    set_if (λ r. any_id r.id ids && held_by worker r)
      (λ r. record r { lease_expires_at = some (now - 1) })

unfoldable pub abandon_leases : ℕ → List ℕ → ℕ → List Row → List Row × ℕ
abandon_leases now [] worker rows = (rows, 0)
abandon_leases now (x ∷ ids) worker rows = (
  map (abandon_row now (x ∷ ids) worker) rows,
  length (rows_where (λ r. any_id r.id (x ∷ ids) && held_by worker r) rows),
)

-- The rows that RECLAIM may take: a running job whose lease has ended.
abbrev pub is_expired : ℕ → Row → Bool
is_expired now r = is_running r.state && has_expired now r.lease_expires_at

abbrev pub is_exhausted : Row → Bool
is_exhausted r = leb r.max_attempts r.attempt

abbrev pub lease_error : String
lease_error = "lease expired before the worker reported an outcome"

-- RECLAIM, on one row, by the ids that its `LIMIT` lets through.
unfoldable pub reclaim_row : ℕ → List ℕ → Row → Row
reclaim_row now chosen r =
    if any_id r.id chosen && is_expired now r
    then (if is_exhausted r
        then record r {
          state = discarded;
          finalized_at = some now;
          locked_by = none;
          lease_expires_at = none;
          errors = r.errors ++ record { attempt = r.attempt; time = now; error = lease_error } ∷ [];
        }
        else record r { state = available; locked_by = none; lease_expires_at = none })
    else r

-- `Reclaimed`.
pub record Reclaimed : Type 0 where
  pub released : ℕ
  pub exhausted : ℕ

-- `reclaim_expired`: `LIMIT` has no order, so `found`, the expired jobs in the order in which the scan
-- meets them, is an argument; the first `limit` of them are taken.
unfoldable pub reclaim_expired : ℕ → ℕ → List ℕ → List Row → List Row × Reclaimed
reclaim_expired now limit found rows =
    let chosen = take limit found in
    (
      map (reclaim_row now chosen) rows,
      record {
        released =
            length (
              rows_where (λ r. any_id r.id chosen && is_expired now r && not (is_exhausted r))
                rows);
        exhausted =
            length
              (rows_where (λ r. any_id r.id chosen && is_expired now r && is_exhausted r) rows);
      },
    )
