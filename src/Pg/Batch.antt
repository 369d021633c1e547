-- ===== src/Pg/Batch.antt =====
-- What a fetch of crates/gylo-pg/src/lib.rs leases: how many jobs, and which.
use gylo.Prelude.{
  ℕ, ◌+◌, ◌-◌, ◌≤◌, ◌≡◌, refl, inl, inr, Bool, true, false, ◌&&◌, List, [], ◌∷◌, arith, Bool-cases,
  length, length-append, length-map, max,
}
use Prim.Native.String.{String}
use gylo.Pg.Row.{Row, any_id, rows_where, ids_of, set_if}
use gylo.Pg.Fetch.{
  job_from, lease_row, lease_ids, unkeyed_batch, fetch_unkeyed, keyed_waiting, active, admitted,
  keyed_batch, fetch_keyed, fetch,
}
use gylo.Pg.Ids.{In, Distinct, Distinct-map, unkeyed_batch-In, keyed_batch-In, admitted-In}
use gylo.Pg.Count.{count, count_le, count_named, length-take_le}

count_all : (rows : List Row) → count (λ r. true) rows ≡ length rows
unfolding rows_where
count_all [] = refl
count_all (r ∷ rows) = omega (arith, count_all rows)

length-admitted :
    (already : String → ℕ) (before rows : List Row)
    → length (admitted already before rows) ≤ length rows
unfolding admitted
length-admitted already before [] = omega arith
length-admitted already before (r ∷ rows) =
    let rest = length-admitted already (r ∷ before) rows in ground arith

count_none : (rows : List Row) → count (λ r. false) rows ≡ 0
unfolding rows_where
count_none [] = refl
count_none (r ∷ rows) = count_none rows

lease_row-id :
    (now worker lease : ℕ) (ids : List ℕ) (r : Row)
    → (set_if (λ s. any_id s.id ids) (lease_row now worker lease) r).id ≡ r.id
unfolding lease_row
lease_row-id now worker lease ids r = ground arith

module _ (now worker lease : ℕ) where
  lease_ids-Distinct :
      (ids : List ℕ) (rows : List Row)
      → Distinct rows
      → Distinct (lease_ids now worker lease ids rows).0
  unfolding lease_ids
  lease_ids-Distinct ids rows d =
      Distinct-map (set_if (λ r. any_id r.id ids) (lease_row now worker lease)) rows
        (λ r m. lease_row-id now worker lease ids r) d

  lease_ids-length :
      (rows batch : List Row)
      → Distinct rows
      → ((r : Row) → In r batch → In r rows)
      → length (lease_ids now worker lease (ids_of batch) rows).1 ≤ length batch
  unfolding lease_ids
  lease_ids-length rows batch d from = omega (
    arith,
    length-map (rows_where (λ r. any_id r.id (ids_of batch)) rows)
        (λ r. job_from (lease_row now worker lease r)),
    count_named (λ r. true) rows batch d from,
    count_all batch,
    count_le (λ r. any_id r.id (ids_of batch)) (λ r. any_id r.id (ids_of batch) && true)
        (λ r. false) rows (λ r. ground arith),
    count_none rows,
  )

  module _ (busy : ℕ → Bool) (queues : List String) where
    fetch_unkeyed-length :
        (limit : ℕ) (rows : List Row)
        → Distinct rows
        → length (fetch_unkeyed busy now queues limit worker lease rows).1 ≤ limit
    unfolding fetch_unkeyed unkeyed_batch
    fetch_unkeyed-length limit rows d = omega (
      arith,
      lease_ids-length rows (unkeyed_batch busy now queues limit rows) d
          (λ r m. (unkeyed_batch-In busy now queues limit rows r m).0),
      length-take_le limit _,
    )

    fetch_keyed-length :
        (limit : ℕ) (rows : List Row)
        → Distinct rows
        → length (fetch_keyed busy now queues limit worker lease rows).1 ≤ limit
    unfolding fetch_keyed keyed_batch
    fetch_keyed-length limit rows d =
        let locked = keyed_batch busy now queues limit rows in
        let already : String → ℕ = λ k. active k rows in
        omega (
          arith,
          lease_ids-length rows (admitted already [] locked) d (λ r m.
              (keyed_batch-In busy now queues limit rows r (admitted-In already [] locked r m)).0),
          length-admitted already [] locked,
          length-take_le limit _,
        )

    pub fetch_unkeyed-Distinct :
        (limit : ℕ) (rows : List Row)
        → Distinct rows
        → Distinct (fetch_unkeyed busy now queues limit worker lease rows).0
    unfolding fetch_unkeyed
    fetch_unkeyed-Distinct limit rows d = lease_ids-Distinct _ rows d

module _ (now worker lease : ℕ) (busy : ℕ → Bool) (queues : List String) where
  -- In a table of distinct ids, fetch returns at most one job more than its limit, and no more than
  -- its limit if no job with a key waits.
  pub fetch-length :
      (busy' : ℕ → Bool) (later limit : ℕ) (rows : List Row)
      → Distinct rows
      → (length (fetch busy busy' now later queues limit worker lease rows).1 ≤ limit + 1)
        × (keyed_waiting busy now queues rows ≡ false
            → length (fetch busy busy' now later queues limit worker lease rows).1 ≤ limit)
  unfolding fetch
  fetch-length busy' later limit rows d =
      let first = fetch_unkeyed busy now queues limit worker lease rows in
      let spare = max (limit - length first.1) 1 in
      let second = fetch_keyed busy' later queues spare worker lease first.0 in
      let few = fetch_unkeyed-length now worker lease busy queues limit rows d in
      let more =
        fetch_keyed-length later worker lease busy' queues spare first.0
          (fetch_unkeyed-Distinct now worker lease busy queues limit rows d) in
      let both = length-append first.1 second.1 in
      elim (Bool-cases (keyed_waiting busy now queues rows)) [
        | inl y ↦ rw y (omega arith, λ n. cc n)
        | inr n ↦ rw n (omega arith, λ e. few)
      ]
