-- ===== src/Pg/Admission.antt =====
-- Admission control: how many jobs with one key FETCH_KEYED of crates/gylo-pg/src/lib.rs lets run.
use gylo.Prelude.{
  ℕ, ◌+◌, ◌≤◌, ◌≡◌, refl, inl, inr, Bool, true, false, ◌&&◌, List, [], ◌∷◌, arith, Bool-cases,
  Option-cases, max, leb,
}
use Prim.Native.String.{String}
use text.Mathlib.TextEquality.{eq_iff}
use text.Mathlib.Text.{◌==◌ as str_eq}
use gylo.Pg.Row.{Row, any_id, rows_where, ids_of, set_if}
use gylo.Pg.Fetch.{
  has_key, runs_with, active, fits, admitted, keyed_batch, lease_row, lease_ids, fetch_keyed,
}
use gylo.Pg.Ids.{In, Distinct, keyed_batch-In, admitted-In}
use gylo.Pg.Count.{bit, count, count_cons, count_le, count-map, count_named}

-- A job with the key fits exactly if one more beside those that run and those ranked before it is
-- within the job's own limit.
fits-has_key :
    (k : String) (already : String → ℕ) (before : List Row) (r : Row)
    → has_key k r ≡ true
    → fits already before r ≡ leb (already k + (1 + count (has_key k) before)) r.max_concurrency
unfolding fits has_key
fits-has_key k already before r h = elim (Option-cases r.concurrency_key) [
  | inl e ↦ let h' : false ≡ true = rw e at h in cc h'
  | inr (s, e) ↦
      let h' : str_eq s k ≡ true = rw e at h in let same : s ≡ k = (eq_iff s k).0 h' in rw (e, same)
]

count_nil : (k : String) → count (has_key k) [] ≡ 0
unfolding rows_where
count_nil k = refl

module _ (k : String) (most : ℕ) where
  -- With every limit for the key within a bound, those let through stay within it, unless those that
  -- run are over it already.
  admitted_le :
      (already : String → ℕ) (before rows : List Row)
      → ((r : Row) → In r rows → has_key k r ≡ true → r.max_concurrency ≤ most)
      → already k + count (has_key k) before + count (has_key k) (admitted already before rows)
        ≤ max (already k + count (has_key k) before) most
  unfolding admitted rows_where
  admitted_le already before [] within = omega arith
  admitted_le already before (r ∷ rows) within =
      let rest = admitted_le already (r ∷ before) rows (λ s m h. within s (inr m) h) in
      let counted = count_cons (has_key k) r before in
      elim (Bool-cases (fits already before r)) [
        | inl y ↦
            let all = count_cons (has_key k) r (admitted already (r ∷ before) rows) in
            rw y (elim (Bool-cases (has_key k r)) [
              | inl keyed ↦
                  let room = fits-has_key k already before r keyed in
                  let bound = within r (inl refl) keyed in ground arith
              | inr other ↦ ground arith
            ])
        | inr n ↦ rw n (elim (Bool-cases (has_key k r)) [
          | inl keyed ↦
              let room = fits-has_key k already before r keyed in
              let bound = within r (inl refl) keyed in ground arith
          | inr other ↦ ground arith
        ])
      ]

lease_row-has_key :
    (now worker lease : ℕ) (k : String) (r : Row)
    → has_key k (lease_row now worker lease r) ≡ has_key k r
unfolding lease_row has_key
lease_row-has_key now worker lease k r = refl

-- Leasing a batch adds to the jobs that run with a key those of the batch that have it.
lease_ids-active :
    (k : String) (now worker lease : ℕ) (rows batch : List Row)
    → Distinct rows
    → ((r : Row) → In r batch → In r rows)
    → active k (lease_ids now worker lease (ids_of batch) rows).0
      ≤ active k rows + count (has_key k) batch
unfolding active lease_ids
lease_ids-active k now worker lease rows batch d from =
    let change : Row → Row =
      set_if (λ r. any_id r.id (ids_of batch)) (lease_row now worker lease) in
    omega (
      arith,
      count-map (runs_with k) change rows,
      count_named (has_key k) rows batch d from,
      count_le (λ r. runs_with k (change r)) (runs_with k)
          (λ r. any_id r.id (ids_of batch) && has_key k r) rows (λ r. by_row r),
    )
  where
    by_row :
        (r : Row)
        → bit
            (runs_with k (set_if (λ s. any_id s.id (ids_of batch)) (lease_row now worker lease) r))
          ≤ bit (runs_with k r) + bit (any_id r.id (ids_of batch) && has_key k r)
    by_row r = let key = lease_row-has_key now worker lease k r in ground arith

-- In a table of distinct ids, if no job with a key allows more than some number of them at once,
-- then after FETCH_KEYED no more than that number of jobs with the key run, or no more than ran
-- before, when they were over it already.
pub fetch_keyed-active :
    (k : String) (most : ℕ) (busy : ℕ → Bool) (now : ℕ) (queues : List String)
    (limit worker lease : ℕ) (rows : List Row)
    → Distinct rows
    → ((r : Row) → In r rows → has_key k r ≡ true → r.max_concurrency ≤ most)
    → active k (fetch_keyed busy now queues limit worker lease rows).0 ≤ max (active k rows) most
unfolding fetch_keyed
fetch_keyed-active k most busy now queues limit worker lease rows d within =
    let locked = keyed_batch busy now queues limit rows in
    let already : String → ℕ = λ key. active key rows in
    let from : (r : Row) → In r locked → In r rows =
      λ r m. (keyed_batch-In busy now queues limit rows r m).0 in
    let adm = admitted already [] locked in
    omega (
      arith,
      lease_ids-active k now worker lease rows adm d
          (λ r m. from r (admitted-In already [] locked r m)),
      admitted_le k most already [] locked (λ r m. within r (from r m)),
      count_nil k,
    )
