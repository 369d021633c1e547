-- ===== src/Pg/Deletion.antt =====
-- Deleting rows by their ids, as the pruning of crates/gylo-pg/src/lib.rs does: the rows that are left and their number.
use gylo.Prelude.{
  ℕ, ◌+◌, ◌≤◌, ◌≡◌, refl, ap, subst, ◌⊎◌, inl, inr, Bool, true, false, not, ◌&&◌, List, [], ◌∷◌,
  arith, Bool-cases, length, ◌==◌,
}
use gylo.Pg.Row.{Row, any_id, rows_where, ids_of}
use gylo.Pg.Ids.{In, Distinct, Distinct-In, any_id-In, rows_where-In}
use gylo.Pg.Count.{bit, count, count_cons, count_named}
use gylo.Pg.Ended.{In-rows_where}
use gylo.Pg.Retention.{delete_ids}

count_split :
    (f : Row → Bool) (rows : List Row) → count (λ r. not (f r)) rows + count f rows ≡ length rows
unfolding rows_where
count_split f [] = omega arith
count_split f (r ∷ rows) = ground (arith, count_split f rows)

count_two :
    (f g h : Row → Bool) (rows : List Row)
    → ((r : Row) → bit (f r) + bit (g r) ≤ bit (h r))
    → count f rows + count g rows ≤ count h rows
unfolding rows_where
count_two f g h [] le = omega arith
count_two f g h (r ∷ rows) le = omega (
  arith,
  count_cons f r rows,
  count_cons g r rows,
  count_cons h r rows,
  le r,
  count_two f g h rows le,
)

count_member : (r : Row) (rows : List Row) → In r rows → 1 ≤ count (λ s. r.id == s.id) rows
unfolding rows_where
count_member r [] m = absurd m
count_member r (s ∷ rows) (inl e) =
    let same : s.id ≡ r.id = ap (λ (x : Row). x.id) e in ground arith
count_member r (s ∷ rows) (inr m) = ground (arith, count_member r rows m)

-- Distinct rows of the table are all counted by their ids.
count_batch :
    (batch rows : List Row)
    → Distinct batch
    → ((b : Row) → In b batch → In b rows)
    → length batch ≤ count (λ r. any_id r.id (ids_of batch)) rows
unfolding any_id
count_batch [] rows d from = omega arith
count_batch (b ∷ batch) rows (new, d) from =
    let apart : (r : Row)
        → bit (b.id == r.id) + bit (any_id r.id (ids_of batch))
          ≤ bit (any_id r.id (ids_of (b ∷ batch))) =
      λ r. elim (Bool-cases (b.id == r.id)) [
        | inl y ↦
            let same : b.id ≡ r.id = ground arith in
            let new' : any_id r.id (ids_of batch) ≡ false =
              subst (λ (x : ℕ). any_id x (ids_of batch) ≡ false) same new in
            rw (y, new') (ground arith)
        | inr n ↦ rw n (ground arith)
      ] in
    omega (
      arith,
      count_member b rows (from b (inl refl)),
      count_batch batch rows d (λ c m. from c (inr m)),
      count_two (λ r. b.id == r.id) (λ r. any_id r.id (ids_of batch))
          (λ r. any_id r.id (ids_of (b ∷ batch))) rows (λ r. apart r),
    )

count_all : (rows : List Row) → count (λ r. true) rows ≡ length rows
unfolding rows_where
count_all [] = omega arith
count_all (r ∷ rows) = omega (arith, count_all rows)

count_batch_le :
    (batch rows : List Row)
    → Distinct rows
    → ((b : Row) → In b batch → In b rows)
    → count (λ r. any_id r.id (ids_of batch)) rows ≤ length batch
count_batch_le batch rows d from = omega (
  arith,
  count_named (λ r. true) rows batch d from,
  count_all batch,
  count_two (λ r. any_id r.id (ids_of batch)) (λ r. false) (λ r. any_id r.id (ids_of batch) && true)
      rows (λ r. ground arith),
)

-- What a deletion of a batch of rows leaves.
module _ (batch rows : List Row) (d : Distinct rows)
    (from : (b : Row) → In b batch → In b rows) where
  pub delete_ids-count : (delete_ids (ids_of batch) rows).1 ≤ length batch
  unfolding delete_ids
  delete_ids-count = count_batch_le batch rows d from

  pub delete_ids-all : Distinct batch → length batch ≤ (delete_ids (ids_of batch) rows).1
  unfolding delete_ids
  delete_ids-all e = count_batch batch rows e from

  pub delete_ids-total :
      length (delete_ids (ids_of batch) rows).0 + (delete_ids (ids_of batch) rows).1 ≡ length rows
  unfolding delete_ids
  delete_ids-total = count_split (λ r. any_id r.id (ids_of batch)) rows

  -- A row stays or is one of the batch, not both.
  pub delete_ids-In : (r : Row) → In r rows → In r (delete_ids (ids_of batch) rows).0 ⊎ In r batch
  unfolding delete_ids
  delete_ids-In r m = elim (Bool-cases (any_id r.id (ids_of batch))) [
    | inl y ↦
        let (b, mb, same) = any_id-In r.id batch y in
        let e : b ≡ r = Distinct-In rows b r d (from b mb) m same in
        inr (subst (λ (x : Row). In x batch) e mb)
    | inr n ↦ inl (In-rows_where _ rows r m (ap not n))
  ]

  pub delete_ids-left :
      (r : Row)
      → In r (delete_ids (ids_of batch) rows).0
      → In r rows × (any_id r.id (ids_of batch) ≡ false)
  unfolding delete_ids
  delete_ids-left r m = let (mem, holds) = rows_where-In _ rows r m in (mem, ground (arith, holds))
