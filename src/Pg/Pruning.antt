-- ===== src/Pg/Pruning.antt =====
-- What one pruning statement of crates/gylo-pg/src/lib.rs deletes.
use gylo.Prelude.{
  ℕ, zero, suc, ◌+◌, ◌≤◌, ◌<◌, ◌≡◌, refl, ap, subst, ◌∙◌, ◌⊎◌, inl, inr, Bool, true, false, not,
  ◌&&◌, List, [], ◌∷◌, length-take-le, Option, arith, Bool-cases, length, take, ltb,
}
use gylo.Pg.Row.{Row, JobState, any_id, rows_where, ids_of}
use gylo.Pg.Ids.{In, Distinct, In-any_id, rows_where-In, take-In}
use gylo.Pg.Count.{length-take_le}
use gylo.Pg.Ended.{
  In-rows_where, order_ended-In, any_id-order_ended, Distinct-rows_where, Distinct-order_ended,
  Distinct-take,
}
use gylo.Pg.Retention.{prunable, order_ended, delete_ids, victims, prune_states}
use gylo.Pg.Deletion.{
  delete_ids-count, delete_ids-all, delete_ids-total, delete_ids-In, delete_ids-left,
}
use Prim.Native.String.{String}

-- What a pruning statement does to the table, given what rows are over.
abbrev pub Pruned : (Row → Bool) → ℕ → List Row → List Row × ℕ → Type 0
Pruned over limit rows result =
    (result.1 ≤ limit)
    × (length result.0 + result.1 ≡ length rows)
    × ((r : Row) → In r result.0 → In r rows)
    × ((r : Row) → In r rows → In r result.0 ⊎ (over r ≡ true))
    × (result.1 < limit → (r : Row) → In r result.0 → over r ≡ false)

take-all : (n : ℕ) (rows : List Row) → length rows ≤ n → take n rows ≡ rows
take-all zero [] h = refl
take-all zero (r ∷ rows) h = absurd (omega arith)
take-all (suc n) [] h = refl
take-all (suc n) (r ∷ rows) h = ap (◌∷◌ r) (take-all n rows (omega arith))

module _ (over : Row → Bool) (limit : ℕ) (rows : List Row) (d : Distinct rows) where
  candidates : List Row
  candidates = order_ended (rows_where over rows)

  candidates-In : (r : Row) → In r candidates → In r rows × (over r ≡ true)
  unfolding candidates
  candidates-In r m = rows_where-In over rows r (order_ended-In r _ m)

  candidates-Distinct : Distinct candidates
  unfolding candidates
  candidates-Distinct = Distinct-order_ended _ (Distinct-rows_where over rows d)

  -- A row that is over stands among the candidates.
  over-candidates : (r : Row) → In r rows → over r ≡ true → any_id r.id (ids_of candidates) ≡ true
  unfolding candidates
  over-candidates r m h =
      any_id-order_ended r.id (rows_where over rows)
      ∙ In-any_id r (rows_where over rows) (In-rows_where over rows r m h)

  drained :
      length (take limit candidates) < limit
      → (r : Row) → In r rows
      → any_id r.id (ids_of (take limit candidates)) ≡ false
      → over r ≡ false
  drained room r m new = elim (Bool-cases (over r)) [
    | inr n ↦ n
    | inl y ↦
        let few : length candidates ≤ limit = elim (Bool-cases (ltb limit (length candidates))) [
          | inr n ↦ ground arith
          | inl more ↦
              let full = length-take-le limit candidates (ground arith) in
              absurd (omega (arith, full, room))
        ] in
        let seen = over-candidates r m y in
        let new' : any_id r.id (ids_of candidates) ≡ false =
          subst (λ (xs : List Row). any_id r.id (ids_of xs) ≡ false) (take-all limit candidates few)
            new in
        absurd (cc (new', seen))
  ]

  pub delete-Pruned :
      Pruned over limit rows
        (delete_ids (ids_of (take limit (order_ended (rows_where over rows)))) rows)
  unfolding candidates
  delete-Pruned =
      let batch = take limit candidates in
      let from : (b : Row) → In b batch → In b rows =
        λ b m. (candidates-In b (take-In limit b candidates m)).0 in
      let counted = delete_ids-count batch rows d from in
      let all =
        delete_ids-all batch rows d from (Distinct-take limit candidates candidates-Distinct) in
      (
        omega (arith, counted, length-take_le limit candidates),
        delete_ids-total batch rows d from,
        λ r m. (delete_ids-left batch rows d from r m).0,
        λ r m. elim (delete_ids-In batch rows d from r m) [
          | inl stays ↦ inl stays
          | inr gone ↦ inr (candidates-In r (take-In limit r candidates gone)).1
        ],
        λ room r m.
            let (mem, new) = delete_ids-left batch rows d from r m in
            drained (omega (arith, all, room)) r mem new,
      )

-- One pruning statement deletes no more rows than its limit, counts them, deletes only rows that pass its
-- condition and that no one else has locked, and leaves none of those when it deletes fewer than the limit.
pub prune_states-Pruned :
    (busy : ℕ → Bool) (now : ℕ) (states : List JobState) (older_than : ℕ) (queue : Option String)
    (limit : ℕ) (rows : List Row)
    → Distinct rows
    → Pruned
        (λ r. prunable now states older_than queue rows r && not (busy r.id))
        limit
        rows
        (prune_states busy now states older_than queue limit rows)
unfolding prune_states victims
prune_states-Pruned busy now states older_than queue limit rows d =
    delete-Pruned (λ r. prunable now states older_than queue rows r && not (busy r.id)) limit rows d
