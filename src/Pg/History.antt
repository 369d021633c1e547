-- ===== src/Pg/History.antt =====
-- Every history of the statements of crates/gylo-pg/src/lib.rs keeps the table sound.
use gylo.Prelude.{
  ℕ, take, ◌≤◌, ◌<◌, ◌≡◌, refl, sym, ap, ◌∙◌, subst, inl, inr, Bool, true, false, List, [], ◌∷◌,
  map, arith, Bool-cases,
}
use Prim.Native.String.{String}
use gylo.Pg.Row.{Row, IsSound, any_id, rows_where, ids_of, is_available, set_if}
use gylo.Pg.Enqueue.{NewJob, Table, enqueue}
use gylo.Pg.Fetch.{
  lease_row, lease_ids, unkeyed_batch, fetch_unkeyed, keyed_batch, fetch_keyed, active, admitted,
}
use gylo.Pg.Lease.{renew_leases, abandon_leases, reclaim_expired}
use gylo.Pg.Retention.{prune_states, purge_discarded, delete_ids}
use gylo.Pg.Ended.{Distinct-rows_where}
use gylo.Pg.Settle.{complete, discard_many, cancel, retry_many, retry_discarded}
use gylo.Pg.Machine.{
  Statement, enqueues, fetches_unkeyed, fetches_keyed, completes, discards, retries, cancels,
  renews, abandons, reclaims, requeues, prunes, purges, apply, IsSent, Reach, created, stepped,
}
use gylo.Pg.Ids.{
  In-map, Distinct-map, unkeyed_batch-In, keyed_batch-In, waits-is_available, In, Distinct,
  any_id-In, Distinct-In, admitted-In, rows_where-In,
}
use gylo.Pg.Sound.{
  inserted-IsSound, Kept, lease_row-IsSound, renew_row-IsSound, abandon_row-IsSound,
  reclaim_row-IsSound, cancel_row-IsSound, complete_row-IsSound, discard_row-IsSound,
  retry_row-IsSound, retry_discarded_row-IsSound,
}

-- A table of sound rows with distinct ids, all below the next one.
pub record IsSoundTable (t : Table) : Type 0 where
  pub sound : (r : Row) → In r t.rows → IsSound r
  pub below : (r : Row) → In r t.rows → r.id < t.next_id
  pub distinct : Distinct t.rows

module _ (t : Table) (v : IsSoundTable t) where
  -- A statement that changes each row in a way that keeps it.
  map-IsSoundTable :
      (f : Row → Row)
      → ((r : Row) → In r t.rows → IsSound r → Kept r (f r))
      → IsSoundTable (record t { rows = map f t.rows })
  map-IsSoundTable f keep = record {
    sound = λ s m.
        let (r, mem, e) = In-map f t.rows s m in subst IsSound e (keep r mem (v.sound r mem)).0;
    below = λ s m.
        let (r, mem, e) = In-map f t.rows s m in
        let same : s.id ≡ r.id = sym (ap (λ (x : Row). x.id) e) ∙ (keep r mem (v.sound r mem)).1 in
        let low : r.id < t.next_id = v.below r mem in omega (arith, same, low);
    distinct = Distinct-map f t.rows (λ r m. (keep r m (v.sound r m)).1) v.distinct;
  }

  -- The rows that a batch names are those that its test let through.
  named :
      (test : Row → Bool) (batch : List Row)
      → ((s : Row) → In s batch → In s t.rows × (test s ≡ true))
      → (r : Row) → In r t.rows
      → any_id r.id (ids_of batch) ≡ true
      → test r ≡ true
  named test batch from r m h =
      let (s, ms, e) = any_id-In r.id batch h in
      let (mt, holds) = from s ms in
      subst (λ (x : Row). test x ≡ true) (Distinct-In t.rows s r v.distinct mt m e) holds

  lease_ids-IsSoundTable :
      (now worker lease : ℕ) (test : Row → Bool) (batch : List Row)
      → ((s : Row) → In s batch → In s t.rows × (test s ≡ true))
      → ((r : Row) → test r ≡ true → is_available r.state ≡ true)
      → IsSoundTable (record t { rows = (lease_ids now worker lease (ids_of batch) t.rows).0 })
  unfolding lease_ids
  lease_ids-IsSoundTable now worker lease test batch from available_ =
      map-IsSoundTable (set_if (λ r. any_id r.id (ids_of batch)) (lease_row now worker lease))
        λ r m sound. elim (Bool-cases (any_id r.id (ids_of batch))) [
          | inl y ↦ rw y (
              lease_row-IsSound now r sound worker lease
                (available_ r (named test batch from r m y)))
          | inr n ↦ rw n (sound, refl)
        ]

  fetch_unkeyed-IsSoundTable :
      (now : ℕ) (busy : ℕ → Bool) (queues : List String) (limit worker lease : ℕ)
      → IsSoundTable
          (record t { rows = (fetch_unkeyed busy now queues limit worker lease t.rows).0 })
  unfolding fetch_unkeyed
  fetch_unkeyed-IsSoundTable now busy queues limit worker lease =
      lease_ids-IsSoundTable now worker lease _ (unkeyed_batch busy now queues limit t.rows)
        (unkeyed_batch-In busy now queues limit t.rows)
        (λ r h. waits-is_available now queues r _ _ h)

  fetch_keyed-IsSoundTable :
      (now : ℕ) (busy : ℕ → Bool) (queues : List String) (limit worker lease : ℕ)
      → IsSoundTable (record t { rows = (fetch_keyed busy now queues limit worker lease t.rows).0 })
  unfolding fetch_keyed
  fetch_keyed-IsSoundTable now busy queues limit worker lease =
      lease_ids-IsSoundTable now worker lease _
        (admitted (λ k. active k t.rows) [] (keyed_batch busy now queues limit t.rows))
        (λ s m. keyed_batch-In busy now queues limit t.rows s (admitted-In _ [] _ s m))
        (λ r h. waits-is_available now queues r _ _ h)

  enqueue-IsSoundTable :
      (now : ℕ) (job : NewJob) → 1 ≤ job.max_attempts → IsSoundTable (enqueue now job t).0
  unfolding enqueue
  enqueue-IsSoundTable now job h = record {
    sound = λ r m. elim m [
      | inl e ↦ subst IsSound e (inserted-IsSound now t.next_id job h)
      | inr old ↦ v.sound r old
    ];
    below = λ r m. elim m [
      | inl e ↦ let same : t.next_id ≡ r.id = ap (λ (x : Row). x.id) e in omega (arith, same)
      | inr old ↦ let low : r.id < t.next_id = v.below r old in omega (arith, low)
    ];
    distinct = (new_id, v.distinct);
  }
    where
      new_id : any_id t.next_id (ids_of t.rows) ≡ false
      new_id = elim (Bool-cases (any_id t.next_id (ids_of t.rows))) [
        | inl seen ↦
            let (s, m, e) = any_id-In t.next_id t.rows seen in
            let low : s.id < t.next_id = v.below s m in absurd (omega (arith, low, e))
        | inr new ↦ new
      ]

  rows_where-IsSoundTable :
      (test : Row → Bool) → IsSoundTable (record t { rows = rows_where test t.rows })
  rows_where-IsSoundTable test = record {
    sound = λ r m. v.sound r (rows_where-In test t.rows r m).0;
    below = λ r m. v.below r (rows_where-In test t.rows r m).0;
    distinct = Distinct-rows_where test t.rows v.distinct;
  }

  -- Every statement keeps the table sound.
  apply-IsSoundTable : (now : ℕ) (s : Statement) → IsSent s → IsSoundTable (apply now s t)
  unfolding apply
  apply-IsSoundTable now (enqueues job) h = enqueue-IsSoundTable now job h
  apply-IsSoundTable now (fetches_unkeyed busy queues limit worker lease) h =
      fetch_unkeyed-IsSoundTable now busy queues limit worker lease
  apply-IsSoundTable now (fetches_keyed busy queues limit worker lease) h =
      fetch_keyed-IsSoundTable now busy queues limit worker lease
  apply-IsSoundTable now (completes edges [] results worker) h = unfold complete in v
  apply-IsSoundTable now (completes edges (x ∷ ids) results worker) h =
      unfold complete in
      map-IsSoundTable _ (λ r m k. complete_row-IsSound now r k edges (x ∷ ids) results worker _)
  apply-IsSoundTable now (discards edges [] errors worker) h = unfold discard_many in v
  apply-IsSoundTable now (discards edges (x ∷ ids) errors worker) h =
      unfold discard_many in
      map-IsSoundTable _ (λ r m k. discard_row-IsSound now r k (x ∷ ids) errors worker _)
  apply-IsSoundTable now (retries [] errors worker base cap roll) h = unfold retry_many in v
  apply-IsSoundTable now (retries (x ∷ ids) errors worker base cap roll) h =
      unfold retry_many in
      map-IsSoundTable _ (λ r m k. retry_row-IsSound now r k (x ∷ ids) errors worker base cap roll)
  apply-IsSoundTable now (cancels []) h = unfold cancel in v
  apply-IsSoundTable now (cancels (x ∷ ids)) h =
      unfold cancel in map-IsSoundTable _ (λ r m k. cancel_row-IsSound now r k (x ∷ ids))
  apply-IsSoundTable now (renews [] worker lease) h = unfold renew_leases in v
  apply-IsSoundTable now (renews (x ∷ ids) worker lease) h =
      unfold renew_leases in
      map-IsSoundTable _ (λ r m k. renew_row-IsSound now r k (x ∷ ids) worker lease)
  apply-IsSoundTable now (abandons [] worker) h = unfold abandon_leases in v
  apply-IsSoundTable now (abandons (x ∷ ids) worker) h =
      unfold abandon_leases in
      map-IsSoundTable _ (λ r m k. abandon_row-IsSound now r k (x ∷ ids) worker)
  apply-IsSoundTable now (reclaims limit found) h =
      unfold reclaim_expired in
      map-IsSoundTable _ (λ r m k. reclaim_row-IsSound now r k (take limit found))
  apply-IsSoundTable now (requeues ids queue) h =
      unfold retry_discarded in
      map-IsSoundTable _ (λ r m k. retry_discarded_row-IsSound now r k ids queue)
  apply-IsSoundTable now (prunes busy states older_than queue limit) h =
      unfold prune_states delete_ids in rows_where-IsSoundTable _
  apply-IsSoundTable now (purges queue) h = unfold purge_discarded in rows_where-IsSoundTable _

created-IsSoundTable : (t : Table) → t.rows ≡ [] → IsSoundTable t
created-IsSoundTable t e = record {
  sound = λ r m. none_left r m;
  below = λ r m. absurd (subst (In r) e m);
  distinct = subst Distinct (sym e) tt;
}
  where
    none_left : (r : Row) → In r t.rows → IsSound r
    none_left r m = absurd (subst (In r) e m)

-- In every table that a history of the statements leads to, starting from a table without rows, with
-- jobs of at least one attempt enqueued, no two rows share an id, a job that runs has a worker and a
-- lease and no other job has either, a job has ended exactly in a final state, and the attempts are
-- within their bounds, with one left for every job that waits.
pub Reach-IsSoundTable : {t : Table} → Reach t → IsSoundTable t
Reach-IsSoundTable (created e) = created-IsSoundTable _ e
Reach-IsSoundTable (stepped {t} now s sent r) =
    apply-IsSoundTable t (Reach-IsSoundTable r) now s sent
