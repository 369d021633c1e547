-- ===== src/Pg/Holding.antt =====
-- The jobs that `fetch` of crates/gylo-pg/src/lib.rs returns, over both passes, are held by the worker.
use gylo.Prelude.{
  ℕ, ◌-◌, ◌≡◌, sym, ◌∙◌, ◌⊎◌, inl, inr, Bool, true, Bool-cases, List, [], ◌∷◌, ◌++◌, arith, length,
  max, ◌==◌,
}
use Prim.Native.String.{String}
use gylo.Pg.Row.{Row, held_by}
use gylo.Pg.Ids.{In, Distinct}
use gylo.Pg.Batch.{fetch_unkeyed-Distinct}
use gylo.Pg.Fetch.{Job, fetch_unkeyed, fetch_keyed, keyed_waiting, fetch}
use gylo.Pg.Leasing.{InJobs, Leased, fetch_unkeyed-Leased, fetch_keyed-Leased}

-- A row of the table with the id of the job, held by the worker.
abbrev pub HeldIn : ℕ → List Row → Job → Type 0
HeldIn worker rows j = (s : Row) × In s rows × (s.id ≡ j.id) × (held_by worker s ≡ true)

InJobs-append : (xs ys : List Job) (j : Job) → InJobs j (xs ++ ys) → InJobs j xs ⊎ InJobs j ys
InJobs-append [] ys j m = inr m
InJobs-append (x ∷ xs) ys j (inl e) = inl (inl e)
InJobs-append (x ∷ xs) ys j (inr m) = elim (InJobs-append xs ys j m) [
  | inl l ↦ inl (inr l)
  | inr r ↦ inr r
]

Leased-HeldIn :
    (CanTake : Row → Type 0) (now worker lease : ℕ) (rows : List Row) (result : List Row × List Job)
    → Leased CanTake now worker lease rows result
    → (j : Job) → InJobs j result.1
    → HeldIn worker result.0 j
Leased-HeldIn CanTake now worker lease rows result (taken, kept) j m =
    let (r, mem, can, (s, ms, leased)) = taken j m in
    let same : (worker == worker) ≡ true = ground arith in
    (s, ms, leased.0 ∙ sym leased.5, rw (leased.1, leased.2) (ground (arith, same)))

-- A job that was held before a fetch is held after it.
Leased-keeps :
    (CanTake : Row → Type 0) (now worker lease : ℕ) (rows : List Row) (result : List Row × List Job)
    → Leased CanTake now worker lease rows result
    → (j : Job) → HeldIn worker rows j
    → HeldIn worker result.0 j
Leased-keeps CanTake now worker lease rows result (taken, kept) j (s, ms, e, held) =
    elim (kept s ms) [
      | inl stays ↦ (s, stays, e, held)
      | inr (again, m, same) ↦
          let (t, mt, e', held') =
            Leased-HeldIn CanTake now worker lease rows result (taken, kept) again m in
          (t, mt, e' ∙ (same ∙ e), held')
    ]

module _ (busy busy' : ℕ → Bool) (now later : ℕ) (queues : List String)
    (limit worker lease : ℕ) where
  pub fetch-HeldIn :
      (rows : List Row)
      → Distinct rows
      → (j : Job) → InJobs j (fetch busy busy' now later queues limit worker lease rows).1
      → HeldIn worker (fetch busy busy' now later queues limit worker lease rows).0 j
  unfolding fetch
  fetch-HeldIn rows d j =
      let first = fetch_unkeyed busy now queues limit worker lease rows in
      let spare = max (limit - length first.1) 1 in
      let second = fetch_keyed busy' later queues spare worker lease first.0 in
      let unkeyed = fetch_unkeyed-Leased busy now queues limit worker lease rows d in
      let keyed =
        fetch_keyed-Leased busy' later queues spare worker lease first.0
          (fetch_unkeyed-Distinct now worker lease busy queues limit rows d) in
      elim (Bool-cases (keyed_waiting busy now queues rows)) [
        | inr single ↦ rw single (λ m. Leased-HeldIn _ now worker lease rows first unkeyed j m)
        | inl both ↦ rw both (λ m. elim (InJobs-append first.1 second.1 j m) [
          | inr late ↦ Leased-HeldIn _ later worker lease first.0 second keyed j late
          | inl early ↦
              Leased-keeps _ later worker lease first.0 second keyed j
                (Leased-HeldIn _ now worker lease rows first unkeyed j early)
        ])
      ]
