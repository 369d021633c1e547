-- ===== src/Redis/Reading.antt =====
-- What `fetch` of crates/gylo-redis/src/lib.rs makes of the jobs that it has claimed.
use gylo.Prelude.{
  ℕ, ◌+◌, ◌≡◌, refl, sym, ap, ap₂, ◌∙◌, subst, inl, inr, Bool, true, false, List, [], ◌∷◌, Option,
  none, some, arith, Bool-cases, Option-cases, ◌==◌,
}
use gylo.Prelude.Results.{Result, ok, err, Result-cases}
use gylo.Wire.Words.{Bytes}
use gylo.Pg.Row.{any_id, is_some}
use gylo.Pg.Fetch.{Job}
use gylo.Redis.Zset.{zscore}
use gylo.Redis.Store.{Store}
use gylo.Redis.Backend.{
  Stored, StoredPack, RedisError, bad_payload, job_of, read_job, read_jobs, fetch, claim, complete,
  count_in,
}
use gylo.Redis.Leasing.{IsSound}
use gylo.Redis.Claim.{claim-Claimed, claim-payload}

abbrev pub ids_in_jobs : List Job → List ℕ
ids_in_jobs [] = []
ids_in_jobs (j ∷ jobs) = j.id ∷ ids_in_jobs jobs

-- Every payload in the store is one that `enqueue` wrote for its id.
abbrev pub IsReadable : StoredPack → Store → Type 0
IsReadable pack s =
    (id : ℕ) (bytes : Bytes)
    → s.payload id ≡ some bytes
    → (stored : Stored) × (pack.from_slice bytes ≡ some stored) × (stored.id ≡ id)

module _ (pack : StoredPack) (s : Store) (attempts : ℕ → Option ℕ) where
  read_job-ok :
      (id : ℕ)
      → is_some (s.payload id) ≡ true
      → IsReadable pack s
      → (j : Job) × (read_job pack s.payload attempts id ≡ ok j) × (j.id ≡ id)
  unfolding read_job
  read_job-ok id there readable = elim (Option-cases (s.payload id)) [
    | inl e ↦ let no : false ≡ true = rw e at there in cc no
    | inr (bytes, e) ↦
        let (stored, read, same) = readable id bytes e in
        (job_of stored (attempts id), rw (e, read, read_job) refl, same)
  ]

  read_jobs-ok :
      (ids : List ℕ)
      → ((y : ℕ) → any_id y ids ≡ true → is_some (s.payload y) ≡ true)
      → IsReadable pack s
      → (jobs : List Job) × (read_jobs pack s.payload attempts ids ≡ ok jobs)
        × (ids_in_jobs jobs ≡ ids)
  unfolding read_jobs any_id
  read_jobs-ok [] there readable = ([], refl, refl)
  read_jobs-ok (id ∷ ids) there readable =
      let (j, read, same) = read_job-ok id (there id (ground arith)) readable in
      let (jobs, rest, ids_same) = read_jobs-ok ids (λ y m. there y (ground arith)) readable in
      (j ∷ jobs, rw (read, rest) refl, ap₂ (λ (x : ℕ) (xs : List ℕ). x ∷ xs) same ids_same)

  read_job-err :
      (id : ℕ) → s.payload id ≡ none → read_job pack s.payload attempts id ≡ err (bad_payload id)
  unfolding read_job
  read_job-err id gone = rw (gone, read_job) refl

  read_jobs-err :
      (ids : List ℕ) (y : ℕ)
      → any_id y ids ≡ true
      → s.payload y ≡ none
      → (e : RedisError) × (read_jobs pack s.payload attempts ids ≡ err e)
  unfolding read_jobs any_id
  read_jobs-err [] y m gone = cc m
  read_jobs-err (id ∷ ids) y m gone = elim (Result-cases (read_job pack s.payload attempts id)) [
    | inr (e, failed) ↦ (e, rw failed refl)
    | inl (j, read) ↦ elim (Bool-cases (id == y)) [
      | inl same ↦
          let equal : id ≡ y = ground arith in
          let failed = read_job-err id (subst (λ (x : ℕ). s.payload x ≡ none) (sym equal) gone) in
          (bad_payload id, rw failed refl)
      | inr other ↦
          let (e, failed) = read_jobs-err ids y (ground arith) gone in (e, rw (read, failed) refl)
    ]
  ]

module _ (pack : StoredPack) (lex : ℕ → ℕ → Bool) where
  -- `fetch`, when no other call comes between its script and its reads; `now` and `later` are its
  -- readings of the clock.
  abbrev pub fetch_alone : ℕ → ℕ → ℕ → ℕ → Store → Store × Result RedisError (List Job)
  fetch_alone now later limit lease s =
      fetch pack lex now later limit lease (λ between. between) (λ between. between) s

  fetch-read_jobs :
      (now later limit lease : ℕ) (s : Store)
      → (fetch_alone now later limit lease s).1
        ≡ read_jobs pack
            (claim lex later limit (now + lease) s).0.payload
            (claim lex later limit (now + lease) s).0.attempt
            (claim lex later limit (now + lease) s).1
  unfolding fetch read_jobs
  fetch-read_jobs now later limit lease s =
      by_ids (claim lex later limit (now + lease) s).0 (claim lex later limit (now + lease) s).1
    where
      by_ids :
          (after : Store) (ids : List ℕ)
          → (elim ids as (λ x. Store × Result RedisError (List Job)) [
            | [] ↦ (after, ok [])
            | id ∷ rest ↦ (after, read_jobs pack after.payload after.attempt (id ∷ rest))
          ]).1
            ≡ read_jobs pack after.payload after.attempt ids
      by_ids after [] = refl
      by_ids after (id ∷ ids) = refl

  -- In a store where each job stands in one set and each payload can be read back, a fetch that no
  -- other call interrupts succeeds, with the jobs that the claim took, in its order.
  pub fetch-ok :
      (now later limit lease : ℕ) (s : Store)
      → IsSound s
      → IsReadable pack s
      → (jobs : List Job) × ((fetch_alone now later limit lease s).1 ≡ ok jobs)
        × (ids_in_jobs jobs ≡ (claim lex later limit (now + lease) s).1)
  fetch-ok now later limit lease s v readable =
      let after = (claim lex later limit (now + lease) s).0 in
      let ids = (claim lex later limit (now + lease) s).1 in
      let same : after.payload ≡ s.payload = claim-payload lex later limit (now + lease) s in
      let there : (y : ℕ) → any_id y ids ≡ true → is_some (after.payload y) ≡ true = λ y m.
        subst (λ (f : ℕ → Option Bytes). is_some (f y) ≡ true) (sym same)
          (claim-Claimed lex later limit (now + lease) s y v m).2 in
      let readable' : IsReadable pack after =
        λ id bytes e. readable id bytes (ap (λ (f : ℕ → Option Bytes). f id) (sym same) ∙ e) in
      let (jobs, read, in_order) = read_jobs-ok pack after after.attempt ids there readable' in
      (jobs, fetch-read_jobs now later limit lease s ∙ read, in_order)

  -- Completing a job whose lease is not held reports that none was settled and leaves the levels as
  -- they are, and any later fetch, uninterrupted, that claims the job fails.
  pub complete-poisons :
      (id : ℕ) (s : Store)
      → zscore id s.leased ≡ none
      → ((complete (id ∷ []) s).1 ≡ 0)
        × ((complete (id ∷ []) s).0.ready ≡ s.ready)
        × ((now later limit lease : ℕ)
            → any_id id (claim lex later limit (now + lease) (complete (id ∷ []) s).0).1 ≡ true
            → (e : RedisError) × ((fetch_alone now later limit lease (complete (id ∷ []) s).0).1
                ≡ err e))
  unfolding complete count_in any_id
  complete-poisons id s lost = (
    rw lost refl,
    refl,
    λ now later limit lease m.
        let s' : Store = (complete (id ∷ []) s).0 in
        let gone : (claim lex later limit (now + lease) s').0.payload id ≡ none =
          ap (λ (f : ℕ → Option Bytes). f id) (claim-payload lex later limit (now + lease) s')
          ∙ ground arith in
        let (e, failed) =
          read_jobs-err pack (claim lex later limit (now + lease) s').0
            (claim lex later limit (now + lease) s').0.attempt
            (claim lex later limit (now + lease) s').1 id m gone in
        (e, fetch-read_jobs now later limit lease s' ∙ failed),
  )
