-- ===== src/Pg/Report.antt =====
-- Reports of jobs in crates/gylo-pg/src/lib.rs: a report counts once, and only from the worker that
-- holds the job.
use gylo.Prelude.{
  ℕ, ◌≡◌, refl, ◌∙◌, ap₂, inl, inr, Bool, true, false, ◌&&◌, List, [], ◌∷◌, map, Option, none, some,
  arith, Bool-cases, length, ltb, leb, ◌==◌,
}
use gylo.Wire.Words.{Bytes}
use Prim.Native.String.{String}
use gylo.Pg.Row.{Row, Edge, any_id, rows_where, ids_of, held_by, value_of}
use gylo.Pg.Settle.{
  settles, counted, done_row, release_row, complete_row, complete, dead_row, cascade_row,
  discard_row, discard_many, retry_row, retry_many, walk,
}
use gylo.Pg.Count.{count, count-map}

value_of-any_id {ℓ} :
    {V : Type ℓ} (id : ℕ) (ids : List ℕ) (vs : List V)
    → length ids ≡ length vs
    → any_id id ids ≡ true
    → (v : V) × (value_of id ids vs ≡ some v)
unfolding value_of any_id
value_of-any_id id [] vs e h = cc h
value_of-any_id id (x ∷ ids) [] e h = absurd (omega (arith, e))
value_of-any_id id (x ∷ ids) (v ∷ vs) e h = elim (Bool-cases (x == id)) [
  | inl y ↦ (v, rw y refl)
  | inr n ↦
      let rest : any_id id ids ≡ true = rw n at h in
      let (w, found) = value_of-any_id id ids vs (omega (arith, e)) rest in (w, rw n found)
]

value_of-absent {ℓ} :
    {V : Type ℓ} (id : ℕ) (ids : List ℕ) (vs : List V)
    → any_id id ids ≡ false
    → value_of id ids vs ≡ none
unfolding value_of any_id
value_of-absent id [] vs h = refl
value_of-absent id (x ∷ ids) [] h = refl
value_of-absent id (x ∷ ids) (v ∷ vs) h =
    let other : (x == id) ≡ false = ground arith in
    let rest : any_id id ids ≡ false = ground arith in rw other (value_of-absent id ids vs rest)

count_zero : (f : Row → Bool) (rows : List Row) → ((r : Row) → f r ≡ false) → count f rows ≡ 0
unfolding rows_where
count_zero f [] h = refl
count_zero f (r ∷ rows) h = let head = h r in let rest = count_zero f rows h in rw head rest

length-ids_of : (rows : List Row) → length (ids_of rows) ≡ length rows
length-ids_of [] = refl
length-ids_of (r ∷ rows) = omega (arith, length-ids_of rows)

done_row-settles :
    (now : ℕ) (ids : List ℕ) (results : List (Option Bytes)) (worker : ℕ) (r : Row)
    → settles ids worker r ≡ true
    → settles ids worker (done_row now ids results worker r) ≡ false
unfolding done_row
done_row-settles now ids results worker r y =
    let held : held_by worker r ≡ true = ground arith in rw held (ground arith)

release_row-settles :
    (now n : ℕ) (ids : List ℕ) (worker : ℕ) (r : Row)
    → settles ids worker (release_row now n r) ≡ settles ids worker r
unfolding release_row
release_row-settles now n ids worker r = elim (Bool-cases (n == 0)) [
  | inl y ↦ rw y refl
  | inr k ↦ rw k refl
]

dead_row-settles :
    (now : ℕ) (ids : List ℕ) (errors : List String) (worker : ℕ) (r : Row)
    → length ids ≡ length errors
    → settles ids worker r ≡ true
    → settles ids worker (dead_row now ids errors worker r) ≡ false
unfolding dead_row
dead_row-settles now ids errors worker r e y =
    let named : any_id r.id ids ≡ true = ground arith in
    let held : held_by worker r ≡ true = ground arith in
    let (v, found) = value_of-any_id r.id ids errors e named in rw (held, found) (ground arith)

cascade_row-settles :
    (now : ℕ) (walked ids : List ℕ) (worker : ℕ) (r : Row)
    → settles ids worker r ≡ false
    → settles ids worker (cascade_row now walked r) ≡ false
unfolding cascade_row
cascade_row-settles now walked ids worker r n = ground arith

pub retry_row-settles :
    (now : ℕ) (ids : List ℕ) (errors : List String) (worker base cap : ℕ) (roll : ℕ → ℕ) (r : Row)
    → length ids ≡ length errors
    → settles ids worker (retry_row now ids errors worker base cap roll r) ≡ false
unfolding retry_row
retry_row-settles now ids errors worker base cap roll r e = elim (Bool-cases (held_by worker r)) [
  | inl held ↦ elim (Bool-cases (any_id r.id ids)) [
    | inl named ↦
        let (v, found) = value_of-any_id r.id ids errors e named in
        elim (Bool-cases (ltb r.attempt r.max_attempts)) [
          | inl left ↦ rw (held, found, left) (ground arith)
          | inr out ↦ rw (held, found, out) (ground arith)
        ]
    | inr other ↦ rw (held, value_of-absent r.id ids errors other) (ground arith)
  ]
  | inr n ↦ rw n (ground arith)
]

pub complete_row-settles :
    (now : ℕ) (edges : List Edge) (ids : List ℕ) (results : List (Option Bytes)) (worker : ℕ)
    (done : List ℕ) (r : Row)
    → settles ids worker (complete_row now edges ids results worker done r) ≡ false
unfolding complete_row
complete_row-settles now edges ids results worker done r =
    elim (Bool-cases (settles ids worker r)) [
      | inl y ↦ rw y (done_row-settles now ids results worker r y)
      | inr n ↦ rw n (release_row-settles now (counted edges done r.id) ids worker r ∙ n)
    ]

pub discard_row-settles :
    (now : ℕ) (ids : List ℕ) (errors : List String) (worker : ℕ) (walked : List ℕ) (r : Row)
    → length ids ≡ length errors
    → settles ids worker (discard_row now ids errors worker walked r) ≡ false
unfolding discard_row
discard_row-settles now ids errors worker walked r e = elim (Bool-cases (settles ids worker r)) [
  | inl y ↦ rw y (dead_row-settles now ids errors worker r e y)
  | inr n ↦ rw n (cascade_row-settles now walked ids worker r n)
]

-- A report of completions, with a result, a null or nothing for each job, that the worker sends
-- again settles no job the second time, whatever results it carries then.
pub complete-twice :
    (now later : ℕ) (edges edges' : List Edge) (ids : List ℕ)
    (results results' : List (Option Bytes)) (worker : ℕ) (rows : List Row)
    → (complete later edges' ids results' worker (complete now edges ids results worker rows).0).1
      ≡ 0
unfolding complete
complete-twice now later edges edges' [] results results' worker rows = refl
complete-twice now later edges edges' (i ∷ ids) results results' worker rows =
    let done = ids_of (rows_where (settles (i ∷ ids) worker) rows) in
    let change = complete_row now edges (i ∷ ids) results worker done in
    omega (
      arith,
      length-ids_of (rows_where (settles (i ∷ ids) worker) (map change rows)),
      count-map (settles (i ∷ ids) worker) change rows,
      count_zero (λ r. settles (i ∷ ids) worker (change r)) rows
          (λ r. complete_row-settles now edges (i ∷ ids) results worker done r),
    )

-- A report of failures, with an error for each job, that the worker sends again settles no job the
-- second time.
pub discard_many-twice :
    (now later : ℕ) (edges edges' : List Edge) (ids : List ℕ) (errors errors' : List String)
    (worker : ℕ) (rows : List Row)
    → length ids ≡ length errors
    → (discard_many later edges' ids errors' worker
        (discard_many now edges ids errors worker rows).0).1
      ≡ 0
unfolding discard_many
discard_many-twice now later edges edges' [] errors errors' worker rows e = refl
discard_many-twice now later edges edges' (i ∷ ids) errors errors' worker rows e =
    let dead = ids_of (rows_where (settles (i ∷ ids) worker) rows) in
    let change = discard_row now (i ∷ ids) errors worker (walk (length edges) edges dead) in
    omega (
      arith,
      length-ids_of (rows_where (settles (i ∷ ids) worker) (map change rows)),
      count-map (settles (i ∷ ids) worker) change rows,
      count_zero (λ r. settles (i ∷ ids) worker (change r)) rows
          (λ r.
            discard_row-settles now (i ∷ ids) errors worker (walk (length edges) edges dead) r e),
    )

-- A report of retries, with an error for each job, that the worker sends again schedules no job and
-- gives up none the second time.
pub retry_many-twice :
    (now later : ℕ) (ids : List ℕ) (errors errors' : List String) (worker base cap : ℕ)
    (roll roll' : ℕ → ℕ) (rows : List Row)
    → length ids ≡ length errors
    → (retry_many later ids errors' worker base cap roll'
        (retry_many now ids errors worker base cap roll rows).0).1
      ≡ record { scheduled = 0; exhausted = 0 }
unfolding retry_many
retry_many-twice now later [] errors errors' worker base cap roll roll' rows e = refl
retry_many-twice now later (i ∷ ids) errors errors' worker base cap roll roll' rows e =
    ap₂ (λ (a b : ℕ). record { scheduled = a; exhausted = b })
      (none_settled (λ r. ltb r.attempt r.max_attempts))
      (none_settled (λ r. leb r.max_attempts r.attempt))
  where
    change : Row → Row
    change = retry_row now (i ∷ ids) errors worker base cap roll

    none_settled :
        (test : Row → Bool)
        → count (λ r. settles (i ∷ ids) worker r && test r) (map change rows) ≡ 0
    none_settled test =
        count-map (λ r. settles (i ∷ ids) worker r && test r) change rows
        ∙ count_zero (λ r. settles (i ∷ ids) worker (change r) && test (change r)) rows
            (λ r.
              let over = retry_row-settles now (i ∷ ids) errors worker base cap roll r e in
              ground arith)
