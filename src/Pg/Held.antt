-- ===== src/Pg/Held.antt =====
-- The statements of crates/gylo-pg/src/lib.rs that settle jobs, by the jobs that a worker holds: those
-- named are held no more, and none comes to be held.
use gylo.Prelude.{
  ℕ, ◌≡◌, refl, inl, inr, subst, false, List, [], ◌∷◌, map, Option, arith, length, Bool-cases,
  Option-cases, ◌==◌,
}
use gylo.Wire.Words.{Bytes}
use Prim.Native.String.{String}
use gylo.Pg.Row.{Row, Edge, any_id, value_of}
use gylo.Pg.Settle.{
  settles, counted, complete, complete_row, done_row, release_row, discard_row, dead_row,
  cascade_row, discard_many, retry_row, retry_many,
}
use gylo.Pg.Ids.{In, In-map}
use gylo.Pg.Report.{complete_row-settles, discard_row-settles, retry_row-settles}

-- No job of a list is held by the worker.
abbrev pub NoneHeld : List ℕ → ℕ → List Row → Type 0
NoneHeld ids worker rows = (r : Row) → In r rows → settles ids worker r ≡ false

pub NoneHeld-map :
    (ids : List ℕ) (worker : ℕ) (change : Row → Row) (rows : List Row)
    → ((r : Row) → In r rows → settles ids worker (change r) ≡ false)
    → NoneHeld ids worker (map change rows)
NoneHeld-map ids worker change rows each s m =
    let (r, mem, e) = In-map change rows s m in
    subst (λ (x : Row). settles ids worker x ≡ false) e (each r mem)

module _ (now : ℕ) (ids named : List ℕ) (worker : ℕ) (r : Row)
    (h : settles ids worker r ≡ false) where
  done_row-stays :
      (results : List (Option Bytes))
      → settles ids worker (done_row now named results worker r) ≡ false
  unfolding done_row
  done_row-stays results = elim (Option-cases (value_of r.id named results)) [
    | inl e ↦ rw e (ground arith)
    | inr (v, e) ↦ rw e (ground arith)
  ]

  release_row-stays : (n : ℕ) → settles ids worker (release_row now n r) ≡ false
  unfolding release_row
  release_row-stays n = elim (Bool-cases (n == 0)) [ inl y ↦ rw y h | inr k ↦ rw k h ]

  dead_row-stays :
      (errors : List String) → settles ids worker (dead_row now named errors worker r) ≡ false
  unfolding dead_row
  dead_row-stays errors = elim (Option-cases (value_of r.id named errors)) [
    | inl e ↦ rw e (ground arith)
    | inr (v, e) ↦ rw e (ground arith)
  ]

  cascade_row-stays : (walked : List ℕ) → settles ids worker (cascade_row now walked r) ≡ false
  unfolding cascade_row
  cascade_row-stays walked = ground arith

  retry_row-stays :
      (errors : List String) (base cap : ℕ) (roll : ℕ → ℕ)
      → settles ids worker (retry_row now named errors worker base cap roll r) ≡ false
  unfolding retry_row
  retry_row-stays errors base cap roll = elim (Option-cases (value_of r.id named errors)) [
    | inl e ↦ rw e (ground arith)
    | inr (v, e) ↦ rw e (ground arith)
  ]

  complete_row-stays :
      (edges : List Edge) (results : List (Option Bytes)) (done : List ℕ)
      → settles ids worker (complete_row now edges named results worker done r) ≡ false
  unfolding complete_row
  complete_row-stays edges results done = elim (Bool-cases (settles named worker r)) [
    | inl y ↦ rw y (done_row-stays results)
    | inr n ↦ rw n (release_row-stays (counted edges done r.id))
  ]

  discard_row-stays :
      (errors : List String) (walked : List ℕ)
      → settles ids worker (discard_row now named errors worker walked r) ≡ false
  unfolding discard_row
  discard_row-stays errors walked = elim (Bool-cases (settles named worker r)) [
    | inl y ↦ rw y (dead_row-stays errors)
    | inr n ↦ rw n (cascade_row-stays walked)
  ]

module _ (now : ℕ) (worker : ℕ) (rows : List Row) where
  pub complete-stays :
      (ids : List ℕ) (edges : List Edge) (named : List ℕ) (results : List (Option Bytes))
      → NoneHeld ids worker rows
      → NoneHeld ids worker (complete now edges named results worker rows).0
  unfolding complete
  complete-stays ids edges [] results h = h
  complete-stays ids edges (x ∷ named) results h =
      NoneHeld-map ids worker _ rows
        (λ r m. complete_row-stays now ids (x ∷ named) worker r (h r m) edges results _)

  pub complete-NoneHeld :
      (edges : List Edge) (ids : List ℕ) (results : List (Option Bytes))
      → NoneHeld ids worker (complete now edges ids results worker rows).0
  unfolding complete any_id
  complete-NoneHeld edges [] results = λ r m. refl
  complete-NoneHeld edges (x ∷ ids) results =
      NoneHeld-map (x ∷ ids) worker _ rows
        (λ r m. complete_row-settles now edges (x ∷ ids) results worker _ r)

  pub discard_many-stays :
      (ids : List ℕ) (edges : List Edge) (named : List ℕ) (errors : List String)
      → NoneHeld ids worker rows
      → NoneHeld ids worker (discard_many now edges named errors worker rows).0
  unfolding discard_many
  discard_many-stays ids edges [] errors h = h
  discard_many-stays ids edges (x ∷ named) errors h =
      NoneHeld-map ids worker _ rows
        (λ r m. discard_row-stays now ids (x ∷ named) worker r (h r m) errors _)

  pub discard_many-NoneHeld :
      (edges : List Edge) (ids : List ℕ) (errors : List String)
      → length ids ≡ length errors
      → NoneHeld ids worker (discard_many now edges ids errors worker rows).0
  unfolding discard_many any_id
  discard_many-NoneHeld edges [] errors e = λ r m. refl
  discard_many-NoneHeld edges (x ∷ ids) errors e =
      NoneHeld-map (x ∷ ids) worker _ rows
        (λ r m. discard_row-settles now (x ∷ ids) errors worker _ r e)

  pub retry_many-stays :
      (ids named : List ℕ) (errors : List String) (base cap : ℕ) (roll : ℕ → ℕ)
      → NoneHeld ids worker rows
      → NoneHeld ids worker (retry_many now named errors worker base cap roll rows).0
  unfolding retry_many
  retry_many-stays ids [] errors base cap roll h = h
  retry_many-stays ids (x ∷ named) errors base cap roll h =
      NoneHeld-map ids worker _ rows
        (λ r m. retry_row-stays now ids (x ∷ named) worker r (h r m) errors base cap roll)

  pub retry_many-NoneHeld :
      (ids : List ℕ) (errors : List String) (base cap : ℕ) (roll : ℕ → ℕ)
      → length ids ≡ length errors
      → NoneHeld ids worker (retry_many now ids errors worker base cap roll rows).0
  unfolding retry_many any_id
  retry_many-NoneHeld [] errors base cap roll e = λ r m. refl
  retry_many-NoneHeld (x ∷ ids) errors base cap roll e =
      NoneHeld-map (x ∷ ids) worker _ rows
        (λ r m. retry_row-settles now (x ∷ ids) errors worker base cap roll r e)
