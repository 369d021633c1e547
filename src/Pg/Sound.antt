-- ===== src/Pg/Sound.antt =====
-- Every statement of crates/gylo-pg/src/lib.rs keeps each row sound: the changes of one row.
use gylo.Prelude.{ℕ, ◌≤◌, ◌≡◌, refl, ◌&&◌, true, List, Option, arith, Bool-cases, inl, inr}
use gylo.Wire.Words.{Bytes}
use Prim.Native.String.{String}
use gylo.Pg.Row.{Row, Edge, IsSound, is_available, is_discarded}
use gylo.Pg.Lease.{renew_row, abandon_row, reclaim_row}
use gylo.Pg.Settle.{
  settles, counted, complete_row, discard_row, done_row, release_row, dead_row, cascade_row,
  cancel_row, retry_row, retry_discarded_row, in_scope,
}
use gylo.Pg.Fetch.{lease_row}
use gylo.Pg.Enqueue.{NewJob, inserted}

-- A change that keeps a row sound and keeps its id.
abbrev pub Kept : Row → Row → Type 0
Kept r s = IsSound s × (s.id ≡ r.id)

module _ (now : ℕ) (r : Row) (v : IsSound r) where
  -- A job that waits has an attempt left, so one more stays within bounds.
  pub lease_row-IsSound :
      (worker lease : ℕ) → is_available r.state ≡ true → Kept r (lease_row now worker lease r)
  unfolding lease_row
  lease_row-IsSound worker lease h = ground arith

  pub renew_row-IsSound :
      (ids : List ℕ) (worker lease : ℕ) → Kept r (renew_row now ids worker lease r)
  unfolding renew_row
  renew_row-IsSound ids worker lease = ground arith

  pub abandon_row-IsSound : (ids : List ℕ) (worker : ℕ) → Kept r (abandon_row now ids worker r)
  unfolding abandon_row
  abandon_row-IsSound ids worker = ground arith

  pub reclaim_row-IsSound : (chosen : List ℕ) → Kept r (reclaim_row now chosen r)
  unfolding reclaim_row
  reclaim_row-IsSound chosen = ground arith

  pub done_row-IsSound :
      (ids : List ℕ) (results : List (Option Bytes)) (worker : ℕ)
      → Kept r (done_row now ids results worker r)
  unfolding done_row
  done_row-IsSound ids results worker = ground arith

  pub release_row-IsSound : (n : ℕ) → Kept r (release_row now n r)
  unfolding release_row
  release_row-IsSound n = ground arith

  pub dead_row-IsSound :
      (ids : List ℕ) (errors : List String) (worker : ℕ) → Kept r (dead_row now ids errors worker r)
  unfolding dead_row
  dead_row-IsSound ids errors worker = ground arith

  pub cascade_row-IsSound : (ids : List ℕ) → Kept r (cascade_row now ids r)
  unfolding cascade_row
  cascade_row-IsSound ids = ground arith

  pub cancel_row-IsSound : (ids : List ℕ) → Kept r (cancel_row now ids r)
  unfolding cancel_row
  cancel_row-IsSound ids = ground arith

  pub retry_row-IsSound :
      (ids : List ℕ) (errors : List String) (worker base cap : ℕ) (roll : ℕ → ℕ)
      → Kept r (retry_row now ids errors worker base cap roll r)
  unfolding retry_row
  retry_row-IsSound ids errors worker base cap roll = ground arith

  pub retry_discarded_row-IsSound :
      (ids : Option (List ℕ)) (queue : Option String) → Kept r (retry_discarded_row now ids queue r)
  unfolding retry_discarded_row
  retry_discarded_row-IsSound ids queue =
      elim (Bool-cases (is_discarded r.state && in_scope ids queue r)) [
        | inl y ↦ rw y (ground arith)
        | inr n ↦ rw n (v, refl)
      ]

  pub complete_row-IsSound :
      (edges : List Edge) (ids : List ℕ) (results : List (Option Bytes)) (worker : ℕ)
      (done : List ℕ)
      → Kept r (complete_row now edges ids results worker done r)
  unfolding complete_row
  complete_row-IsSound edges ids results worker done = elim (Bool-cases (settles ids worker r)) [
    | inl y ↦ rw y (done_row-IsSound ids results worker)
    | inr n ↦ rw n (release_row-IsSound (counted edges done r.id))
  ]

  pub discard_row-IsSound :
      (ids : List ℕ) (errors : List String) (worker : ℕ) (walked : List ℕ)
      → Kept r (discard_row now ids errors worker walked r)
  unfolding discard_row
  discard_row-IsSound ids errors worker walked = elim (Bool-cases (settles ids worker r)) [
    | inl y ↦ rw y (dead_row-IsSound ids errors worker)
    | inr n ↦ rw n (cascade_row-IsSound walked)
  ]

-- A job that may be tried once at least is sound when it is inserted.
pub inserted-IsSound :
    (now id : ℕ) (job : NewJob) → 1 ≤ job.max_attempts → IsSound (inserted now id job)
unfolding inserted
inserted-IsSound now id job h = record {
  tryable = h;
  bounds = omega arith;
  left = λ e. h;
  locked = refl;
  leased = refl;
  ended = refl;
}
