-- ===== src/Pg/Backlog.antt =====
-- The counts of crates/gylo-pg/src/lib.rs: every job that waits or runs is counted, and once.
use gylo.Prelude.{
  ℕ, ◌+◌, ◌≡◌, refl, sym, subst, ◌∙◌, inl, inr, Bool, true, false, not, ◌&&◌, ◌||◌, List, [], ◌∷◌,
  arith, Bool-cases,
}
use gylo.Pg.Row.{
  Row, JobState, available, running, completed, discarded, cancelled, When, at, infinity, any_queue,
  rows_where, is_available, is_running, is_due,
}
use gylo.Pg.Ids.{In}
use gylo.Pg.Count.{bit, count, count_cons}
use gylo.Pg.Retention.{is_unfinished}
use gylo.Pg.Listing.{
  Depth, is_later, is_parked, is_ready, is_scheduled, is_blocked, runs_in, depth, place_queue,
  queues,
}
use Prim.Native.String.{String}
use text.Mathlib.TextEquality.{eq_iff}
use text.Mathlib.Text.{◌==◌ as str_eq}

abbrev pub all_of : Depth → ℕ
all_of d = d.ready + d.scheduled + d.blocked + d.running

one_kind :
    (now : ℕ) (mine : Bool) (state : JobState) (when : When)
    → bit (mine && (is_available state && is_due now when))
        + bit (mine && (is_available state && is_later now when))
        + bit (mine && (is_available state && is_parked when))
        + bit (mine && is_running state)
      ≡ bit (mine && is_unfinished state)
one_kind now false state when = refl
one_kind now true available (at t) = ground arith
one_kind now true available infinity = refl
one_kind now true running when = refl
one_kind now true completed when = refl
one_kind now true discarded when = refl
one_kind now true cancelled when = refl

abbrev pub waits_in : String → Row → Bool
waits_in queue r = str_eq r.queue queue && is_unfinished r.state

depth-count :
    (now : ℕ) (queue : String) (rows : List Row)
    → all_of (depth now queue rows) ≡ count (waits_in queue) rows
unfolding depth rows_where
depth-count now queue [] = refl
depth-count now queue (r ∷ rows) = omega (
  arith,
  count_cons (is_ready now queue) r rows,
  count_cons (is_scheduled now queue) r rows,
  count_cons (is_blocked now queue) r rows,
  count_cons (runs_in now queue) r rows,
  count_cons (waits_in queue) r rows,
  one_kind now (str_eq r.queue queue) r.state r.scheduled_at,
  depth-count now queue rows,
)

str_eq-false : (p q : String) → str_eq p q ≡ false → str_eq q p ≡ false
str_eq-false p q h = elim (Bool-cases (str_eq q p)) [
  | inr n ↦ n
  | inl y ↦
      let same : q ≡ p = (eq_iff q p).0 y in
      let clash : str_eq p q ≡ true = (eq_iff p q).1 (sym same) in absurd (cc (clash, h))
]

-- The names of a list are all different.
abbrev pub AreDifferent : List String → Type 0
AreDifferent [] = Unit
AreDifferent (q ∷ names) = (any_queue q names ≡ false) × AreDifferent names

any_queue-place_queue :
    (before : String → String → Bool) (x q : String) (names : List String)
    → any_queue x (place_queue before q names) ≡ (str_eq q x || any_queue x names)
unfolding any_queue place_queue
any_queue-place_queue before x q [] = refl
any_queue-place_queue before x q (p ∷ names) =
    ground (arith, any_queue-place_queue before x q names)

place_queue-AreDifferent :
    (before : String → String → Bool) (q : String) (names : List String)
    → any_queue q names ≡ false
    → AreDifferent names
    → AreDifferent (place_queue before q names)
unfolding place_queue any_queue
place_queue-AreDifferent before q [] new d = (new, d)
place_queue-AreDifferent before q (p ∷ names) new (old, d) =
    let rest : any_queue q names ≡ false = ground arith in
    let other : str_eq p q ≡ false = ground arith in
    let other' : any_queue p (place_queue before q names) ≡ false =
      any_queue-place_queue before p q names ∙ rw (str_eq-false p q other) old in
    elim (Bool-cases (before q p)) [
      | inl first ↦ rw first (new, (old, d))
      | inr later ↦ rw later (other', place_queue-AreDifferent before q names rest d)
    ]

count_sum :
    (f g h : Row → Bool) (rows : List Row)
    → ((r : Row) → bit (f r) + bit (g r) ≡ bit (h r))
    → count f rows + count g rows ≡ count h rows
unfolding rows_where
count_sum f g h [] sums = omega arith
count_sum f g h (r ∷ rows) sums = omega (
  arith,
  count_cons f r rows,
  count_cons g r rows,
  count_cons h r rows,
  sums r,
  count_sum f g h rows sums,
)

one_name :
    (q : String) (names : List String) (r : Row)
    → any_queue q names ≡ false
    → bit (waits_in q r) + bit (any_queue r.queue names && is_unfinished r.state)
      ≡ bit (any_queue r.queue (q ∷ names) && is_unfinished r.state)
unfolding any_queue
one_name q names r new = elim (Bool-cases (str_eq r.queue q)) [
  | inl own ↦
      let same : r.queue ≡ q = (eq_iff r.queue q).0 own in
      let own' : str_eq q r.queue ≡ true = (eq_iff q r.queue).1 (sym same) in
      let new' : any_queue r.queue names ≡ false =
        subst (λ (x : String). any_queue x names ≡ false) (sym same) new in
      rw (own, own', new') (omega arith)
  | inr other ↦ rw (other, str_eq-false r.queue q other) (omega arith)
]

pub depth-named :
    (now : ℕ) (q : String) (names : List String) (rows : List Row)
    → any_queue q names ≡ false
    → all_of (depth now q rows) + count (λ r. any_queue r.queue names && is_unfinished r.state) rows
      ≡ count (λ r. any_queue r.queue (q ∷ names) && is_unfinished r.state) rows
depth-named now q names rows new = omega (
  arith,
  depth-count now q rows,
  count_sum (waits_in q) (λ r. any_queue r.queue names && is_unfinished r.state)
      (λ r. any_queue r.queue (q ∷ names) && is_unfinished r.state) rows
      (λ r. one_name q names r new),
)

pub count_none : (rows : List Row) → count (λ r. false) rows ≡ 0
unfolding rows_where
count_none [] = refl
count_none (r ∷ rows) = count_none rows

pub count_covered :
    (names : List String) (rows : List Row)
    → ((r : Row) → In r rows → is_unfinished r.state ≡ true → any_queue r.queue names ≡ true)
    → count (λ r. any_queue r.queue names && is_unfinished r.state) rows
      ≡ count (λ r. is_unfinished r.state) rows
unfolding rows_where
count_covered names [] covers = refl
count_covered names (r ∷ rows) covers =
    let own : bit (any_queue r.queue names && is_unfinished r.state) ≡ bit (is_unfinished r.state) =
      elim (Bool-cases (is_unfinished r.state)) [
        | inl waits ↦ rw (waits, covers r (inl refl) waits) refl
        | inr over ↦ rw over (ground arith)
      ] in
    omega (
      arith,
      count_cons (λ r. any_queue r.queue names && is_unfinished r.state) r rows,
      count_cons (λ r. is_unfinished r.state) r rows,
      own,
      count_covered names rows (λ s m. covers s (inr m)),
    )

module _ (before : String → String → Bool) where
  pub queues-AreDifferent : (rows : List Row) → AreDifferent (queues before rows)
  unfolding queues
  queues-AreDifferent [] = tt
  queues-AreDifferent (r ∷ rows) =
      elim (Bool-cases (is_unfinished r.state && not (any_queue r.queue (queues before rows)))) [
        | inl fresh ↦
            let new : any_queue r.queue (queues before rows) ≡ false = ground arith in
            rw fresh (
              place_queue-AreDifferent before r.queue (queues before rows) new
                (queues-AreDifferent rows))
        | inr listed ↦ rw listed (queues-AreDifferent rows)
      ]

  queues-own :
      (r : Row) (rows : List Row)
      → is_unfinished r.state ≡ true
      → any_queue r.queue (queues before (r ∷ rows)) ≡ true
  unfolding queues
  queues-own r rows waits =
      let self : str_eq r.queue r.queue ≡ true = (eq_iff r.queue r.queue).1 refl in
      elim (Bool-cases (any_queue r.queue (queues before rows))) [
        | inl listed ↦ rw (waits, listed) listed
        | inr fresh ↦
            rw (waits, fresh)
              (any_queue-place_queue before r.queue r.queue (queues before rows) ∙ rw self refl)
      ]

  queues-more :
      (x : String) (r : Row) (rows : List Row)
      → any_queue x (queues before rows) ≡ true
      → any_queue x (queues before (r ∷ rows)) ≡ true
  unfolding queues
  queues-more x r rows h =
      elim (Bool-cases (is_unfinished r.state && not (any_queue r.queue (queues before rows)))) [
        | inl fresh ↦
            rw fresh
              (any_queue-place_queue before x r.queue (queues before rows) ∙ rw h (ground arith))
        | inr listed ↦ rw listed h
      ]

  -- Every job that waits or runs stands in a queue of the list.
  pub queues-covers :
      (rows : List Row) (r : Row)
      → In r rows
      → is_unfinished r.state ≡ true
      → any_queue r.queue (queues before rows) ≡ true
  queues-covers [] r m waits = absurd m
  queues-covers (s ∷ rows) r (inl e) waits =
      subst (λ (x : Row). any_queue x.queue (queues before (s ∷ rows)) ≡ true) e
        (queues-own s rows (subst (λ (x : Row). is_unfinished x.state ≡ true) (sym e) waits))
  queues-covers (s ∷ rows) r (inr m) waits =
      queues-more r.queue s rows (queues-covers rows r m waits)
