-- ===== src/Pg/Ended.antt =====
-- Finished rows in the order in which crates/gylo-pg/src/lib.rs deletes them: the same rows, once each.
use gylo.Prelude.{
  ℕ, zero, suc, ◌+◌, ◌≡◌, refl, ap, subst, ◌∙◌, ◌⊎◌, inl, inr, Bool, true, false, ◌||◌, List, [],
  ◌∷◌, arith, Bool-cases, length, take, ◌==◌,
}
use gylo.Pg.Row.{Row, any_id, rows_where, ids_of}
use gylo.Pg.Ids.{In, Distinct}
use gylo.Pg.Retention.{insert_ended, order_ended, ends_first}

pub In-rows_where :
    (test : Row → Bool) (rows : List Row) (r : Row)
    → In r rows
    → test r ≡ true
    → In r (rows_where test rows)
unfolding rows_where
In-rows_where test [] r m h = m
In-rows_where test (s ∷ rows) r m h = elim (Bool-cases (test s)) [
  | inl y ↦ rw y (elim m [ inl e ↦ inl e | inr old ↦ inr (In-rows_where test rows r old h) ])
  | inr n ↦ rw n (elim m [
    | inl e ↦
        let clash : test r ≡ false = subst (λ (x : Row). test x ≡ false) e n in
        absurd (cc (clash, h))
    | inr old ↦ In-rows_where test rows r old h
  ])
]

insert_ended-In : (r s : Row) (rows : List Row) → In r (insert_ended s rows) → (s ≡ r) ⊎ In r rows
unfolding insert_ended
insert_ended-In r s [] m = m
insert_ended-In r s (t ∷ rows) m = elim (Bool-cases (ends_first s.finalized_at t.finalized_at)) [
  | inl first ↦ rw first at m
  | inr later ↦
      let m' : In r (t ∷ insert_ended s rows) = rw later at m in
      elim m' [
        | inl e ↦ inr (inl e)
        | inr old ↦ elim (insert_ended-In r s rows old) [ inl e ↦ inl e | inr mem ↦ inr (inr mem) ]
      ]
]

pub order_ended-In : (r : Row) (rows : List Row) → In r (order_ended rows) → In r rows
unfolding order_ended
order_ended-In r [] m = m
order_ended-In r (s ∷ rows) m = elim (insert_ended-In r s (order_ended rows) m) [
  | inl e ↦ inl e
  | inr old ↦ inr (order_ended-In r rows old)
]

any_id-insert_ended :
    (x : ℕ) (r : Row) (rows : List Row)
    → any_id x (ids_of (insert_ended r rows)) ≡ (r.id == x || any_id x (ids_of rows))
unfolding insert_ended any_id
any_id-insert_ended x r [] = refl
any_id-insert_ended x r (s ∷ rows) = ground (arith, any_id-insert_ended x r rows)

pub any_id-order_ended :
    (x : ℕ) (rows : List Row) → any_id x (ids_of (order_ended rows)) ≡ any_id x (ids_of rows)
unfolding order_ended any_id
any_id-order_ended x [] = refl
any_id-order_ended x (r ∷ rows) =
    any_id-insert_ended x r (order_ended rows)
    ∙ ap (λ b. r.id == x || b) (any_id-order_ended x rows)

length-insert_ended : (r : Row) (rows : List Row) → length (insert_ended r rows) ≡ 1 + length rows
unfolding insert_ended
length-insert_ended r [] = omega arith
length-insert_ended r (s ∷ rows) = ground (arith, length-insert_ended r rows)

pub length-order_ended : (rows : List Row) → length (order_ended rows) ≡ length rows
unfolding order_ended
length-order_ended [] = omega arith
length-order_ended (r ∷ rows) =
    omega (arith, length-insert_ended r (order_ended rows), length-order_ended rows)

absent-rows_where :
    (test : Row → Bool) (x : ℕ) (rows : List Row)
    → any_id x (ids_of rows) ≡ false
    → any_id x (ids_of (rows_where test rows)) ≡ false
unfolding any_id rows_where
absent-rows_where test x [] h = refl
absent-rows_where test x (r ∷ rows) h =
    let rest : any_id x (ids_of rows) ≡ false = ground arith in
    ground (arith, absent-rows_where test x rows rest)

-- Distinct rows stay distinct.
pub Distinct-rows_where :
    (test : Row → Bool) (rows : List Row) → Distinct rows → Distinct (rows_where test rows)
unfolding rows_where
Distinct-rows_where test [] d = d
Distinct-rows_where test (r ∷ rows) (new, d) = elim (Bool-cases (test r)) [
  | inl y ↦ rw y (absent-rows_where test r.id rows new, Distinct-rows_where test rows d)
  | inr n ↦ rw n (Distinct-rows_where test rows d)
]

Distinct-insert_ended :
    (r : Row) (rows : List Row)
    → any_id r.id (ids_of rows) ≡ false
    → Distinct rows
    → Distinct (insert_ended r rows)
unfolding insert_ended any_id
Distinct-insert_ended r [] new d = (new, d)
Distinct-insert_ended r (s ∷ rows) new (old, d) =
    let rest : any_id r.id (ids_of rows) ≡ false = ground arith in
    let other : any_id s.id (ids_of (insert_ended r rows)) ≡ false =
      any_id-insert_ended s.id r rows ∙ ground arith in
    elim (Bool-cases (ends_first r.finalized_at s.finalized_at)) [
      | inl first ↦ rw first (new, (old, d))
      | inr later ↦ rw later (other, Distinct-insert_ended r rows rest d)
    ]

pub Distinct-order_ended : (rows : List Row) → Distinct rows → Distinct (order_ended rows)
unfolding order_ended
Distinct-order_ended [] d = d
Distinct-order_ended (r ∷ rows) (new, d) =
    Distinct-insert_ended r (order_ended rows) (any_id-order_ended r.id rows ∙ new)
      (Distinct-order_ended rows d)

any_id-take :
    (n x : ℕ) (rows : List Row)
    → any_id x (ids_of rows) ≡ false
    → any_id x (ids_of (take n rows)) ≡ false
unfolding any_id
any_id-take zero x rows h = refl
any_id-take (suc n) x [] h = refl
any_id-take (suc n) x (r ∷ rows) h =
    let rest : any_id x (ids_of rows) ≡ false = ground arith in
    ground (arith, any_id-take n x rows rest)

pub Distinct-take : (n : ℕ) (rows : List Row) → Distinct rows → Distinct (take n rows)
Distinct-take zero rows d = tt
Distinct-take (suc n) [] d = d
Distinct-take (suc n) (r ∷ rows) (new, d) = (any_id-take n r.id rows new, Distinct-take n rows d)
