-- ===== src/Pg/Count.antt =====
-- How many rows pass a test: what is counted by the statements of crates/gylo-pg/src/lib.rs.
use gylo.Prelude.{
  ℕ, zero, suc, ◌+◌, ◌≤◌, ◌≡◌, ap, subst, inl, inr, Bool, true, false, ◌&&◌, List, [], ◌∷◌, map,
  arith, Bool-cases, length, take, ◌==◌, refl,
}
use gylo.Pg.Row.{Row, any_id, rows_where, ids_of}
use gylo.Pg.Fetch.{insert_row}
use gylo.Pg.Ids.{In, Distinct, In-any_id}

abbrev pub bit : Bool → ℕ
bit false = 0
bit true = 1

abbrev pub count : (Row → Bool) → List Row → ℕ
count f rows = length (rows_where f rows)

pub count_cons :
    (f : Row → Bool) (r : Row) (rows : List Row) → count f (r ∷ rows) ≡ bit (f r) + count f rows
unfolding rows_where
count_cons f r rows = ground arith

-- A test that holds only where one of two others does.
pub count_le :
    (f g h : Row → Bool) (rows : List Row)
    → ((r : Row) → bit (f r) ≤ bit (g r) + bit (h r))
    → count f rows ≤ count g rows + count h rows
unfolding rows_where
count_le f g h [] le = omega arith
count_le f g h (r ∷ rows) le = omega (
  arith,
  count_cons f r rows,
  count_cons g r rows,
  count_cons h r rows,
  le r,
  count_le f g h rows le,
)

pub count-map :
    (f : Row → Bool) (change : Row → Row) (rows : List Row)
    → count f (map change rows) ≡ count (λ r. f (change r)) rows
unfolding rows_where
count-map f change [] = omega arith
count-map f change (r ∷ rows) = omega (
  arith,
  count_cons f (change r) (map change rows),
  count_cons (λ r. f (change r)) r rows,
  count-map f change rows,
)

module _ (p : Row → Bool) where
  absent :
      (x : ℕ) (rows : List Row)
      → any_id x (ids_of rows) ≡ false
      → count (λ r. (x == r.id) && p r) rows ≡ 0
  unfolding any_id rows_where
  absent x [] h = omega arith
  absent x (r ∷ rows) h =
      let tail : any_id x (ids_of rows) ≡ false = ground arith in
      let other : ((x == r.id) && p r) ≡ false = ground arith in
      let rest = absent x rows tail in rw other rest

  -- Of distinct rows, an id counts one at most, and only if its row passes.
  one :
      (b : Row) (rows : List Row)
      → Distinct rows
      → In b rows
      → count (λ r. (b.id == r.id) && p r) rows ≤ bit (p b)
  one b [] d m = absurd m
  one b (r ∷ rows) (new, d) (inl e) =
      let same : r.id ≡ b.id = ap (λ (x : Row). x.id) e in
      let passes : bit (p r) ≡ bit (p b) = ap (λ (x : Row). bit (p x)) e in
      let new' : any_id b.id (ids_of rows) ≡ false =
        subst (λ (x : ℕ). any_id x (ids_of rows) ≡ false) same new in
      let rest = absent b.id rows new' in
      let head : bit ((b.id == r.id) && p r) ≤ bit (p r) = ground arith in
      omega (arith, count_cons (λ r. (b.id == r.id) && p r) r rows, rest, head, passes)
  one b (r ∷ rows) (new, d) (inr m) =
      let seen = In-any_id b rows m in
      let head : bit ((b.id == r.id) && p r) ≡ 0 = elim (Bool-cases (b.id == r.id)) [
        | inl y ↦
            let same : b.id ≡ r.id = ground arith in
            let seen' : any_id r.id (ids_of rows) ≡ true =
              subst (λ (x : ℕ). any_id x (ids_of rows) ≡ true) same seen in
            cc (new, seen')
        | inr n ↦ ground arith
      ] in
      omega (arith, count_cons (λ r. (b.id == r.id) && p r) r rows, one b rows d m, head)

  -- The rows that a batch of rows names, with a test, are no more than the rows of the batch that pass it.
  pub count_named :
      (rows batch : List Row)
      → Distinct rows
      → ((b : Row) → In b batch → In b rows)
      → count (λ r. any_id r.id (ids_of batch) && p r) rows ≤ count p batch
  unfolding any_id rows_where
  count_named rows [] d from = none_named rows
    where
      none_named : (xs : List Row) → count (λ r. false) xs ≤ 0
      none_named [] = omega arith
      none_named (x ∷ xs) = none_named xs
  count_named rows (b ∷ batch) d from = omega (
    arith,
    count_cons p b batch,
    one b rows d (from b (inl refl)),
    count_named rows batch d (λ c m. from c (inr m)),
    count_le (λ r. any_id r.id (b.id ∷ ids_of batch) && p r) (λ r. (b.id == r.id) && p r)
        (λ r. any_id r.id (ids_of batch) && p r) rows (λ r. ground arith),
  )

pub length-insert_row : (r : Row) (rows : List Row) → length (insert_row r rows) ≡ 1 + length rows
unfolding insert_row
length-insert_row r [] = omega arith
length-insert_row r (s ∷ rows) = ground (arith, length-insert_row r rows)

pub length-take_le : (n : ℕ) (rows : List Row) → length (take n rows) ≤ n
length-take_le zero rows = omega arith
length-take_le (suc n) [] = omega arith
length-take_le (suc n) (r ∷ rows) = omega (arith, length-take_le n rows)
