-- ===== src/Pg/Ids.antt =====
-- The identities of rows: which rows a list of ids names, and that a batch cut from the table names
-- rows of the table (crates/gylo-pg/src/lib.rs).
use gylo.Prelude.{
  ℕ, zero, suc, ◌≡◌, refl, sym, ap, ap₂, ◌∙◌, map, ◌⊎◌, inl, inr, subst, Bool, true, false, ◌&&◌,
  List, [], ◌∷◌, arith, take, ◌==◌, not, Bool-cases,
}
use Prim.Native.String.{String}
use gylo.Pg.Row.{Row, any_id, rows_where, ids_of, is_available}
use gylo.Pg.Fetch.{
  waits, is_keyed, has_room, unkeyed_batch, keyed_batch, insert_row, order_rows, runs_before,
  admitted, fits,
}

abbrev pub In : Row → List Row → Type 0
In r [] = ⊥
In r (s ∷ rows) = (s ≡ r) ⊎ In r rows

-- No two rows share an id.
abbrev pub Distinct : List Row → Type 0
Distinct [] = Unit
Distinct (r ∷ rows) = (any_id r.id (ids_of rows) ≡ false) × Distinct rows

pub any_id-In :
    (x : ℕ) (rows : List Row) → any_id x (ids_of rows) ≡ true → (r : Row) × In r rows × (r.id ≡ x)
unfolding any_id
any_id-In x [] h = cc
any_id-In x (r ∷ rows) h = elim (Bool-cases (r.id == x)) [
  | inl same ↦ (r, inl refl, ground arith)
  | inr other ↦
      let tail : any_id x (ids_of rows) ≡ true = ground arith in
      let (s, mem, e) = any_id-In x rows tail in (s, inr mem, e)
]

pub In-any_id : (r : Row) (rows : List Row) → In r rows → any_id r.id (ids_of rows) ≡ true
unfolding any_id
In-any_id r [] m = absurd m
In-any_id r (s ∷ rows) (inl e) = let same : s.id ≡ r.id = ap (λ (x : Row). x.id) e in ground arith
In-any_id r (s ∷ rows) (inr m) = ground (arith, In-any_id r rows m)

-- In a table of distinct ids, an id names one row.
pub Distinct-In :
    (rows : List Row) (r s : Row) → Distinct rows → In r rows → In s rows → r.id ≡ s.id → r ≡ s
Distinct-In [] r s d mr ms e = absurd mr
Distinct-In (t ∷ rows) r s (new, d) (inl er) (inl es) e = sym er ∙ es
Distinct-In (t ∷ rows) r s (new, d) (inl er) (inr ms) e =
    let same : s.id ≡ t.id = sym e ∙ sym (ap (λ (x : Row). x.id) er) in
    let seen : any_id t.id (ids_of rows) ≡ true =
      subst (λ (x : ℕ). any_id x (ids_of rows) ≡ true) same (In-any_id s rows ms) in
    cc (new, seen)
Distinct-In (t ∷ rows) r s (new, d) (inr mr) (inl es) e =
    let same : r.id ≡ t.id = e ∙ sym (ap (λ (x : Row). x.id) es) in
    let seen : any_id t.id (ids_of rows) ≡ true =
      subst (λ (x : ℕ). any_id x (ids_of rows) ≡ true) same (In-any_id r rows mr) in
    cc (new, seen)
Distinct-In (t ∷ rows) r s (new, d) (inr mr) (inr ms) e = Distinct-In rows r s d mr ms e

pub rows_where-In :
    (test : Row → Bool) (rows : List Row) (r : Row)
    → In r (rows_where test rows)
    → In r rows × (test r ≡ true)
unfolding rows_where
rows_where-In test [] r m = absurd m
rows_where-In test (s ∷ rows) r m = elim (Bool-cases (test s)) [
  | inl y ↦
      let m' : In r (s ∷ rows_where test rows) = rw y at m in
      elim m' [
        | inl e ↦ (inl e, subst (λ (x : Row). test x ≡ true) e y)
        | inr old ↦ let (mem, holds) = rows_where-In test rows r old in (inr mem, holds)
      ]
  | inr n ↦
      let m' : In r (rows_where test rows) = rw n at m in
      let (mem, holds) = rows_where-In test rows r m' in (inr mem, holds)
]

pub insert_row-In : (r s : Row) (rows : List Row) → In r (insert_row s rows) → (s ≡ r) ⊎ In r rows
unfolding insert_row
insert_row-In r s [] m = m
insert_row-In r s (t ∷ rows) m = elim (Bool-cases (runs_before s t)) [
  | inl first ↦ rw first at m
  | inr later ↦
      let m' : In r (t ∷ insert_row s rows) = rw later at m in
      elim m' [
        | inl e ↦ inr (inl e)
        | inr old ↦ elim (insert_row-In r s rows old) [ inl e ↦ inl e | inr mem ↦ inr (inr mem) ]
      ]
]

pub order_rows-In : (r : Row) (rows : List Row) → In r (order_rows rows) → In r rows
unfolding order_rows
order_rows-In r [] m = m
order_rows-In r (s ∷ rows) m = elim (insert_row-In r s (order_rows rows) m) [
  | inl e ↦ inl e
  | inr mem ↦ inr (order_rows-In r rows mem)
]

pub take-In : (n : ℕ) (r : Row) (rows : List Row) → In r (take n rows) → In r rows
take-In zero r rows m = absurd m
take-In (suc n) r [] m = m
take-In (suc n) r (s ∷ rows) (inl e) = inl e
take-In (suc n) r (s ∷ rows) (inr m) = inr (take-In n r rows m)

pub admitted-In :
    (already : String → ℕ) (before rows : List Row) (r : Row)
    → In r (admitted already before rows)
    → In r rows
unfolding admitted
admitted-In already before [] r m = m
admitted-In already before (s ∷ rows) r m = elim (Bool-cases (fits already before s)) [
  | inl y ↦
      let m' : In r (s ∷ admitted already (s ∷ before) rows) = rw y at m in
      elim m' [ inl e ↦ inl e | inr old ↦ inr (admitted-In already (s ∷ before) rows r old) ]
  | inr n ↦
      let m' : In r (admitted already (s ∷ before) rows) = rw n at m in
      inr (admitted-In already (s ∷ before) rows r m')
]

module _ (busy : ℕ → Bool) (now : ℕ) (queues : List String) (limit : ℕ) (rows : List Row) where
  pub unkeyed_batch-In :
      (r : Row)
      → In r (unkeyed_batch busy now queues limit rows)
      → In r rows × ((waits now queues r && not (is_keyed r) && not (busy r.id)) ≡ true)
  unfolding unkeyed_batch
  unkeyed_batch-In r m = rows_where-In _ rows r (order_rows-In r _ (take-In limit r _ m))

  pub keyed_batch-In :
      (r : Row)
      → In r (keyed_batch busy now queues limit rows)
      → In r rows × ((waits now queues r && has_room rows r && not (busy r.id)) ≡ true)
  unfolding keyed_batch
  keyed_batch-In r m = rows_where-In _ rows r (order_rows-In r _ (take-In limit r _ m))

pub waits-is_available :
    (now : ℕ) (queues : List String) (r : Row) (a b : Bool)
    → (waits now queues r && a && b) ≡ true
    → is_available r.state ≡ true
unfolding waits
waits-is_available now queues r a b h = ground arith

pub In-map :
    (f : Row → Row) (rows : List Row) (s : Row)
    → In s (map f rows)
    → (r : Row) × In r rows × (f r ≡ s)
In-map f [] s m = absurd m
In-map f (r ∷ rows) s (inl e) = (r, inl refl, e)
In-map f (r ∷ rows) s (inr m) = let (x, mem, e) = In-map f rows s m in (x, inr mem, e)

pub ids_of-map :
    (f : Row → Row) (rows : List Row)
    → ((r : Row) → In r rows → (f r).id ≡ r.id)
    → ids_of (map f rows) ≡ ids_of rows
ids_of-map f [] h = refl
ids_of-map f (r ∷ rows) h =
    ap₂ (λ (x : ℕ) (xs : List ℕ). x ∷ xs) (h r (inl refl)) (ids_of-map f rows (λ s m. h s (inr m)))

-- A change that keeps ids keeps them distinct.
pub Distinct-map :
    (f : Row → Row) (rows : List Row)
    → ((r : Row) → In r rows → (f r).id ≡ r.id)
    → Distinct rows
    → Distinct (map f rows)
Distinct-map f [] h d = tt
Distinct-map f (r ∷ rows) h (new, d) = (
  ap₂ any_id (h r (inl refl)) (ids_of-map f rows (λ s m. h s (inr m))) ∙ new,
  Distinct-map f rows (λ s m. h s (inr m)) d,
)

pub map-In : (f : Row → Row) (rows : List Row) (r : Row) → In r rows → In (f r) (map f rows)
map-In f [] r m = absurd m
map-In f (s ∷ rows) r (inl e) = inl (ap f e)
map-In f (s ∷ rows) r (inr m) = inr (map-In f rows r m)
