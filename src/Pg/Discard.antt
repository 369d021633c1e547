-- ===== src/Pg/Discard.antt =====
-- `discard_many` of crates/gylo-pg/src/lib.rs: exactly the descendants of the jobs that died are
-- cancelled.
use gylo.Prelude.{
  ℕ, zero, suc, ◌≡◌, ◌≢◌, refl, sym, ◌⊎◌, inl, inr, ◌↔◌, subst, true, false, ◌||◌, List, [], ◌∷◌,
  ◌++◌, map, some, arith, Bool-cases, length, ◌==◌,
}
use Prim.Native.String.{String}
use gylo.Pg.Row.{Row, Edge, any_id, cancelled, is_available, rows_where, ids_of}
use gylo.Pg.Settle.{children, unwalked, walk, cascade_row, discard_row, discard_many, settles}
use gylo.Pg.Ids.{In, map-In, Distinct, Distinct-In, any_id-In, rows_where-In}
use gylo.Pg.Cascade.{
  InEdges, Descends, direct, further, any_id-append, any_id-nil, walk_keeps, walk-Descends,
}

children-InEdges :
    (reached : List ℕ) (edges : List Edge) (x : ℕ)
    → any_id x (children reached edges) ≡ true
    → (e : Edge) × InEdges e edges × (any_id e.parent reached ≡ true) × (e.child ≡ x)
unfolding any_id children
children-InEdges reached [] x h = cc
children-InEdges reached (e ∷ edges) x h = elim (Bool-cases (any_id e.parent reached)) [
  | inl y ↦
      let h' : (e.child == x || any_id x (children reached edges)) ≡ true = rw y at h in
      elim (Bool-cases (e.child == x)) [
        | inl same ↦ (e, inl refl, y, ground arith)
        | inr other ↦
            let rest : any_id x (children reached edges) ≡ true = ground arith in
            let (d, m, p, c) = children-InEdges reached edges x rest in (d, inr m, p, c)
      ]
  | inr n ↦
      let rest : any_id x (children reached edges) ≡ true = rw n at h in
      let (d, m, p, c) = children-InEdges reached edges x rest in (d, inr m, p, c)
]

unwalked-InEdges :
    (reached : List ℕ) (edges : List Edge) (e : Edge)
    → InEdges e (unwalked reached edges)
    → InEdges e edges
unfolding unwalked
unwalked-InEdges reached [] e m = m
unwalked-InEdges reached (x ∷ edges) e m = elim (Bool-cases (any_id x.parent reached)) [
  | inl y ↦
      let m' : InEdges e (unwalked reached edges) = rw y at m in
      inr (unwalked-InEdges reached edges e m')
  | inr n ↦
      let m' : InEdges e (x ∷ unwalked reached edges) = rw n at m in
      elim m' [ inl same ↦ inl same | inr old ↦ inr (unwalked-InEdges reached edges e old) ]
]

module _ (all : List Edge) (roots : List ℕ) where
  abbrev Origin : ℕ → Type 0
  Origin x = (any_id x roots ≡ true) ⊎ Descends all roots x

  Origin-child : (e : Edge) → InEdges e all → Origin e.parent → Origin e.child
  Origin-child e m (inl root) = inr (direct e m root)
  Origin-child e m (inr d) = inr (further e m d)

  -- The walk finds nothing but what it started from and the descendants of that.
  walk-Origin :
      (fuel : ℕ) (edges : List Edge) (reached : List ℕ)
      → ((e : Edge) → InEdges e edges → InEdges e all)
      → ((x : ℕ) → any_id x reached ≡ true → Origin x)
      → (x : ℕ) → any_id x (walk fuel edges reached) ≡ true
      → Origin x
  unfolding walk
  walk-Origin zero edges reached within origin x h = origin x h
  walk-Origin (suc fuel) edges reached within origin x h =
      go (children reached edges) refl h λ cs found.
        walk-Origin fuel (unwalked reached edges) (cs ++ reached)
          (λ e m. within e (unwalked-InEdges reached edges e m)) found x
    where
      child_origin : (y : ℕ) → any_id y (children reached edges) ≡ true → Origin y
      child_origin y seen =
          let (e, m, p, c) = children-InEdges reached edges y seen in
          subst Origin c (Origin-child e (within e m) (origin e.parent p))

      found :
          (cs : List ℕ)
          → children reached edges ≡ cs
          → (y : ℕ) → any_id y (cs ++ reached) ≡ true
          → Origin y
      found cs same y seen = elim (Bool-cases (any_id y reached)) [
        | inl old ↦ origin y old
        | inr new ↦
            let split = any_id-append y cs reached in
            let fresh : any_id y cs ≡ true = ground arith in
            child_origin y (subst (λ (xs : List ℕ). any_id y xs ≡ true) (sym same) fresh)
      ]

      go :
          (cs : List ℕ)
          → children reached edges ≡ cs
          → any_id x (elim cs [
            | [] ↦ reached
            | d ∷ ds ↦ walk fuel (unwalked reached edges) ((d ∷ ds) ++ reached)
          ])
            ≡ true
          → ((ds : List ℕ)
              → ((y : ℕ) → any_id y (ds ++ reached) ≡ true → Origin y)
              → any_id x (walk fuel (unwalked reached edges) (ds ++ reached)) ≡ true
              → Origin x)
          → Origin x
      go [] same h' rest = origin x h'
      go (c ∷ cs) same h' rest = rest (c ∷ cs) (found (c ∷ cs) same) h'

-- The walk over the edges reaches exactly the jobs it starts from and their descendants, with as
-- many rounds as there are edges.
pub walk_iff :
    (edges : List Edge) (roots : List ℕ) (x : ℕ)
    → (any_id x (walk (length edges) edges roots) ≡ true)
      ↔ ((any_id x roots ≡ true) ⊎ Descends edges roots x)
walk_iff edges roots x = (
  λ h. walk-Origin edges roots (length edges) edges roots (λ e m. m) (λ y seen. inl seen) x h,
  λ origin. elim origin [
    | inl root ↦ walk_keeps (length edges) edges roots x root
    | inr d ↦ walk-Descends edges roots x d
  ],
)

cancels_row :
    (now : ℕ) (ids : List ℕ) (errors : List String) (worker : ℕ) (walked : List ℕ) (r : Row)
    → is_available r.state ≡ true
    → any_id r.id walked ≡ true
    → discard_row now ids errors worker walked r
      ≡ record r { state = cancelled; finalized_at = some now }
unfolding discard_row cascade_row
cancels_row now ids errors worker walked r free reached =
    let held : settles ids worker r ≡ false = ground arith in rw (held, reached, free)

leaves_row :
    (now : ℕ) (ids : List ℕ) (errors : List String) (worker : ℕ) (walked : List ℕ) (r : Row)
    → is_available r.state ≡ true
    → any_id r.id walked ≡ false
    → discard_row now ids errors worker walked r ≡ r
unfolding discard_row cascade_row
leaves_row now ids errors worker walked r free reached =
    let held : settles ids worker r ≡ false = ground arith in rw (held, reached)

-- The jobs of a report that the worker holds.
abbrev pub dead_ids : List ℕ → ℕ → List Row → List ℕ
dead_ids ids worker rows = ids_of (rows_where (settles ids worker) rows)

dead_ids-nil : (worker : ℕ) (rows : List Row) → dead_ids [] worker rows ≡ []
unfolding rows_where any_id
dead_ids-nil worker [] = refl
dead_ids-nil worker (r ∷ rows) = dead_ids-nil worker rows

Descends-nil : (edges : List Edge) (x : ℕ) → ¬ Descends edges [] x
Descends-nil edges _ (direct e m h) = any_id-nil e.parent h
Descends-nil edges _ (further e m d) = Descends-nil edges e.parent d

-- A job that waits is not among those that are settled.
dead_ids-waits :
    (ids : List ℕ) (worker : ℕ) (rows : List Row) (r : Row)
    → Distinct rows
    → In r rows
    → is_available r.state ≡ true
    → any_id r.id (dead_ids ids worker rows) ≢ true
dead_ids-waits ids worker rows r distinct m free seen =
    let (s, ms, e) = any_id-In r.id (rows_where (settles ids worker) rows) seen in
    let (mt, settled) = rows_where-In (settles ids worker) rows s ms in
    let same : s ≡ r = Distinct-In rows s r distinct mt m e in
    let settled' : settles ids worker r ≡ true =
      subst (λ (x : Row). settles ids worker x ≡ true) same settled in
    absurd (ground arith)

-- A job that waits and descends from a job that discard_many settles is cancelled by the same
-- statement, however long the chain between the two.
pub discard_many-Descends :
    (now : ℕ) (edges : List Edge) (ids : List ℕ) (errors : List String) (worker : ℕ)
    (rows : List Row) (r : Row)
    → In r rows
    → is_available r.state ≡ true
    → Descends edges (dead_ids ids worker rows) r.id
    → In
        (record r { state = cancelled; finalized_at = some now })
        (discard_many now edges ids errors worker rows).0
unfolding discard_many
discard_many-Descends now edges [] errors worker rows r m free d = absurd (
    Descends-nil edges r.id
      (subst (λ (xs : List ℕ). Descends edges xs r.id) (dead_ids-nil worker rows) d))
discard_many-Descends now edges (i ∷ ids) errors worker rows r m free d =
    let reached = walk-Descends edges (dead_ids (i ∷ ids) worker rows) r.id d in
    let walked = walk (length edges) edges (dead_ids (i ∷ ids) worker rows) in
    subst (λ (s : Row). In s (map (discard_row now (i ∷ ids) errors worker walked) rows))
      (cancels_row now (i ∷ ids) errors worker walked r free reached)
      (map-In (discard_row now (i ∷ ids) errors worker walked) rows r m)

-- In a table of distinct ids, a job that waits and does not descend from a job that discard_many
-- settles stays in the table as it is.
pub discard_many-other :
    (now : ℕ) (edges : List Edge) (ids : List ℕ) (errors : List String) (worker : ℕ)
    (rows : List Row) (r : Row)
    → Distinct rows
    → In r rows
    → is_available r.state ≡ true
    → ¬ Descends edges (dead_ids ids worker rows) r.id
    → In r (discard_many now edges ids errors worker rows).0
unfolding discard_many
discard_many-other now edges [] errors worker rows r distinct m free apart = m
discard_many-other now edges (i ∷ ids) errors worker rows r distinct m free apart =
    let dead = dead_ids (i ∷ ids) worker rows in
    let walked = walk (length edges) edges dead in
    subst (λ (s : Row). In s (map (discard_row now (i ∷ ids) errors worker walked) rows))
      (leaves_row now (i ∷ ids) errors worker walked r free (unreached dead refl))
      (map-In (discard_row now (i ∷ ids) errors worker walked) rows r m)
  where
    unreached :
        (dead : List ℕ)
        → dead ≡ dead_ids (i ∷ ids) worker rows
        → any_id r.id (walk (length edges) edges dead) ≡ false
    unreached dead same = elim (Bool-cases (any_id r.id (walk (length edges) edges dead))) [
      | inl seen ↦ elim ((walk_iff edges dead r.id).0 seen) [
        | inl root ↦ absurd (
            dead_ids-waits (i ∷ ids) worker rows r distinct m free
              (subst (λ (xs : List ℕ). any_id r.id xs ≡ true) same root))
        | inr d ↦ absurd (apart (subst (λ (xs : List ℕ). Descends edges xs r.id) same d))
      ]
      | inr new ↦ new
    ]
