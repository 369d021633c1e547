-- ===== src/Worker/Refused.antt =====
-- The jobs that the encoder refuses in `place` of crates/gylo-worker/src/lib.rs, in the table: `discard_many`
-- has ended those that the statement reached.
use gylo.Prelude.{
  ℕ, ◌≡◌, refl, sym, ap, inl, inr, subst, true, false, List, [], ◌∷◌, map, arith, length,
  Bool-cases, ◌==◌,
}
use gylo.Pg.Row.{
  Row, JobState, available, running, completed, discarded, cancelled, held_by, any_id, is_running,
  is_available, ids_of, rows_where, value_of,
}
use gylo.Pg.Settle.{settles, walk, discard, discard_row, dead_row, cascade_row, discard_many}
use gylo.Pg.Ids.{In, map-In}
use Prim.Native.String.{String}
use gylo.Worker.Round.{Round, discard_each}

module _ (now worker id : ℕ) (error : String) (walked : List ℕ) (x : Row) where
  -- A row that a statement did not name, and that does not wait, is left as it is.
  discard_row-skips :
      settles (id ∷ []) worker x ≡ false
      → is_available x.state ≡ false
      → discard_row now (id ∷ []) (error ∷ []) worker walked x ≡ x
  unfolding discard_row cascade_row
  discard_row-skips other busy = rw (other, busy) (ground arith)

  discard_row-ends :
      id ≡ x.id
      → held_by worker x ≡ true
      → discard_row now (id ∷ []) (error ∷ []) worker walked x ≡ discard now error x
  unfolding discard_row dead_row any_id value_of
  discard_row-ends e held = let same : (id == x.id) ≡ true = ground arith in rw (same, held) refl

running_only : (s : JobState) → is_running s ≡ true → is_available s ≡ false
running_only available h = cc h
running_only running h = refl
running_only completed h = refl
running_only discarded h = refl
running_only cancelled h = refl

held-not_available : (worker : ℕ) (x : Row) → held_by worker x ≡ true → is_available x.state ≡ false
held-not_available worker x h = running_only x.state (ground arith)

discarded-settles :
    (ids : List ℕ) (worker : ℕ) (x : Row) → x.state ≡ discarded → settles ids worker x ≡ false
discarded-settles ids worker x e = rw e (ground arith)

module _ (r : Round) where
  -- A row of the table, and what the statement for one job makes of it.
  discard_one-In :
      (id : ℕ) (rows : List Row) (x y : Row)
      → In x rows
      → ((walked : List ℕ) → discard_row r.now (id ∷ []) (r.reason id ∷ []) r.worker walked x ≡ y)
      → In y (discard_many r.now r.edges (id ∷ []) (r.reason id ∷ []) r.worker rows).0
  unfolding discard_many
  discard_one-In id rows x y m e =
      let dead = ids_of (rows_where (settles (id ∷ []) r.worker) rows) in
      let walked = walk (length r.edges) r.edges dead in
      let change : Row → Row = discard_row r.now (id ∷ []) (r.reason id ∷ []) r.worker walked in
      subst (λ (z : Row). In z (map change rows)) (e walked) (map-In change rows x m)

  discard_each-keeps :
      (ids : List ℕ) (rows : List Row) (x : Row)
      → x.state ≡ discarded
      → In x rows
      → In x (discard_each r ids rows)
  unfolding discard_each
  discard_each-keeps [] rows x over m = m
  discard_each-keeps (id ∷ ids) rows x over m = elim (Bool-cases (r.discards id)) [
    | inr failed ↦ rw failed (discard_each-keeps ids rows x over m)
    | inl sent ↦
        let there = discard_one-In id rows x x m (λ walked.
          discard_row-skips r.now r.worker id (r.reason id) walked x
            (discarded-settles (id ∷ []) r.worker x over) (ap is_available over)) in
        rw sent (discard_each-keeps ids _ x over there)
  ]

  -- A held job among those refused, whose statement succeeds, is discarded with the encoder's error.
  pub discard_each-In :
      (ids : List ℕ) (rows : List Row) (x : Row)
      → any_id x.id ids ≡ true
      → r.discards x.id ≡ true
      → held_by r.worker x ≡ true
      → In x rows
      → In (discard r.now (r.reason x.id) x) (discard_each r ids rows)
  unfolding discard_each any_id
  discard_each-In [] rows x named works held m = cc named
  discard_each-In (id ∷ ids) rows x named works held m = elim (Bool-cases (id == x.id)) [
    | inl same ↦
        let e : id ≡ x.id = ground arith in
        let works' : r.discards id ≡ true = subst (λ (k : ℕ). r.discards k ≡ true) (sym e) works in
        let there = discard_one-In id rows x (discard r.now (r.reason x.id) x) m (λ walked.
          subst
            (λ (k : ℕ).
              discard_row r.now (id ∷ []) (r.reason id ∷ []) r.worker walked x
              ≡ discard r.now (r.reason k) x)
            e (discard_row-ends r.now r.worker id (r.reason id) walked x e held)) in
        rw works' (discard_each-keeps ids _ (discard r.now (r.reason x.id) x) refl there)
    | inr other ↦
        let more : any_id x.id ids ≡ true = ground arith in
        let there : In x (discard_many r.now r.edges (id ∷ []) (r.reason id ∷ []) r.worker rows).0 =
          discard_one-In id rows x x m (λ walked.
            discard_row-skips r.now r.worker id (r.reason id) walked x (rw other refl)
              (held-not_available r.worker x held)) in
        elim (Bool-cases (r.discards id)) [
          | inl sent ↦ rw sent (discard_each-In ids _ x more works held there)
          | inr failed ↦ rw failed (discard_each-In ids rows x more works held m)
        ]
  ]
