-- ===== src/Pg/Cascade.antt =====
-- The recursive walk of DISCARD_MANY in crates/gylo-pg/src/lib.rs against what a descendant is.
use gylo.Prelude.{
  ℕ, zero, suc, ◌+◌, ◌≤◌, ◌≡◌, ◌≢◌, refl, sym, ◌⊎◌, inl, inr, subst, ap, true, false, ◌||◌, List,
  [], ◌∷◌, ◌++◌, arith, Bool-cases, length,
}
use gylo.Pg.Row.{Edge, any_id}
use gylo.Pg.Settle.{children, unwalked, walk}

abbrev pub InEdges : Edge → List Edge → Type 0
InEdges e [] = ⊥
InEdges e (x ∷ edges) = (x ≡ e) ⊎ InEdges e edges

-- The jobs that wait, directly or not, for one of some jobs.
pub data Descends (edges : List Edge) (roots : List ℕ) : ℕ → Type 0 where
  direct :
      (e : Edge) → InEdges e edges → any_id e.parent roots ≡ true → Descends edges roots e.child
  further :
      (e : Edge) → InEdges e edges → Descends edges roots e.parent → Descends edges roots e.child

-- A descendant is the child of some edge.
pub Descends-child :
    {edges : List Edge} {roots : List ℕ} {x : ℕ}
    → Descends edges roots x
    → (e : Edge) × InEdges e edges × (e.child ≡ x)
Descends-child (direct e m h) = (e, m, refl)
Descends-child (further e m d) = (e, m, refl)

pub any_id-append : (x : ℕ) (xs ys : List ℕ) → any_id x (xs ++ ys) ≡ (any_id x xs || any_id x ys)
unfolding any_id
any_id-append x [] ys = refl
any_id-append x (y ∷ xs) ys = ground (arith, any_id-append x xs ys)

pub any_id-nil : (x : ℕ) → any_id x [] ≢ true
unfolding any_id
any_id-nil x h = cc h

any_id_left : (x : ℕ) (xs ys : List ℕ) → any_id x xs ≡ true → any_id x (xs ++ ys) ≡ true
any_id_left x xs ys h = ground (arith, any_id-append x xs ys)

any_id_right : (x : ℕ) (xs ys : List ℕ) → any_id x ys ≡ true → any_id x (xs ++ ys) ≡ true
any_id_right x xs ys h = ground (arith, any_id-append x xs ys)

any_id-children :
    (reached : List ℕ) (edges : List Edge) (e : Edge)
    → InEdges e edges
    → any_id e.parent reached ≡ true
    → any_id e.child (children reached edges) ≡ true
unfolding any_id children
any_id-children reached [] e m h = absurd m
any_id-children reached (x ∷ edges) e (inl same) h =
    let parent : any_id x.parent reached ≡ true =
      subst (λ (y : Edge). any_id y.parent reached ≡ true) (sym same) h in
    let child : x.child ≡ e.child = ap (λ (y : Edge). y.child) same in rw parent (ground arith)
any_id-children reached (x ∷ edges) e (inr m) h =
    let rest = any_id-children reached edges e m h in ground arith

InEdges-unwalked :
    (reached : List ℕ) (edges : List Edge) (e : Edge)
    → InEdges e edges
    → any_id e.parent reached ≡ false
    → InEdges e (unwalked reached edges)
unfolding unwalked
InEdges-unwalked reached [] e m h = m
InEdges-unwalked reached (x ∷ edges) e (inl same) h =
    let parent : any_id x.parent reached ≡ false =
      subst (λ (y : Edge). any_id y.parent reached ≡ false) (sym same) h in
    rw parent (inl same)
InEdges-unwalked reached (x ∷ edges) e (inr m) h = elim (Bool-cases (any_id x.parent reached)) [
  | inl y ↦ rw y (InEdges-unwalked reached edges e m h)
  | inr n ↦ rw n (inr (InEdges-unwalked reached edges e m h))
]

-- Every edge is walked or not.
length-unwalked :
    (reached : List ℕ) (edges : List Edge)
    → length (children reached edges) + length (unwalked reached edges) ≡ length edges
unfolding children unwalked
length-unwalked reached [] = omega arith
length-unwalked reached (x ∷ edges) = ground (arith, length-unwalked reached edges)

pub walk_keeps :
    (fuel : ℕ) (edges : List Edge) (reached : List ℕ) (x : ℕ)
    → any_id x reached ≡ true
    → any_id x (walk fuel edges reached) ≡ true
unfolding walk
walk_keeps zero edges reached x h = h
walk_keeps (suc fuel) edges reached x h =
    go (children reached edges)
      λ cs. walk_keeps fuel (unwalked reached edges) (cs ++ reached) x (any_id_right x cs reached h)
  where
    go :
        (cs : List ℕ)
        → ((ds : List ℕ) → any_id x (walk fuel (unwalked reached edges) (ds ++ reached)) ≡ true)
        → any_id x (elim cs [
          | [] ↦ reached
          | d ∷ ds ↦ walk fuel (unwalked reached edges) ((d ∷ ds) ++ reached)
        ])
          ≡ true
    go [] keeps = h
    go (c ∷ cs) keeps = keeps (c ∷ cs)

-- With as many rounds as there are edges, the walk ends where no edge leads out of it.
walk_closed :
    (fuel : ℕ) (edges : List Edge) (reached : List ℕ) (e : Edge)
    → length edges ≤ fuel
    → InEdges e edges
    → any_id e.parent (walk fuel edges reached) ≡ true
    → any_id e.child (walk fuel edges reached) ≡ true
unfolding walk
walk_closed zero [] reached e le m h = absurd m
walk_closed zero (x ∷ edges) reached e le m h = absurd (omega arith)
walk_closed (suc fuel) edges reached e le m h = go (children reached edges) refl h λ ds long n.
    walk_closed fuel (unwalked reached edges) (ds ++ reached) e
      (omega (arith, length-unwalked reached edges, long, le))
      (InEdges-unwalked reached edges e m n)
  where
    next : List ℕ → List ℕ
    next cs = elim cs [
      | [] ↦ reached
      | c ∷ cs ↦ walk fuel (unwalked reached edges) ((c ∷ cs) ++ reached)
    ]

    Closed : List ℕ → Type 0
    Closed ids = any_id e.parent ids ≡ true → any_id e.child ids ≡ true

    go :
        (cs : List ℕ)
        → children reached edges ≡ cs
        → any_id e.parent (next cs) ≡ true
        → ((ds : List ℕ)
            → 1 ≤ length (children reached edges)
            → any_id e.parent reached ≡ false
            → Closed (walk fuel (unwalked reached edges) (ds ++ reached)))
        → any_id e.child (next cs) ≡ true
    go [] none_left h' rest =
        let seen = any_id-children reached edges e m h' in
        let seen' : any_id e.child [] ≡ true =
          subst (λ (cs : List ℕ). any_id e.child cs ≡ true) none_left seen in
        absurd (any_id-nil e.child seen')
    go (c ∷ cs) some_left h' rest = elim (Bool-cases (any_id e.parent reached)) [
      | inl y ↦
          let seen : any_id e.child (c ∷ cs) ≡ true =
            subst (λ (xs : List ℕ). any_id e.child xs ≡ true) some_left
              (any_id-children reached edges e m y) in
          walk_keeps fuel (unwalked reached edges) ((c ∷ cs) ++ reached) e.child
            (any_id_left e.child (c ∷ cs) reached seen)
      | inr n ↦
          let long : length (children reached edges) ≡ suc (length cs) =
            ap (λ (xs : List ℕ). length xs) some_left in
          rest (c ∷ cs) (omega (arith, long)) n h'
    ]

pub walk-Descends :
    (edges : List Edge) (roots : List ℕ) (x : ℕ)
    → Descends edges roots x
    → any_id x (walk (length edges) edges roots) ≡ true
walk-Descends edges roots _ (direct e m h) =
    walk_closed (length edges) edges roots e (omega arith) m
      (walk_keeps (length edges) edges roots e.parent h)
walk-Descends edges roots _ (further e m d) =
    walk_closed (length edges) edges roots e (omega arith) m (walk-Descends edges roots e.parent d)
