-- ===== src/Pg/Live.antt =====
-- Workflows with work left in crates/gylo-pg/src/lib.rs: deleting finished rows does not change which they are.
use gylo.Prelude.{
  ℕ, ◌≤◌, ◌≡◌, refl, sym, subst, inl, inr, Bool, true, false, ◌&&◌, List, [], ◌∷◌, Option, none,
  some, arith, Bool-cases,
}
use gylo.Pg.Row.{Row, JobState}
use gylo.Pg.Ids.{In}
use gylo.Pg.Retention.{any_state, is_unfinished, ended_before, in_queue, prunable, any_row, is_live}
use Prim.Native.String.{String}

pub any_row-In :
    (test : Row → Bool) (rows : List Row)
    → any_row test rows ≡ true
    → (r : Row) × In r rows × (test r ≡ true)
unfolding any_row
any_row-In test [] h = cc h
any_row-In test (r ∷ rows) h = elim (Bool-cases (test r)) [
  | inl y ↦ (r, inl refl, y)
  | inr n ↦ let (s, m, holds) = any_row-In test rows (ground arith) in (s, inr m, holds)
]

pub In-any_row :
    (test : Row → Bool) (rows : List Row) (r : Row)
    → In r rows
    → test r ≡ true
    → any_row test rows ≡ true
unfolding any_row
In-any_row test [] r m h = absurd m
In-any_row test (s ∷ rows) r (inl e) h =
    let holds : test s ≡ true = subst (λ (x : Row). test x ≡ true) (sym e) h in rw holds
In-any_row test (s ∷ rows) r (inr m) h =
    let rest = In-any_row test rows r m h in ground (arith, rest)

-- Jobs that wait or run are kept.
abbrev pub Keeps : List Row → List Row → Type 0
Keeps rows left = (r : Row) → In r rows → is_unfinished r.state ≡ true → In r left

is_live-Keeps :
    (rows left : List Row) (w : Option ℕ)
    → Keeps rows left
    → is_live rows w ≡ true
    → is_live left w ≡ true
is_live-Keeps rows left none keeps h = h
is_live-Keeps rows left (some w) keeps h =
    let (u, m, holds) = any_row-In _ rows h in In-any_row _ left u (keeps u m (ground arith)) holds

ended_before-later :
    (now later older_than : ℕ) (end : Option ℕ)
    → now ≤ later
    → ended_before now older_than end ≡ true
    → ended_before later older_than end ≡ true
ended_before-later now later older_than none le h = h
ended_before-later now later older_than (some t) le h = ground arith

pub prunable-any_state :
    (now : ℕ) (states : List JobState) (older_than : ℕ) (queue : Option String) (rows : List Row)
    (r : Row) (b : Bool)
    → (prunable now states older_than queue rows r && b) ≡ true
    → (any_state r.state states && in_queue queue r) ≡ true
unfolding prunable
prunable-any_state now states older_than queue rows r b h = ground arith

-- With the same rows waiting and running, and at a later time, what could be pruned still can.
pub prunable-later :
    (now later : ℕ) (states : List JobState) (older_than : ℕ) (queue : Option String)
    (rows left : List Row) (r : Row)
    → now ≤ later
    → Keeps rows left
    → prunable now states older_than queue left r ≡ true
    → prunable later states older_than queue rows r ≡ true
unfolding prunable
prunable-later now later states older_than queue rows left r le keeps h =
    let alive : is_live left r.workflow_id ≡ false = ground arith in
    let dead : is_live rows r.workflow_id ≡ false = elim (Bool-cases (is_live rows r.workflow_id)) [
      | inr n ↦ n
      | inl y ↦
          let clash = is_live-Keeps rows left r.workflow_id keeps y in absurd (cc (clash, alive))
    ] in
    let early : ended_before now older_than r.finalized_at ≡ true = ground arith in
    let late = ended_before-later now later older_than r.finalized_at le early in
    rw (late, dead) (ground arith)
