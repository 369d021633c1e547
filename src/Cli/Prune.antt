-- ===== src/Cli/Prune.antt =====
-- `prune_finished` and `purge_failed` of crates/gylo-cli/src/main.rs.
use gylo.Prelude.{
  ℕ, ◌+◌, ◌≤◌, ◌<◌, ◌≡◌, refl, sym, inl, inr, Bool, true, false, ◌&&◌, List, [], ◌∷◌, Option, none,
  some, subst, ◌==◌, arith, Bool-cases, length,
}
use gylo.Prelude.Options.{◌>>=◌}
use gylo.Pg.Row.{Row, any_id}
use gylo.Pg.Ids.{In, Distinct}
use gylo.Pg.Retention.{well, dead, prunable, prune_workflows, purge_discarded, member_of, any_row}
use gylo.Pg.Live.{Keeps, prunable-later}
use gylo.Pg.Drain.{well-AreOver, dead-AreOver, IsFree, prune_all, prune_all-Drained, Keeps-from}
use Prim.Native.String.{String}

abbrev pub batch_size : ℕ
batch_size = 5000

-- The rows, the workflows and the number printed.
pub record Left : Type 0 where
  pub rows : List Row
  pub workflows : List ℕ
  pub removed : ℕ

module _ (clock : ℕ → ℕ) (busy : ℕ → ℕ → Bool) (older_than : ℕ) (queue : Option String) where
  -- The loop over the dead letters, which runs only when they are asked for. Its statements are
  -- timed by a clock of their own, and meet locks of their own.
  unfoldable pub prune_dead :
      (ℕ → ℕ) → (ℕ → ℕ → Bool) → Bool → ℕ → List Row → ℕ → Option (List Row × ℕ)
  prune_dead clock' busy' false fuel rows removed = some (rows, removed)
  prune_dead clock' busy' true fuel rows removed =
      prune_all clock' busy' dead older_than queue batch_size fuel 0 rows removed

  unfoldable pub prune_finished :
      (ℕ → ℕ) → (ℕ → ℕ → Bool) → Bool → ℕ → List Row → List ℕ → Option Left
  prune_finished clock' busy' too fuel rows workflows = do
    first ← prune_all clock busy well older_than queue batch_size fuel 0 rows 0
    second ← prune_dead clock' busy' too fuel first.0 first.1
    some (record {
      rows = second.0;
      workflows = (prune_workflows second.0 workflows).0;
      removed = second.1;
    })

-- `purge_failed`: none when the deletion is not confirmed.
unfoldable pub purge_failed : Bool → Option String → List Row → Option (List Row × ℕ)
purge_failed false queue rows = none
purge_failed true queue rows = some (purge_discarded queue rows)

prune_workflows-own :
    (v : ℕ) (rows : List Row) (workflows : List ℕ)
    → any_id v (prune_workflows rows workflows).0
      ≡ (any_id v workflows && any_row (λ r. member_of v r.workflow_id) rows)
    → any_id v (prune_workflows rows (v ∷ workflows)).0
      ≡ (any_id v (v ∷ workflows) && any_row (λ r. member_of v r.workflow_id) rows)
unfolding prune_workflows any_id
prune_workflows-own v rows workflows rest =
    let same : (v == v) ≡ true = ground arith in
    elim (Bool-cases (any_row (λ r. member_of v r.workflow_id) rows)) [
      | inl lives ↦ rw (lives, same) refl
      | inr over ↦ rw (over, same) (ground (arith, rest, over))
    ]

-- A workflow is kept exactly if a job of it is left.
prune_workflows-any_id :
    (w : ℕ) (rows : List Row) (workflows : List ℕ)
    → any_id w (prune_workflows rows workflows).0
      ≡ (any_id w workflows && any_row (λ r. member_of w r.workflow_id) rows)
unfolding prune_workflows any_id
prune_workflows-any_id w rows [] = refl
prune_workflows-any_id w rows (v ∷ workflows) =
    let rest = prune_workflows-any_id w rows workflows in
    elim (Bool-cases (v == w)) [
      | inl y ↦
          let same : v ≡ w = ground arith in
          subst
            (λ (x : ℕ).
              any_id x (prune_workflows rows (v ∷ workflows)).0
              ≡ (any_id x (v ∷ workflows) && any_row (λ r. member_of x r.workflow_id) rows))
            same
            (prune_workflows-own v rows workflows (
              subst
                (λ (x : ℕ).
                  any_id x (prune_workflows rows workflows).0
                  ≡ (any_id x workflows && any_row (λ r. member_of x r.workflow_id) rows))
                (sym same) rest))
      | inr n ↦ elim (Bool-cases (any_row (λ r. member_of v r.workflow_id) rows)) [
        | inl lives ↦ rw (lives, n) rest
        | inr over ↦ rw (over, n) rest
      ]
    ]

-- What the command leaves.
abbrev pub Finished :
    ℕ
    → (ℕ → ℕ → Bool)
    → (ℕ → ℕ → Bool)
    → ℕ
    → Option String
    → Bool
    → List Row
    → List ℕ
    → Left
    → Type 0
Finished now busy busy' older_than queue too rows workflows left =
    (length left.rows + left.removed ≡ length rows)
    × ((r : Row) → In r left.rows → In r rows)
    × Keeps rows left.rows
    × ((r : Row)
        → In r left.rows
        → IsFree busy r
        → prunable now well older_than queue left.rows r ≡ false)
    × (too ≡ true
        → (r : Row) → In r left.rows
        → IsFree busy' r
        → prunable now dead older_than queue left.rows r ≡ false)
    × ((w : ℕ)
        → any_id w left.workflows
          ≡ (any_id w workflows && any_row (λ r. member_of w r.workflow_id) left.rows))

module _ (now : ℕ) (clock clock' : ℕ → ℕ) (after : (k : ℕ) → now ≤ clock k)
    (after' : (k : ℕ) → now ≤ clock' k) (busy busy' : ℕ → ℕ → Bool) (older_than : ℕ)
    (queue : Option String) where
  -- In a table of distinct ids, with more rounds than rows, prune_finished ends, and counts exactly
  -- the jobs it removes; every job that waits or runs is kept, none of the jobs left could have been
  -- pruned when the command started, but for those that another transaction has locked at some
  -- statement of the loop that removes their kind, dead letters included if they were asked for, and
  -- a workflow is kept exactly if a job of it is left. The clocks of its statements are not before
  -- the start.
  pub prune_finished-Finished :
      (too : Bool) (fuel : ℕ) (rows : List Row) (workflows : List ℕ)
      → Distinct rows
      → length rows < fuel
      → (left : Left) × (prune_finished clock busy older_than queue clock' busy' too fuel rows
            workflows
          ≡ some left)
        × Finished now busy busy' older_than queue too rows workflows left
  unfolding prune_finished prune_dead
  prune_finished-Finished false fuel rows workflows d h =
      let (first, runs, (d', total, sub, each, none_left)) =
        prune_all-Drained clock busy well older_than queue batch_size well-AreOver (ground arith)
          now after fuel 0 rows 0 d h in
      (
        record {
          rows = first.0;
          workflows = (prune_workflows first.0 workflows).0;
          removed = first.1;
        },
        rw runs refl,
        (
          omega (arith, total),
          sub,
          Keeps-from well queue rows first.0 well-AreOver each,
          none_left,
          λ no. cc no,
          λ w. prune_workflows-any_id w first.0 workflows,
        ),
      )
  prune_finished-Finished true fuel rows workflows d h =
      let (first, runs, (d', total, sub, each, none_left)) =
        prune_all-Drained clock busy well older_than queue batch_size well-AreOver (ground arith)
          now after fuel 0 rows 0 d h in
      let (second, runs', (d'', total', sub', each', none_left')) =
        prune_all-Drained clock' busy' dead older_than queue batch_size dead-AreOver (ground arith)
          now after' fuel 0 first.0 first.1 d' (omega (arith, total, h)) in
      let keeps = Keeps-from well queue rows first.0 well-AreOver each in
      let keeps' = Keeps-from dead queue first.0 second.0 dead-AreOver each' in
      (
        record {
          rows = second.0;
          workflows = (prune_workflows second.0 workflows).0;
          removed = second.1;
        },
        rw (runs, runs') refl,
        (
          omega (arith, total, total'),
          λ r m. sub r (sub' r m),
          λ r m u. keeps' r (keeps r m u) u,
          λ r m free. elim (Bool-cases (prunable now well older_than queue second.0 r)) [
            | inr n ↦ n
            | inl y ↦
                let before =
                  prunable-later now now well older_than queue first.0 second.0 r (omega arith)
                    keeps' y in
                let clash = none_left r (sub' r m) free in absurd (cc (before, clash))
          ],
          λ yes. none_left',
          λ w. prune_workflows-any_id w second.0 workflows,
        ),
      )
