-- ===== src/Pg/Retention.antt =====
-- Deleting what is over: `prune_states` with its two callers, `prune_workflows` and `purge_discarded` of
-- crates/gylo-pg/src/lib.rs.
use gylo.Prelude.{
  ℕ, ◌+◌, Bool, true, false, not, ◌&&◌, ◌||◌, List, [], ◌∷◌, Option, none, some, length, take, ltb,
  leb, ◌==◌, if◌then◌else◌,
}
use gylo.Pg.Row.{
  Row, JobState, available, running, completed, discarded, cancelled, any_id, rows_where, ids_of,
  is_available, is_running, is_discarded,
}
use Prim.Native.String.{String}
use text.Mathlib.Text.{◌==◌ as str_eq}

abbrev pub same_state : JobState → JobState → Bool
same_state available available = true
same_state running running = true
same_state completed completed = true
same_state discarded discarded = true
same_state cancelled cancelled = true
same_state _ _ = false

-- `state = ANY($1)`.
abbrev pub any_state : JobState → List JobState → Bool
any_state state [] = false
any_state state (s ∷ states) = same_state state s || any_state state states

-- `$3 IS NULL OR queue = $3`.
abbrev pub in_queue : Option String → Row → Bool
in_queue none r = true
in_queue (some queue) r = str_eq r.queue queue

-- `finalized_at < now() - $2`, which is not true of a null.
abbrev pub ended_before : ℕ → ℕ → Option ℕ → Bool
ended_before now older_than none = false
ended_before now older_than (some t) = ltb (t + older_than) now

abbrev pub is_unfinished : JobState → Bool
is_unfinished state = is_available state || is_running state

abbrev pub member_of : ℕ → Option ℕ → Bool
member_of w none = false
member_of w (some v) = v == w

unfoldable pub any_row : (Row → Bool) → List Row → Bool
any_row test [] = false
any_row test (r ∷ rows) = test r || any_row test rows

-- `EXISTS (SELECT 1 FROM gylo_job u WHERE u.workflow_id = .. AND u.state IN (..))`.
abbrev pub is_live : List Row → Option ℕ → Bool
is_live rows none = false
is_live rows (some w) = any_row (λ u. member_of w u.workflow_id && is_unfinished u.state) rows

-- The condition of `victims`.
unfoldable pub prunable : ℕ → List JobState → ℕ → Option String → List Row → Row → Bool
prunable now states older_than queue rows r =
    any_state r.state states
    && (ended_before now older_than r.finalized_at
        && (in_queue queue r && not (is_live rows r.workflow_id)))

-- `ORDER BY finalized_at`, nulls last.
abbrev pub ends_first : Option ℕ → Option ℕ → Bool
ends_first none t = false
ends_first (some s) none = true
ends_first (some s) (some t) = leb s t

unfoldable pub insert_ended : Row → List Row → List Row
insert_ended r [] = r ∷ []
insert_ended r (s ∷ rows) =
    let later = s ∷ insert_ended r rows in
    if ends_first r.finalized_at s.finalized_at then r ∷ s ∷ rows else later

unfoldable pub order_ended : List Row → List Row
order_ended [] = []
order_ended (r ∷ rows) = insert_ended r (order_ended rows)

-- `DELETE .. WHERE id = ANY(..)`: the rows that stay, and `rows_affected`.
unfoldable pub delete_ids : List ℕ → List Row → List Row × ℕ
delete_ids ids rows =
    (rows_where (λ r. not (any_id r.id ids)) rows, length (rows_where (λ r. any_id r.id ids) rows))

-- The states of jobs that ended well, and of dead letters.
abbrev pub well : List JobState
well = completed ∷ cancelled ∷ []

abbrev pub dead : List JobState
dead = discarded ∷ []

module _ (busy : ℕ → Bool) (now : ℕ) where
  -- `victims`; `busy` says which rows another transaction has locked.
  unfoldable pub victims : List JobState → ℕ → Option String → ℕ → List Row → List Row
  victims states older_than queue limit rows = take limit (
      order_ended
        (rows_where (λ r. prunable now states older_than queue rows r && not (busy r.id)) rows))

  unfoldable pub prune_states : List JobState → ℕ → Option String → ℕ → List Row → List Row × ℕ
  prune_states states older_than queue limit rows =
      delete_ids (ids_of (victims states older_than queue limit rows)) rows

  abbrev pub prune_completed : ℕ → Option String → ℕ → List Row → List Row × ℕ
  prune_completed = prune_states well

  abbrev pub prune_discarded : ℕ → Option String → ℕ → List Row → List Row × ℕ
  prune_discarded = prune_states dead

-- The rows of `gylo_workflow`, by their ids, of which a job is left.
unfoldable pub prune_workflows : List Row → List ℕ → List ℕ × ℕ
prune_workflows rows [] = ([], 0)
prune_workflows rows (w ∷ workflows) =
    let (left, removed) = prune_workflows rows workflows in
    if any_row (λ r. member_of w r.workflow_id) rows
    then (w ∷ left, removed)
    else (left, removed + 1)

unfoldable pub purge_discarded : Option String → List Row → List Row × ℕ
purge_discarded queue rows = (
  rows_where (λ r. not (is_discarded r.state && in_queue queue r)) rows,
  length (rows_where (λ r. is_discarded r.state && in_queue queue r) rows),
)
