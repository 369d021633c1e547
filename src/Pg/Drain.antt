-- ===== src/Pg/Drain.antt =====
-- Pruning in batches until one is not full, as `prune_finished` of crates/gylo-cli/src/main.rs and
-- `retain` of crates/gylo-worker/src/lib.rs do.
use gylo.Prelude.{
  ℕ, zero, suc, ◌+◌, ◌≤◌, ◌<◌, ◌≡◌, refl, ◌⊎◌, inl, inr, Bool, true, false, not, ◌&&◌, List, Option,
  none, some, arith, Bool-cases, length, ltb, ltb→lt, if◌then◌else◌,
}
use gylo.Pg.Row.{available, running, completed, discarded, cancelled, Row, JobState}
use gylo.Pg.Ids.{In, Distinct}
use gylo.Pg.Pruning.{prune_states-Pruned}
use gylo.Pg.Ended.{Distinct-rows_where}
use gylo.Pg.Retention.{
  well, dead, any_state, is_unfinished, in_queue, prunable, delete_ids, prune_states,
}
use gylo.Pg.Live.{Keeps, prunable-any_state, prunable-later}
use Prim.Native.String.{String}

-- No statement of a loop finds a row locked by another transaction.
abbrev pub IsFree : (ℕ → ℕ → Bool) → Row → Type 0
IsFree busy r = (k : ℕ) → busy k r.id ≡ false

-- What pruning in batches leaves of the rows, with the number of those that it has removed.
abbrev pub Drained :
    ℕ → (ℕ → ℕ → Bool) → List JobState → ℕ → Option String → List Row → ℕ → List Row × ℕ → Type 0
Drained now busy states older_than queue rows removed result =
    Distinct result.0
    × (length result.0 + result.1 ≡ length rows + removed)
    × ((r : Row) → In r result.0 → In r rows)
    × ((r : Row)
        → In r rows
        → In r result.0 ⊎ ((any_state r.state states && in_queue queue r) ≡ true))
    × ((r : Row)
        → In r result.0
        → IsFree busy r
        → prunable now states older_than queue result.0 r ≡ false)

abbrev pub AreOver : List JobState → Type 0
AreOver states = (s : JobState) → any_state s states ≡ true → is_unfinished s ≡ false

pub well-AreOver : AreOver well
well-AreOver available h = cc h
well-AreOver running h = cc h
well-AreOver completed h = refl
well-AreOver discarded h = refl
well-AreOver cancelled h = refl

pub dead-AreOver : AreOver dead
dead-AreOver available h = cc h
dead-AreOver running h = cc h
dead-AreOver completed h = refl
dead-AreOver discarded h = refl
dead-AreOver cancelled h = refl

pub Keeps-from :
    (states : List JobState) (queue : Option String) (rows left : List Row)
    → AreOver states
    → ((r : Row) → In r rows → In r left ⊎ ((any_state r.state states && in_queue queue r) ≡ true))
    → Keeps rows left
Keeps-from states queue rows left final each r m u = elim (each r m) [
  | inl stays ↦ stays
  | inr over ↦
      let clash : is_unfinished r.state ≡ false = final r.state (ground arith) in
      absurd (cc (clash, u))
]

pub not_less : (a b : ℕ) → ltb a b ≡ false → b ≤ a
not_less a b h = ground arith

module _ (now : ℕ) (busy : ℕ → ℕ → Bool) (states : List JobState) (older_than : ℕ)
    (queue : Option String) where
  Drained-after :
      (rows left : List Row) (removed batch : ℕ) (result : List Row × ℕ)
      → length left + batch ≡ length rows
      → ((r : Row) → In r left → In r rows)
      → ((r : Row)
          → In r rows
          → In r left ⊎ ((any_state r.state states && in_queue queue r) ≡ true))
      → Drained now busy states older_than queue left (removed + batch) result
      → Drained now busy states older_than queue rows removed result
  Drained-after rows left removed batch result total sub each (d, total', sub', each', none_left) =
      (
        d,
        omega (arith, total, total'),
        λ r m. sub r (sub' r m),
        λ r m. elim (each r m) [ inl stays ↦ each' r stays | inr over ↦ inr over ],
        none_left,
      )

module _ (clock : ℕ → ℕ) (busy : ℕ → ℕ → Bool) (states : List JobState) (older_than : ℕ)
    (queue : Option String) (limit : ℕ) where
  -- The loop, at its statement `k`, with what it has `removed` so far. `busy k` says which rows other
  -- transactions have locked at that statement, which `SKIP LOCKED` passes over.
  unfoldable pub prune_all : ℕ → ℕ → List Row → ℕ → Option (List Row × ℕ)
  prune_all zero k rows removed = none
  prune_all (suc fuel) k rows removed =
      let (left, batch) = prune_states (busy k) (clock k) states older_than queue limit rows in
      let rest = prune_all fuel (suc k) left (removed + batch) in
      if ltb batch limit then some (left, removed + batch) else rest

  module _ (final : AreOver states) (some_limit : 1 ≤ limit) (now : ℕ)
      (after : (k : ℕ) → now ≤ clock k) where
    batch-each :
        (k : ℕ) (rows : List Row)
        → Distinct rows
        → (r : Row) → In r rows
        → In r (prune_states (busy k) (clock k) states older_than queue limit rows).0
          ⊎ ((any_state r.state states && in_queue queue r) ≡ true)
    batch-each k rows d r m =
        let (le, total, sub, each, all) =
          prune_states-Pruned (busy k) (clock k) states older_than queue limit rows d in
        elim (each r m) [
          | inl stays ↦ inl stays
          | inr over ↦
              inr (
                prunable-any_state (clock k) states older_than queue rows r (not (busy k r.id))
                  over)
        ]

    batch-Distinct :
        (k : ℕ) (rows : List Row)
        → Distinct rows
        → Distinct (prune_states (busy k) (clock k) states older_than queue limit rows).0
    unfolding prune_states delete_ids
    batch-Distinct k rows d = Distinct-rows_where _ rows d

    last_batch :
        (k : ℕ) (rows : List Row) (removed : ℕ) (d : Distinct rows)
        → (prune_states (busy k) (clock k) states older_than queue limit rows).1 < limit
        → Drained now busy states older_than queue rows removed (
          (prune_states (busy k) (clock k) states older_than queue limit rows).0,
          removed + (prune_states (busy k) (clock k) states older_than queue limit rows).1,
        )
    last_batch k rows removed d room =
        let step = prune_states (busy k) (clock k) states older_than queue limit rows in
        let (le, total, sub, each, all) =
          prune_states-Pruned (busy k) (clock k) states older_than queue limit rows d in
        let keeps = Keeps-from states queue rows step.0 final (batch-each k rows d) in
        (
          batch-Distinct k rows d,
          omega (arith, total),
          sub,
          batch-each k rows d,
          λ r m free. elim (Bool-cases (prunable now states older_than queue step.0 r)) [
            | inr n ↦ n
            | inl y ↦
                let late =
                  prunable-later now (clock k) states older_than queue rows step.0 r (after k) keeps
                    y in
                let none_left = all room r m in let unlocked = free k in absurd (ground arith)
          ],
        )

    pub prune_all-Drained :
        (fuel k : ℕ) (rows : List Row) (removed : ℕ)
        → Distinct rows
        → length rows < fuel
        → (result : List Row × ℕ) × (prune_all fuel k rows removed ≡ some result)
          × Drained now busy states older_than queue rows removed result
    unfolding prune_all
    prune_all-Drained zero k rows removed d h = absurd (omega arith)
    prune_all-Drained (suc fuel) k rows removed d h =
        let step = prune_states (busy k) (clock k) states older_than queue limit rows in
        let (le, total, sub, each, all) =
          prune_states-Pruned (busy k) (clock k) states older_than queue limit rows d in
        let d' : Distinct step.0 = batch-Distinct k rows d in
        elim (Bool-cases (ltb step.1 limit)) [
          | inl last ↦ (
            (step.0, removed + step.1),
            rw last refl,
            last_batch k rows removed d (ltb→lt step.1 limit last),
          )
          | inr full ↦
              let shorter : length step.0 < fuel =
                omega (arith, total, h, not_less step.1 limit full, some_limit) in
              let (result, runs, drained) =
                prune_all-Drained fuel (suc k) step.0 (removed + step.1) d' shorter in
              (
                result,
                rw full runs,
                Drained-after now busy states older_than queue rows step.0 removed step.1 result
                    total sub (batch-each k rows d) drained,
              )
        ]
