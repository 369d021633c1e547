-- ===== src/Worker/Retained.antt =====
-- A tick of `retain` in crates/gylo-worker/src/lib.rs ends, and takes no job that waits or runs.
use gylo.Prelude.{
  ℕ, zero, suc, ◌+◌, ◌≤◌, ◌<◌, ◌≡◌, refl, inl, inr, Bool, false, not, ◌&&◌, List, Option, none,
  some, arith, length, ltb, leb, Bool-cases,
}
use Prim.Native.String.{String}
use gylo.Pg.Row.{Row, JobState}
use gylo.Pg.Ids.{In, Distinct}
use gylo.Pg.Retention.{well, dead, prune_states, delete_ids}
use gylo.Pg.Ended.{Distinct-rows_where}
use gylo.Pg.Pruning.{prune_states-Pruned}
use gylo.Pg.Live.{Keeps, prunable-any_state}
use gylo.Pg.Drain.{not_less, AreOver, Keeps-from, well-AreOver, dead-AreOver}
use gylo.Worker.Maintenance.{
  tick_budget, Retaining, is_last, retain_loop, retain_dead, retain_workflows, retain_tick,
}

-- What a tick of `retain` leaves: every job that waits or runs, and a true count.
abbrev pub Retained : List Row → ℕ → List Row × ℕ → Type 0
Retained rows removed result =
    Distinct result.0
    × Keeps rows result.0
    × ((r : Row) → In r result.0 → In r rows)
    × (length result.0 + result.1 ≡ length rows + removed)

module _ (busy : ℕ → Bool) (now : ℕ) (states : List JobState) (older_than : ℕ)
    (queue : Option String) (limit : ℕ) where
  prune_states-Retained :
      (rows : List Row) (removed : ℕ)
      → AreOver states
      → Distinct rows
      → Retained rows removed (
        (prune_states busy now states older_than queue limit rows).0,
        removed + (prune_states busy now states older_than queue limit rows).1,
      )
  unfolding prune_states delete_ids
  prune_states-Retained rows removed final d =
      let (le, total, sub, each, all) =
        prune_states-Pruned busy now states older_than queue limit rows d in
      (
        Distinct-rows_where _ rows d,
        Keeps-from states queue rows _ final (λ r m. elim (each r m) [
          | inl stays ↦ inl stays
          | inr over ↦
              inr (prunable-any_state now states older_than queue rows r (not (busy r.id)) over)
        ]),
        sub,
        omega (arith, total),
      )

Retained-trans :
    (rows left : List Row) (removed more : ℕ) (result : List Row × ℕ)
    → Retained rows removed (left, more)
    → Retained left more result
    → Retained rows removed result
Retained-trans rows left removed more result (d, keeps, sub, total) (d', keeps', sub', total') = (
  d',
  (λ r m u. keeps' r (keeps r m u) u),
  (λ r m. sub r (sub' r m)),
  omega (arith, total, total'),
)

module _ (c : Retaining) (some_batch : 1 ≤ c.prune_batch) where
  -- The loop ends with fuel for every row.
  retain_loop-Retained :
      (fuel k : ℕ) (rows : List Row) (removed : ℕ)
      → Distinct rows
      → length rows < fuel
      → (result : List Row × ℕ) × (retain_loop c fuel k rows removed ≡ some result)
        × Retained rows removed result
  unfolding retain_loop
  retain_loop-Retained zero k rows removed d h = absurd (omega arith)
  retain_loop-Retained (suc fuel) k rows removed d h =
      let step =
        prune_states (c.busy k) (c.clock k) well c.retain_completed none c.prune_batch rows in
      let kept =
        prune_states-Retained (c.busy k) (c.clock k) well c.retain_completed none c.prune_batch rows
          removed well-AreOver d in
      elim (Bool-cases (c.fails k)) [
        | inl failed ↦ ((rows, removed), rw failed refl, (d, (λ r m u. m), (λ r m. m), omega arith))
        | inr works ↦ elim (Bool-cases (is_last c k step.1)) [
          | inl last ↦ ((step.0, removed + step.1), rw (works, last) refl, kept)
          | inr full ↦
              let whole : ltb step.1 c.prune_batch ≡ false = ground arith in
              let total = kept.3 in
              let shorter : length step.0 < fuel =
                omega (arith, total, h, some_batch, not_less step.1 c.prune_batch whole) in
              let (result, runs, rest) =
                retain_loop-Retained fuel (suc k) step.0 (removed + step.1) kept.0 shorter in
              (
                result,
                rw (works, full) runs,
                Retained-trans rows step.0 removed (removed + step.1) result kept rest,
              )
        ]
      ]

  retain_dead-Retained :
      (k : ℕ) (rows : List Row) (removed : ℕ)
      → Distinct rows
      → Retained rows removed (retain_dead c k (rows, removed))
  retain_dead-Retained k rows removed d =
      elim (Bool-cases (leb (c.elapsed k) tick_budget && not (c.fails k))) [
        | inl runs ↦ rw runs (
            prune_states-Retained (c.busy k) (c.clock k) dead c.retain_discarded none c.prune_batch
              rows removed dead-AreOver d)
        | inr skipped ↦ rw skipped (d, (λ r m u. m), (λ r m. m), omega arith)
      ]

  -- In a table of distinct ids, with a batch of one at least and more rounds than rows, a tick of
  -- retain ends, whatever statements fail and however long they take; it takes no job that waits or
  -- runs, and counts exactly the jobs that it takes.
  pub retain_tick-Retained :
      (fuel last : ℕ) (works : Bool) (rows : List Row) (workflows : List ℕ)
      → Distinct rows
      → length rows < fuel
      → (result : (List Row × ℕ) × List ℕ) × (retain_tick c fuel last works rows workflows
          ≡ some result)
        × Retained rows 0 result.0
  unfolding retain_tick
  retain_tick-Retained fuel last works rows workflows d h =
      let (first, runs, kept) = retain_loop-Retained fuel 0 rows 0 d h in
      (
        (retain_dead c last first, retain_workflows works (retain_dead c last first) workflows),
        rw runs refl,
        Retained-trans rows first.0 0 first.1 (retain_dead c last first) kept
            (retain_dead-Retained last first.0 first.1 kept.0),
      )
