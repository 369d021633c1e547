-- ===== src/Cli/Show.antt =====
-- `show_queues` and `retry_failed` of crates/gylo-cli/src/main.rs, less the printing.
use gylo.Prelude.{
  ℕ, suc, ◌+◌, ◌≡◌, sym, ◌∙◌, Bool, ◌&&◌, List, [], ◌∷◌, Option, none, some, arith, length,
}
use gylo.Pg.Row.{Row, any_queue}
use gylo.Pg.Count.{count}
use gylo.Pg.Retention.{is_unfinished}
use gylo.Pg.Settle.{retry_discarded}
use gylo.Pg.Listing.{Depth, depth, queues}
use gylo.Pg.Backlog.{
  all_of, AreDifferent, depth-named, count_none, count_covered, queues-AreDifferent, queues-covers,
}
use Prim.Native.String.{String}

-- The lines of the listing. Each is a statement of its own, with the clock that it finds.
unfoldable pub show_each : (ℕ → ℕ) → ℕ → List String → List Row → List (String × Depth)
show_each clock k [] rows = []
show_each clock k (q ∷ names) rows =
    (q, depth (clock k) q rows) ∷ show_each clock (suc k) names rows

-- `match queue`.
unfoldable pub names_shown : (String → String → Bool) → Option String → List Row → List String
names_shown before none rows = queues before rows
names_shown before (some queue) rows = queue ∷ []

unfoldable pub show_queues :
    (String → String → Bool) → (ℕ → ℕ) → Option String → List Row → List (String × Depth)
show_queues before clock queue rows = show_each clock 0 (names_shown before queue rows) rows

-- `retry_failed`: no ids mean all of them. What is printed is the number.
unfoldable pub retry_failed : ℕ → List ℕ → Option String → List Row → List Row × ℕ
retry_failed now [] queue rows =
    let (rows', ids) = retry_discarded now none queue rows in (rows', length ids)
retry_failed now (x ∷ ids) queue rows =
    let (rows', retried) = retry_discarded now (some (x ∷ ids)) queue rows in
    (rows', length retried)

-- What the columns of the listing add up to.
abbrev pub shown : List (String × Depth) → ℕ
shown [] = 0
shown (line ∷ lines) = all_of line.1 + shown lines

show_each-count :
    (clock : ℕ → ℕ) (k : ℕ) (names : List String) (rows : List Row)
    → AreDifferent names
    → shown (show_each clock k names rows)
      ≡ count (λ r. any_queue r.queue names && is_unfinished r.state) rows
unfolding show_each any_queue
show_each-count clock k [] rows d = sym (count_none rows)
show_each-count clock k (q ∷ names) rows (new, d) =
    omega
      (arith, show_each-count clock (suc k) names rows d, depth-named (clock k) q names rows new)

-- The columns of the listing of all queues add up to the number of jobs in the table that wait or
-- run: none is left out and none is counted twice, whatever the clocks of the statements.
pub show_queues-count :
    (before : String → String → Bool) (clock : ℕ → ℕ) (rows : List Row)
    → shown (show_queues before clock none rows) ≡ count (λ r. is_unfinished r.state) rows
unfolding show_queues names_shown
show_queues-count before clock rows =
    show_each-count clock 0 (queues before rows) rows (queues-AreDifferent before rows)
    ∙ count_covered (queues before rows) rows (queues-covers before rows)
