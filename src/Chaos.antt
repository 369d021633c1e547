-- ===== src/Chaos.antt =====
-- The judgements of crates/gylo-chaos/src/main.rs: what it reads off the ledger of the tasks and off the
-- samples of the table, and the verdict. Workers, signals and the container are not modelled. A line of
-- the ledger is what `parse` gives for it, a marker known by its number or nothing.
pub mod Evidence
mod Tests
use gylo.Prelude.{
  ℕ, zero, suc, ◌+◌, ◌-◌, Bool, true, false, not, ◌&&◌, ◌||◌, List, [], ◌∷◌, Option, none, some,
  length, max, ltb, ◌==◌, if◌then◌else◌,
}
use gylo.Prelude.Int.{ℤ, pos, negsuc}

pub data Verdict : Type 0 where
  pass fail inconclusive : Verdict

-- `Outcome`, less the texts that are printed.
pub record Judged : Type 0 where
  pub faults : ℕ
  pub outstanding_at_fault : List ℕ
  pub settled : Bool

-- `*counts.entry(marker).or_insert(0) += 1`.
unfoldable pub bump : ℕ → List (ℕ × ℕ) → List (ℕ × ℕ)
bump marker [] = (marker, 1) ∷ []
bump marker (c ∷ counts) =
    let rest = c ∷ bump marker counts in if c.0 == marker then (c.0, c.1 + 1) ∷ counts else rest

unfoldable pub count_lines : List (Option ℕ) → List (ℕ × ℕ) → List (ℕ × ℕ)
count_lines [] counts = counts
count_lines (none ∷ lines) counts = count_lines lines counts
count_lines (some marker ∷ lines) counts = count_lines lines (bump marker counts)

unfoldable pub ledger_counts : List (Option ℕ) → List (ℕ × ℕ)
ledger_counts lines = count_lines lines []

unfoldable pub runs_of : List (ℕ × ℕ) → ℕ
runs_of [] = 0
runs_of (c ∷ counts) = c.1 + runs_of counts

unfoldable pub repeats_of : List (ℕ × ℕ) → ℕ
repeats_of [] = 0
repeats_of (c ∷ counts) = (if ltb 1 c.1 then 1 else 0) + repeats_of counts

unfoldable pub most : List ℕ → ℕ
most [] = 0
most (n ∷ ns) = max n (most ns)

-- The numbers of a report.
pub record Report : Type 0 where
  pub lost : ℕ
  pub duplicated : ℕ
  pub total_runs : ℕ
  pub interrupted : ℕ
  pub verdict : Verdict

abbrev pub verdict_of : Judged → ℕ → ℕ → Verdict
verdict_of o lost interrupted =
    if not o.settled || ltb 0 lost
    then fail
    else if o.faults == 0 || interrupted == 0
    then inconclusive
    else pass

-- `report`. The subtraction does not go below 0 while the ledger has no marker but those of the jobs.
unfoldable pub report : ℕ → List (Option ℕ) → Judged → Report
report jobs lines o =
    let counts = ledger_counts lines in
    let lost = jobs - length counts in
    record {
      lost = lost;
      duplicated = repeats_of counts;
      total_runs = runs_of counts;
      interrupted = most o.outstanding_at_fault;
      verdict = verdict_of o lost (most o.outstanding_at_fault);
    }

-- `wait_until_busy`, over the samples taken before its deadline; a failed query gives -1.
unfoldable pub wait_until_busy : ℕ → List ℤ → Option ℕ
wait_until_busy total [] = none
wait_until_busy total (negsuc n ∷ samples) = wait_until_busy total samples
wait_until_busy total (pos zero ∷ samples) = none
wait_until_busy total (pos (suc left) ∷ samples) =
    let rest = wait_until_busy total samples in
    if ltb (suc left) total then some (suc left) else rest

-- `settle`, over the samples taken before its deadline.
unfoldable pub settle_samples : List ℤ → Bool
settle_samples [] = false
settle_samples (pos zero ∷ samples) = true
settle_samples (_ ∷ samples) = settle_samples samples

abbrev pub has_passed : Verdict → Bool
has_passed pass = true
has_passed _ = false

-- `verdicts.iter().any(..)`: the exit code of the program.
unfoldable pub exit_code : List Verdict → ℕ
exit_code [] = 0
exit_code (v ∷ verdicts) = let rest = exit_code verdicts in if has_passed v then rest else 1
