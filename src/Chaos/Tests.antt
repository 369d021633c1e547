-- ===== src/Chaos/Tests.antt =====
-- The theorem on crates/gylo-chaos/src/main.rs at a concrete ledger.
use gylo.Prelude.{ℕ, ◌<◌, ◌≡◌, refl, true, List, [], ◌∷◌, Option, none, some, arith}
use gylo.Chaos.{Judged, pass, report, ledger_counts, count_lines, bump, most}
use gylo.Chaos.Evidence.{has_run, Shown, report-Shown}

abbrev two_runs : List (Option ℕ)
two_runs = some 1 ∷ none ∷ some 0 ∷ some 1 ∷ []

abbrev one_fault : Judged
one_fault = record { faults = 1; outstanding_at_fault = 2 ∷ []; settled = true }

known : (m : ℕ) → has_run m two_runs ≡ true → m < 2
unfolding has_run
known m h = ground arith

passes : (report 2 two_runs one_fault).verdict ≡ pass
unfolding report ledger_counts count_lines bump most
passes = refl

report-Shown_example : Shown 2 two_runs one_fault
report-Shown_example = report-Shown 2 two_runs one_fault known passes
