-- ===== src/Chaos/Evidence.antt =====
-- What a verdict of crates/gylo-chaos/src/main.rs is evidence of.
use gylo.Prelude.{
  ℕ, zero, suc, ◌+◌, ◌-◌, ◌≤◌, ◌<◌, ◌≡◌, refl, sym, subst, ◌∙◌, inl, inr, Bool, true, false, not,
  ◌||◌, List, [], ◌∷◌, Option, none, some, length, ltb, ◌==◌, arith, Bool-cases,
}
use gylo.Pg.Row.{any_id}
use gylo.Worker.InFlight.{IsUnique, remove_id, any_id-remove_id, remove_id-IsUnique}
use gylo.Chaos.{
  pass, fail, inconclusive, Judged, bump, count_lines, ledger_counts, most, verdict_of, report,
}

abbrev pub markers : List (ℕ × ℕ) → List ℕ
markers [] = []
markers (c ∷ counts) = c.0 ∷ markers counts

-- The marker stands on a line of the ledger.
abbrev pub is_line : ℕ → Option ℕ → Bool
is_line m none = false
is_line m (some marker) = marker == m

unfoldable pub has_run : ℕ → List (Option ℕ) → Bool
has_run m [] = false
has_run m (line ∷ lines) = is_line m line || has_run m lines

any_id-bump :
    (m marker : ℕ) (counts : List (ℕ × ℕ))
    → any_id m (markers (bump marker counts)) ≡ (marker == m || any_id m (markers counts))
unfolding any_id bump
any_id-bump m marker [] = ground arith
any_id-bump m marker (c ∷ counts) = elim (Bool-cases (c.0 == marker)) [
  | inl same ↦
      let equal : c.0 ≡ marker = ground arith in
      rw same (
        subst
          (λ (x : ℕ).
            (c.0 == m || any_id m (markers counts))
            ≡ (x == m || (c.0 == m || any_id m (markers counts))))
          equal (ground arith))
  | inr other ↦ rw other (ground (arith, any_id-bump m marker counts))
]

bump-IsUnique :
    (marker : ℕ) (counts : List (ℕ × ℕ))
    → IsUnique (markers counts)
    → IsUnique (markers (bump marker counts))
unfolding any_id bump
bump-IsUnique marker [] d = (refl, tt)
bump-IsUnique marker (c ∷ counts) (new, d) = elim (Bool-cases (c.0 == marker)) [
  | inl same ↦ rw same (new, d)
  | inr other ↦
      rw other (ground (arith, any_id-bump c.0 marker counts, new), bump-IsUnique marker counts d)
]

any_id-count_lines :
    (m : ℕ) (lines : List (Option ℕ)) (counts : List (ℕ × ℕ))
    → any_id m (markers (count_lines lines counts)) ≡ (has_run m lines || any_id m (markers counts))
unfolding count_lines has_run
any_id-count_lines m [] counts = refl
any_id-count_lines m (none ∷ lines) counts = any_id-count_lines m lines counts
any_id-count_lines m (some marker ∷ lines) counts =
    ground (arith, any_id-count_lines m lines (bump marker counts), any_id-bump m marker counts)

count_lines-IsUnique :
    (lines : List (Option ℕ)) (counts : List (ℕ × ℕ))
    → IsUnique (markers counts)
    → IsUnique (markers (count_lines lines counts))
unfolding count_lines
count_lines-IsUnique [] counts d = d
count_lines-IsUnique (none ∷ lines) counts d = count_lines-IsUnique lines counts d
count_lines-IsUnique (some marker ∷ lines) counts d =
    count_lines-IsUnique lines (bump marker counts) (bump-IsUnique marker counts d)

length-markers : (counts : List (ℕ × ℕ)) → length (markers counts) ≡ length counts
length-markers [] = refl
length-markers (c ∷ counts) = omega (arith, length-markers counts)

remove_id-absent : (x : ℕ) (xs : List ℕ) → any_id x xs ≡ false → length (remove_id x xs) ≡ length xs
unfolding remove_id any_id
remove_id-absent x [] h = refl
remove_id-absent x (y ∷ xs) h = ground (arith, remove_id-absent x xs)

length-remove_id : (x : ℕ) (xs : List ℕ) → IsUnique xs → length xs ≤ length (remove_id x xs) + 1
unfolding remove_id
length-remove_id x [] d = omega arith
length-remove_id x (y ∷ xs) (new, d) = elim (Bool-cases (y == x)) [
  | inl same ↦
      let equal : y ≡ x = ground arith in
      let gone = remove_id-absent x xs (subst (λ (z : ℕ). any_id z xs ≡ false) equal new) in
      rw same (omega (arith, gone))
  | inr other ↦ rw other (omega (arith, length-remove_id x xs d))
]

-- No more different numbers are below a bound than the bound says.
length_bounded :
    (n : ℕ) (xs : List ℕ) → IsUnique xs → ((y : ℕ) → any_id y xs ≡ true → y < n) → length xs ≤ n
unfolding any_id
length_bounded zero [] d low = omega arith
length_bounded zero (x ∷ xs) d low = let none_below = low x (ground arith) in absurd (omega arith)
length_bounded (suc n) xs d low =
    let low' : (y : ℕ) → any_id y (remove_id n xs) ≡ true → y < n = λ y seen.
      let kept = any_id-remove_id y n xs in
      let there : any_id y xs ≡ true = ground arith in let bound = low y there in ground arith in
    omega (
      arith,
      length-remove_id n xs d,
      length_bounded n (remove_id n xs) (remove_id-IsUnique n xs d) low',
    )

-- Different numbers below a bound, as many as the bound, are all of them.
pigeonhole :
    (n : ℕ) (xs : List ℕ)
    → IsUnique xs
    → ((y : ℕ) → any_id y xs ≡ true → y < n)
    → n ≤ length xs
    → (m : ℕ) → m < n
    → any_id m xs ≡ true
unfolding any_id
pigeonhole n xs d low many m h = elim (Bool-cases (any_id m xs)) [
  | inl seen ↦ seen
  | inr new ↦
      let low' : (y : ℕ) → any_id y (m ∷ xs) ≡ true → y < n = λ y seen. elim (Bool-cases (m == y)) [
        | inl same ↦ ground arith
        | inr other ↦ low y (ground arith)
      ] in
      absurd (omega (arith, many, length_bounded n (m ∷ xs) (new, d) low'))
]

-- What stands behind a verdict that passes.
abbrev pub Shown : ℕ → List (Option ℕ) → Judged → Type 0
Shown jobs lines o =
    (o.settled ≡ true)
    × (1 ≤ o.faults)
    × (1 ≤ most o.outstanding_at_fault)
    × ((m : ℕ) → m < jobs → has_run m lines ≡ true)

verdict_of-pass :
    (o : Judged) (lost interrupted : ℕ)
    → verdict_of o lost interrupted ≡ pass
    → (o.settled ≡ true) × (1 ≤ o.faults) × (1 ≤ interrupted) × (lost ≡ 0)
verdict_of-pass o lost interrupted h = elim (Bool-cases (not o.settled || ltb 0 lost)) [
  | inl bad ↦ let clash : fail ≡ pass = rw bad at h in absurd (cc clash)
  | inr good ↦ elim (Bool-cases (o.faults == 0 || interrupted == 0)) [
    | inl idle ↦ let clash : inconclusive ≡ pass = rw (good, idle) at h in absurd (cc clash)
    | inr hit ↦ (ground arith, ground arith, ground arith, ground arith)
  ]
]

-- If the ledger names no marker but those of the jobs, a verdict that passes shows that the jobs
-- settled, that a fault was made while jobs were outstanding, and that every job has run.
pub report-Shown :
    (jobs : ℕ) (lines : List (Option ℕ)) (o : Judged)
    → ((m : ℕ) → has_run m lines ≡ true → m < jobs)
    → (report jobs lines o).verdict ≡ pass
    → Shown jobs lines o
unfolding report ledger_counts any_id
report-Shown jobs lines o known h =
    let counts = count_lines lines [] in
    let (settled, faults, hit, none_lost) =
      verdict_of-pass o (jobs - length counts) (most o.outstanding_at_fault) h in
    let ran : (m : ℕ) → any_id m (markers counts) ≡ has_run m lines =
      λ m. any_id-count_lines m lines [] ∙ ground arith in
    (
      settled,
      faults,
      hit,
      λ m low.
          sym (ran m)
          ∙ pigeonhole jobs (markers counts) (count_lines-IsUnique lines [] tt)
              (λ y seen. known y (sym (ran y) ∙ seen))
              (omega (arith, none_lost, length-markers counts)) m low,
    )
