-- ===== src/Pg/Firing.antt =====
-- Schedules of crates/gylo-pg/src/lib.rs: an occurrence is fired once, and a restart keeps what is stored.
use gylo.Prelude.{
  ℕ, ◌<◌, ◌≡◌, refl, sym, subst, ◌∙◌, inl, inr, true, false, List, [], ◌∷◌, Option, none, some,
  arith, Bool-cases, leb, if◌then◌else◌,
}
use gylo.Wire.Words.{Bytes}
use gylo.Pg.Row.{is_some}
use gylo.Pg.Enqueue.{Table}
use gylo.Pg.Cron.{
  CronEntry, CronRow, eq_bytes, renewed_cron, upsert_cron, is_ripe, win_cron, fire_cron,
  enqueue_won,
}

-- A row that was won once is won again exactly if its next run is not in the future.
win_cron-again :
    (now later : ℕ) (name : Bytes) (next next' : ℕ) (rows : List CronRow)
    → is_some (win_cron now name next rows).1 ≡ true
    → is_some (win_cron later name next' (win_cron now name next rows).0).1 ≡ leb next later
unfolding win_cron
win_cron-again now later name next next' [] h = cc h
win_cron-again now later name next next' (r ∷ rows) h =
    elim (Bool-cases (eq_bytes r.entry.name name)) [
      | inl named ↦ elim (Bool-cases (is_ripe now r)) [
        | inl ripe ↦
            let unpaused : r.paused ≡ false = ground arith in
            rw (named, ripe)
              (rw (named, unpaused)
                (elim (Bool-cases (leb next later)) [
                  | inl reached ↦ rw reached refl
                  | inr ahead ↦ rw ahead refl
                ]))
        | inr early ↦ let no : false ≡ true = rw (named, early) at h in cc no
      ]
      | inr other ↦
          let h' : is_some (win_cron now name next rows).1 ≡ true = rw other at h in
          rw other (rw other (win_cron-again now later name next next' rows h'))
    ]

enqueue_won-is_some :
    (now : ℕ) (won : Option CronEntry) (t : Table) → is_some (enqueue_won now won t).1 ≡ is_some won
unfolding enqueue_won
enqueue_won-is_some now none t = refl
enqueue_won-is_some now (some entry) t = refl

enqueue_won-none :
    (now : ℕ) (won : Option CronEntry) (t : Table)
    → is_some won ≡ false
    → (enqueue_won now won t).0 ≡ t
unfolding enqueue_won
enqueue_won-none now none t h = refl
enqueue_won-none now (some entry) t h = cc h

-- What a second attempt to fire a schedule does, after one that won.
abbrev pub FiresOnce : ℕ → Bytes → ℕ → ℕ → List CronRow × (Table × Option ℕ) → Type 0
FiresOnce later name next next' first =
    (is_some (fire_cron later name next' first.0 first.1.0).1.1 ≡ leb next later)
    × (later < next → (fire_cron later name next' first.0 first.1.0).1.0 ≡ first.1.0)

-- After a firing that won, a later attempt wins exactly if the next run has come, and one that comes too
-- early leaves the job table as it is.
pub fire_cron-FiresOnce :
    (now later : ℕ) (name : Bytes) (next next' : ℕ) (rows : List CronRow) (t : Table)
    → is_some (fire_cron now name next rows t).1.1 ≡ true
    → FiresOnce later name next next' (fire_cron now name next rows t)
unfolding fire_cron
fire_cron-FiresOnce now later name next next' rows t h =
    let first = win_cron now name next rows in
    let won : is_some first.1 ≡ true = sym (enqueue_won-is_some now first.1 t) ∙ h in
    let again = win_cron-again now later name next next' rows won in
    (
      enqueue_won-is_some later (win_cron later name next' first.0).1 _ ∙ again,
      λ early.
          enqueue_won-none later (win_cron later name next' first.0).1 _ (again ∙ ground arith),
    )

unfoldable pub find_cron : Bytes → List CronRow → Option CronRow
find_cron name [] = none
find_cron name (r ∷ rows) = if eq_bytes r.entry.name name then some r else find_cron name rows

-- What a restart keeps of a stored schedule: the pause, the last run, and the next run unless the timing changed.
abbrev pub Kept : CronEntry → CronRow → CronRow → Type 0
Kept entry r s =
    (s.paused ≡ r.paused)
    × (s.last_run_at ≡ r.last_run_at)
    × (eq_bytes r.entry.expression entry.expression ≡ true
        → eq_bytes r.entry.timezone entry.timezone ≡ true
        → s.next_run_at ≡ r.next_run_at)

renewed_cron-Kept :
    (now : ℕ) (entry : CronEntry) (next : ℕ) (r : CronRow)
    → Kept entry r (renewed_cron now entry next r)
unfolding renewed_cron
renewed_cron-Kept now entry next r = (refl, refl, λ text zone. rw (text, zone) refl)

-- Registering a schedule that is stored under its name keeps the pause and the last run, and keeps
-- the next run unless the expression or the zone is another.
pub upsert_cron-Kept :
    (now : ℕ) (entry : CronEntry) (next : ℕ) (rows : List CronRow) (r : CronRow)
    → find_cron entry.name rows ≡ some r
    → (s : CronRow) × (find_cron entry.name (upsert_cron now entry next rows) ≡ some s)
      × Kept entry r s
unfolding find_cron upsert_cron renewed_cron
upsert_cron-Kept now entry next [] r h = cc h
upsert_cron-Kept now entry next (x ∷ rows) r h =
    elim (Bool-cases (eq_bytes x.entry.name entry.name)) [
      | inl named ↦
          let h' : some x ≡ some r = rw named at h in
          let same : x ≡ r = cc h' in
          (
            renewed_cron now entry next x,
            rw named (rw named refl),
            subst (λ (y : CronRow). Kept entry y (renewed_cron now entry next x)) same
                (renewed_cron-Kept now entry next x),
          )
      | inr other ↦
          let h' : find_cron entry.name rows ≡ some r = rw other at h in
          let (s, found, kept) = upsert_cron-Kept now entry next rows r h' in
          (s, rw other (rw other found), kept)
    ]
