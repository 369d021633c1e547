-- ===== src/Worker/Schedules.antt =====
-- `register_schedules` and `fire_due_schedules` of crates/gylo-worker/src/lib.rs, over the table of
-- schedules and the job table. `chars` gives the code points of a text that came as bytes; the clock of
-- the worker and that of the database are two arguments. A statement that fails leaves the tables as they are; which fail is an argument.
use gylo.Prelude.{
  ℕ, ◌≤◌, ◌<◌, ◌≡◌, refl, ap, ◌∙◌, inl, inr, Bool, true, false, List, [], ◌∷◌, Option, none, some,
  arith, Option-cases, if◌then◌else◌,
}
use gylo.Prelude.Results.{Result, ok, err, ◌>>=◌, Result-cases}
use gylo.Wire.Words.{Bytes}
use gylo.Wire.Message.{CronRegistration}
use gylo.Schedule.{Text, CronCrate, ScheduleError, Schedule, ok_or, parse, next_after}
use gylo.Pg.Row.{is_some}
use gylo.Pg.Enqueue.{Table}
use gylo.Pg.Cron.{CronEntry, CronRow, DueCron, upsert_cron, due_cron, fire_cron}
use gylo.Pg.Firing.{fire_cron-FiresOnce}
use Prim.Native.String.{String}

module _ (crate : CronCrate) (chars : Bytes → Text) where
  -- `Schedule::parse(..)` and then `next_after`.
  unfoldable pub next_run : Bytes → Bytes → ℕ → Result ScheduleError ℕ
  next_run expression timezone now = do
    schedule ← parse crate (chars expression) (chars timezone)
    next_after crate schedule now

  module _ (text : Bytes → String) where
    abbrev pub entry_of : CronRegistration → CronEntry
    entry_of e = record {
      name = e.name;
      queue = text e.queue;
      task = e.task;
      payload = e.payload;
      expression = e.expression;
      timezone = e.timezone;
    }

    -- One schedule that a child declared: `works` is whether the statement reaches the table.
    abbrev pub register_one :
        Bool → ℕ → CronRegistration → Result ScheduleError ℕ → List CronRow → List CronRow
    register_one works now entry (err e) rows = rows
    register_one works now entry (ok next) rows =
        if works then upsert_cron now (entry_of entry) next rows else rows

    unfoldable pub register_schedules :
        Bool → ℕ → ℕ → List CronRegistration → List CronRow → List CronRow
    register_schedules works utc now [] rows = rows
    register_schedules works utc now (e ∷ entries) rows =
        register_schedules works utc now entries
          (register_one works now e (next_run e.expression e.timezone utc) rows)

  -- One schedule that is due.
  abbrev pub fire_one :
      Bool
      → ℕ
      → DueCron
      → Result ScheduleError ℕ
      → List CronRow
      → Table
      → List CronRow × (Table × Option ℕ)
  fire_one works now due (err e) rows t = (rows, (t, none))
  fire_one works now due (ok next) rows t =
      if works then fire_cron now due.name next rows t else (rows, (t, none))

  unfoldable pub fire_each :
      (Bytes → Bool) → ℕ → ℕ → List DueCron → List CronRow → Table → List CronRow × Table
  fire_each works utc now [] rows t = (rows, t)
  fire_each works utc now (d ∷ due) rows t =
      let (rows', (t', job)) =
        fire_one (works d.name) now d (next_run d.expression d.timezone utc) rows t in
      fire_each works utc now due rows' t'

  unfoldable pub fire_due_schedules :
      (Bytes → Bool) → ℕ → ℕ → ℕ → List CronRow → Table → List CronRow × Table
  fire_due_schedules works utc now limit rows t =
      fire_each works utc now (due_cron now limit rows) rows t

  -- A firing that wins moves the schedule past the worker's clock.
  abbrev pub IsStrict : Type 0
  IsStrict =
      (cron : crate.Cron) (zone : crate.Tz) (at next : ℕ)
      → crate.after_next cron zone at ≡ some next
      → at < next

  next_after-later :
      IsStrict → (s : Schedule crate) (utc next : ℕ) → next_after crate s utc ≡ ok next → utc < next
  unfolding next_after ok_or
  next_after-later strict s utc next h = elim (Option-cases (crate.after_next s.cron s.zone utc)) [
    | inl never ↦ let clash = rw never at h in absurd (cc clash)
    | inr (at, found) ↦
        let answer : ok at ≡ ok next = rw found at h in
        let same : at ≡ next = cc answer in strict s.cron s.zone utc next (found ∙ ap some same)
  ]

  next_run-later :
      IsStrict
      → (expression timezone : Bytes) (utc next : ℕ) → next_run expression timezone utc ≡ ok next
      → utc < next
  unfolding next_run
  next_run-later strict expression timezone utc next h =
      elim (Result-cases (parse crate (chars expression) (chars timezone))) [
        | inl (s, parsed) ↦ next_after-later strict s utc next (rw parsed at h)
        | inr (e, failed) ↦ let clash = rw failed at h in absurd (cc clash)
      ]

  -- No job comes of an attempt, which leaves the job table as it is.
  abbrev pub FiresNone : Table → List CronRow × (Table × Option ℕ) → Type 0
  FiresNone t result = (is_some result.1.1 ≡ false) × (result.1.0 ≡ t)

  fire_cron-FiresNone :
      (now later : ℕ) (name : Bytes) (next next' : ℕ) (rows : List CronRow) (t : Table)
      → later < next
      → is_some (fire_cron now name next rows t).1.1 ≡ true
      → FiresNone (fire_cron now name next rows t).1.0 (
          fire_cron later name next'
            (fire_cron now name next rows t).0
            (fire_cron now name next rows t).1.0)
  fire_cron-FiresNone now later name next next' rows t early won =
      let (again, unchanged) = fire_cron-FiresOnce now later name next next' rows t won in
      (again ∙ ground arith, unchanged early)

  attempt-FiresNone :
      (works' : Bool) (now later : ℕ) (due due' : DueCron) (next : ℕ)
      (next' : Result ScheduleError ℕ) (rows : List CronRow) (t : Table)
      → due'.name ≡ due.name
      → later < next
      → is_some (fire_cron now due.name next rows t).1.1 ≡ true
      → FiresNone (fire_cron now due.name next rows t).1.0 (
          fire_one works' later due' next'
            (fire_cron now due.name next rows t).0
            (fire_cron now due.name next rows t).1.0)
  attempt-FiresNone works' now later due due' next (err e) rows t named early won = (refl, refl)
  attempt-FiresNone false now later due due' next (ok next') rows t named early won = (refl, refl)
  attempt-FiresNone true now later due due' next (ok next') rows t named early won =
      rw named (fire_cron-FiresNone now later due.name next next' rows t early won)

  -- If the cron library gives only later instants, then once a worker has fired a due schedule, no
  -- attempt at the same schedule, by any worker, fires it again or changes the job table at a time
  -- of the database up to the first worker's clock.
  pub fire_one-FiresNone :
      IsStrict
      → (works' : Bool) (utc now later : ℕ) (due due' : DueCron) (next' : Result ScheduleError ℕ)
        (rows : List CronRow) (t : Table)
      → due'.name ≡ due.name
      → later ≤ utc
      → is_some (fire_one true now due (next_run due.expression due.timezone utc) rows t).1.1 ≡ true
      → FiresNone (fire_one true now due (next_run due.expression due.timezone utc) rows t).1.0 (
          fire_one works' later due' next'
            (fire_one true now due (next_run due.expression due.timezone utc) rows t).0
            (fire_one true now due (next_run due.expression due.timezone utc) rows t).1.0)
  fire_one-FiresNone strict works' utc now later due due' next' rows t named le won =
      elim (Result-cases (next_run due.expression due.timezone utc)) [
        | inl (next, found) ↦
            let past = next_run-later strict due.expression due.timezone utc next found in
            let won' : is_some (fire_cron now due.name next rows t).1.1 ≡ true = rw found at won in
            rw found (
              attempt-FiresNone works' now later due due' next next' rows t named
                (omega (arith, past, le)) won')
        | inr (e, failed) ↦ let clash = rw failed at won in absurd (cc clash)
      ]
