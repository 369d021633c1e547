-- ===== src/Pg/Cron.antt =====
-- Schedules: `upsert_cron`, `due_cron` and `fire_cron` of crates/gylo-pg/src/lib.rs. An instant is a number
-- of microseconds; names, tasks and expressions are bytes, as they come over the wire.
use gylo.Prelude.{
  ℕ, ◌≡◌, refl, Bool, true, false, not, ◌&&◌, ◌||◌, List, [], ◌∷◌, map, Option, none, some, arith,
  take, leb, ◌==◌, if◌then◌else◌,
}
use gylo.Wire.Words.{Bytes}
use Prim.Native.String.{String}
use gylo.Pg.Enqueue.{Table, new_job, on_queue, enqueue}

unfoldable pub eq_bytes : Bytes → Bytes → Bool
eq_bytes [] [] = true
eq_bytes (a ∷ as') (b ∷ bs) = a == b && eq_bytes as' bs
eq_bytes _ _ = false

pub eq_bytes_refl : (a : Bytes) → eq_bytes a a ≡ true
unfolding eq_bytes
eq_bytes_refl [] = refl
eq_bytes_refl (x ∷ xs) = ground (arith, eq_bytes_refl xs)

-- `CronEntry`.
pub record CronEntry : Type 0 where
  pub name : Bytes
  pub queue : String
  pub task : Bytes
  pub payload : Bytes
  pub expression : Bytes
  pub timezone : Bytes

-- A row of `gylo_cron`.
pub record CronRow : Type 0 where
  pub entry : CronEntry
  pub paused : Bool
  pub next_run_at : ℕ
  pub last_run_at : Option ℕ
  pub updated_at : ℕ

-- What UPSERT_CRON makes of a row with the name.
unfoldable pub renewed_cron : ℕ → CronEntry → ℕ → CronRow → CronRow
renewed_cron now entry next r = record r {
  entry = record entry { name = r.entry.name };
  next_run_at =
      if not (eq_bytes r.entry.expression entry.expression)
        || not (eq_bytes r.entry.timezone entry.timezone)
      then next
      else r.next_run_at;
  updated_at = now;
}

unfoldable pub new_cron : ℕ → CronEntry → ℕ → CronRow
new_cron now entry next = record {
  entry = entry;
  paused = false;
  next_run_at = next;
  last_run_at = none;
  updated_at = now;
}

-- `upsert_cron`: the name is the key of the table.
unfoldable pub upsert_cron : ℕ → CronEntry → ℕ → List CronRow → List CronRow
unfolding renewed_cron new_cron
upsert_cron now entry next [] = new_cron now entry next ∷ []
upsert_cron now entry next (r ∷ rows) =
    let rest = r ∷ upsert_cron now entry next rows in
    if eq_bytes r.entry.name entry.name then renewed_cron now entry next r ∷ rows else rest

-- `NOT paused AND next_run_at <= now()`.
abbrev pub is_ripe : ℕ → CronRow → Bool
is_ripe now r = not r.paused && leb r.next_run_at now

-- `DueCron`.
pub record DueCron : Type 0 where
  pub name : Bytes
  pub expression : Bytes
  pub timezone : Bytes

-- `ORDER BY next_run_at`; rows at one instant stay in the order in which they are stored.
unfoldable pub insert_cron : CronRow → List CronRow → List CronRow
insert_cron r [] = r ∷ []
insert_cron r (s ∷ rows) =
    let later = s ∷ insert_cron r rows in
    if leb r.next_run_at s.next_run_at then r ∷ s ∷ rows else later

unfoldable pub ripe_in_order : ℕ → List CronRow → List CronRow
ripe_in_order now [] = []
ripe_in_order now (r ∷ rows) =
    let rest = ripe_in_order now rows in if is_ripe now r then insert_cron r rest else rest

abbrev pub due_of : CronRow → DueCron
due_of r = record {
  name = r.entry.name;
  expression = r.entry.expression;
  timezone = r.entry.timezone;
}

unfoldable pub due_cron : ℕ → ℕ → List CronRow → List DueCron
due_cron now limit rows = map due_of (take limit (ripe_in_order now rows))

-- `won` of FIRE_CRON: the rows after it, and the entry of the row that it moved.
unfoldable pub win_cron : ℕ → Bytes → ℕ → List CronRow → List CronRow × Option CronEntry
win_cron now name next [] = ([], none)
win_cron now name next (r ∷ rows) =
    let (rest, won) = win_cron now name next rows in
    if eq_bytes r.entry.name name
    then (if is_ripe now r
        then (record r { next_run_at = next; last_run_at = some now } ∷ rows, some r.entry)
        else (r ∷ rows, none))
    else (r ∷ rest, won)

-- The job of FIRE_CRON, with its id.
unfoldable pub enqueue_won : ℕ → Option CronEntry → Table → Table × Option ℕ
enqueue_won now none t = (t, none)
enqueue_won now (some entry) t =
    let (t', id) = enqueue now (on_queue (new_job entry.task entry.payload) entry.queue) t in
    (t', some id)

-- `fire_cron`, with the id of the job that it enqueues.
unfoldable pub fire_cron : ℕ → Bytes → ℕ → List CronRow → Table → List CronRow × (Table × Option ℕ)
fire_cron now name next rows t =
    let (rows', won) = win_cron now name next rows in (rows', enqueue_won now won t)
