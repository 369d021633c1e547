-- ===== src/Redis/Backend.antt =====
-- The scripts and methods of `Backend` in crates/gylo-redis/src/lib.rs. A script runs to completion alone,
-- and so does an atomic pipe; where a method sends more than one, what others do between is an argument.
-- The clock is an argument as well, and so are the MessagePack functions for `Stored`.
use gylo.Prelude.{
  ℕ, zero, suc, ◌+◌, ◌-◌, Bool, false, List, [], ◌∷◌, ◌++◌, Option, none, some, length, take, ltb,
  if◌then◌else◌,
}
use gylo.Prelude.Int.{ℤ, pos, negsuc}
use gylo.Prelude.Results.{Result, ok, err, ◌>>=◌}
use gylo.Wire.Words.{Bytes}
use gylo.Pg.Row.{is_some}
use gylo.Pg.Fetch.{Job}
use gylo.Redis.Zset.{Entry, zrem, zrem_all, zscore, zcard, due_ids, zadd, zadd_all}
use gylo.Redis.Store.{Store, levels, update, hdel, hincr, zadd_ready}

pub record Stored : Type 0 where
  pub id : ℕ
  pub task : Bytes
  pub payload : Bytes
  pub max_attempts : ℕ

-- `Error::Payload`.
pub data RedisError : Type 0 where
  bad_payload : ℕ → RedisError

-- `rmp_serde` on `Stored`.
pub record StoredPack : Type 0 where
  pub to_vec : Stored → Option Bytes
  pub from_slice : Bytes → Option Stored

-- `Backend::level`.
unfoldable pub level_of : ℤ → ℕ
level_of (negsuc n) = 0
level_of (pos n) = if ltb 9 n then 9 else n

-- How many of some ids a set holds, which is what ZREM counts.
unfoldable pub count_in : List ℕ → List Entry → ℕ
count_in [] z = 0
count_in (id ∷ ids) z = (if is_some (zscore id z) then 1 else 0) + count_in ids (zrem id z)

-- The first pipe of `abandon`.
unfoldable pub let_go : List ℕ → Store → Store × ℕ
let_go ids s = (record s { leased = zrem_all ids s.leased }, count_in ids s.leased)

module _ (lex : ℕ → ℕ → Bool) where
  -- The inner loop of CLAIM.
  unfoldable pub lease_all : ℕ → List ℕ → Store → Store
  lease_all expires [] s = s
  lease_all expires (id ∷ ids) s =
      lease_all expires ids
        (record s { leased = zadd lex expires id s.leased; attempt = hincr id s.attempt })

  -- One level of CLAIM, by the ids of it that are due.
  unfoldable pub claim_due : ℕ → ℕ → List ℕ → Store → Store
  claim_due expires level [] s = s
  claim_due expires level (id ∷ ids) s =
      lease_all expires (id ∷ ids)
        (record s { ready = update level (zrem_all (id ∷ ids) (s.ready level)) s.ready })

  -- The loop of CLAIM over the levels that are left.
  unfoldable pub claim_from : ℕ → ℕ → ℕ → ℕ → ℕ → Store → Store × List ℕ
  claim_from now expires zero level remaining s = (s, [])
  claim_from now expires (suc left) level zero s = (s, [])
  claim_from now expires (suc left) level (suc room) s =
      let due = take (suc room) (due_ids now (s.ready level)) in
      let (s'', more) =
        claim_from now expires left (suc level) (suc room - length due)
          (claim_due expires level due s) in
      (s'', due ++ more)

  unfoldable pub claim : ℕ → ℕ → ℕ → Store → Store × List ℕ
  claim now limit expires s = claim_from now expires levels 0 limit s

  -- RECLAIM, by the ids whose leases have expired.
  unfoldable pub reclaim_due : ℕ → List ℕ → Store → Store
  reclaim_due now [] s = s
  reclaim_due now (id ∷ ids) s = record s {
    leased = zrem_all (id ∷ ids) s.leased;
    ready = update 0 (zadd_all lex now (id ∷ ids) (s.ready 0)) s.ready;
  }

  unfoldable pub reclaim_expired : ℕ → ℕ → Store → Store × ℕ
  reclaim_expired now limit s =
      let expired = take limit (due_ids now s.leased) in (reclaim_due now expired s, length expired)

  -- RENEW.
  unfoldable pub renew_each : ℕ → List ℕ → List Entry → List Entry × ℕ
  renew_each expires [] z = (z, 0)
  renew_each expires (id ∷ ids) z =
      let held = is_some (zscore id z) in
      let (z', renewed) = renew_each expires ids (if held then zadd lex expires id z else z) in
      (z', (if held then 1 else 0) + renewed)

  unfoldable pub renew : ℕ → List ℕ → ℕ → Store → Store × ℕ
  renew now [] lease s = (s, 0)
  renew now (id ∷ ids) lease s =
      let (z, renewed) = renew_each (now + lease) (id ∷ ids) s.leased in
      (record s { leased = z }, renewed)

  unfoldable pub enqueue : StoredPack → ℕ → Stored → ℤ → ℕ → Store → Store × Result RedisError ℕ
  enqueue pack now job priority delay s = elim (pack.to_vec job) [
    | none ↦ (s, err (bad_payload job.id))
    | some encoded ↦ (
      zadd_ready lex (level_of priority) (now + delay) job.id
          (record s { payload = update job.id (some encoded) s.payload }),
      ok job.id,
    )
  ]

  unfoldable pub retry : ℕ → ℕ → ℤ → ℕ → Store → Store
  retry now id priority delay s =
      zadd_ready lex (level_of priority) (now + delay) id (record s { leased = zrem id s.leased })

  -- The second pipe of `abandon`, on the ids that it was given.
  unfoldable pub make_ready : ℕ → List ℕ → Store → Store
  make_ready now ids s = record s { ready = update 0 (zadd_all lex now ids (s.ready 0)) s.ready }

  unfoldable pub abandon : ℕ → List ℕ → (Store → Store) → Store → Store × ℕ
  abandon now [] meanwhile s = (s, 0)
  abandon now (id ∷ ids) meanwhile s =
      let (let_go_of, removed) = let_go (id ∷ ids) s in
      (make_ready now (id ∷ ids) (meanwhile let_go_of), removed)

unfoldable pub complete : List ℕ → Store → Store × ℕ
complete [] s = (s, 0)
complete (id ∷ ids) s = (
  record s {
    leased = zrem_all (id ∷ ids) s.leased;
    payload = hdel (id ∷ ids) s.payload;
    attempt = hdel (id ∷ ids) s.attempt;
  },
  count_in (id ∷ ids) s.leased,
)

unfoldable pub discard : List ℕ → Store → Store × ℕ
discard ids s = complete ids s

abbrev pub attempt_or_first : Option ℕ → ℕ
attempt_or_first none = 1
attempt_or_first (some n) = n

-- The job that is handed out.
abbrev pub job_of : Stored → Option ℕ → Job
job_of stored attempt = record {
  id = stored.id;
  task = stored.task;
  payload = stored.payload;
  attempt = attempt_or_first attempt;
  max_attempts = stored.max_attempts;
  durable = false;
}

module _ (pack : StoredPack) where
  -- One claimed job, as `fetch` puts it together of the payloads and the counters that it has read.
  unfoldable pub read_job : (ℕ → Option Bytes) → (ℕ → Option ℕ) → ℕ → Result RedisError Job
  read_job raw attempts id = elim (raw id) [
    | none ↦ err (bad_payload id)
    | some bytes ↦ elim (pack.from_slice bytes) [
      | none ↦ err (bad_payload id)
      | some stored ↦ ok (job_of stored (attempts id))
    ]
  ]

  -- `collect`, which stops at the first error.
  unfoldable pub read_jobs :
      (ℕ → Option Bytes) → (ℕ → Option ℕ) → List ℕ → Result RedisError (List Job)
  read_jobs raw attempts [] = ok []
  read_jobs raw attempts (id ∷ ids) = do
    job ← read_job raw attempts id
    jobs ← read_jobs raw attempts ids
    ok (job ∷ jobs)

  -- The clock is read for the end of the leases, and again for the script. The script and the two reads
  -- are sent one after the other, with what others do in between.
  unfoldable pub fetch :
      (ℕ → ℕ → Bool)
      → ℕ
      → ℕ
      → ℕ
      → ℕ
      → (Store → Store)
      → (Store → Store)
      → Store
      → Store × Result RedisError (List Job)
  fetch lex now later limit lease meanwhile meanwhile' s =
      let (claimed, ids) = claim lex later limit (now + lease) s in
      let first = meanwhile claimed in
      let second = meanwhile' first in
      elim ids [
        | [] ↦ (claimed, ok [])
        | id ∷ rest ↦ (second, read_jobs first.payload second.attempt (id ∷ rest))
      ]

-- `depth`, one level after the other.
unfoldable pub count_ready : ℕ → Store → ℕ
count_ready zero s = 0
count_ready (suc n) s = count_ready n s + zcard (s.ready n)

unfoldable pub depth : Store → ℕ
depth s = count_ready levels s

unfoldable pub clear : Store → Store
clear s = record {
  ready = λ level. if ltb level levels then [] else s.ready level;
  leased = [];
  payload = λ id. none;
  attempt = λ id. none;
}
