-- ===== src/Pg/Leasing.antt =====
-- Which jobs a fetch of crates/gylo-pg/src/lib.rs returns, and what it leaves in the table for them.
use gylo.Prelude.{
  ℕ, ◌+◌, ◌<◌, ◌≡◌, refl, sym, ap, ◌⊎◌, inl, inr, subst, Bool, true, false, ◌&&◌, not, List, [],
  ◌∷◌, map, Option, none, some, arith, Bool-cases, Option-cases, ltb→lt,
}
use Prim.Native.String.{String}
use gylo.Pg.Row.{
  Row, JobState, available, running, completed, discarded, cancelled, is_available, is_due, is_some,
  any_queue, any_id, rows_where, ids_of, set_if,
}
use gylo.Pg.Fetch.{
  Job, job_from, waits, is_keyed, lease_row, lease_ids, unkeyed_batch, fetch_unkeyed, active,
  admitted, keyed_batch, fetch_keyed, has_room,
}
use gylo.Pg.Ids.{
  In, Distinct, Distinct-In, any_id-In, rows_where-In, map-In, unkeyed_batch-In, keyed_batch-In,
  admitted-In,
}

abbrev pub InJobs : Job → List Job → Type 0
InJobs j [] = ⊥
InJobs j (x ∷ jobs) = (x ≡ j) ⊎ InJobs j jobs

-- A row, the row that its lease makes of it, and the job that the worker is given.
abbrev pub IsLeased : ℕ → ℕ → ℕ → Row → Row → Job → Type 0
IsLeased now worker lease r s j =
    (s.id ≡ r.id)
    × (s.state ≡ running)
    × (s.locked_by ≡ some worker)
    × (s.lease_expires_at ≡ some (now + lease))
    × (s.attempt ≡ r.attempt + 1)
    × (j.id ≡ r.id)
    × (j.attempt ≡ r.attempt + 1)
    × (j.task ≡ r.task)
    × (j.payload ≡ r.payload)
    × (j.max_attempts ≡ r.max_attempts)
    × (j.durable ≡ r.durable)

-- A row of the queues that is due and that no other transaction has locked.
abbrev pub IsWaiting : (ℕ → Bool) → ℕ → List String → Row → Type 0
IsWaiting busy now queues r =
    (r.state ≡ available)
    × (any_queue r.queue queues ≡ true)
    × (is_due now r.scheduled_at ≡ true)
    × (busy r.id ≡ false)

abbrev pub HasRoom : List Row → Row → Type 0
HasRoom rows r = (k : String) × (r.concurrency_key ≡ some k) × active k rows < r.max_concurrency

-- Each job returned is a row of the table that could be taken, and stands there leased; a row with
-- the id of no job returned stands there as it was.
abbrev pub Leased : (Row → Type 0) → ℕ → ℕ → ℕ → List Row → List Row × List Job → Type 0
Leased CanTake now worker lease rows result =
    ((j : Job)
      → InJobs j result.1
      → (r : Row) × In r rows
        × CanTake r
        × ((s : Row) × In s result.0 × IsLeased now worker lease r s j))
    × ((r : Row) → In r rows → In r result.0 ⊎ ((j : Job) × InJobs j result.1 × (j.id ≡ r.id)))

InJobs-map :
    (f : Row → Job) (rows : List Row) (j : Job)
    → InJobs j (map f rows)
    → (r : Row) × In r rows × (f r ≡ j)
InJobs-map f [] j m = absurd m
InJobs-map f (r ∷ rows) j (inl e) = (r, inl refl, e)
InJobs-map f (r ∷ rows) j (inr m) = let (x, mem, e) = InJobs-map f rows j m in (x, inr mem, e)

InJobs-named :
    (f : Row → Job) (test : Row → Bool) (rows : List Row) (r : Row)
    → In r rows
    → test r ≡ true
    → InJobs (f r) (map f (rows_where test rows))
unfolding rows_where
InJobs-named f test [] r m y = absurd m
InJobs-named f test (x ∷ rows) r (inl e) y =
    let first : test x ≡ true = subst (λ (z : Row). test z ≡ true) (sym e) y in
    rw first (inl (cc e))
InJobs-named f test (x ∷ rows) r (inr m) y =
    let rest = InJobs-named f test rows r m y in
    elim (Bool-cases (test x)) [ inl h ↦ rw h (inr rest) | inr h ↦ rw h rest ]

lease_row-IsLeased :
    (now worker lease : ℕ) (r : Row) (j : Job)
    → job_from (lease_row now worker lease r) ≡ j
    → IsLeased now worker lease r (lease_row now worker lease r) j
unfolding lease_row job_from
lease_row-IsLeased now worker lease r j e = (
  refl,
  refl,
  refl,
  refl,
  refl,
  sym (ap (λ (x : Job). x.id) e),
  sym (ap (λ (x : Job). x.attempt) e),
  sym (ap (λ (x : Job). x.task) e),
  sym (ap (λ (x : Job). x.payload) e),
  sym (ap (λ (x : Job). x.max_attempts) e),
  sym (ap (λ (x : Job). x.durable) e),
)

module _ (CanTake : Row → Type 0) (now worker lease : ℕ) where
  lease_ids-Leased :
      (rows batch : List Row)
      → Distinct rows
      → ((r : Row) → In r batch → In r rows × CanTake r)
      → Leased CanTake now worker lease rows (lease_ids now worker lease (ids_of batch) rows)
  unfolding lease_ids
  lease_ids-Leased rows batch d from =
      let named : Row → Bool = λ r. any_id r.id (ids_of batch) in
      let change : Row → Row = set_if named (lease_row now worker lease) in
      let job : Row → Job = λ r. job_from (lease_row now worker lease r) in
      (
        λ j m.
            let (r, mr, e) = InJobs-map job (rows_where named rows) j m in
            let (mem, is_named) = rows_where-In named rows r mr in
            let (s, ms, same) = any_id-In r.id batch is_named in
            let (mt, holds) = from s ms in
            let row : s ≡ r = Distinct-In rows s r d mt mem same in
            let changed : change r ≡ lease_row now worker lease r = rw is_named in
            (
              r,
              mem,
              subst CanTake row holds,
              (
                lease_row now worker lease r,
                subst (λ (x : Row). In x (map change rows)) changed (map-In change rows r mem),
                lease_row-IsLeased now worker lease r j e,
              ),
            ),
        λ r m. elim (Bool-cases (named r)) [
          | inl y ↦ inr (job r, InJobs-named job named rows r m y, job-id r)
          | inr n ↦
              let kept : change r ≡ r = rw n in
              inl (subst (λ (x : Row). In x (map change rows)) kept (map-In change rows r m))
        ],
      )
    where
      job-id : (r : Row) → (job_from (lease_row now worker lease r)).id ≡ r.id
      job-id r = (lease_row-IsLeased now worker lease r _ refl).5

is_available-available : (s : JobState) → is_available s ≡ true → s ≡ available
is_available-available available h = refl
is_available-available running h = cc h
is_available-available completed h = cc h
is_available-available discarded h = cc h
is_available-available cancelled h = cc h

no_key : (k : Option String) → not (is_some k) ≡ true → k ≡ none
no_key none h = refl
no_key (some k) h = cc h

has_room-HasRoom : (rows : List Row) (r : Row) → has_room rows r ≡ true → HasRoom rows r
unfolding has_room
has_room-HasRoom rows r = elim (Option-cases r.concurrency_key) [
  | inl e ↦ rw e (λ h. cc h)
  | inr (k, e) ↦ rw e (λ h. (k, refl, ltb→lt _ _ h))
]

module _ (busy : ℕ → Bool) (now : ℕ) (queues : List String) (limit worker lease : ℕ) where
  can_take_IsWaiting :
      (test : Bool) (r : Row)
      → (waits now queues r && test && not (busy r.id)) ≡ true
      → IsWaiting busy now queues r × (test ≡ true)
  unfolding waits
  can_take_IsWaiting test r h = (
    (is_available-available r.state (ground arith), ground arith, ground arith, ground arith),
    ground arith,
  )

  -- In a table of distinct ids, each job that FETCH_UNKEYED returns waited in one of the queues, was
  -- due, had no key and was not locked by another transaction; it is in the table afterwards,
  -- running, held by the worker until the lease ends, its attempt one higher, and the worker gets
  -- its task, payload and that attempt; a row with the id of no job returned is left as it was.
  pub fetch_unkeyed-Leased :
      (rows : List Row)
      → Distinct rows
      → Leased
          (λ r. IsWaiting busy now queues r × (r.concurrency_key ≡ none))
          now
          worker
          lease
          rows
          (fetch_unkeyed busy now queues limit worker lease rows)
  unfolding fetch_unkeyed
  fetch_unkeyed-Leased rows d =
      lease_ids-Leased _ now worker lease rows (unkeyed_batch busy now queues limit rows) d (λ r m.
        let (mem, h) = unkeyed_batch-In busy now queues limit rows r m in
        let (waiting, free) = can_take_IsWaiting (not (is_keyed r)) r h in
        (mem, (waiting, no_key r.concurrency_key free)))

  -- In a table of distinct ids, each job that FETCH_KEYED returns waited in one of the queues, was
  -- due, had a key with fewer jobs running than it allows and was not locked by another transaction;
  -- it is in the table afterwards, running, held by the worker until the lease ends, its attempt one
  -- higher, and the worker gets its task, payload and that attempt; a row with the id of no job
  -- returned is left as it was.
  pub fetch_keyed-Leased :
      (rows : List Row)
      → Distinct rows
      → Leased
          (λ r. IsWaiting busy now queues r × HasRoom rows r)
          now
          worker
          lease
          rows
          (fetch_keyed busy now queues limit worker lease rows)
  unfolding fetch_keyed
  fetch_keyed-Leased rows d =
      lease_ids-Leased _ now worker lease rows
        (admitted (λ k. active k rows) [] (keyed_batch busy now queues limit rows)) d
        (λ r m.
          let (mem, h) = keyed_batch-In busy now queues limit rows r (admitted-In _ [] _ r m) in
          let (waiting, room) = can_take_IsWaiting (has_room rows r) r h in
          (mem, (waiting, has_room-HasRoom rows r room)))
