-- ===== src/Lib.antt =====
-- A model of gylo, a job queue: supervisors lease jobs from Postgres and hand them to Python children over
-- a wire protocol, and write the outcomes back.
--
-- The parts, and how they meet. A program enqueues a job as a row of the job table. A supervisor fetches
-- a batch of rows under a lease, encodes each job into one buffer (`Message::Dispatch`) and remembers it as
-- in flight. The child decodes the frames, and sends a `Message::Complete` for each job it ends, a
-- `Message::Record` for each step of a durable job, which is acknowledged, and a `Message::Register` for its
-- schedules. The supervisor gathers the reports, writes them to the table in batches, and then releases the
-- jobs. Beside this it renews its leases, reclaims those that have expired, fires the schedules that are
-- due, and prunes what is over; a job that a worker reports as dead takes its descendants with it. The
-- command line reads and prunes the same tables. A second backend keeps its jobs in Redis. The chaos harness
-- kills workers and judges from a ledger whether every job has run.
--
-- The files, by the code they model:
--   Prelude       names from the libraries, Boolean tests, lists measured by native numbers, signed integers
--                 (Prelude/Int), results of fallible code (Prelude/Results) and chains of options
--                 (Prelude/Options).
--   Wire          crates/gylo-core/src/protocol.rs: messages (Message), `encode` and `encode_frame`
--                 (Encode), `Decoder` and `decode_body` (Decode), machine words and UTF-8 (Words, Utf8), the
--                 MessagePack library (MessagePack). Proofs: Frame, Body, Stream, Parse, Batch, Drain,
--                 Delivery, Buffer, Progress. `receive` and `decode_all` are the reading loop of
--                 crates/gylo-core/tests/properties.rs.
--   Capability    crates/gylo-core/src/capability.rs, with the declarations of both backends.
--   Schedule      crates/gylo-core/src/schedule.rs.
--   Pg            crates/gylo-pg/src/lib.rs: rows (Row), `enqueue` (Enqueue), `fetch` (Fetch), `complete`,
--                 `discard_many`, `cancel`, `retry_many` and `retry_discarded` (Settle), `renew_leases`,
--                 `abandon_leases` and `reclaim_expired` (Lease), `upsert_cron`, `due_cron` and `fire_cron`
--                 (Cron), `record_step` and `steps_for` (Steps), pruning and purging (Retention), `depth`,
--                 `queues`, `list_discarded` and `outcome` (Listing), and histories of the statements on the
--                 job table (Machine). Proofs: Ids, Count, Admission, Cascade, Discard, Batch, Leasing,
--                 Holding, Report, Held, Recover, Sound, History; Firing for schedules; Ended, Deletion, Pruning,
--                 Live and Drain for pruning, Drain with the loop `prune_all`; Backlog for the counts.
--   Redis         crates/gylo-redis/src/lib.rs: sorted sets (Zset), the keys of one namespace (Store), the
--                 scripts and methods (Backend), and histories of them (Machine). Proofs: Places, Leasing,
--                 Kept, Sound, Claim, Progress, Reading.
--   Worker        crates/gylo-worker/src/lib.rs: `Config` (Settings), `InFlight`, `dispatch` (Dispatch for
--                 its buffer, Round for a round of its loop, proofs in Placing, Refused and Rounds), `collect_completions`
--                 (Collect; proofs Handled, Named, Reading, Timely, Acked), `Pending`, its `flush` (Flush, proofs in
--                 Settled), `register_schedules` and `fire_due_schedules` (Schedules), `retain`, `recover`
--                 and `renew` (Maintenance, proofs in Retained), `hand_back` (HandBack), the restarts of
--                 `supervise` (Restart), and `LastWords`.
--   Cli           crates/gylo-cli/src/main.rs: `prune_finished` and `purge_failed` (Prune), `show_queues` and
--                 `retry_failed` (Show), `WorkerArgs` and the configuration that `main` makes of them (Start).
--   Chaos         crates/gylo-chaos/src/main.rs: the ledger, the verdict and the exit code. Proofs: Evidence.
-- The witnesses of the theorems stand in the modules Tests, Samples and Ticks of each part.
--
-- Conventions. A byte is a number below 256 and a string a list of bytes on the wire and in the tables of
-- schedules and steps; in the job table, the texts that are compared are the library's String. A statement of
-- SQL is a function on the rows of a table: its parts see one snapshot, as the parts of a WITH do. Time on
-- the tables is in microseconds, and the server's clock is an argument; a loop has a clock for each of its
-- statements. Unsigned lengths keep their bounds of 16 and 32 bits; ids from the identity column, attempts and
-- delays are unbounded. The delay of a retry is rounded down to a microsecond, the fraction `random()` being
-- one of 2 ^ 32. In Redis, time is in milliseconds, ids are numbers, and the scores are whole numbers that a
-- float holds exactly. A loop that waits for events is a function on the list of the events that come.
--
-- Fuel. `decode_all` and `handle_all` are given as many rounds as there are unread bytes: each message uses up
-- some. `walk` is given as many as there are edges: each round but the last uses up one. `prune_all` and
-- `retain_loop` give none when their rounds run out, which does not happen with more rounds than rows: each
-- round but the last removes one at least. No other loop needs fuel.
--
-- Parameters. MessagePack (rmp_serde) is a record of four pairs of functions, and that a value is read back
-- as it was is a hypothesis; for the payloads in Redis it is a record of its own. The cron and chrono_tz
-- libraries are a record too, and that they give only later instants is a hypothesis of the theorem on
-- firing. What Postgres chooses is an argument: which rows other transactions have locked, which expired
-- leases LIMIT lets through, what random() returns, and the order of texts in a collation; so is, in Redis,
-- the order of members with one score. Whether a statement of the worker fails, what other workers do between
-- two pipes or reads of Redis, the steps read for a durable job, and the reading of a line of the ledger are arguments
-- as well.
--
-- Simplifications. Where a function sends several statements to Postgres, nothing else is run between them but
-- where an argument says so: the two passes of `fetch` have clocks and locked rows of their own, as the
-- statements of a loop have, and the table is theirs. A list of errors that is shorter than that of its jobs,
-- which `unnest` would pad with NULL, leaves the jobs that are over; the callers keep the lengths equal. The keys of unique jobs and their index are left out, so that no statement fails on a clash of
-- them; so is the CHECK that keeps `pending_deps` from going below 0. In Redis, the two pipes of `abandon`
-- are two steps of a history, and the second may never come.
--
-- Not modelled. In crates/gylo-pg: the pool and the migrations, and the deletion of edges along with
-- their job, and of its steps but for what Worker/Collect says of it; the notifications that wake a worker carry no state. How a workflow is inserted is Python's
-- part. In crates/gylo-redis: the connection, the names of the keys, and whether the server fsyncs. In
-- crates/gylo-worker: sockets, processes, the forwarding of acknowledgements to the socket, and the tasks
-- with their cancellation and timers, which are the runtime's. In crates/gylo-cli: the parsing of arguments,
-- printing, the connection and signals. In crates/gylo-chaos: the processes and containers that the scenarios
-- start and stop. The metrics and the Python package are left out whole.
pub mod Prelude
pub mod Wire
pub mod Pg
pub mod Capability
pub mod Schedule
pub mod Worker
pub mod Redis
pub mod Cli
pub mod Chaos
