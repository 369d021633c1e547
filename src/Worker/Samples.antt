-- ===== src/Worker/Samples.antt =====
-- The theorems on the schedules and the reports of crates/gylo-worker/src/lib.rs at concrete inputs.
use gylo.Prelude.{
  ℕ, ◌+◌, ◌≤◌, ◌≡◌, refl, inl, true, false, List, [], ◌∷◌, none, some, arith, length,
}
use gylo.Prelude.Int.{ℤ, pos, negsuc}
use gylo.Prelude.Results.{ok}
use gylo.Wire.Words.{Bytes, from_le}
use gylo.Wire.MessagePack.{MessagePack}
use gylo.Wire.Message.{stored}
use gylo.Pg.Steps.{find_step, record_step}
use gylo.Wire.Decode.{extend, next_message, buffered, decode_body, compact}
use gylo.Wire.Stream.{unread, observe}
use gylo.Wire.Progress.{IsDry}
use gylo.Schedule.{Text, CronCrate, ok_or, parse, next_after}
use gylo.Pg.Row.{Row, running, at, is_some, any_id}
use gylo.Pg.Enqueue.{Table}
use gylo.Pg.Cron.{CronRow, DueCron, fire_cron, win_cron, enqueue_won, eq_bytes}
use gylo.Worker.Pending.{no_reports, len}
use gylo.Worker.Schedules.{next_run, fire_one, IsStrict, FiresNone, fire_one-FiresNone}
use gylo.Worker.Collect.{
  Collecting, Moment, Pace, Event, readable, elapsed, others, turn, handle, handle_all,
  collect_completions, interleave, write_pending,
}
use gylo.Worker.Tests.{refusing}
use gylo.Worker.Timely.{Turned, collect_completions-Turned}
use gylo.Worker.Acked.{IsHonest, collect_completions-IsHonest}
use gylo.Worker.Reading.{handle_all-IsDry}

-- A crate that knows one zone, and whose schedules run at the next instant.
abbrev next_instant : CronCrate
next_instant = record {
  Cron = Text;
  Tz = ℕ;
  tz_from_str = λ z. some 0;
  cron_from_str = λ e. ok e;
  cron_to_string = λ e. e;
  after_next = λ e z t. some (t + 1);
}

abbrev as_text : Bytes → Text
as_text b = b

next_instant-IsStrict : IsStrict next_instant as_text
next_instant-IsStrict cron zone time next h = ground arith

abbrev nightly : CronRow
nightly = record {
  entry = record {
    name = 110 ∷ [];
    queue = "default";
    task = 116 ∷ [];
    payload = [];
    expression = 42 ∷ [];
    timezone = 85 ∷ [];
  };
  paused = false;
  next_run_at = 50;
  last_run_at = none;
  updated_at = 20;
}

abbrev due : DueCron
due = record { name = 110 ∷ []; expression = 42 ∷ []; timezone = 85 ∷ [] }

abbrev no_jobs : Table
no_jobs = record { rows = []; next_id = 1 }

won :
    is_some
      (fire_one next_instant as_text true 60 due
        (next_run next_instant as_text (42 ∷ []) (85 ∷ []) 70)
        (nightly ∷ [])
        no_jobs).1.1
    ≡ true
unfolding next_run parse next_after ok_or fire_cron win_cron enqueue_won eq_bytes
won = refl

fire_one-FiresNone_example :
    FiresNone next_instant as_text
      (fire_one next_instant as_text true 60 due
        (next_run next_instant as_text (42 ∷ []) (85 ∷ []) 70)
        (nightly ∷ [])
        no_jobs).1.0
      (fire_one next_instant as_text true 65 due
        (ok 66)
        (fire_one next_instant as_text true 60 due
          (next_run next_instant as_text (42 ∷ []) (85 ∷ []) 70)
          (nightly ∷ [])
          no_jobs).0
        (fire_one next_instant as_text true 60 due
          (next_run next_instant as_text (42 ∷ []) (85 ∷ []) 70)
          (nightly ∷ [])
          no_jobs).1.0)
fire_one-FiresNone_example =
    fire_one-FiresNone next_instant as_text next_instant-IsStrict true 70 60 65 due due (ok 66)
      (nightly ∷ []) no_jobs refl (omega arith) won

abbrev number_of : ℤ → ℕ
number_of (pos n) = n
number_of (negsuc n) = 0

abbrev at_once : Moment
at_once = record {
  instant = 10;
  utc = 70;
  flushing = record {
    now = 20;
    edges = [];
    worker = 7;
    retry_base = 1000000;
    retry_cap = 3600000000;
    roll = λ id. 5;
    text = λ b. "broken";
    completes = true;
    stores = true;
    retries = true;
    discards = true;
  };
  upserts = true;
  records = true;
}

-- A report of success of job 4: the length of the body, its kind, the id and the outcome.
abbrev success_frame : Bytes
success_frame = 10 ∷ 0 ∷ 0 ∷ 0 ∷ 1 ∷ 4 ∷ 0 ∷ 0 ∷ 0 ∷ 0 ∷ 0 ∷ 0 ∷ 0 ∷ 0 ∷ []

abbrev listening : Collecting
listening = record {
  decoder = record { buf = success_frame; pos = 0 };
  pending = no_reports;
  in_flight = record { ids = 4 ∷ []; limit = 3 };
  deadline = none;
  rows = [];
  recorded_steps = [];
  crons = [];
  acks = [];
}

abbrev pace : Pace
pace = record { batch = 2; linger = 5 }

nothing_waits : len no_reports ≡ 0
unfolding len
nothing_waits = refl

collect_completions-Turned_example : Turned pace (
    collect_completions refusing next_instant as_text number_of pace
      ((at_once, readable success_frame) ∷ (at_once, elapsed) ∷ [])
      listening)
collect_completions-Turned_example =
    collect_completions-Turned refusing next_instant as_text number_of pace
      ((at_once, readable success_frame) ∷ (at_once, elapsed) ∷ []) listening (omega arith)
      (inl nothing_waits) (omega (arith, nothing_waits))

-- A library that reads every record as one of the step `n` of job 4.
abbrev one_record : MessagePack
one_record = record refusing {
  record_from_slice = λ b. ok (record { id = pos 4; name = 110 ∷ []; result = b });
}

abbrev charging : Row
charging = record {
  id = 4;
  queue = "default";
  task = [];
  state = running;
  priority = pos 0;
  payload = [];
  attempt = 1;
  max_attempts = 20;
  errors = [];
  scheduled_at = at 5;
  started_at = some 6;
  finalized_at = none;
  locked_by = some 7;
  lease_expires_at = some 90;
  result = none;
  concurrency_key = none;
  max_concurrency = 0;
  durable = true;
  workflow_id = none;
  pending_deps = pos 0;
}

-- Job 4 has recorded and been acknowledged its step `m`.
abbrev recording : Collecting
recording = record listening {
  decoder = record { buf = []; pos = 0 };
  rows = charging ∷ [];
  recorded_steps = record { job_id = 4; name = 109 ∷ []; result = []; created_at = 15 } ∷ [];
  acks = stored (pos 4) (109 ∷ []) ∷ [];
}

-- A record of a step: the length of the body, its kind, and what the library reads.
abbrev record_frame : Bytes
record_frame = 2 ∷ 0 ∷ 0 ∷ 0 ∷ 4 ∷ 7 ∷ []

abbrev last_events : List (Moment × Event)
last_events =
    (at_once, readable record_frame) ∷ (at_once, elapsed) ∷ (at_once, others (9 ∷ []) (λ r. r)) ∷ []

-- The second step is acknowledged as well.
second_acknowledged :
    (collect_completions one_record next_instant as_text number_of pace last_events
      recording).0.acks
    ≡ stored (pos 4) (110 ∷ []) ∷ stored (pos 4) (109 ∷ []) ∷ []
unfolding collect_completions turn handle_all handle extend next_message unread buffered from_le
    decode_body record_step any_id compact len interleave write_pending
second_acknowledged = refl

recording-IsHonest : IsHonest number_of recording
unfolding find_step eq_bytes
recording-IsHonest = ((λ there. refl), tt)

collect_completions-IsHonest_example :
    IsHonest number_of
      (collect_completions one_record next_instant as_text number_of pace last_events recording).0
collect_completions-IsHonest_example =
    collect_completions-IsHonest one_record next_instant as_text number_of pace last_events
      recording recording-IsHonest

fuel_enough : length (unread listening.decoder) ≤ 20
unfolding unread
fuel_enough = omega arith

handle_all-IsDry_example : IsDry (
    observe (
      next_message refusing
        (handle_all refusing next_instant as_text number_of pace 20 at_once listening).0.decoder))
handle_all-IsDry_example =
    handle_all-IsDry refusing next_instant as_text number_of pace 20 at_once listening fuel_enough
