-- ===== src/Worker/Settings.antt =====
-- `Config` of crates/gylo-worker/src/lib.rs and what `run` checks before anything starts. Durations are
-- milliseconds; the reason of a refusal is a constructor in place of its text, and the settings that are
-- only handed to the operating system (the interpreter, its path and environment) are left out.
use gylo.Prelude.{
  ℕ, ◌*◌, ◌≤◌, ◌<◌, ◌≡◌, ◌≢◌, refl, ◌↔◌, Bool, true, false, List, [], ◌∷◌, arith, leb, ◌==◌,
}
use gylo.Prelude.Int.{ℤ, pos, ltb_ℤ}
use gylo.Prelude.Results.{Result, ok, err, ◌>>◌, map_err, reject_if}
use gylo.Capability.{Capabilities, Feature, Unsupported, require}
use Prim.Native.String.{String}
use text.Mathlib.Text.{◌==◌ as str_eq}

pub record Config : Type 0 where
  pub queues : List String
  pub processes : ℕ
  pub concurrency : ℕ
  pub batch : ℤ
  pub lease : ℕ
  pub poll_interval : ℕ
  pub completion_batch : ℕ
  pub completion_linger : ℕ
  pub maintenance_interval : ℕ
  pub reclaim_limit : ℤ
  pub retain_completed : ℕ
  pub retain_discarded : ℕ
  pub prune_batch : ℤ
  pub retry_base : ℕ
  pub retry_cap : ℕ
  pub max_restarts : ℕ
  pub cron_limit : ℤ
  pub app : String
  pub requires : List Feature

-- `Config::default`, on a machine with some cores.
unfoldable pub default_config : ℕ → Config
default_config cores = record {
  queues = "default" ∷ [];
  processes = cores;
  concurrency = 256;
  batch = pos 128;
  lease = 30 * 1000;
  poll_interval = 200;
  completion_batch = 100;
  completion_linger = 5;
  maintenance_interval = 10 * 1000;
  reclaim_limit = pos 1000;
  retain_completed = 24 * 3600 * 1000;
  retain_discarded = 7 * 24 * 3600 * 1000;
  prune_batch = pos 5000;
  retry_base = 1000;
  retry_cap = 3600 * 1000;
  max_restarts = 8;
  cron_limit = pos 100;
  app = "";
  requires = [];
}

pub data Invalid : Type 0 where
  no_app no_queue no_process no_concurrency : Invalid
  no_batch : ℤ → Invalid
  late_maintenance : ℕ → ℕ → Invalid

pub data StartError : Type 0 where
  config : Invalid → StartError
  unsupported : Unsupported → StartError

abbrev is_nil {ℓ} : {A : Type ℓ} → List A → Bool
is_nil [] = true
is_nil (x ∷ xs) = false

unfoldable pub validate : Config → Result StartError (Unit {0})
validate c =
    reject_if (str_eq c.app "") (config no_app)
    >> reject_if (is_nil c.queues) (config no_queue)
    >> reject_if (c.processes == 0) (config no_process)
    >> reject_if (c.concurrency == 0) (config no_concurrency)
    >> reject_if (ltb_ℤ c.batch (pos 1)) (config (no_batch c.batch))
    >> reject_if (leb c.lease c.maintenance_interval)
        (config (late_maintenance c.maintenance_interval c.lease))

-- What `run` does before it starts anything.
unfoldable pub start : Capabilities → Config → Result StartError (Unit {0})
start backend c = validate c >> map_err unsupported (require backend c.requires)

-- A configuration that a worker can run with.
pub record IsRunnable (c : Config) : Type 0 where
  pub app : str_eq c.app "" ≡ false
  pub queues : c.queues ≢ []
  pub processes : 1 ≤ c.processes
  pub concurrency : 1 ≤ c.concurrency
  pub batch : ltb_ℤ c.batch (pos 1) ≡ false
  pub renewed : c.maintenance_interval < c.lease

bind_ok : (m k : Result StartError (Unit {0})) → (m >> k) ≡ ok tt → (m ≡ ok tt) × (k ≡ ok tt)
bind_ok (ok tt) k h = (refl, h)
bind_ok (err e) k h = cc h

reject_ok : (b : Bool) (e : StartError) → reject_if b e ≡ ok tt → b ≡ false
reject_ok true e h = cc h
reject_ok false e h = refl

is_nil-false : (xs : List String) → is_nil xs ≡ false → xs ≢ []
is_nil-false [] h e = cc h
is_nil-false (x ∷ xs) h e = cc e

validate_ok : (c : Config) → validate c ≡ ok tt → IsRunnable c
unfolding validate
validate_ok c h =
    let (h5, interval) = bind_ok _ _ h in
    let (h4, batch) = bind_ok _ _ h5 in
    let (h3, concurrency) = bind_ok _ _ h4 in
    let (h2, processes) = bind_ok _ _ h3 in
    let (app, queues) = bind_ok _ _ h2 in
    let no_zero = reject_ok (c.processes == 0) _ processes in
    let no_idle = reject_ok (c.concurrency == 0) _ concurrency in
    let in_time = reject_ok (leb c.lease c.maintenance_interval) _ interval in
    record {
      app = reject_ok _ _ app;
      queues = is_nil-false c.queues (reject_ok _ _ queues);
      processes = ground arith;
      concurrency = ground arith;
      batch = reject_ok _ _ batch;
      renewed = ground arith;
    }

is_nil_other : (xs : List String) → xs ≢ [] → is_nil xs ≡ false
is_nil_other [] h = absurd (h refl)
is_nil_other (x ∷ xs) h = refl

runnable_ok : (c : Config) → IsRunnable c → validate c ≡ ok tt
unfolding validate
runnable_ok c v =
    let some_process : (c.processes == 0) ≡ false = let n = v.processes in ground arith in
    let some_room : (c.concurrency == 0) ≡ false = let n = v.concurrency in ground arith in
    let in_time : leb c.lease c.maintenance_interval ≡ false = let n = v.renewed in ground arith in
    rw (v.app, is_nil_other c.queues v.queues, some_process, some_room, v.batch, in_time)

-- A configuration passes the check exactly if it has an app, a queue, a process and a place for a
-- job, leases a job at a time at least, and renews its leases before they end.
pub validate-IsRunnable : (c : Config) → (validate c ≡ ok tt) ↔ IsRunnable c
validate-IsRunnable c = (validate_ok c, runnable_ok c)
