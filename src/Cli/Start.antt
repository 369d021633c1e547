-- ===== src/Cli/Start.antt =====
-- `WorkerArgs` and what `main` makes of it in crates/gylo-cli/src/main.rs: the configuration of the worker
-- and the size of its pool. Durations are in milliseconds; the paths of the interpreter and the address of
-- the metrics have no part in what is checked.
use gylo.Prelude.{
  ℕ, ◌+◌, ◌*◌, ◌%◌, ◌^◌, ◌≤◌, ◌<◌, ◌≡◌, ◌≢◌, ◌↔◌, refl, sym, ◌∙◌, false, List, [], ◌∷◌, Option,
  none, some,
}
use gylo.Prelude.Int.{ℤ, pos, ltb_ℤ}
use gylo.Prelude.Results.{Result, ok, err, ◌>>◌}
use gylo.Capability.{Capabilities, require}
use gylo.Worker.Settings.{Config, default_config, StartError, start, validate, validate-IsRunnable}
use Prim.Native.String.{String}
use text.Mathlib.Text.{◌==◌ as str_eq}

pub record WorkerArgs : Type 0 where
  pub app : String
  pub queues : List String
  pub processes : Option ℕ
  pub concurrency : ℕ
  pub batch : ℤ
  pub lease : ℕ
  pub poll_interval : ℕ
  pub maintenance_interval : ℕ
  pub retry_base : ℕ
  pub retry_cap : ℕ
  pub retain_completed : ℕ
  pub retain_discarded : ℕ
  pub pool_size : Option ℕ

-- The arguments when only the app is given.
abbrev pub only_app : String → WorkerArgs
only_app app = record {
  app = app;
  queues = "default" ∷ [];
  processes = none;
  concurrency = 256;
  batch = pos 128;
  lease = 30 * 1000;
  poll_interval = 200;
  maintenance_interval = 10 * 1000;
  retry_base = 1000;
  retry_cap = 3600 * 1000;
  retain_completed = 24 * 3600 * 1000;
  retain_discarded = 7 * 24 * 3600 * 1000;
  pool_size = none;
}

-- `unwrap_or_else`.
abbrev pub or_else : ℕ → Option ℕ → ℕ
or_else n none = n
or_else n (some m) = m

-- The number of processes, on a machine with some cores.
unfoldable pub processes_of : ℕ → WorkerArgs → ℕ
unfolding default_config
processes_of cores args = or_else (default_config cores).processes args.processes

-- `processes as u32 * 3 + 4`, in 32 bits.
unfoldable pub pool_size_of : ℕ → WorkerArgs → ℕ
pool_size_of cores args =
    or_else ((processes_of cores args % 2 ^ 32 * 3 + 4) % 2 ^ 32) args.pool_size

unfoldable pub config_of : ℕ → WorkerArgs → Config
config_of cores args = record (default_config cores) {
  queues = args.queues;
  processes = processes_of cores args;
  concurrency = args.concurrency;
  batch = args.batch;
  lease = args.lease;
  poll_interval = args.poll_interval;
  maintenance_interval = args.maintenance_interval;
  retry_base = args.retry_base;
  retry_cap = args.retry_cap;
  retain_completed = args.retain_completed;
  retain_discarded = args.retain_discarded;
  app = args.app;
}

-- A command line that a worker can run with.
pub record IsStartable (cores : ℕ) (args : WorkerArgs) : Type 0 where
  pub app : str_eq args.app "" ≡ false
  pub queues : args.queues ≢ []
  pub processes : 1 ≤ or_else cores args.processes
  pub concurrency : 1 ≤ args.concurrency
  pub batch : ltb_ℤ args.batch (pos 1) ≡ false
  pub renewed : args.maintenance_interval < args.lease

then_ok : (m : Result StartError (Unit {0})) → (m >> ok tt) ≡ m
then_ok (ok tt) = refl
then_ok (err e) = refl

start-validate :
    (backend : Capabilities) (cores : ℕ) (args : WorkerArgs)
    → start backend (config_of cores args) ≡ validate (config_of cores args)
unfolding start config_of default_config require
start-validate backend cores args = then_ok (validate (config_of cores args))

-- Whatever the backend, the worker passes the checks that it makes before it starts, with the
-- configuration of a command line, exactly if that names an app and a queue, has a process, by the
-- number given or that of the cores, and a place for a job, leases a job at a time at least, and
-- renews the leases before they end.
pub start-IsStartable :
    (backend : Capabilities) (cores : ℕ) (args : WorkerArgs)
    → (start backend (config_of cores args) ≡ ok tt) ↔ IsStartable cores args
unfolding config_of processes_of default_config
start-IsStartable backend cores args =
    let check = validate-IsRunnable (config_of cores args) in
    let same = start-validate backend cores args in
    (
      (λ h.
          let v = check.0 (sym same ∙ h) in
          record {
            app = v.app;
            queues = v.queues;
            processes = v.processes;
            concurrency = v.concurrency;
            batch = v.batch;
            renewed = v.renewed;
          }),
      (λ v.
          same
          ∙ check.1 (record {
            app = v.app;
            queues = v.queues;
            processes = v.processes;
            concurrency = v.concurrency;
            batch = v.batch;
            renewed = v.renewed;
          })),
    )
