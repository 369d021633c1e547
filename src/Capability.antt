-- ===== src/Capability.antt =====
-- crates/gylo-core/src/capability.rs, with the declarations of the two backends:
-- `CAPABILITIES` of crates/gylo-pg/src/lib.rs and `capabilities` of crates/gylo-redis/src/lib.rs.
pub mod Laws
mod Tests
use gylo.Prelude.{Bool, true, false, List, [], ◌∷◌, if◌then◌else◌}
use gylo.Prelude.Results.{Result, ok, err}
use Prim.Native.String.{String}

pub record Capabilities : Type 0 where
  pub backend : String
  pub durable_acknowledgement : Bool
  pub transactional_enqueue : Bool
  pub priorities : Bool
  pub delayed_jobs : Bool
  pub unique_jobs : Bool
  pub keyed_concurrency : Bool
  pub workflows : Bool
  pub durable_steps : Bool
  pub cron : Bool
  pub results : Bool

pub data Feature : Type 0 where
  durable_acknowledgement transactional_enqueue priorities delayed_jobs unique_jobs : Feature
  keyed_concurrency workflows durable_steps cron results : Feature

unfoldable pub as_str : Feature → String
as_str durable_acknowledgement = "durable acknowledgement"
as_str transactional_enqueue = "transactional enqueue"
as_str priorities = "priorities"
as_str delayed_jobs = "delayed jobs"
as_str unique_jobs = "unique jobs"
as_str keyed_concurrency = "keyed concurrency"
as_str workflows = "workflows"
as_str durable_steps = "durable steps"
as_str cron = "cron"
as_str results = "results"

pub record Unsupported : Type 0 where
  pub backend : String
  pub feature : Feature

unfoldable pub supports : Capabilities → Feature → Bool
supports c durable_acknowledgement = c.durable_acknowledgement
supports c transactional_enqueue = c.transactional_enqueue
supports c priorities = c.priorities
supports c delayed_jobs = c.delayed_jobs
supports c unique_jobs = c.unique_jobs
supports c keyed_concurrency = c.keyed_concurrency
supports c workflows = c.workflows
supports c durable_steps = c.durable_steps
supports c cron = c.cron
supports c results = c.results

-- Rejects the first requested feature that the backend cannot give.
unfoldable pub require : Capabilities → List Feature → Result Unsupported (Unit {0})
require c [] = ok tt
require c (feature ∷ wanted) =
    if supports c feature
    then require c wanted
    else err (record { backend = c.backend; feature = feature })

abbrev pub all_features : List Feature
all_features =
    durable_acknowledgement ∷ transactional_enqueue ∷ priorities ∷ delayed_jobs ∷ unique_jobs
    ∷ keyed_concurrency ∷ workflows ∷ durable_steps ∷ cron ∷ results ∷ []

-- `.filter(|feature| !self.supports(*feature))`.
unfoldable pub without : Capabilities → List Feature → List Feature
without c [] = []
without c (feature ∷ rest) = if supports c feature then without c rest else feature ∷ without c rest

unfoldable pub gaps : Capabilities → List Feature
unfolding without
gaps c = without c all_features

-- The Postgres backend.
unfoldable pub pg_capabilities : Capabilities
pg_capabilities = record {
  backend = "postgres";
  durable_acknowledgement = true;
  transactional_enqueue = true;
  priorities = true;
  delayed_jobs = true;
  unique_jobs = true;
  keyed_concurrency = true;
  workflows = true;
  durable_steps = true;
  cron = true;
  results = true;
}

-- The Redis backend, by whether the server fsyncs every write.
unfoldable pub redis_capabilities : Bool → Capabilities
redis_capabilities durable = record {
  backend = "redis";
  durable_acknowledgement = durable;
  transactional_enqueue = false;
  priorities = true;
  delayed_jobs = true;
  unique_jobs = false;
  keyed_concurrency = false;
  workflows = false;
  durable_steps = false;
  cron = false;
  results = false;
}
