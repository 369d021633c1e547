-- ===== src/Capability/Laws.antt =====
-- What `require` and `gaps` of crates/gylo-core/src/capability.rs promise.
use gylo.Prelude.{
  ◌≡◌, refl, ap, ◌⊎◌, inl, inr, ◌↔◌, Bool, true, false, List, [], ◌∷◌, ◌++◌, arith, Bool-cases, All,
  ◌||◌, ◌&&◌, not,
}
use gylo.Prelude.Results.{ok, err}
use gylo.Capability.{
  Capabilities, Feature, supports, require, gaps, without, all_features, durable_acknowledgement,
  transactional_enqueue, priorities, delayed_jobs, unique_jobs, keyed_concurrency, workflows,
  durable_steps, cron, results, pg_capabilities,
}

abbrev pub Supported : Capabilities → List Feature → Type 0
Supported c wanted = All (λ f. supports c f ≡ true) wanted

-- What `require` may answer.
abbrev pub RequiresFirst : Capabilities → List Feature → Type 0
RequiresFirst c wanted =
    (Supported c wanted × (require c wanted ≡ ok tt))
    ⊎ ((before : List Feature) × (f : Feature) × (after : List Feature) × (wanted
          ≡ before ++ (f ∷ after))
        × Supported c before
        × (supports c f ≡ false)
        × (require c wanted ≡ err (record { backend = c.backend; feature = f })))

-- Require succeeds exactly when every wanted feature is supported; otherwise it names the backend
-- and the first wanted feature that is not, all before it being supported.
pub require_first : (c : Capabilities) (wanted : List Feature) → RequiresFirst c wanted
unfolding require
require_first c [] = inl (tt, refl)
require_first c (f ∷ wanted) = elim (Bool-cases (supports c f)) [
  | inr no_such ↦ inr ([], f, wanted, refl, tt, no_such, rw no_such)
  | inl has ↦ elim (require_first c wanted) [
    | inl (all, done) ↦ inl ((has, all), rw has done)
    | inr (before, g, after, e, all, no_such, refused) ↦
        inr (f ∷ before, g, after, ap (◌∷◌ f) e, (has, all), no_such, rw has refused)
  ]
]

is_feature : Feature → Feature → Bool
is_feature durable_acknowledgement durable_acknowledgement = true
is_feature transactional_enqueue transactional_enqueue = true
is_feature priorities priorities = true
is_feature delayed_jobs delayed_jobs = true
is_feature unique_jobs unique_jobs = true
is_feature keyed_concurrency keyed_concurrency = true
is_feature workflows workflows = true
is_feature durable_steps durable_steps = true
is_feature cron cron = true
is_feature results results = true
is_feature _ _ = false

-- Whether a list holds a feature.
unfoldable pub holds : List Feature → Feature → Bool
unfolding is_feature
holds [] f = false
holds (g ∷ gs) f = is_feature g f || holds gs f

is_feature→eq : (g f : Feature) → is_feature g f ≡ true → g ≡ f
unfolding is_feature
is_feature→eq durable_acknowledgement durable_acknowledgement e = refl
is_feature→eq transactional_enqueue transactional_enqueue e = refl
is_feature→eq priorities priorities e = refl
is_feature→eq delayed_jobs delayed_jobs e = refl
is_feature→eq unique_jobs unique_jobs e = refl
is_feature→eq keyed_concurrency keyed_concurrency e = refl
is_feature→eq workflows workflows e = refl
is_feature→eq durable_steps durable_steps e = refl
is_feature→eq cron cron e = refl
is_feature→eq results results e = refl
is_feature→eq _ _ e = cc

holds-all : (f : Feature) → holds all_features f ≡ true
unfolding holds
holds-all durable_acknowledgement = refl
holds-all transactional_enqueue = refl
holds-all priorities = refl
holds-all delayed_jobs = refl
holds-all unique_jobs = refl
holds-all keyed_concurrency = refl
holds-all workflows = refl
holds-all durable_steps = refl
holds-all cron = refl
holds-all results = refl

-- `without` drops the supported features and no other.
holds-without :
    (c : Capabilities) (fs : List Feature) (f : Feature)
    → holds (without c fs) f ≡ (holds fs f && not (supports c f))
unfolding holds without
holds-without c [] f = refl
holds-without c (g ∷ fs) f = elim (Bool-cases (is_feature g f)) [
  | inl same ↦
      let e : supports c g ≡ supports c f = ap (supports c) (is_feature→eq g f same) in
      ground (arith, e, same, holds-without c fs f)
  | inr other ↦ ground (arith, other, holds-without c fs f)
]

-- A feature stands among the gaps exactly when the backend does not support it.
pub gaps-supports :
    (c : Capabilities) (f : Feature) → (holds (gaps c) f ≡ true) ↔ (supports c f ≡ false)
unfolding gaps
gaps-supports c f =
    let e : holds (gaps c) f ≡ (holds all_features f && not (supports c f)) =
      holds-without c all_features f in
    ground (arith, e, holds-all f)

-- The Postgres backend refuses no requirement.
pub require-pg : (wanted : List Feature) → require pg_capabilities wanted ≡ ok tt
unfolding require supports pg_capabilities
require-pg [] = refl
require-pg (durable_acknowledgement ∷ wanted) = require-pg wanted
require-pg (transactional_enqueue ∷ wanted) = require-pg wanted
require-pg (priorities ∷ wanted) = require-pg wanted
require-pg (delayed_jobs ∷ wanted) = require-pg wanted
require-pg (unique_jobs ∷ wanted) = require-pg wanted
require-pg (keyed_concurrency ∷ wanted) = require-pg wanted
require-pg (workflows ∷ wanted) = require-pg wanted
require-pg (durable_steps ∷ wanted) = require-pg wanted
require-pg (cron ∷ wanted) = require-pg wanted
require-pg (results ∷ wanted) = require-pg wanted
