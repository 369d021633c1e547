-- ===== src/Capability/Tests.antt =====
-- The theorems on capabilities at concrete backends.
use gylo.Prelude.{◌≡◌, refl, true, false, [], ◌∷◌}
use gylo.Prelude.Results.{err}
use gylo.Capability.{priorities, durable_steps, workflows, require, supports, redis_capabilities}
use gylo.Capability.Laws.{RequiresFirst, require_first}

-- Steps are the first gap that is met.
first_gap :
    require (redis_capabilities false) (priorities ∷ durable_steps ∷ workflows ∷ [])
    ≡ err (record { backend = "redis"; feature = durable_steps })
unfolding require supports redis_capabilities
first_gap = refl

require_first_example :
    RequiresFirst (redis_capabilities true) (priorities ∷ durable_steps ∷ workflows ∷ [])
require_first_example =
    require_first (redis_capabilities true) (priorities ∷ durable_steps ∷ workflows ∷ [])
