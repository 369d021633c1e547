-- ===== src/Pg/Recover.antt =====
-- Leases that were lost in crates/gylo-pg/src/lib.rs: how a job is handed back, and when a retry comes due.
use gylo.Prelude.{ℕ, ◌-◌, ◌/◌, ◌≤◌, ◌<◌, ◌≡◌, true, List, none, arith, ltb}
use native.Mathlib.Nat.{mul-add, mul-le-mul_left}
use gylo.Pg.Row.{Row, available, discarded, any_id, held_by}
use gylo.Pg.Lease.{abandon_row, reclaim_row}
use gylo.Pg.Settle.{rolls, nominal, jittered}

-- A job that was handed back.
abbrev pub HandedBack : Row → Row → Type 0
HandedBack r s =
    (s.locked_by ≡ none)
    × (s.lease_expires_at ≡ none)
    × (s.attempt ≡ r.attempt)
    × (r.attempt < r.max_attempts → s.state ≡ available)
    × (r.max_attempts ≤ r.attempt → s.state ≡ discarded)

-- A job that its worker abandons, at a time past the origin of the clock, and that the statement to
-- reclaim then picks, not earlier, loses its worker and its lease and keeps its attempts; it waits
-- again if an attempt is left and is dead otherwise.
pub reclaim-abandon :
    (now later : ℕ) (ids chosen : List ℕ) (worker : ℕ) (r : Row)
    → 1 ≤ now
    → now ≤ later
    → held_by worker r ≡ true
    → any_id r.id ids ≡ true
    → any_id r.id chosen ≡ true
    → HandedBack r (reclaim_row later chosen (abandon_row now ids worker r))
unfolding reclaim_row abandon_row
reclaim-abandon now later ids chosen worker r start le held named picked =
    let ended : ltb (now - 1) later ≡ true = ground arith in rw (held, named, picked) (ground arith)

jittered_half :
    (delay roll : ℕ)
    → roll < rolls
    → (delay / 2 ≤ jittered delay roll) × (jittered delay roll ≤ delay)
unfolding jittered
jittered_half delay roll small =
    let spread = mul-add delay rolls roll in
    let below : roll ≤ rolls = omega (arith, small) in
    let most = mul-le-mul_left delay below in
    (omega (arith, spread, most), omega (arith, spread, most))

-- The time to the next attempt is between half of the nominal delay and all of it, and never more
-- than the ceiling.
pub jittered_bounds :
    (base cap attempt roll : ℕ)
    → roll < rolls
    → (nominal base cap attempt / 2 ≤ jittered (nominal base cap attempt) roll)
      × (jittered (nominal base cap attempt) roll ≤ nominal base cap attempt)
      × (jittered (nominal base cap attempt) roll ≤ cap)
unfolding nominal
jittered_bounds base cap attempt roll small =
    let (low, high) = jittered_half (nominal base cap attempt) roll small in
    (low, high, omega (arith, high))
