-- ===== src/Worker/Restart.antt =====
-- The restarts of `supervise` in crates/gylo-worker/src/lib.rs. Times are milliseconds. A session is how
-- it ended and how long it lasted; shutdown between two sessions is the end of the list.
use gylo.Prelude.{
  ℕ, suc, ◌+◌, ◌-◌, ◌*◌, ◌^◌, ◌≤◌, ◌<◌, ◌≡◌, inl, inr, true, false, List, [], ◌∷◌, ◌++◌, arith,
  Bool-cases, ltb, leb, if◌then◌else◌, min,
}
use native.Mathlib.Nat.{pow-le-pow_right, one-le-pow}

abbrev pub restart_delay : ℕ
restart_delay = 250

abbrev pub restart_ceiling : ℕ
restart_ceiling = 30000

abbrev pub healthy_session : ℕ
healthy_session = 30000

pub data Session : Type 0 where
  ended : Session
  failed : ℕ → Session

-- How a supervisor ends: with its session, with the error of the last one, or not yet, after some
-- failures in a row.
pub data Supervised : Type 0 where
  finished gave_up : Supervised
  waiting : ℕ → Supervised

unfoldable pub backoff : ℕ → ℕ
backoff consecutive = min (restart_delay * 2 ^ min (consecutive - 1) 16) restart_ceiling

-- The failures in a row after one more.
unfoldable pub count_failure : ℕ → ℕ → ℕ
count_failure elapsed consecutive = (if leb healthy_session elapsed then 0 else consecutive) + 1

unfoldable pub supervise : ℕ → ℕ → List Session → Supervised
supervise max_restarts consecutive [] = waiting consecutive
supervise max_restarts consecutive (ended ∷ sessions) = finished
supervise max_restarts consecutive (failed elapsed ∷ sessions) =
    let count = count_failure elapsed consecutive in
    let rest = supervise max_restarts count sessions in
    if ltb max_restarts count then gave_up else rest

-- Sessions that all failed before they were healthy.
abbrev pub AllShort : List Session → Type 0
AllShort [] = Unit
AllShort (ended ∷ sessions) = ⊥
AllShort (failed elapsed ∷ sessions) = (elapsed < healthy_session) × AllShort sessions

abbrev pub how_many : List Session → ℕ
how_many [] = 0
how_many (s ∷ sessions) = suc (how_many sessions)

short_failures :
    (most consecutive : ℕ) (short rest : List Session)
    → AllShort short
    → consecutive ≤ most
    → supervise most consecutive (short ++ rest) ≡ (
        if leb (consecutive + how_many short) most
        then supervise most (consecutive + how_many short) rest
        else gave_up)
unfolding supervise count_failure
short_failures most c [] rest s le = let same : c + 0 ≡ c = omega arith in rw same (ground arith)
short_failures most c (ended ∷ short) rest s le = absurd s
short_failures most c (failed elapsed ∷ short) rest (small, s) le =
    let brief : leb healthy_session elapsed ≡ false = ground arith in
    let next : c + suc (how_many short) ≡ (c + 1) + how_many short = omega arith in
    elim (Bool-cases (ltb most (c + 1))) [
      | inl over ↦
          let out : leb ((c + 1) + how_many short) most ≡ false = ground arith in
          rw (brief, over, next, out)
      | inr left ↦
          let within : c + 1 ≤ most = ground arith in
          rw (brief, left, next) (short_failures most (c + 1) short rest s within)
    ]

-- With at least one restart allowed, after a session that failed but lasted, whatever came before, a
-- supervisor rides out as many short failures as bring the count to its limit, and gives up if there
-- are more.
pub supervise-short_failures :
    (most consecutive elapsed : ℕ) (short rest : List Session)
    → healthy_session ≤ elapsed
    → AllShort short
    → 1 ≤ most
    → supervise most consecutive (failed elapsed ∷ short ++ rest) ≡ (
        if leb (1 + how_many short) most then supervise most (1 + how_many short) rest else gave_up)
unfolding supervise count_failure
supervise-short_failures most consecutive elapsed short rest long s some_left =
    let lasted : leb healthy_session elapsed ≡ true = ground arith in
    let within : ltb most 1 ≡ false = ground arith in
    rw (lasted, within) (short_failures most 1 short rest s some_left)

-- The wait before a restart is between the delay and the ceiling, and never shrinks as failures go
-- on.
pub backoff_bounds :
    (m n : ℕ)
    → m ≤ n
    → (restart_delay ≤ backoff m) × (backoff m ≤ backoff n) × (backoff n ≤ restart_ceiling)
unfolding backoff
backoff_bounds m n le =
    let low = one-le-pow (min (m - 1) 16) 2 (omega arith) in
    let fewer : min (m - 1) 16 ≤ min (n - 1) 16 = omega (arith, le) in
    let powers = pow-le-pow_right {n = 2} (omega arith) fewer in
    (omega (arith, low), omega (arith, powers), omega arith)
