-- ===== src/Redis/Store.antt =====
-- The keys of one namespace of crates/gylo-redis/src/lib.rs: a sorted set for each priority level, the
-- leases, and two hashes. Scores are milliseconds, whole numbers below 2 ^ 53 and so exact as floats.
use gylo.Prelude.{ℕ, ◌+◌, Bool, List, [], Option, none, some, ◌==◌, if◌then◌else◌}
use gylo.Wire.Words.{Bytes}
use gylo.Pg.Row.{any_id}
use gylo.Redis.Zset.{Entry, zadd}

abbrev pub levels : ℕ
levels = 10

pub record Store : Type 0 where
  pub ready : ℕ → List Entry
  pub leased : List Entry
  pub payload : ℕ → Option Bytes
  pub attempt : ℕ → Option ℕ

abbrev pub empty_store : Store
empty_store = record {
  ready = λ level. [];
  leased = [];
  payload = λ id. none;
  attempt = λ id. none;
}

-- A change at one key of a hash, or of one level.
abbrev pub update {ℓ} : {A : Type ℓ} → ℕ → A → (ℕ → A) → ℕ → A
update k v f q = if k == q then v else f q

-- HDEL.
abbrev pub hdel {ℓ} : {A : Type ℓ} → List ℕ → (ℕ → Option A) → ℕ → Option A
hdel ids f q = if any_id q ids then none else f q

-- HINCRBY by one, which starts at 0.
abbrev pub incremented : Option ℕ → ℕ
incremented none = 1
incremented (some n) = n + 1

abbrev pub hincr : ℕ → (ℕ → Option ℕ) → ℕ → Option ℕ
hincr id f q = update id (some (incremented (f id))) f q

-- ZADD to one level.
abbrev pub zadd_ready : (ℕ → ℕ → Bool) → ℕ → ℕ → ℕ → Store → Store
zadd_ready lex level score id s = record s {
  ready = update level (zadd lex score id (s.ready level)) s.ready;
}
