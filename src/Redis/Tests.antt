-- ===== src/Redis/Tests.antt =====
-- The theorems on crates/gylo-redis/src/lib.rs at concrete stores.
use gylo.Prelude.{
  ℕ, ◌+◌, ◌≤◌, ◌<◌, ◌≡◌, refl, sym, ap, subst, inl, inr, Bool, true, false, List, [], ◌∷◌, Option,
  none, some, arith, length, Bool-cases, ltb, ◌==◌,
}
use gylo.Prelude.Int.{pos}
use gylo.Prelude.Results.{ok, err}
use gylo.Wire.Words.{Bytes}
use gylo.Pg.Row.{any_id}
use gylo.Pg.Fetch.{Job}
use gylo.Redis.Zset.{due_ids, zscore, zadd, place_entry, zrem, occurs}
use gylo.Redis.Store.{Store, levels, empty_store}
use gylo.Redis.Backend.{
  Stored, StoredPack, RedisError, claim, claim_from, claim_due, lease_all, complete, enqueue,
  level_of,
}
use gylo.Redis.Machine.{Reach, opened, called, enqueues, claims, lets_go, AllLeased, apply}
use gylo.Redis.Leasing.{IsSound, IsSoundBeside, IsSoundBeside-IsSound}
use gylo.Redis.Sound.{Reach-IsSound}
use gylo.Redis.Claim.{Claimed, claim-Claimed}
use gylo.Redis.Progress.{claim-nothing_due}
use gylo.Redis.Reading.{IsReadable, fetch_alone, ids_in_jobs, fetch-ok, complete-poisons}

-- A library that writes the id and the bound on attempts.
abbrev short_pack : StoredPack
short_pack = record { to_vec = λ job. some (job.id ∷ job.max_attempts ∷ []); from_slice = read }
  where
    read : Bytes → Option Stored
    read (id ∷ most ∷ []) = some (record { id = id; task = []; payload = []; max_attempts = most })
    read _ = none

abbrev mail : Stored
mail = record { id = 7; task = []; payload = []; max_attempts = 3 }

abbrev by_id : ℕ → ℕ → Bool
by_id = ltb

abbrev one_job : Store
one_job = apply by_id 5 (enqueues short_pack mail (pos 2) 0) empty_store

one_job-Reach : Reach by_id [] one_job
one_job-Reach = called 5 (enqueues short_pack mail (pos 2) 0) refl opened

one_job-IsSound : IsSound one_job
one_job-IsSound = IsSoundBeside-IsSound one_job (Reach-IsSound by_id one_job-Reach)

-- The job is taken, and then let go by an `abandon` that ends there.
abbrev let_go_store : Store
let_go_store = apply by_id 12 (lets_go (7 ∷ [])) (apply by_id 10 (claims 4 90) one_job)

mail_taken : 1 ≤ occurs 7 (apply by_id 10 (claims 4 90) one_job).leased
unfolding claim claim_from claim_due due_ids apply enqueue level_of zadd place_entry zrem occurs
    lease_all
mail_taken = omega arith

mail_is_held : AllLeased (7 ∷ []) (apply by_id 10 (claims 4 90) one_job)
unfolding any_id
mail_is_held y m =
    let equal : 7 ≡ y = ground arith in
    subst (λ (x : ℕ). 1 ≤ occurs x (apply by_id 10 (claims 4 90) one_job).leased) equal mail_taken

Reach-IsSound_example : IsSoundBeside (7 ∷ []) let_go_store
Reach-IsSound_example =
    Reach-IsSound by_id
      (called 12 (lets_go (7 ∷ [])) mail_is_held (called 10 (claims 4 90) tt one_job-Reach))

claimed : any_id 7 (claim by_id 10 4 100 one_job).1 ≡ true
unfolding claim claim_from claim_due due_ids any_id apply enqueue level_of zadd place_entry zrem
claimed = refl

claim-Claimed_example : Claimed by_id one_job (claim by_id 10 4 100 one_job).0 7
claim-Claimed_example = claim-Claimed by_id 10 4 100 one_job 7 one_job-IsSound claimed

claim-nothing_due_example :
    (length (claim by_id 10 4 100 one_job).1 ≤ 4)
    × ((level y : ℕ)
        → length (claim by_id 10 4 100 one_job).1 < 4
        → level < levels
        → any_id y (due_ids 10 ((claim by_id 10 4 100 one_job).0.ready level)) ≡ false)
claim-nothing_due_example = claim-nothing_due by_id 10 4 100 one_job

one_job-IsReadable : IsReadable short_pack one_job
unfolding apply enqueue level_of
one_job-IsReadable id bytes e = elim (Bool-cases (7 == id)) [
  | inl same ↦
      let written : some (7 ∷ 3 ∷ []) ≡ some bytes = rw same at e in
      let equal : 7 ∷ 3 ∷ [] ≡ bytes = cc written in
      (mail, ap short_pack.from_slice (sym equal), ground arith)
  | inr other ↦ let clash : none ≡ some bytes = rw other at e in absurd (cc clash)
]

fetch-ok_example :
    (jobs : List Job) × ((fetch_alone short_pack by_id 10 10 4 90 one_job).1 ≡ ok jobs)
    × (ids_in_jobs jobs ≡ (claim by_id 10 4 100 one_job).1)
fetch-ok_example = fetch-ok short_pack by_id 10 10 4 90 one_job one_job-IsSound one_job-IsReadable

not_leased : zscore 7 one_job.leased ≡ none
unfolding zscore apply enqueue level_of
not_leased = refl

complete-poisons_example :
    ((complete (7 ∷ []) one_job).1 ≡ 0)
    × ((complete (7 ∷ []) one_job).0.ready ≡ one_job.ready)
    × ((now later limit lease : ℕ)
        → any_id 7 (claim by_id later limit (now + lease) (complete (7 ∷ []) one_job).0).1 ≡ true
        → (e : RedisError) × ((fetch_alone short_pack by_id now later limit lease
              (complete (7 ∷ []) one_job).0).1
            ≡ err e))
complete-poisons_example = complete-poisons short_pack by_id 7 one_job not_leased
