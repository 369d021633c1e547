-- ===== src/Redis/Machine.antt =====
-- The methods of `Backend` in crates/gylo-redis/src/lib.rs as the steps of one machine: the server runs
-- each script and each atomic pipe alone. A call is sent as its documentation wants it: a new id, and
-- reports only of jobs whose leases are held. The two pipes of `abandon` are two steps, between which
-- other calls may come; the second may never come, if its caller dies.
use gylo.Prelude.{
  ℕ, ◌+◌, ◌≤◌, ◌≡◌, ◌==◌, refl, inl, inr, ap, List, [], ◌∷◌, ◌++◌, Bool, true, none, not, ◌&&◌,
  if◌then◌else◌, arith, Bool-cases,
}
use gylo.Prelude.Int.{ℤ}
use gylo.Pg.Row.{any_id}
use gylo.Redis.Zset.{occurs}
use gylo.Redis.Store.{Store, empty_store}
use gylo.Redis.Backend.{
  Stored, StoredPack, enqueue, claim, complete, retry, renew, let_go, make_ready, reclaim_expired,
  clear,
}

pub data Call : Type 0 where
  enqueues : StoredPack → Stored → ℤ → ℕ → Call
  claims : ℕ → ℕ → Call
  completes : List ℕ → Call
  retries : ℕ → ℤ → ℕ → Call
  renews : List ℕ → ℕ → Call
  lets_go : List ℕ → Call
  makes_ready : List ℕ → Call
  reclaims : ℕ → Call
  clears : Call

unfoldable pub apply : (ℕ → ℕ → Bool) → ℕ → Call → Store → Store
apply lex now (enqueues pack job priority delay) s = (enqueue lex pack now job priority delay s).0
apply lex now (claims limit lease) s = (claim lex now limit (now + lease) s).0
apply lex now (completes ids) s = (complete ids s).0
apply lex now (retries id priority delay) s = retry lex now id priority delay s
apply lex now (renews ids lease) s = (renew lex now ids lease s).0
apply lex now (lets_go ids) s = (let_go ids s).0
apply lex now (makes_ready ids) s = make_ready lex now ids s
apply lex now (reclaims limit) s = (reclaim_expired lex now limit s).0
apply lex now clears s = clear s

-- Every id of a list is leased.
abbrev pub AllLeased : List ℕ → Store → Type 0
AllLeased ids s = (y : ℕ) → any_id y ids ≡ true → 1 ≤ occurs y s.leased

-- The ids of a list that are not in another.
abbrev pub without : List ℕ → List ℕ → List ℕ
without ids [] = []
without ids (x ∷ gone) = if any_id x ids then without ids gone else x ∷ without ids gone

pub without-any_id :
    (y : ℕ) (ids gone : List ℕ)
    → any_id y (without ids gone) ≡ (any_id y gone && not (any_id y ids))
unfolding any_id
without-any_id y ids [] = refl
without-any_id y ids (x ∷ gone) =
    let rest = without-any_id y ids gone in
    elim (Bool-cases (x == y)) [
      | inl same ↦
          let e : x ≡ y = ground arith in
          let own : any_id x ids ≡ any_id y ids = ap (λ (k : ℕ). any_id k ids) e in
          elim (Bool-cases (any_id x ids)) [
            | inl taken ↦ rw (taken, same) (ground (arith, rest, own, taken))
            | inr left ↦ rw (left, same) (ground (arith, rest, own, left, same))
          ]
      | inr other ↦ elim (Bool-cases (any_id x ids)) [
        | inl taken ↦ rw (taken, other) rest
        | inr left ↦ rw (left, other) (ground (arith, rest, other))
      ]
    ]

-- `gone` are the jobs that an `abandon` has let go and not made ready yet. No `clear` comes before it has.
abbrev pub IsSent : Call → List ℕ → Store → Type 0
IsSent (enqueues pack job priority delay) gone s = s.payload job.id ≡ none
IsSent (completes ids) gone s = AllLeased ids s
IsSent (retries id priority delay) gone s = AllLeased (id ∷ []) s
IsSent (lets_go ids) gone s = AllLeased ids s
IsSent (makes_ready ids) gone s = (y : ℕ) → any_id y ids ≡ true → any_id y gone ≡ true
IsSent clears gone s = gone ≡ []
IsSent _ gone s = Unit

abbrev pub gone_after : Call → List ℕ → List ℕ
gone_after (lets_go ids) gone = ids ++ gone
gone_after (makes_ready ids) gone = without ids gone
gone_after _ gone = gone

-- The stores that a history of calls leads to, with the jobs that are let go and not made ready yet.
pub data Reach (lex : ℕ → ℕ → Bool) : List ℕ → Store → Type 0 where
  opened : Reach lex [] empty_store
  called :
      {gone : List ℕ} {s : Store} (now : ℕ) (c : Call)
      → IsSent c gone s
      → Reach lex gone s
      → Reach lex (gone_after c gone) (apply lex now c s)
