-- ===== src/Redis/Sound.antt =====
-- Histories of calls of crates/gylo-redis/src/lib.rs, by the sets that each job stands in.
use gylo.Prelude.{ℕ, ◌+◌, Bool, List, subst, sym}
use gylo.Redis.Backend.{clear}
use gylo.Redis.Store.{Store}
use gylo.Redis.Machine.{
  Call, enqueues, claims, completes, retries, renews, lets_go, makes_ready, reclaims, clears, apply,
  IsSent, gone_after, Reach, opened, called,
}
use gylo.Redis.Leasing.{IsSoundBeside, claim-IsSound}
use gylo.Redis.Kept.{
  enqueue-IsSound, complete-IsSound, retry-IsSound, renew-IsSound, let_go-IsSound,
  make_ready-IsSound, reclaim_expired-IsSound, clear-IsSound, empty-IsSound,
}

module _ (lex : ℕ → ℕ → Bool) where
  apply-IsSound :
      (now : ℕ) (c : Call) (gone : List ℕ) (s : Store)
      → IsSent c gone s
      → IsSoundBeside gone s
      → IsSoundBeside (gone_after c gone) (apply lex now c s)
  unfolding apply
  apply-IsSound now (enqueues pack job priority delay) gone s sent v =
      enqueue-IsSound lex gone pack now job priority delay s sent v
  apply-IsSound now (claims limit lease) gone s sent v =
      claim-IsSound lex gone now limit (now + lease) s v
  apply-IsSound now (completes ids) gone s sent v = complete-IsSound lex gone ids s sent v
  apply-IsSound now (retries id priority delay) gone s sent v =
      retry-IsSound lex gone now id priority delay s sent v
  apply-IsSound now (renews ids lease) gone s sent v = renew-IsSound lex gone now ids lease s v
  apply-IsSound now (lets_go ids) gone s sent v = let_go-IsSound lex gone ids s sent v
  apply-IsSound now (makes_ready ids) gone s sent v = make_ready-IsSound lex gone now ids s sent v
  apply-IsSound now (reclaims limit) gone s sent v = reclaim_expired-IsSound lex gone now limit s v
  apply-IsSound now clears gone s sent v =
      subst (λ (ids : List ℕ). IsSoundBeside ids (clear s)) (sym sent) (clear-IsSound s)

  -- In every store that a history of calls leads to, starting from an empty one, with new ids
  -- enqueued, reports only of jobs whose leases are held, and no clear between the two pipes of an
  -- abandon, each id is accounted for once: a job with a payload stands in exactly one of the sets,
  -- the levels or the leases, and once, or else in none while an abandon has let it go and not made
  -- it ready yet, which may last for good; an id without a payload is in none and not let go.
  pub Reach-IsSound : {gone : List ℕ} {s : Store} → Reach lex gone s → IsSoundBeside gone s
  Reach-IsSound opened = empty-IsSound
  Reach-IsSound (called {gone} {s} now c sent r) = apply-IsSound now c gone s sent (Reach-IsSound r)
