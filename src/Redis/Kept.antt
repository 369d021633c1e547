-- ===== src/Redis/Kept.antt =====
-- The calls of crates/gylo-redis/src/lib.rs that move a leased job, add one or renew leases, by
-- the sets that each job stands in.
use gylo.Prelude.{
  ℕ, zero, suc, ◌+◌, ◌≤◌, ◌<◌, ◌≡◌, refl, ap, ◌∙◌, subst, inl, inr, Bool, true, List, [], ◌∷◌, ◌++◌,
  Option, none, some, arith, Bool-cases, take, ltb, ◌==◌, if◌then◌else◌,
}
use gylo.Prelude.Int.{ℤ, pos, negsuc}
use gylo.Prelude.Results.{Result, ok, err}
use gylo.Wire.Words.{Bytes}
use gylo.Pg.Row.{is_some, any_id}
use gylo.Pg.Count.{bit}
use gylo.Redis.Zset.{
  Entry, zrem_all, zscore, due_ids, zadd, zadd_all, occurs, occurs-zrem_all, occurs-zadd,
  occurs-zadd_all, occurs-due_ids, any_id-take,
}
use gylo.Redis.Store.{Store, levels, update, empty_store, zadd_ready}
use gylo.Redis.Backend.{
  RedisError, bad_payload, Stored, StoredPack, level_of, reclaim_due, reclaim_expired, renew_each,
  renew, enqueue, retry, let_go, make_ready, complete, clear,
}
use gylo.Redis.Places.{ready_sum, places, ready_sum-update, ready_le}
use gylo.Pg.Cascade.{any_id-append}
use gylo.Redis.Machine.{AllLeased, without, without-any_id}
use gylo.Redis.Leasing.{IsSoundBeside, bit_le, zscore-occurs}

module _ (lex : ℕ → ℕ → Bool) (gone : List ℕ) where
  -- Jobs whose leases are held, moved back to one level.
  pub moved-IsSound :
      (score level : ℕ) (ids : List ℕ) (s : Store)
      → level < levels
      → AllLeased ids s
      → IsSoundBeside gone s
      → IsSoundBeside gone (record s {
        leased = zrem_all ids s.leased;
        ready = update level (zadd_all lex score ids (s.ready level)) s.ready;
      })
  moved-IsSound score level ids s low held v = λ y.
      let z = zadd_all lex score ids (s.ready level) in
      let counted = ready_sum-update levels y level z s.ready low in
      let most = bit_le (is_some (s.payload y)) in
      let here = ready_le levels y level s.ready low in
      ground (
        arith,
        counted,
        occurs-zrem_all y ids s.leased,
        occurs-zadd_all lex y score ids (s.ready level),
        v y,
        held y,
        most,
        here,
      )

  pub reclaim_due-IsSound :
      (now : ℕ) (ids : List ℕ) (s : Store)
      → AllLeased ids s
      → IsSoundBeside gone s
      → IsSoundBeside gone (reclaim_due lex now ids s)
  unfolding reclaim_due
  reclaim_due-IsSound now [] s held v = v
  reclaim_due-IsSound now (id ∷ ids) s held v =
      moved-IsSound now 0 (id ∷ ids) s (omega arith) held v

  pub reclaim_expired-IsSound :
      (now limit : ℕ) (s : Store)
      → IsSoundBeside gone s
      → IsSoundBeside gone (reclaim_expired lex now limit s).0
  unfolding reclaim_expired
  reclaim_expired-IsSound now limit s v =
      reclaim_due-IsSound now (take limit (due_ids now s.leased)) s
        (λ y m. occurs-due_ids y now s.leased (any_id-take y limit (due_ids now s.leased) m)) v

  -- The first pipe of `abandon` puts jobs beside the sets, the second one puts them back.
  pub let_go-IsSound :
      (ids : List ℕ) (s : Store)
      → AllLeased ids s
      → IsSoundBeside gone s
      → IsSoundBeside (ids ++ gone) (let_go ids s).0
  unfolding let_go
  let_go-IsSound ids s held v = λ y.
      let most = bit_le (is_some (s.payload y)) in
      ground (arith, occurs-zrem_all y ids s.leased, any_id-append y ids gone, v y, held y, most)

  pub make_ready-IsSound :
      (now : ℕ) (ids : List ℕ) (s : Store)
      → ((y : ℕ) → any_id y ids ≡ true → any_id y gone ≡ true)
      → IsSoundBeside gone s
      → IsSoundBeside (without ids gone) (make_ready lex now ids s)
  unfolding make_ready
  make_ready-IsSound now ids s among v = λ y.
      let z = zadd_all lex now ids (s.ready 0) in
      let counted = ready_sum-update levels y 0 z s.ready (omega arith) in
      let most = bit_le (is_some (s.payload y)) in
      let here = ready_le levels y 0 s.ready (omega arith) in
      ground (
        arith,
        counted,
        occurs-zadd_all lex y now ids (s.ready 0),
        without-any_id y ids gone,
        v y,
        among y,
        most,
        here,
      )

  level_of-low : (priority : ℤ) → level_of priority < levels
  unfolding level_of
  level_of-low (negsuc n) = omega arith
  level_of-low (pos n) = ground arith

  pub retry-IsSound :
      (now id : ℕ) (priority : ℤ) (delay : ℕ) (s : Store)
      → AllLeased (id ∷ []) s
      → IsSoundBeside gone s
      → IsSoundBeside gone (retry lex now id priority delay s)
  unfolding retry zrem_all zadd_all
  retry-IsSound now id priority delay s held v =
      moved-IsSound (now + delay) (level_of priority) (id ∷ []) s (level_of-low priority) held v

  pub complete-IsSound :
      (ids : List ℕ) (s : Store)
      → AllLeased ids s
      → IsSoundBeside gone s
      → IsSoundBeside gone (complete ids s).0
  unfolding complete
  complete-IsSound [] s held v = v
  complete-IsSound (id ∷ ids) s held v = λ y.
      let most = bit_le (is_some (s.payload y)) in
      ground (arith, occurs-zrem_all y (id ∷ ids) s.leased, v y, held y, most)

  -- A job that is new, with its payload and its place in one level.
  pub enqueued-IsSound :
      (level score : ℕ) (id : ℕ) (encoded : Bytes) (s : Store)
      → level < levels
      → s.payload id ≡ none
      → IsSoundBeside gone s
      → IsSoundBeside gone (
          zadd_ready lex level score id (record s { payload = update id (some encoded) s.payload }))
  enqueued-IsSound level score id encoded s low fresh v = λ y.
      let counted =
        ready_sum-update levels y level (zadd lex score id (s.ready level)) s.ready low in
      let here = ready_le levels y level s.ready low in
      let unplaced : places id s + bit (any_id id gone) ≡ 0 =
        v id ∙ ap (λ (o : Option Bytes). bit (is_some o)) fresh in
      elim (Bool-cases (id == y)) [
        | inl same ↦
            let equal : id ≡ y = ground arith in
            let unplaced' : places y s + bit (any_id y gone) ≡ 0 =
              subst (λ (x : ℕ). places x s + bit (any_id x gone) ≡ 0) equal unplaced in
            rw same
              (ground (arith, counted, occurs-zadd lex y score id (s.ready level), unplaced', here))
        | inr other ↦
            rw other (ground (arith, counted, occurs-zadd lex y score id (s.ready level), v y))
      ]

  pub enqueue-IsSound :
      (pack : StoredPack) (now : ℕ) (job : Stored) (priority : ℤ) (delay : ℕ) (s : Store)
      → s.payload job.id ≡ none
      → IsSoundBeside gone s
      → IsSoundBeside gone (enqueue lex pack now job priority delay s).0
  unfolding enqueue
  enqueue-IsSound pack now job priority delay s fresh v = stored (pack.to_vec job)
    where
      stored :
          (o : Option Bytes)
          → IsSoundBeside gone
              (elim o as (λ x. Store × Result RedisError ℕ) [
                | none ↦ (s, err (bad_payload job.id))
                | some encoded ↦ (
                  zadd_ready lex
                      (level_of priority)
                      (now + delay)
                      job.id
                      (record s { payload = update job.id (some encoded) s.payload }),
                  ok job.id,
                )
              ]).0
      stored none = v
      stored (some encoded) =
          enqueued-IsSound (level_of priority) (now + delay) job.id encoded s
            (level_of-low priority) fresh v

  occurs-renew_each :
      (y expires : ℕ) (ids : List ℕ) (z : List Entry)
      → occurs y z ≤ 1
      → occurs y (renew_each lex expires ids z).0 ≡ occurs y z
  unfolding renew_each
  occurs-renew_each y expires [] z few = refl
  occurs-renew_each y expires (id ∷ ids) z few = elim (Bool-cases (is_some (zscore id z))) [
    | inl held ↦
        let there = zscore-occurs id z held in
        let after : occurs y (zadd lex expires id z) ≡ occurs y z = elim (Bool-cases (id == y)) [
          | inl same ↦
              let equal : id ≡ y = ground arith in
              let there' : 1 ≤ occurs y z = subst (λ (x : ℕ). 1 ≤ occurs x z) equal there in
              ground (arith, occurs-zadd lex y expires id z, there', few)
          | inr other ↦ ground (arith, occurs-zadd lex y expires id z)
        ] in
        rw held (
          occurs-renew_each y expires ids (zadd lex expires id z) (omega (arith, after, few))
          ∙ after)
    | inr lost ↦ rw lost (occurs-renew_each y expires ids z few)
  ]

  pub renew-IsSound :
      (now : ℕ) (ids : List ℕ) (lease : ℕ) (s : Store)
      → IsSoundBeside gone s
      → IsSoundBeside gone (renew lex now ids lease s).0
  unfolding renew
  renew-IsSound now [] lease s v = v
  renew-IsSound now (id ∷ ids) lease s v = λ y.
      let few : occurs y s.leased ≤ 1 =
        let most = bit_le (is_some (s.payload y)) in omega (arith, v y, most) in
      omega (arith, occurs-renew_each y (now + lease) (id ∷ ids) s.leased few, v y)

ready_sum-cleared :
    (n y : ℕ) (ready : ℕ → List Entry)
    → n ≤ levels
    → ready_sum n y (λ level. if ltb level levels then [] else ready level) ≡ 0
unfolding ready_sum occurs
ready_sum-cleared zero y ready h = refl
ready_sum-cleared (suc n) y ready h =
    let low : ltb n levels ≡ true = ground arith in
    rw low (omega (arith, ready_sum-cleared n y ready (omega (arith, h))))

pub clear-IsSound : (s : Store) → IsSoundBeside [] (clear s)
unfolding clear occurs any_id
clear-IsSound s y = omega (arith, ready_sum-cleared levels y s.ready (omega arith))

pub empty-IsSound : IsSoundBeside [] empty_store
unfolding ready_sum occurs any_id
empty-IsSound y = refl
