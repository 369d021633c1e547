-- ===== src/Redis/Leasing.antt =====
-- Taking jobs in crates/gylo-redis/src/lib.rs: each keeps its one place.
use gylo.Prelude.{
  ℕ, zero, suc, ◌+◌, ◌-◌, ◌≤◌, ◌<◌, ◌≡◌, refl, Bool, true, List, [], ◌∷◌, arith, length, take,
}
use gylo.Pg.Row.{any_id, is_some}
use gylo.Pg.Count.{bit}
use gylo.Redis.Zset.{
  Entry, zrem_all, zscore, due_ids, occurs, occurs-zrem_all, occurs-zadd_all, occurs-due_ids,
  any_id-take,
}
use gylo.Redis.Store.{Store, levels, update}
use gylo.Redis.Backend.{claim_due, claim_from, claim}
use gylo.Redis.Places.{places, ready_sum-update, ready_le, lease_all-leased, lease_all-ready}

-- A job with a payload stands in exactly one set, once, and no other id stands in any.
abbrev pub IsSound : Store → Type 0
IsSound s = (y : ℕ) → places y s ≡ bit (is_some (s.payload y))

-- The same in a store of which some jobs are in no set for now.
abbrev pub IsSoundBeside : List ℕ → Store → Type 0
IsSoundBeside gone s = (y : ℕ) → places y s + bit (any_id y gone) ≡ bit (is_some (s.payload y))

pub IsSoundBeside-IsSound : (s : Store) → IsSoundBeside [] s → IsSound s
unfolding any_id
IsSoundBeside-IsSound s v y = omega (arith, v y)

pub IsSound-IsSoundBeside : (s : Store) → IsSound s → IsSoundBeside [] s
unfolding any_id
IsSound-IsSoundBeside s v y = omega (arith, v y)

pub bit_le : (b : Bool) → bit b ≤ 1
bit_le b = ground arith

pub zscore-occurs : (id : ℕ) (z : List Entry) → is_some (zscore id z) ≡ true → 1 ≤ occurs id z
unfolding zscore occurs
zscore-occurs id [] h = cc h
zscore-occurs id (e ∷ z) h = ground (arith, zscore-occurs id z)

module _ (lex : ℕ → ℕ → Bool) (gone : List ℕ) where
  pub claim_due-IsSound :
      (now expires level : ℕ) (ids : List ℕ) (s : Store)
      → level < levels
      → ((y : ℕ) → any_id y ids ≡ true → 1 ≤ occurs y (s.ready level))
      → IsSoundBeside gone s
      → IsSoundBeside gone (claim_due lex expires level ids s)
  unfolding claim_due
  claim_due-IsSound now expires level [] s low from v = v
  claim_due-IsSound now expires level (id ∷ ids) s low from v = λ y.
      let z = zrem_all (id ∷ ids) (s.ready level) in
      let s' : Store = record s { ready = update level z s.ready } in
      let (same_ready, same_payload) = lease_all-ready lex expires (id ∷ ids) s' in
      let leased = lease_all-leased lex expires (id ∷ ids) s' in
      let counted = ready_sum-update levels y level z s.ready low in
      let most = bit_le (is_some (s.payload y)) in
      let here = ready_le levels y level s.ready low in
      rw (same_ready, same_payload, leased)
        (ground (
          arith,
          counted,
          occurs-zrem_all y (id ∷ ids) (s.ready level),
          occurs-zadd_all lex y expires (id ∷ ids) s.leased,
          v y,
          from y,
          most,
          here,
        ))

  pub claim_from-IsSound :
      (now expires left level room : ℕ) (s : Store)
      → left + level ≡ levels
      → IsSoundBeside gone s
      → IsSoundBeside gone (claim_from lex now expires left level room s).0
  unfolding claim_from
  claim_from-IsSound now expires zero level room s all v = v
  claim_from-IsSound now expires (suc left) level zero s all v = v
  claim_from-IsSound now expires (suc left) level (suc room) s all v =
      let due = take (suc room) (due_ids now (s.ready level)) in
      claim_from-IsSound now expires left (suc level) (suc room - length due)
        (claim_due lex expires level due s) (omega (arith, all))
        (claim_due-IsSound now expires level due s (omega (arith, all))
          (λ y m.
            occurs-due_ids y now (s.ready level)
              (any_id-take y (suc room) (due_ids now (s.ready level)) m))
          v)

  pub claim-IsSound :
      (now limit expires : ℕ) (s : Store)
      → IsSoundBeside gone s
      → IsSoundBeside gone (claim lex now limit expires s).0
  unfolding claim
  claim-IsSound now limit expires s v = claim_from-IsSound now expires levels 0 limit s refl v
