-- ===== src/Redis/Progress.antt =====
-- CLAIM of crates/gylo-redis/src/lib.rs leaves no due job behind while it has room.
use gylo.Prelude.{
  ℕ, zero, suc, ◌+◌, ◌-◌, ◌≤◌, ◌<◌, ◌≡◌, refl, ap, ◌∙◌, inl, inr, Bool, false, not, ◌&&◌, List, [],
  ◌∷◌, arith, Bool-cases, length, length-append, take, ◌==◌,
}
use gylo.Pg.Row.{any_id}
use gylo.Redis.Zset.{Entry, zrem, zrem_all, due_ids}
use gylo.Redis.Store.{Store, levels}
use gylo.Redis.Backend.{claim_due, claim_from, claim}
use gylo.Redis.Claim.{claim_due-ready}

length-take_min : (n : ℕ) (xs : List ℕ) → length (take n xs) ≤ n
length-take_min zero xs = omega arith
length-take_min (suc n) [] = omega arith
length-take_min (suc n) (x ∷ xs) = omega (arith, length-take_min n xs)

take_all_short : (n : ℕ) (xs : List ℕ) → length (take n xs) < n → take n xs ≡ xs
take_all_short zero xs h = absurd (omega (arith, h))
take_all_short (suc n) [] h = refl
take_all_short (suc n) (x ∷ xs) h =
    ap (λ (ys : List ℕ). x ∷ ys) (take_all_short n xs (omega (arith, h)))

-- What is due after a removal was due before, and was not removed.
due_ids-zrem :
    (y id bound : ℕ) (z : List Entry)
    → any_id y (due_ids bound (zrem id z)) ≡ (not (id == y) && any_id y (due_ids bound z))
unfolding any_id due_ids zrem
due_ids-zrem y id bound [] = ground arith
due_ids-zrem y id bound (e ∷ z) = ground (arith, due_ids-zrem y id bound z)

due_ids-zrem_all :
    (y bound : ℕ) (ids : List ℕ) (z : List Entry)
    → any_id y (due_ids bound (zrem_all ids z)) ≡ (not (any_id y ids) && any_id y (due_ids bound z))
unfolding any_id zrem_all
due_ids-zrem_all y bound [] z = ground arith
due_ids-zrem_all y bound (id ∷ ids) z =
    ground (arith, due_ids-zrem_all y bound ids (zrem id z), due_ids-zrem y id bound z)

nothing_due :
    (y bound : ℕ) (z : List Entry) → any_id y (due_ids bound (zrem_all (due_ids bound z) z)) ≡ false
nothing_due y bound z = ground (arith, due_ids-zrem_all y bound (due_ids bound z) z)

module _ (lex : ℕ → ℕ → Bool) (now expires : ℕ) where
  -- The levels below the one that the loop is at are done with.
  claim_from-below :
      (left level room : ℕ) (s : Store) (l : ℕ)
      → l < level
      → (claim_from lex now expires left level room s).0.ready l ≡ s.ready l
  unfolding claim_from
  claim_from-below zero level room s l h = refl
  claim_from-below (suc left) level zero s l h = refl
  claim_from-below (suc left) level (suc room) s l h =
      let due = take (suc room) (due_ids now (s.ready level)) in
      let other : (level == l) ≡ false = ground arith in
      let same : (claim_due lex expires level due s).ready l ≡ s.ready l =
        claim_due-ready lex expires level due s l ∙ (rw other refl) in
      claim_from-below left (suc level) (suc room - length due) (claim_due lex expires level due s)
        l (omega (arith, h))
      ∙ same

  claim_from-length :
      (left level room : ℕ) (s : Store)
      → length (claim_from lex now expires left level room s).1 ≤ room
  unfolding claim_from
  claim_from-length zero level room s = omega arith
  claim_from-length (suc left) level zero s = omega arith
  claim_from-length (suc left) level (suc room) s =
      let due = take (suc room) (due_ids now (s.ready level)) in
      let s1 = claim_due lex expires level due s in
      let more = (claim_from lex now expires left (suc level) (suc room - length due) s1).1 in
      omega (
        arith,
        length-append due more,
        length-take_min (suc room) (due_ids now (s.ready level)),
        claim_from-length left (suc level) (suc room - length due) s1,
      )

  claim_from-nothing_due :
      (left level room : ℕ) (s : Store) (l y : ℕ)
      → length (claim_from lex now expires left level room s).1 < room
      → level ≤ l
      → l < left + level
      → any_id y (due_ids now ((claim_from lex now expires left level room s).0.ready l)) ≡ false
  unfolding claim_from
  claim_from-nothing_due zero level room s l y few low high = absurd (omega (arith, low, high))
  claim_from-nothing_due (suc left) level zero s l y few low high = absurd (omega (arith, few))
  claim_from-nothing_due (suc left) level (suc room) s l y few low high =
      let all = due_ids now (s.ready level) in
      let due = take (suc room) all in
      let s1 = claim_due lex expires level due s in
      let rest = claim_from lex now expires left (suc level) (suc room - length due) s1 in
      let joined = length-append due rest.1 in
      elim (Bool-cases (level == l)) [
        | inl same ↦
            let equal : level ≡ l = ground arith in
            let whole : due ≡ all = take_all_short (suc room) all (omega (arith, joined, few)) in
            let after : rest.0.ready l ≡ zrem_all due (s.ready level) =
              claim_from-below left (suc level) (suc room - length due) s1 l (omega (arith, equal))
              ∙ (claim_due-ready lex expires level due s l ∙ (rw same refl)) in
            ap (λ (z : List Entry). any_id y (due_ids now z)) after
            ∙ (ap (λ (ids : List ℕ). any_id y (due_ids now (zrem_all ids (s.ready level)))) whole
                ∙ nothing_due y now (s.ready level))
        | inr other ↦
            claim_from-nothing_due left (suc level) (suc room - length due) s1 l y
              (omega (arith, joined, few)) (ground arith) (omega (arith, high))
      ]

-- CLAIM takes no more jobs than its limit, and when it takes fewer, no job that is due is left in
-- any level.
pub claim-nothing_due :
    (lex : ℕ → ℕ → Bool) (now limit expires : ℕ) (s : Store)
    → (length (claim lex now limit expires s).1 ≤ limit)
      × ((level y : ℕ)
          → length (claim lex now limit expires s).1 < limit
          → level < levels
          → any_id y (due_ids now ((claim lex now limit expires s).0.ready level)) ≡ false)
unfolding claim
claim-nothing_due lex now limit expires s = (
  claim_from-length lex now expires levels 0 limit s,
  λ level y few low.
      claim_from-nothing_due lex now expires levels 0 limit s level y few (omega arith)
        (omega (arith, low)),
)
