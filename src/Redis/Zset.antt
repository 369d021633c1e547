-- ===== src/Redis/Zset.antt =====
-- Sorted sets as crates/gylo-redis/src/lib.rs uses them: ZADD, ZREM, ZSCORE, ZCARD and ZRANGEBYSCORE with
-- a LIMIT, as the server documents them. A set is the list of its entries by score; how members with one
-- score are ordered is an argument, since the server compares their texts.
use gylo.Prelude.{
  ℕ, zero, suc, ◌+◌, ◌≤◌, ◌≡◌, refl, inl, inr, Bool, true, ◌&&◌, ◌||◌, List, [], ◌∷◌, Option, none,
  some, arith, Bool-cases, length, take, ltb, leb, ◌==◌, if◌then◌else◌,
}
use gylo.Pg.Row.{any_id}

pub record Entry : Type 0 where
  pub member : ℕ
  pub score : ℕ

-- ZREM of one member and of several.
unfoldable pub zrem : ℕ → List Entry → List Entry
zrem id [] = []
zrem id (e ∷ z) = let rest = zrem id z in if e.member == id then rest else e ∷ rest

unfoldable pub zrem_all : List ℕ → List Entry → List Entry
zrem_all [] z = z
zrem_all (id ∷ ids) z = zrem_all ids (zrem id z)

unfoldable pub zscore : ℕ → List Entry → Option ℕ
zscore id [] = none
zscore id (e ∷ z) = if e.member == id then some e.score else zscore id z

abbrev pub zcard : List Entry → ℕ
zcard z = length z

-- ZRANGEBYSCORE from -inf to a bound.
unfoldable pub due_ids : ℕ → List Entry → List ℕ
due_ids bound [] = []
due_ids bound (e ∷ z) =
    let rest = due_ids bound z in if leb e.score bound then e.member ∷ rest else rest

module _ (lex : ℕ → ℕ → Bool) where
  unfoldable pub place_entry : Entry → List Entry → List Entry
  place_entry e [] = e ∷ []
  place_entry e (f ∷ z) =
      let later = f ∷ place_entry e z in
      if ltb e.score f.score || (e.score == f.score && lex e.member f.member)
      then e ∷ f ∷ z
      else later

  -- ZADD moves a member that is there already.
  unfoldable pub zadd : ℕ → ℕ → List Entry → List Entry
  zadd score id z = place_entry (record { member = id; score = score }) (zrem id z)

  unfoldable pub zadd_all : ℕ → List ℕ → List Entry → List Entry
  zadd_all score [] z = z
  zadd_all score (id ∷ ids) z = zadd_all score ids (zadd score id z)

-- How often a member stands in a set.
unfoldable pub occurs : ℕ → List Entry → ℕ
occurs id [] = 0
occurs id (e ∷ z) = (if e.member == id then 1 else 0) + occurs id z

pub occurs-zrem :
    (y id : ℕ) (z : List Entry) → occurs y (zrem id z) ≡ (if id == y then 0 else occurs y z)
unfolding occurs zrem
occurs-zrem y id [] = ground arith
occurs-zrem y id (e ∷ z) = ground (arith, occurs-zrem y id z)

pub occurs-zrem_all :
    (y : ℕ) (ids : List ℕ) (z : List Entry)
    → occurs y (zrem_all ids z) ≡ (if any_id y ids then 0 else occurs y z)
unfolding zrem_all any_id
occurs-zrem_all y [] z = refl
occurs-zrem_all y (id ∷ ids) z =
    ground (arith, occurs-zrem_all y ids (zrem id z), occurs-zrem y id z)

module _ (lex : ℕ → ℕ → Bool) where
  occurs-place_entry :
      (y : ℕ) (e : Entry) (z : List Entry)
      → occurs y (place_entry lex e z) ≡ (if e.member == y then 1 else 0) + occurs y z
  unfolding occurs place_entry
  occurs-place_entry y e [] = refl
  occurs-place_entry y e (f ∷ z) = ground (arith, occurs-place_entry y e z)

  pub occurs-zadd :
      (y score id : ℕ) (z : List Entry)
      → occurs y (zadd lex score id z) ≡ (if id == y then 1 else occurs y z)
  unfolding zadd
  occurs-zadd y score id z = ground (
    arith,
    occurs-place_entry y (record { member = id; score = score }) (zrem id z),
    occurs-zrem y id z,
  )

  pub occurs-zadd_all :
      (y score : ℕ) (ids : List ℕ) (z : List Entry)
      → occurs y (zadd_all lex score ids z) ≡ (if any_id y ids then 1 else occurs y z)
  unfolding zadd_all any_id
  occurs-zadd_all y score [] z = refl
  occurs-zadd_all y score (id ∷ ids) z =
      ground (arith, occurs-zadd_all y score ids (zadd lex score id z), occurs-zadd y score id z)

-- Members that are due stand in the set.
pub occurs-due_ids :
    (y bound : ℕ) (z : List Entry) → any_id y (due_ids bound z) ≡ true → 1 ≤ occurs y z
unfolding occurs due_ids any_id
occurs-due_ids y bound [] h = cc
occurs-due_ids y bound (e ∷ z) h = elim (Bool-cases (e.member == y)) [
  | inl same ↦ ground arith
  | inr other ↦
      let rest : any_id y (due_ids bound z) ≡ true = ground arith in
      ground (arith, occurs-due_ids y bound z rest)
]

pub any_id-take : (y n : ℕ) (ids : List ℕ) → any_id y (take n ids) ≡ true → any_id y ids ≡ true
unfolding any_id
any_id-take y zero ids h = cc h
any_id-take y (suc n) [] h = h
any_id-take y (suc n) (id ∷ ids) h = elim (Bool-cases (id == y)) [
  | inl same ↦ ground arith
  | inr other ↦
      let rest : any_id y (take n ids) ≡ true = ground arith in
      ground (arith, any_id-take y n ids rest)
]
