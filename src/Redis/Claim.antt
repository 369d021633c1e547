-- ===== src/Redis/Claim.antt =====
-- What CLAIM of crates/gylo-redis/src/lib.rs takes: each job once, and all that are due while there is room.
use gylo.Prelude.{
  ℕ, zero, suc, ◌+◌, ◌-◌, ◌≤◌, ◌<◌, ◌≡◌, refl, sym, ap, ◌∙◌, subst, inl, inr, Bool, true, List, [],
  ◌∷◌, Option, arith, Bool-cases, length, take, ◌==◌, if◌then◌else◌,
}
use gylo.Wire.Words.{Bytes}
use gylo.Pg.Row.{any_id, is_some}
use gylo.Pg.Count.{bit}
use gylo.Pg.Cascade.{any_id-append}
use gylo.Redis.Zset.{Entry, zrem_all, due_ids, occurs, occurs-zadd_all, occurs-due_ids, any_id-take}
use gylo.Redis.Store.{Store, levels, update}
use gylo.Redis.Backend.{claim_due, claim_from, claim}
use gylo.Redis.Places.{places, ready_le, lease_all-leased, lease_all-ready}
use gylo.Redis.Leasing.{IsSound, IsSoundBeside-IsSound, IsSound-IsSoundBeside, claim_due-IsSound}

-- A job that waits in a sound store is not leased, and has its payload.
waiting-unleased :
    (s : Store) (level y : ℕ)
    → level < levels
    → IsSound s
    → 1 ≤ occurs y (s.ready level)
    → (occurs y s.leased ≡ 0) × (is_some (s.payload y) ≡ true)
waiting-unleased s level y low v there =
    let here = ready_le levels y level s.ready low in
    elim (Bool-cases (is_some (s.payload y))) [
      | inl stored ↦
          let total : places y s ≡ 1 = v y ∙ ap bit stored in
          (omega (arith, total, here, there), stored)
      | inr missing ↦
          let total : places y s ≡ 0 = v y ∙ ap bit missing in
          absurd (omega (arith, total, here, there))
    ]

module _ (lex : ℕ → ℕ → Bool) where
  claim_due-leased :
      (expires level : ℕ) (ids : List ℕ) (s : Store) (y : ℕ)
      → occurs y (claim_due lex expires level ids s).leased
        ≡ (if any_id y ids then 1 else occurs y s.leased)
  unfolding claim_due any_id
  claim_due-leased expires level [] s y = refl
  claim_due-leased expires level (id ∷ ids) s y =
      let s' : Store = record s {
        ready = update level (zrem_all (id ∷ ids) (s.ready level)) s.ready;
      } in
      rw (lease_all-leased lex expires (id ∷ ids) s')
        (unfold zrem_all in occurs-zadd_all lex y expires (id ∷ ids) s.leased)

  claim_due-payload :
      (expires level : ℕ) (ids : List ℕ) (s : Store)
      → (claim_due lex expires level ids s).payload ≡ s.payload
  unfolding claim_due
  claim_due-payload expires level [] s = refl
  claim_due-payload expires level (id ∷ ids) s = (lease_all-ready lex expires (id ∷ ids) _).1

  pub claim_due-ready :
      (expires level : ℕ) (ids : List ℕ) (s : Store) (l : ℕ)
      → (claim_due lex expires level ids s).ready l
        ≡ (if level == l then zrem_all ids (s.ready level) else s.ready l)
  unfolding claim_due zrem_all
  claim_due-ready expires level [] s l = elim (Bool-cases (level == l)) [
    | inl same ↦ let equal : level ≡ l = ground arith in rw same (ap s.ready (sym equal))
    | inr other ↦ rw other refl
  ]
  claim_due-ready expires level (id ∷ ids) s l =
      ap (λ (r : ℕ → List Entry). r l) (lease_all-ready lex expires (id ∷ ids) _).0

  -- A lease that is there stays.
  claim_from-leased :
      (now expires left level room : ℕ) (s : Store) (y : ℕ)
      → 1 ≤ occurs y s.leased
      → 1 ≤ occurs y (claim_from lex now expires left level room s).0.leased
  unfolding claim_from
  claim_from-leased now expires zero level room s y h = h
  claim_from-leased now expires (suc left) level zero s y h = h
  claim_from-leased now expires (suc left) level (suc room) s y h =
      let due = take (suc room) (due_ids now (s.ready level)) in
      let kept : 1 ≤ occurs y (claim_due lex expires level due s).leased =
        ground (arith, claim_due-leased expires level due s y) in
      claim_from-leased now expires left (suc level) (suc room - length due)
        (claim_due lex expires level due s) y kept

  claim_from-payload :
      (now expires left level room : ℕ) (s : Store)
      → (claim_from lex now expires left level room s).0.payload ≡ s.payload
  unfolding claim_from
  claim_from-payload now expires zero level room s = refl
  claim_from-payload now expires (suc left) level zero s = refl
  claim_from-payload now expires (suc left) level (suc room) s =
      let due = take (suc room) (due_ids now (s.ready level)) in
      claim_from-payload now expires left (suc level) (suc room - length due)
        (claim_due lex expires level due s)
      ∙ claim_due-payload expires level due s

  -- What becomes of a job that is claimed: it was not leased and has a payload, and it is leased now.
  abbrev pub Claimed : Store → Store → ℕ → Type 0
  Claimed s after y =
      (1 ≤ occurs y after.leased) × (occurs y s.leased ≡ 0) × (is_some (s.payload y) ≡ true)

  claim_from-Claimed :
      (now expires left level room : ℕ) (s : Store) (y : ℕ)
      → left + level ≡ levels
      → IsSound s
      → any_id y (claim_from lex now expires left level room s).1 ≡ true
      → Claimed s (claim_from lex now expires left level room s).0 y
  unfolding claim_from any_id
  claim_from-Claimed now expires zero level room s y all v h = absurd (cc h)
  claim_from-Claimed now expires (suc left) level zero s y all v h = absurd (cc h)
  claim_from-Claimed now expires (suc left) level (suc room) s y all v h =
      let due = take (suc room) (due_ids now (s.ready level)) in
      let s1 = claim_due lex expires level due s in
      let from : (x : ℕ) → any_id x due ≡ true → 1 ≤ occurs x (s.ready level) = λ x m.
        occurs-due_ids x now (s.ready level)
          (any_id-take x (suc room) (due_ids now (s.ready level)) m) in
      let low : level < levels = omega (arith, all) in
      let leased = claim_due-leased expires level due s y in
      elim (Bool-cases (any_id y due)) [
        | inl first ↦
            let here : 1 ≤ occurs y s1.leased = ground (arith, leased, first) in
            let (unleased, stored) = waiting-unleased s level y low v (from y first) in
            (
              claim_from-leased now expires left (suc level) (suc room - length due) s1 y here,
              unleased,
              stored,
            )
        | inr later ↦
            let more : any_id y
                  (claim_from lex now expires left (suc level) (suc room - length due) s1).1
                ≡ true =
              let split =
                any_id-append y due
                  (claim_from lex now expires left (suc level) (suc room - length due) s1).1 in
              ground (arith, split, h, later) in
            let (after, before, stored) =
              claim_from-Claimed now expires left (suc level) (suc room - length due) s1 y
                (omega (arith, all))
                (IsSoundBeside-IsSound s1 (
                  claim_due-IsSound lex [] now expires level due s low from
                    (IsSound-IsSoundBeside s v)))
                more in
            (
              after,
              ground (arith, leased, later, before),
              subst (λ (f : ℕ → Option Bytes). is_some (f y) ≡ true)
                  (claim_due-payload expires level due s) stored,
            )
      ]

  -- In a store where each job stands in one set, a job that CLAIM takes was not leased and has its
  -- payload, and it is leased afterwards.
  pub claim-Claimed :
      (now limit expires : ℕ) (s : Store) (y : ℕ)
      → IsSound s
      → any_id y (claim lex now limit expires s).1 ≡ true
      → Claimed s (claim lex now limit expires s).0 y
  unfolding claim
  claim-Claimed now limit expires s y v h =
      claim_from-Claimed now expires levels 0 limit s y refl v h

  pub claim-payload :
      (now limit expires : ℕ) (s : Store) → (claim lex now limit expires s).0.payload ≡ s.payload
  unfolding claim
  claim-payload now limit expires s = claim_from-payload now expires levels 0 limit s
