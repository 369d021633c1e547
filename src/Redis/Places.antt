-- ===== src/Redis/Places.antt =====
-- In how many sets of the store a job stands (crates/gylo-redis/src/lib.rs).
use gylo.Prelude.{
  ℕ, zero, suc, ◌+◌, ◌≤◌, ◌<◌, ◌≡◌, refl, ap, inl, inr, Bool, false, List, [], ◌∷◌, arith,
  Bool-cases, ◌==◌,
}
use gylo.Redis.Zset.{Entry, zadd_all, occurs}
use gylo.Redis.Store.{Store, levels, update}
use gylo.Redis.Backend.{lease_all}

-- How often a job stands in the first levels.
unfoldable pub ready_sum : ℕ → ℕ → (ℕ → List Entry) → ℕ
ready_sum zero y ready = 0
ready_sum (suc n) y ready = ready_sum n y ready + occurs y (ready n)

abbrev pub places : ℕ → Store → ℕ
places y s = ready_sum levels y s.ready + occurs y s.leased

ready_sum-above :
    (n y level : ℕ) (z : List Entry) (ready : ℕ → List Entry)
    → n ≤ level
    → ready_sum n y (update level z ready) ≡ ready_sum n y ready
unfolding ready_sum
ready_sum-above zero y level z ready h = refl
ready_sum-above (suc n) y level z ready h =
    let other : (level == n) ≡ false = ground arith in
    rw other (ground (arith, ready_sum-above n y level z ready (omega (arith, h))))

-- A level that is replaced counts anew, the others as before.
pub ready_sum-update :
    (n y level : ℕ) (z : List Entry) (ready : ℕ → List Entry)
    → level < n
    → ready_sum n y (update level z ready) + occurs y (ready level)
      ≡ ready_sum n y ready + occurs y z
unfolding ready_sum
ready_sum-update zero y level z ready h = absurd (omega (arith, h))
ready_sum-update (suc n) y level z ready h = elim (Bool-cases (level == n)) [
  | inl same ↦
      let equal : level ≡ n = ground arith in
      let below = ready_sum-above n y level z ready (omega (arith, equal)) in
      let here : occurs y (ready level) ≡ occurs y (ready n) =
        ap (λ (k : ℕ). occurs y (ready k)) equal in
      rw same (omega (arith, below, here))
  | inr other ↦
      let below : level < n = ground arith in
      rw other (omega (arith, ready_sum-update n y level z ready below))
]

pub ready_le :
    (n y level : ℕ) (ready : ℕ → List Entry)
    → level < n
    → occurs y (ready level) ≤ ready_sum n y ready
unfolding ready_sum
ready_le zero y level ready h = absurd (omega (arith, h))
ready_le (suc n) y level ready h = elim (Bool-cases (level == n)) [
  | inl same ↦
      let equal : level ≡ n = ground arith in
      let here : occurs y (ready level) ≡ occurs y (ready n) =
        ap (λ (k : ℕ). occurs y (ready k)) equal in
      omega (arith, here)
  | inr other ↦
      let below : level < n = ground arith in omega (arith, ready_le n y level ready below)
]

module _ (lex : ℕ → ℕ → Bool) where
  pub lease_all-leased :
      (expires : ℕ) (ids : List ℕ) (s : Store)
      → (lease_all lex expires ids s).leased ≡ zadd_all lex expires ids s.leased
  unfolding lease_all zadd_all
  lease_all-leased expires [] s = refl
  lease_all-leased expires (id ∷ ids) s = lease_all-leased expires ids _

  pub lease_all-ready :
      (expires : ℕ) (ids : List ℕ) (s : Store)
      → ((lease_all lex expires ids s).ready ≡ s.ready)
        × ((lease_all lex expires ids s).payload ≡ s.payload)
  unfolding lease_all
  lease_all-ready expires [] s = (refl, refl)
  lease_all-ready expires (id ∷ ids) s = lease_all-ready expires ids _
