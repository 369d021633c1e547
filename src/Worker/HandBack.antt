-- ===== src/Worker/HandBack.antt =====
-- `hand_back` of crates/gylo-worker/src/lib.rs: the jobs of a session that failed. Whether each of its two
-- statements reaches the table is an argument, and so are the expired jobs that the second one picks.
use gylo.Prelude.{
  ℕ, take, ◌≤◌, ◌≡◌, refl, subst, inl, inr, Bool, true, false, List, [], ◌∷◌, map, arith,
  Bool-cases, if◌then◌else◌,
}
use gylo.Pg.Row.{Row, any_id, held_by}
use gylo.Pg.Settle.{settles}
use gylo.Pg.Lease.{abandon_leases, abandon_row, reclaim_expired, reclaim_row}
use gylo.Pg.Ids.{In-map}
use gylo.Pg.Recover.{reclaim-abandon}
use gylo.Pg.Held.{NoneHeld, NoneHeld-map}
use gylo.Worker.InFlight.{InFlight, take_all}

pub record HandingBack : Type 0 where
  pub now : ℕ
  pub later : ℕ
  pub worker : ℕ
  pub reclaim_limit : ℕ
  pub found : List ℕ
  pub abandons : Bool
  pub reclaims : Bool

unfoldable pub free_jobs : HandingBack → List ℕ → List Row → List Row
free_jobs w [] rows = rows
free_jobs w (x ∷ ids) rows =
    let abandoned = (abandon_leases w.now (x ∷ ids) w.worker rows).0 in
    let reclaimed = (reclaim_expired w.later w.reclaim_limit w.found abandoned).0 in
    if w.abandons then (if w.reclaims then reclaimed else abandoned) else rows

unfoldable pub hand_back : HandingBack → InFlight → List Row → InFlight × List Row
hand_back w s rows = let (ids, empty) = take_all s in (empty, free_jobs w ids rows)

reclaim_row-stays :
    (later : ℕ) (chosen ids : List ℕ) (worker : ℕ) (r : Row)
    → settles ids worker r ≡ false
    → settles ids worker (reclaim_row later chosen r) ≡ false
unfolding reclaim_row
reclaim_row-stays later chosen ids worker r h = ground arith

abandon_row-stays :
    (now : ℕ) (ids : List ℕ) (worker : ℕ) (r : Row)
    → settles ids worker r ≡ false
    → abandon_row now ids worker r ≡ r
unfolding abandon_row
abandon_row-stays now ids worker r h = rw h refl

handed_back :
    (now later : ℕ) (ids chosen : List ℕ) (worker : ℕ) (r : Row)
    → 1 ≤ now
    → now ≤ later
    → ((y : ℕ) → any_id y ids ≡ true → any_id y chosen ≡ true)
    → settles ids worker (reclaim_row later chosen (abandon_row now ids worker r)) ≡ false
handed_back now later ids chosen worker r start le all = elim (Bool-cases (settles ids worker r)) [
  | inl y ↦
      let named : any_id r.id ids ≡ true = ground arith in
      let held : held_by worker r ≡ true = ground arith in
      let back =
        reclaim-abandon now later ids chosen worker r start le held named (all r.id named) in
      let unlocked = back.0 in rw unlocked (ground arith)
  | inr n ↦
      rw (abandon_row-stays now ids worker r n) (reclaim_row-stays later chosen ids worker r n)
]

freed :
    (w : HandingBack) (ids : List ℕ) (rows : List Row)
    → (w.abandons ≡ true) × (w.reclaims ≡ true)
    → (1 ≤ w.now) × (w.now ≤ w.later)
    → ((y : ℕ) → any_id y ids ≡ true → any_id y (take w.reclaim_limit w.found) ≡ true)
    → NoneHeld ids w.worker (free_jobs w ids rows)
unfolding free_jobs abandon_leases reclaim_expired any_id
freed w [] rows (a, b) (start, le) all = λ r m. refl
freed w (x ∷ ids) rows (a, b) (start, le) all =
    let first = abandon_row w.now (x ∷ ids) w.worker in
    let free =
      NoneHeld-map (x ∷ ids) w.worker (reclaim_row w.later (take w.reclaim_limit w.found))
        (map first rows)
        λ s m.
          let (r, mem, e) = In-map first rows s m in
          subst
            (λ (y : Row).
              settles (x ∷ ids) w.worker (reclaim_row w.later (take w.reclaim_limit w.found) y)
              ≡ false)
            e
            (handed_back w.now w.later (x ∷ ids) (take w.reclaim_limit w.found) w.worker r start le
              all) in
    rw (a, b) free

-- A session that failed, both of whose statements succeed, at a time past the origin of the clock
-- and the second not before the first, and the limit letting all the jobs in flight through, leaves
-- no job in flight, and none of them held by the worker in the table.
pub hand_back-NoneHeld :
    (w : HandingBack) (s : InFlight) (rows : List Row)
    → (w.abandons ≡ true) × (w.reclaims ≡ true)
    → (1 ≤ w.now) × (w.now ≤ w.later)
    → ((y : ℕ) → any_id y s.ids ≡ true → any_id y (take w.reclaim_limit w.found) ≡ true)
    → ((hand_back w s rows).0.ids ≡ []) × NoneHeld s.ids w.worker (hand_back w s rows).1
unfolding hand_back take_all
hand_back-NoneHeld w s rows written clock all = (refl, freed w s.ids rows written clock all)
