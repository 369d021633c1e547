-- ===== src/Worker/Settled.antt =====
-- What `Pending::flush` of crates/gylo-worker/src/lib.rs has done when it releases the jobs.
use gylo.Prelude.{
  ℕ, ◌≡◌, refl, ◌∙◌, inl, inr, true, not, ◌&&◌, List, [], ◌∷◌, ◌++◌, map, some, arith, length,
  length-append, length-map, Bool-cases, ◌==◌,
}
use gylo.Pg.Row.{Row, any_id}
use gylo.Pg.Settle.{
  nulls, complete, complete_many, complete_many_with_results, discard_many, retry_many,
}
use gylo.Pg.Cascade.{any_id-append}
use gylo.Pg.Held.{
  NoneHeld, complete-stays, complete-NoneHeld, discard_many-stays, discard_many-NoneHeld,
  retry_many-stays, retry_many-NoneHeld,
}
use gylo.Worker.InFlight.{InFlight, IsUnique, release-any_id}
use gylo.Worker.Pending.{Pending, len, settled, IsPaired}
use gylo.Worker.Flush.{Flushing, write_reports, flush}

NoneHeld-append :
    (xs ys : List ℕ) (worker : ℕ) (rows : List Row)
    → NoneHeld xs worker rows
    → NoneHeld ys worker rows
    → NoneHeld (xs ++ ys) worker rows
NoneHeld-append xs ys worker rows hx hy r m =
    ground (arith, any_id-append r.id xs ys, hx r m, hy r m)

-- All four statements reached the table.
abbrev pub IsWritten : Flushing → Type 0
IsWritten w = (w.completes ≡ true) × (w.stores ≡ true) × (w.retries ≡ true) × (w.discards ≡ true)

-- If the four statements succeed, no job that was reported is held by the worker any more.
write_reports-NoneHeld :
    (w : Flushing) (p : Pending) (rows : List Row)
    → IsPaired p
    → IsWritten w
    → NoneHeld (settled p) w.worker (write_reports w p rows)
unfolding write_reports settled complete_many complete_many_with_results
write_reports-NoneHeld w p rows v (c, st, re, di) =
    let done = (complete w.now w.edges p.completed (nulls p.completed) w.worker rows).0 in
    let stored = (complete w.now w.edges p.with_result (map some p.results) w.worker done).0 in
    let again =
      (retry_many w.now p.retry (map w.text p.retry_errors) w.worker w.retry_base w.retry_cap w.roll
        stored).0 in
    let last =
      (discard_many w.now w.edges p.terminal (map w.text p.terminal_errors) w.worker again).0 in
    let h1 : NoneHeld p.completed w.worker done =
      complete-NoneHeld w.now w.worker rows w.edges p.completed (nulls p.completed) in
    let h2 : NoneHeld p.with_result w.worker stored =
      complete-NoneHeld w.now w.worker done w.edges p.with_result (map some p.results) in
    let h3 : NoneHeld p.retry w.worker again =
      retry_many-NoneHeld w.now w.worker stored p.retry (map w.text p.retry_errors) w.retry_base
        w.retry_cap w.roll (omega (arith, v.retried, length-map p.retry_errors w.text)) in
    let h4 : NoneHeld p.terminal w.worker last =
      discard_many-NoneHeld w.now w.worker again w.edges p.terminal (map w.text p.terminal_errors)
        (omega (arith, v.failed, length-map p.terminal_errors w.text)) in
    let to_again : (ids : List ℕ) → NoneHeld ids w.worker stored → NoneHeld ids w.worker again =
      λ ids h.
        retry_many-stays w.now w.worker stored ids p.retry (map w.text p.retry_errors) w.retry_base
          w.retry_cap w.roll h in
    let to_last : (ids : List ℕ) → NoneHeld ids w.worker again → NoneHeld ids w.worker last =
      λ ids h.
        discard_many-stays w.now w.worker again ids w.edges p.terminal
          (map w.text p.terminal_errors) h in
    let first = to_last p.completed (
      to_again p.completed (
        complete-stays w.now w.worker done p.completed w.edges p.with_result (map some p.results)
          h1)) in
    let all : NoneHeld (p.completed ++ (p.with_result ++ (p.retry ++ p.terminal))) w.worker last =
      NoneHeld-append p.completed _ w.worker last first (
        NoneHeld-append p.with_result _ w.worker last
          (to_last p.with_result (to_again p.with_result h2))
          (NoneHeld-append p.retry p.terminal w.worker last (to_last p.retry h3) h4)) in
    rw (c, st, re, di) all

length-settled : (p : Pending) → length (settled p) ≡ len p
unfolding settled len
length-settled p = omega (
  arith,
  length-append p.completed (p.with_result ++ (p.retry ++ p.terminal)),
  length-append p.with_result (p.retry ++ p.terminal),
  length-append p.retry p.terminal,
)

nil_of_length : (ids : List ℕ) → length ids ≡ 0 → ids ≡ []
nil_of_length [] e = refl
nil_of_length (x ∷ ids) e = absurd (omega (arith, e))

-- What a flush is to have done: no report is left, exactly the reported jobs are released, and the worker
-- holds none of them in the table.
abbrev pub Flushed : Flushing → Pending → InFlight → Pending × (InFlight × List Row) → Type 0
Flushed w p s result =
    (len result.0 ≡ 0)
    × ((y : ℕ) → any_id y result.1.0.ids ≡ (any_id y s.ids && not (any_id y (settled p))))
    × NoneHeld (settled p) w.worker result.1.1

-- A flush of reports that are paired, for jobs in flight without repetitions, and all of whose
-- statements succeed, leaves no report, releases exactly the reported jobs, and has settled them in
-- the table: the worker holds none of them any more.
pub flush-Flushed :
    (w : Flushing) (p : Pending) (s : InFlight) (rows : List Row)
    → IsPaired p
    → IsWritten w
    → IsUnique s.ids
    → Flushed w p s (flush w p s rows)
unfolding flush any_id len
flush-Flushed w p s rows v written d = elim (Bool-cases (len p == 0)) [
  | inl none_left ↦
      let zero_len : len p ≡ 0 = ground arith in
      let empty = nil_of_length (settled p) (length-settled p ∙ zero_len) in
      rw (none_left, empty) (zero_len, λ y. ground arith, λ r m. refl)
  | inr some_left ↦
      rw some_left
        (refl, (release-any_id s d (settled p)).1, write_reports-NoneHeld w p rows v written)
]
