-- ===== src/Worker/Placing.antt =====
-- Where a round of `dispatch` in crates/gylo-worker/src/lib.rs puts the jobs that it leases: each is
-- reserved or refused, and those reserved are in flight.
use gylo.Prelude.{
  ℕ, ◌+◌, ◌≤◌, ◌≡◌, refl, inl, inr, Bool, true, ◌||◌, List, [], ◌∷◌, arith, length, Bool-cases,
  ◌==◌,
}
use gylo.Prelude.Results.{Result, ok, err}
use gylo.Wire.Words.{Bytes}
use gylo.Wire.Message.{ProtocolError}
use gylo.Wire.MessagePack.{MessagePack}
use gylo.Wire.Encode.{encode}
use gylo.Pg.Row.{any_id}
use gylo.Pg.Leasing.{InJobs}
use gylo.Pg.Fetch.{Job}
use gylo.Pg.Cascade.{any_id-append}
use gylo.Worker.InFlight.{InFlight, held, spare, reserve, length-insert_all, any_id-insert_all}
use gylo.Worker.Dispatch.{
  Sending, place, send_steps, send_job, send_jobs, job_message, send_job-seen,
}
use gylo.Worker.Round.{Round, Dispatching, hand_over}

abbrev pub job_ids : List Job → List ℕ
job_ids [] = []
job_ids (j ∷ jobs) = j.id ∷ job_ids jobs

pub job_ids-InJobs :
    (y : ℕ) (jobs : List Job)
    → any_id y (job_ids jobs) ≡ true
    → (j : Job) × InJobs j jobs × (j.id ≡ y)
unfolding any_id
job_ids-InJobs y [] m = cc m
job_ids-InJobs y (j ∷ jobs) m = elim (Bool-cases (j.id == y)) [
  | inl same ↦ (j, inl refl, ground arith)
  | inr other ↦ let (k, mk, e) = job_ids-InJobs y jobs (ground arith) in (k, inr mk, e)
]

-- A job is among those reserved or those refused.
abbrev pub placed : ℕ → Sending → Bool
placed y st = any_id y st.reserved || any_id y st.refused

pub place-placed :
    (y : ℕ) (job : Job) (st : Sending) (sent : Bytes × Result ProtocolError (Unit {0}))
    → placed y (place job st sent) ≡ (placed y st || job.id == y)
unfolding any_id
place-placed y job st (out, ok _) = ground (arith, any_id-append y st.reserved (job.id ∷ []))
place-placed y job st (out, err e) = ground (arith, any_id-append y st.refused (job.id ∷ []))

module _ (mp : MessagePack) where
  pub send_jobs-placed :
      (y : ℕ) (r : Round) (jobs : List Job) (st : Sending)
      → placed y (send_jobs mp r.steps_read jobs st) ≡ (placed y st || any_id y (job_ids jobs))
  unfolding send_jobs send_job any_id
  send_jobs-placed y r [] st = ground arith
  send_jobs-placed y r (job ∷ jobs) st =
      let first =
        place-placed y job st
          (encode mp (job_message job) (send_steps mp r.steps_read job st.buffer)) in
      let rest = send_jobs-placed y r jobs (send_job mp r.steps_read job st) in
      ground (arith, first, rest)

  pub send_jobs-length :
      (r : Round) (jobs : List Job) (st : Sending)
      → length (send_jobs mp r.steps_read jobs st).reserved
        ≤ length st.reserved + length st.refused + length jobs
  unfolding send_jobs
  send_jobs-length r [] st = omega arith
  send_jobs-length r (job ∷ jobs) st = omega (
    arith,
    send_jobs-length r jobs (send_job mp r.steps_read job st),
    send_job-seen mp r.steps_read job st,
  )

pub hand_over-held :
    (st : Sending) (d : Dispatching)
    → held (hand_over st d).in_flight ≤ held d.in_flight + length st.reserved
unfolding held reserve
hand_over-held st d = over st.reserved
  where
    over :
        (ids : List ℕ)
        → length
            (elim ids as (λ x. Dispatching) [
              | [] ↦ d
              | id ∷ more ↦ record d {
                in_flight = reserve (id ∷ more) d.in_flight;
                sent = st.buffer ∷ d.sent;
              }
            ]).in_flight.ids
          ≤ length d.in_flight.ids + length ids
    over [] = omega arith
    over (id ∷ more) = length-insert_all (id ∷ more) d.in_flight.ids

pub hand_over-rows : (st : Sending) (d : Dispatching) → (hand_over st d).rows ≡ d.rows
hand_over-rows st d = over st.reserved
  where
    over :
        (ids : List ℕ)
        → (elim ids as (λ x. Dispatching) [
          | [] ↦ d
          | id ∷ more ↦ record d {
            in_flight = reserve (id ∷ more) d.in_flight;
            sent = st.buffer ∷ d.sent;
          }
        ]).rows
          ≡ d.rows
    over [] = refl
    over (id ∷ more) = refl

pub held-spare : (s : InFlight) → 1 ≤ spare s → held s + spare s ≡ s.limit
unfolding held spare
held-spare s room = omega (arith, room)

pub hand_over-any_id :
    (y : ℕ) (st : Sending) (d : Dispatching)
    → any_id y (hand_over st d).in_flight.ids ≡ (any_id y d.in_flight.ids || any_id y st.reserved)
unfolding reserve any_id
hand_over-any_id y st d = over st.reserved
  where
    over :
        (ids : List ℕ)
        → any_id y
            (elim ids as (λ x. Dispatching) [
              | [] ↦ d
              | id ∷ more ↦ record d {
                in_flight = reserve (id ∷ more) d.in_flight;
                sent = st.buffer ∷ d.sent;
              }
            ]).in_flight.ids
          ≡ (any_id y d.in_flight.ids || any_id y ids)
    over [] = ground arith
    over (id ∷ more) = any_id-insert_all y (id ∷ more) d.in_flight.ids
