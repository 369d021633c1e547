-- ===== src/Worker/Dispatch.antt =====
-- The batch of `dispatch` in crates/gylo-worker/src/lib.rs: how leased jobs become frames for the child.
-- What `steps_for` reads is an argument, and so is that it fails.
use gylo.Prelude.{
  ℕ, ◌+◌, ◌≡◌, refl, ap, ◌∙◌, inl, inr, ◌&&◌, List, [], ◌∷◌, ◌++◌, map, Option, none, some, arith,
  length, length-append, ltb, if◌then◌else◌, append-nil, sym, subst, Bool-cases,
}
use gylo.Prelude.Int.{ℤ, pos}
use gylo.Prelude.Results.{Result, ok, err}
use gylo.Wire.Words.{Bytes}
use gylo.Wire.Message.{
  Message, dispatch, steps, complete, register, recorded, stored, ProtocolError,
}
use gylo.Wire.MessagePack.{MessagePack}
use gylo.Wire.Encode.{encode}
use gylo.Wire.Frame.{encode_atomic}
use gylo.Wire.Delivery.{encode_batch, and_then}
use gylo.Pg.Fetch.{Job}

-- The buffer, the jobs in it, and the jobs that could not be encoded, which are discarded.
pub record Sending : Type 0 where
  pub buffer : Bytes
  pub reserved : List ℕ
  pub refused : List ℕ

abbrev pub job_message : Job → Message
job_message job = dispatch (record {
  id = pos job.id;
  attempt = pos job.attempt;
  max_attempts = pos job.max_attempts;
  task = job.task;
  payload = job.payload;
})

-- A job is reserved if its frame was appended, and refused otherwise.
abbrev pub place : Job → Sending → Bytes × Result ProtocolError (Unit {0}) → Sending
place job st (out, ok _) = record st { buffer = out; reserved = st.reserved ++ job.id ∷ [] }
place job st (out, err e) = record st { buffer = out; refused = st.refused ++ job.id ∷ [] }

place-length :
    (job : Job) (st : Sending) (sent : Bytes × Result ProtocolError (Unit {0}))
    → length (place job st sent).reserved + length (place job st sent).refused
      ≡ length st.reserved + length st.refused + 1
place-length job st (out, ok _) = omega (arith, length-append st.reserved (job.id ∷ []))
place-length job st (out, err e) = omega (arith, length-append st.refused (job.id ∷ []))

module _ (mp : MessagePack) (steps_for : ℕ → Option (List (Bytes × Bytes))) where
  unfoldable pub send_steps : Job → Bytes → Bytes
  send_steps job out =
      if job.durable && ltb 1 job.attempt
      then elim (steps_for job.id) [
        | none ↦ out
        | some found ↦ elim found [
          | [] ↦ out
          | s ∷ ss ↦ (encode mp (steps (pos job.id) (s ∷ ss)) out).0
        ]
      ]
      else out

  unfoldable pub send_job : Job → Sending → Sending
  send_job job st = place job st (encode mp (job_message job) (send_steps job st.buffer))

  unfoldable pub send_jobs : List Job → Sending → Sending
  send_jobs [] st = st
  send_jobs (job ∷ jobs) st = send_jobs jobs (send_job job st)

-- The jobs that messages dispatch.
abbrev pub dispatched : List Message → List ℤ
dispatched [] = []
dispatched (dispatch d ∷ ms) = d.id ∷ dispatched ms
dispatched (_ ∷ ms) = dispatched ms

dispatched-append : (ms ns : List Message) → dispatched (ms ++ ns) ≡ dispatched ms ++ dispatched ns
dispatched-append [] ns = refl
dispatched-append (dispatch d ∷ ms) ns = ap (λ (xs : List ℤ). d.id ∷ xs) (dispatched-append ms ns)
dispatched-append (register es ∷ ms) ns = dispatched-append ms ns
dispatched-append (steps id ss ∷ ms) ns = dispatched-append ms ns
dispatched-append (recorded id n r ∷ ms) ns = dispatched-append ms ns
dispatched-append (stored id n ∷ ms) ns = dispatched-append ms ns
dispatched-append (complete id o ∷ ms) ns = dispatched-append ms ns

map_pos-append : (xs ys : List ℕ) → map pos (xs ++ ys) ≡ map pos xs ++ map pos ys
map_pos-append [] ys = refl
map_pos-append (x ∷ xs) ys = ap (λ (zs : List ℤ). pos x ∷ zs) (map_pos-append xs ys)

module _ (mp : MessagePack) where
  encode_batch-append :
      (ms : List Message) (m : Message) (start out after : Bytes)
      → encode_batch mp ms start ≡ (out, ok tt)
      → encode mp m out ≡ (after, ok tt)
      → encode_batch mp (ms ++ m ∷ []) start ≡ (after, ok tt)
  unfolding encode_batch and_then
  encode_batch-append [] m start out after h last =
      let same : start ≡ out = ap (λ x. x.0) h in rw (same, last)
  encode_batch-append (x ∷ ms) m start out after h last = elim (encode_atomic mp x) [
    | inl (f, size, small, goes) ↦
        let h' : encode_batch mp ms (start ++ f) ≡ (out, ok tt) = rw (goes start) at h in
        rw (goes start) (encode_batch-append ms m (start ++ f) out after h' last)
    | inr (e, fails) ↦ let h' : (start, err e) ≡ (out, ok tt) = rw (fails start) at h in cc h'
  ]

  -- A buffer of whole frames, whose dispatches are the jobs that are reserved.
  abbrev pub Carries : Sending → Type 0
  Carries st =
      (ms : List Message) × (encode_batch mp ms [] ≡ (st.buffer, ok tt))
      × (dispatched ms ≡ map pos st.reserved)

  module _ (steps_for : ℕ → Option (List (Bytes × Bytes))) where
    send_steps-Carries :
        (job : Job) (st : Sending)
        → Carries st
        → Carries (record st { buffer = send_steps mp steps_for job st.buffer })
    unfolding send_steps
    send_steps-Carries job st c = elim (Bool-cases (job.durable && ltb 1 job.attempt)) [
      | inl again ↦ rw again (with_steps (steps_for job.id))
      | inr first ↦ rw first c
    ]
      where
        with_steps :
            (found : Option (List (Bytes × Bytes)))
            → Carries (record st {
              buffer = elim found [
                | none ↦ st.buffer
                | some found ↦ elim found [
                  | [] ↦ st.buffer
                  | s ∷ ss ↦ (encode mp (steps (pos job.id) (s ∷ ss)) st.buffer).0
                ]
              ];
            })
        with_steps none = c
        with_steps (some []) = c
        with_steps (some (s ∷ ss)) = elim (encode_atomic mp (steps (pos job.id) (s ∷ ss))) [
          | inl (f, size, small, goes) ↦
              let (ms, whole, ids) = c in
              (
                ms ++ steps (pos job.id) (s ∷ ss) ∷ [],
                encode_batch-append ms (steps (pos job.id) (s ∷ ss)) [] st.buffer _ whole
                    (rw (goes st.buffer)),
                dispatched-append ms (steps (pos job.id) (s ∷ ss) ∷ [])
                    ∙ (append-nil (dispatched ms) ∙ ids),
              )
          | inr (e, fails) ↦ rw (fails st.buffer) c
        ]

    send_job-Carries :
        (job : Job) (st : Sending) → Carries st → Carries (send_job mp steps_for job st)
    unfolding send_job
    send_job-Carries job st c =
        let (ms, whole, ids) = send_steps-Carries job st c in
        let out = send_steps mp steps_for job st.buffer in
        elim (encode_atomic mp (job_message job)) [
          | inl (f, size, small, goes) ↦
              subst (λ (x : Bytes × Result ProtocolError (Unit {0})). Carries (place job st x))
                (sym (goes out))
                (
                  ms ++ job_message job ∷ [],
                  encode_batch-append ms (job_message job) [] out (out ++ f) whole (goes out),
                  dispatched-append ms (job_message job ∷ [])
                      ∙ (ap (λ (xs : List ℤ). xs ++ pos job.id ∷ []) ids
                          ∙ sym (map_pos-append st.reserved (job.id ∷ []))),
                )
          | inr (e, fails) ↦
              subst (λ (x : Bytes × Result ProtocolError (Unit {0})). Carries (place job st x))
                (sym (fails out)) (ms, whole, ids)
        ]

    pub send_job-seen :
        (job : Job) (st : Sending)
        → length (send_job mp steps_for job st).reserved
            + length (send_job mp steps_for job st).refused
          ≡ length st.reserved + length st.refused + 1
    unfolding send_job
    send_job-seen job st =
        place-length job st (encode mp (job_message job) (send_steps mp steps_for job st.buffer))

    -- What is sent for a batch of leased jobs, appended to whole frames, is whole frames again, a
    -- job that cannot be encoded leaving nothing behind; the jobs dispatched in them are exactly the
    -- ones reserved, in their order, and as many jobs are reserved or refused as there are in the
    -- batch.
    pub send_jobs-Carries :
        (jobs : List Job) (st : Sending)
        → Carries st
        → Carries (send_jobs mp steps_for jobs st)
          × (length (send_jobs mp steps_for jobs st).reserved
                + length (send_jobs mp steps_for jobs st).refused
              ≡ length st.reserved + length st.refused + length jobs)
    unfolding send_jobs
    send_jobs-Carries [] st c = (c, omega arith)
    send_jobs-Carries (job ∷ jobs) st c =
        let (carried, seen) =
          send_jobs-Carries jobs (send_job mp steps_for job st) (send_job-Carries job st c) in
        (carried, omega (arith, seen, send_job-seen job st))
