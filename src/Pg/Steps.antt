-- ===== src/Pg/Steps.antt =====
-- The steps of durable jobs: `record_step` and `steps_for` of crates/gylo-pg/src/lib.rs. A step is of a
-- row of the job table: with no such row, the insertion fails.
use gylo.Prelude.{
  ℕ, ◌≡◌, refl, inl, inr, Bool, true, ◌&&◌, ◌||◌, List, [], ◌∷◌, map, Option, none, some, arith,
  Bool-cases, ltb, ◌==◌, if◌then◌else◌,
}
use gylo.Wire.Words.{Bytes}
use gylo.Pg.Row.{Row, any_id, ids_of, is_some}
use gylo.Pg.Cron.{eq_bytes, eq_bytes_refl}

-- A row of `gylo_step`.
pub record Step : Type 0 where
  pub job_id : ℕ
  pub name : Bytes
  pub result : Bytes
  pub created_at : ℕ

-- The key of the table.
abbrev pub is_step : ℕ → Bytes → Step → Bool
is_step job name s = s.job_id == job && eq_bytes s.name name

-- `INSERT .. ON CONFLICT (job_id, name) DO NOTHING`.
unfoldable pub insert_step : ℕ → ℕ → Bytes → Bytes → List Step → List Step
insert_step now job name result [] =
    record { job_id = job; name = name; result = result; created_at = now } ∷ []
insert_step now job name result (s ∷ steps) =
    let rest = insert_step now job name result steps in
    if is_step job name s then s ∷ steps else s ∷ rest

-- `record_step`: none when the statement fails.
unfoldable pub record_step : ℕ → ℕ → Bytes → Bytes → List Row → List Step → Option (List Step)
record_step now job name result rows steps =
    if any_id job (ids_of rows) then some (insert_step now job name result steps) else none

-- The order of texts is the collation's, an argument.
module _ (text_before : Bytes → Bytes → Bool) where
  -- `ORDER BY created_at, name`.
  abbrev pub step_before : Step → Step → Bool
  step_before s t =
      ltb s.created_at t.created_at || (s.created_at == t.created_at && text_before s.name t.name)

  unfoldable pub place_step : Step → List Step → List Step
  place_step s [] = s ∷ []
  place_step s (t ∷ steps) =
      let later = t ∷ place_step s steps in if step_before s t then s ∷ t ∷ steps else later

  unfoldable pub steps_of : ℕ → List Step → List Step
  steps_of job [] = []
  steps_of job (s ∷ steps) =
      let rest = steps_of job steps in if s.job_id == job then place_step s rest else rest

  unfoldable pub steps_for : ℕ → List Step → List (Bytes × Bytes)
  steps_for job steps = map (λ (s : Step). (s.name, s.result)) (steps_of job steps)

-- The result that is kept of a step.
unfoldable pub find_step : ℕ → Bytes → List Step → Option Bytes
find_step job name [] = none
find_step job name (s ∷ steps) =
    if is_step job name s then some s.result else find_step job name steps

abbrev pub first_of : Option Bytes → Bytes → Option Bytes
first_of none result = some result
first_of (some old) result = some old

pub insert_step-found :
    (now job : ℕ) (name result : Bytes) (steps : List Step)
    → find_step job name (insert_step now job name result steps)
      ≡ first_of (find_step job name steps) result
unfolding insert_step find_step
insert_step-found now job name result [] =
    let own : (job == job) ≡ true = ground arith in rw (own, eq_bytes_refl name) refl
insert_step-found now job name result (s ∷ steps) = elim (Bool-cases (is_step job name s)) [
  | inl own ↦ rw own (rw own refl)
  | inr other ↦ rw other (rw other (insert_step-found now job name result steps))
]

insert_step-again :
    (now later job : ℕ) (name result result' : Bytes) (steps : List Step)
    → insert_step later job name result' (insert_step now job name result steps)
      ≡ insert_step now job name result steps
unfolding insert_step
insert_step-again now later job name result result' [] =
    let own : (job == job) ≡ true = ground arith in rw (own, eq_bytes_refl name) refl
insert_step-again now later job name result result' (s ∷ steps) =
    elim (Bool-cases (is_step job name s)) [
      | inl own ↦ rw own (rw own refl)
      | inr other ↦
          rw other (rw other (rw (insert_step-again now later job name result result' steps) refl))
    ]

-- No step is forgotten, and none is changed.
pub insert_step-keeps :
    (now job job' : ℕ) (name name' result : Bytes) (steps : List Step)
    → is_some (find_step job' name' steps) ≡ true
    → find_step job' name' (insert_step now job name result steps) ≡ find_step job' name' steps
unfolding insert_step find_step
insert_step-keeps now job job' name name' result [] h = cc h
insert_step-keeps now job job' name name' result (s ∷ steps) h =
    elim (Bool-cases (is_step job name s)) [
      | inl own ↦ rw own refl
      | inr other ↦ elim (Bool-cases (is_step job' name' s)) [
        | inl found ↦ rw other (rw found refl)
        | inr away ↦
            let h' : is_some (find_step job' name' steps) ≡ true = rw away at h in
            rw other (rw away (insert_step-keeps now job job' name name' result steps h'))
      ]
    ]

-- What a step that was recorded once is after it is recorded again: unchanged, with its first result, and the
-- other steps as they were.
abbrev pub Recorded : ℕ → ℕ → Bytes → Bytes → Bytes → List Row → List Step → List Step → Type 0
Recorded later job name result result' rows before after =
    (record_step later job name result' rows after ≡ some after)
    × (find_step job name after ≡ first_of (find_step job name before) result)
    × ((job' : ℕ) (name' : Bytes)
        → is_some (find_step job' name' before) ≡ true
        → find_step job' name' after ≡ find_step job' name' before)

-- Recording a step of a job in the table succeeds; recording it again, with any result, changes
-- nothing; the result kept is the first; and no other step is forgotten or changed.
pub record_step-Recorded :
    (now later job : ℕ) (name result result' : Bytes) (rows : List Row) (before : List Step)
    → any_id job (ids_of rows) ≡ true
    → (after : List Step) × (record_step now job name result rows before ≡ some after)
      × Recorded later job name result result' rows before after
unfolding record_step
record_step-Recorded now later job name result result' rows before h = (
  insert_step now job name result before,
  rw h refl,
  (
    rw h (rw (insert_step-again now later job name result result' before) refl),
    insert_step-found now job name result before,
    λ job' name' found. insert_step-keeps now job job' name name' result before found,
  ),
)
