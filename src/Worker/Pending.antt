-- ===== src/Worker/Pending.antt =====
-- `Pending` of crates/gylo-worker/src/lib.rs: the reports of a child that wait to be written in batches.
use gylo.Prelude.{
  ℕ, ◌+◌, ◌≡◌, refl, true, false, ◌||◌, List, [], ◌∷◌, ◌++◌, arith, length, length-append, ◌==◌,
}
use gylo.Wire.Words.{Bytes}
use gylo.Wire.Message.{Outcome, success, failure}
use gylo.Pg.Row.{any_id}
use gylo.Pg.Cascade.{any_id-append}

pub record Pending : Type 0 where
  pub completed : List ℕ
  pub with_result : List ℕ
  pub results : List Bytes
  pub retry : List ℕ
  pub retry_errors : List Bytes
  pub terminal : List ℕ
  pub terminal_errors : List Bytes

-- `Pending::default`.
abbrev pub no_reports : Pending
no_reports = record {
  completed = [];
  with_result = [];
  results = [];
  retry = [];
  retry_errors = [];
  terminal = [];
  terminal_errors = [];
}

unfoldable pub push : ℕ → Outcome → Pending → Pending
push id (success []) p = record p { completed = p.completed ++ id ∷ [] }
push id (success (b ∷ result)) p = record p {
  with_result = p.with_result ++ id ∷ [];
  results = p.results ++ (b ∷ result) ∷ [];
}
push id (failure error true) p = record p {
  retry = p.retry ++ id ∷ [];
  retry_errors = p.retry_errors ++ error ∷ [];
}
push id (failure error false) p = record p {
  terminal = p.terminal ++ id ∷ [];
  terminal_errors = p.terminal_errors ++ error ∷ [];
}

unfoldable pub len : Pending → ℕ
len p = length p.completed + length p.with_result + length p.retry + length p.terminal

-- The ids that `flush` releases.
unfoldable pub settled : Pending → List ℕ
settled p = p.completed ++ (p.with_result ++ (p.retry ++ p.terminal))

-- Reports as they come in.
unfoldable pub push_all : List (ℕ × Outcome) → Pending → Pending
push_all [] p = p
push_all (r ∷ reports) p = push_all reports (push r.0 r.1 p)

abbrev pub ids_in : List (ℕ × Outcome) → List ℕ
ids_in [] = []
ids_in (r ∷ reports) = r.0 ∷ ids_in reports

-- Each result stands beside its job, and each error.
pub record IsPaired (p : Pending) : Type 0 where
  pub stored : length p.with_result ≡ length p.results
  pub retried : length p.retry ≡ length p.retry_errors
  pub failed : length p.terminal ≡ length p.terminal_errors

module _ (id : ℕ) (p : Pending) (v : IsPaired p) where
  push-IsPaired : (outcome : Outcome) → IsPaired (push id outcome p)
  unfolding push
  push-IsPaired (success []) = record { stored = v.stored; retried = v.retried; failed = v.failed }
  push-IsPaired (success (b ∷ result)) = record {
    stored = omega (
      arith,
      v.stored,
      length-append p.with_result (id ∷ []),
      length-append p.results ((b ∷ result) ∷ []),
    );
    retried = v.retried;
    failed = v.failed;
  }
  push-IsPaired (failure error true) = record {
    stored = v.stored;
    retried = omega (
      arith,
      v.retried,
      length-append p.retry (id ∷ []),
      length-append p.retry_errors (error ∷ []),
    );
    failed = v.failed;
  }
  push-IsPaired (failure error false) = record {
    stored = v.stored;
    retried = v.retried;
    failed = omega (
      arith,
      v.failed,
      length-append p.terminal (id ∷ []),
      length-append p.terminal_errors (error ∷ []),
    );
  }

push-len : (id : ℕ) (outcome : Outcome) (p : Pending) → len (push id outcome p) ≡ len p + 1
unfolding push len
push-len id (success []) p = omega (arith, length-append p.completed (id ∷ []))
push-len id (success (b ∷ result)) p = omega (arith, length-append p.with_result (id ∷ []))
push-len id (failure error true) p = omega (arith, length-append p.retry (id ∷ []))
push-len id (failure error false) p = omega (arith, length-append p.terminal (id ∷ []))

any_id-settled :
    (y : ℕ) (p : Pending)
    → any_id y (settled p) ≡ (
        any_id y p.completed
        || (any_id y p.with_result || (any_id y p.retry || any_id y p.terminal)))
unfolding settled
any_id-settled y p = ground (
  arith,
  any_id-append y p.completed (p.with_result ++ (p.retry ++ p.terminal)),
  any_id-append y p.with_result (p.retry ++ p.terminal),
  any_id-append y p.retry p.terminal,
)

any_id-snoc : (y id : ℕ) (xs : List ℕ) → any_id y (xs ++ id ∷ []) ≡ (id == y || any_id y xs)
unfolding any_id
any_id-snoc y id xs = ground (arith, any_id-append y xs (id ∷ []))

any_id-push :
    (y id : ℕ) (outcome : Outcome) (p : Pending)
    → any_id y (settled (push id outcome p)) ≡ (id == y || any_id y (settled p))
unfolding push
any_id-push y id (success []) p =
    let after = any_id-settled y (push id (success []) p) in
    ground (arith, after, any_id-settled y p, any_id-snoc y id p.completed)
any_id-push y id (success (b ∷ result)) p =
    let after = any_id-settled y (push id (success (b ∷ result)) p) in
    ground (arith, after, any_id-settled y p, any_id-snoc y id p.with_result)
any_id-push y id (failure error true) p =
    let after = any_id-settled y (push id (failure error true) p) in
    ground (arith, after, any_id-settled y p, any_id-snoc y id p.retry)
any_id-push y id (failure error false) p =
    let after = any_id-settled y (push id (failure error false) p) in
    ground (arith, after, any_id-settled y p, any_id-snoc y id p.terminal)

-- Reports that are gathered on paired ones stay paired with their results and errors, each counts
-- once, and the jobs to be released are exactly those reported and those there were.
pub push_all-IsPaired :
    (reports : List (ℕ × Outcome)) (p : Pending)
    → IsPaired p
    → IsPaired (push_all reports p)
      × (len (push_all reports p) ≡ len p + length reports)
      × ((y : ℕ)
          → any_id y (settled (push_all reports p))
            ≡ (any_id y (ids_in reports) || any_id y (settled p)))
unfolding push_all any_id
push_all-IsPaired [] p v = (v, omega arith, λ y. refl)
push_all-IsPaired (r ∷ reports) p v =
    let (paired, counted, same) =
      push_all-IsPaired reports (push r.0 r.1 p) (push-IsPaired r.0 p v r.1) in
    (
      paired,
      omega (arith, counted, push-len r.0 r.1 p),
      λ y. ground (arith, same y, any_id-push y r.0 r.1 p),
    )
