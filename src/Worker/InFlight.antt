-- ===== src/Worker/InFlight.antt =====
-- `InFlight` of crates/gylo-worker/src/lib.rs: the jobs handed to the child and not yet settled, a hash
-- set, here a list without repetitions. The notifications carry no data.
use gylo.Prelude.{
  ℕ, ◌+◌, ◌-◌, ◌≤◌, ◌≡◌, refl, subst, inl, inr, Bool, true, false, not, ◌&&◌, ◌||◌, List, [], ◌∷◌,
  arith, Bool-cases, length, if◌then◌else◌, ◌==◌,
}
use gylo.Pg.Row.{any_id}

pub record InFlight : Type 0 where
  pub ids : List ℕ
  pub limit : ℕ

unfoldable pub new_in_flight : ℕ → InFlight
new_in_flight limit = record { ids = []; limit = limit }

unfoldable pub held : InFlight → ℕ
held s = length s.ids

unfoldable pub spare : InFlight → ℕ
unfolding held
spare s = s.limit - held s

unfoldable pub is_idle : InFlight → Bool
unfolding held
is_idle s = held s == 0

unfoldable pub snapshot : InFlight → List ℕ
snapshot s = s.ids

-- The ids that were held, and the set without them.
unfoldable pub take_all : InFlight → List ℕ × InFlight
take_all s = (s.ids, record s { ids = [] })

-- `HashSet::extend` and `HashSet::remove`.
unfoldable pub insert_all : List ℕ → List ℕ → List ℕ
insert_all [] held = held
insert_all (x ∷ ids) held = if any_id x held then insert_all ids held else insert_all ids (x ∷ held)

unfoldable pub remove_id : ℕ → List ℕ → List ℕ
remove_id x [] = []
remove_id x (y ∷ held) = let rest = remove_id x held in if y == x then rest else y ∷ rest

unfoldable pub remove_all : List ℕ → List ℕ → List ℕ
remove_all [] held = held
remove_all (x ∷ ids) held = remove_all ids (remove_id x held)

unfoldable pub reserve : List ℕ → InFlight → InFlight
reserve ids s = record s { ids = insert_all ids s.ids }

unfoldable pub release : List ℕ → InFlight → InFlight
release ids s = record s { ids = remove_all ids s.ids }

-- No id is held twice.
abbrev pub IsUnique : List ℕ → Type 0
IsUnique [] = Unit
IsUnique (x ∷ xs) = (any_id x xs ≡ false) × IsUnique xs

pub any_id-remove_id :
    (y x : ℕ) (held : List ℕ) → any_id y (remove_id x held) ≡ (any_id y held && not (x == y))
unfolding any_id remove_id
any_id-remove_id y x [] = refl
any_id-remove_id y x (z ∷ held) = ground (arith, any_id-remove_id y x held)

pub remove_id-IsUnique : (x : ℕ) (held : List ℕ) → IsUnique held → IsUnique (remove_id x held)
unfolding remove_id
remove_id-IsUnique x [] d = tt
remove_id-IsUnique x (z ∷ held) (new, d) = elim (Bool-cases (z == x)) [
  | inl y ↦ rw y (remove_id-IsUnique x held d)
  | inr n ↦ rw n (ground (arith, any_id-remove_id z x held), remove_id-IsUnique x held d)
]

remove_all-IsUnique : (ids held : List ℕ) → IsUnique held → IsUnique (remove_all ids held)
unfolding remove_all
remove_all-IsUnique [] held d = d
remove_all-IsUnique (x ∷ ids) held d =
    remove_all-IsUnique ids (remove_id x held) (remove_id-IsUnique x held d)

insert_all-IsUnique : (ids held : List ℕ) → IsUnique held → IsUnique (insert_all ids held)
unfolding insert_all
insert_all-IsUnique [] held d = d
insert_all-IsUnique (x ∷ ids) held d = elim (Bool-cases (any_id x held)) [
  | inl y ↦ rw y (insert_all-IsUnique ids held d)
  | inr n ↦ rw n (insert_all-IsUnique ids (x ∷ held) (n, d))
]

by_equality :
    (y x : ℕ) (ids held : List ℕ)
    → any_id x held ≡ true
    → (x == y) ≡ true
    → any_id y (insert_all ids held) ≡ (any_id y held || any_id y ids)
    → any_id y (insert_all ids held) ≡ (any_id y held || (x == y || any_id y ids))
by_equality y x ids held seen same rest =
    let equal : x ≡ y = ground arith in
    let seen' : any_id y held ≡ true = subst (λ (z : ℕ). any_id z held ≡ true) equal seen in
    ground (arith, rest, seen')

pub any_id-insert_all :
    (y : ℕ) (ids held : List ℕ) → any_id y (insert_all ids held) ≡ (any_id y held || any_id y ids)
unfolding any_id insert_all
any_id-insert_all y [] held = ground arith
any_id-insert_all y (x ∷ ids) held = elim (Bool-cases (any_id x held)) [
  | inl seen ↦ rw seen (elim (Bool-cases (x == y)) [
    | inl same ↦ by_equality y x ids held seen same (any_id-insert_all y ids held)
    | inr other ↦ ground (arith, any_id-insert_all y ids held)
  ])
  | inr new ↦ rw new (ground (arith, any_id-insert_all y ids (x ∷ held)))
]

any_id-remove_all :
    (y : ℕ) (ids held : List ℕ)
    → any_id y (remove_all ids held) ≡ (any_id y held && not (any_id y ids))
unfolding any_id remove_all
any_id-remove_all y [] held = ground arith
any_id-remove_all y (x ∷ ids) held =
    ground (arith, any_id-remove_id y x held, any_id-remove_all y ids (remove_id x held))

pub length-insert_all :
    (ids held : List ℕ) → length (insert_all ids held) ≤ length held + length ids
unfolding insert_all
length-insert_all [] held = omega arith
length-insert_all (x ∷ ids) held = elim (Bool-cases (any_id x held)) [
  | inl y ↦ rw y (omega (arith, length-insert_all ids held))
  | inr n ↦ rw n (omega (arith, length-insert_all ids (x ∷ held)))
]

-- A set of ids in flight within the limit, under the changes that a session makes to it.
module _ (s : InFlight) (d : IsUnique s.ids) where
  -- For jobs in flight without repetitions and within the limit, reserving no more jobs than there
  -- is room for keeps both, and adds exactly these jobs.
  pub reserve-held :
      (ids : List ℕ)
      → held s ≤ s.limit
      → length ids ≤ spare s
      → (held (reserve ids s) ≤ s.limit)
        × IsUnique (reserve ids s).ids
        × ((y : ℕ) → any_id y (reserve ids s).ids ≡ (any_id y s.ids || any_id y ids))
  unfolding held spare reserve
  reserve-held ids within fits = (
    omega (arith, length-insert_all ids s.ids, within, fits),
    insert_all-IsUnique ids s.ids d,
    λ y. any_id-insert_all y ids s.ids,
  )

  -- For jobs in flight without repetitions, releasing some leaves exactly the others, without
  -- repetitions.
  pub release-any_id :
      (ids : List ℕ)
      → IsUnique (release ids s).ids
        × ((y : ℕ) → any_id y (release ids s).ids ≡ (any_id y s.ids && not (any_id y ids)))
  unfolding release
  release-any_id ids = (remove_all-IsUnique ids s.ids d, λ y. any_id-remove_all y ids s.ids)
