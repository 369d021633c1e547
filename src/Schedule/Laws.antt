-- ===== src/Schedule/Laws.antt =====
-- `normalise` of crates/gylo-core/src/schedule.rs.
use gylo.Prelude.{
  ◌+◌, ◌≡◌, refl, ◌⊎◌, inl, inr, Bool, true, false, ◌&&◌, [], ◌∷◌, ◌++◌, ◌==◌, if◌then◌else◌, arith,
  Bool-cases, ◌≢◌,
}
use gylo.Schedule.{
  Text, is_whitespace, count_fields, field_count, zero_space, space_star, normalise,
}

-- A field put behind a space is one more field.
count_fields-star :
    (inside : Bool) (text : Text)
    → count_fields inside (text ++ space_star) ≡ count_fields inside text + 1
unfolding count_fields is_whitespace
count_fields-star true [] = refl
count_fields-star false [] = refl
count_fields-star inside (c ∷ text) =
    let ih = count_fields-star (if is_whitespace c then false else true) text in
    elim (Bool-cases (is_whitespace c && inside)) [
      | inl ends ↦ rw (ends, ih) (omega arith)
      | inr other ↦ rw (other, ih)
    ]

count_fields-zero :
    (text : Text) → count_fields false (zero_space ++ text) ≡ count_fields false text + 1
unfolding count_fields is_whitespace
count_fields-zero text = omega arith

abbrev pub Completes : Text → Type 0
Completes text =
    (((field_count text ≡ 5) ⊎ (field_count text ≡ 6)) × (field_count (normalise text) ≡ 7))
    ⊎ ((field_count text ≢ 5) × (field_count text ≢ 6) × (normalise text ≡ text))

-- An expression of five or six fields is completed to seven, and any other is left as it is.
pub field_count-normalise : (text : Text) → Completes text
unfolding field_count normalise
field_count-normalise text =
    let n = field_count text in
    let star = count_fields-star false text in
    elim (Bool-cases (n == 5)) [
      | inl five ↦ inl (
        inl (ground arith),
        rw five (rw (count_fields-zero (text ++ space_star)) (ground (arith, star))),
      )
      | inr not_five ↦ elim (Bool-cases (n == 6)) [
        | inl six ↦ inl (inr (ground arith), rw (not_five, six) (ground (arith, star)))
        | inr not_six ↦ inr (ground arith, ground arith, rw (not_five, not_six))
      ]
    ]
