-- ===== src/Worker/LastWords.antt =====
-- `LastWords` of crates/gylo-worker/src/lib.rs: the end of what a child wrote to its standard error.
-- `String::from_utf8_lossy` is a parameter, as a function from bytes to bytes.
use gylo.Prelude.{
  ℕ, ◌*◌, ◌≤◌, ◌<◌, ◌≡◌, inl, inr, Bool, true, false, List, [], ◌∷◌, ◌++◌, arith, Bool-cases,
  length, length-append, drop, length-drop, ltb, ◌==◌, if◌then◌else◌,
}
use gylo.Wire.Words.{Bytes}

abbrev pub line_cap : ℕ
line_cap = 8 * 1024

abbrev pub last_words : ℕ
last_words = 20

-- The lines that are kept, the line that is being read, and whether its end was dropped.
pub record Heard : Type 0 where
  pub lines : List Bytes
  pub line : Bytes
  pub truncated : Bool

abbrev pub nothing_heard : Heard
nothing_heard = record { lines = []; line = []; truncated = false }

abbrev pub truncation_mark : Bytes
truncation_mark = 32 ∷ 91 ∷ 116 ∷ 114 ∷ 117 ∷ 110 ∷ 99 ∷ 97 ∷ 116 ∷ 101 ∷ 100 ∷ 93 ∷ []

module _ (lossy : Bytes → Bytes) where
  unfoldable pub emit : Heard → Heard
  emit h =
      let rendered = if h.truncated then lossy h.line ++ truncation_mark else lossy h.line in
      let held = if length h.lines == last_words then drop 1 h.lines else h.lines in
      record { lines = held ++ rendered ∷ []; line = []; truncated = false }

  unfoldable pub hear : ℕ → Heard → Heard
  hear byte h =
      if byte == 10
      then emit h
      else if ltb (length h.line) line_cap
      then record h { line = h.line ++ byte ∷ [] }
      else record h { truncated = true }

  -- `watch`: the bytes of the stream, in whatever chunks, and the line that is left at its end.
  unfoldable pub hear_all : Bytes → Heard → Heard
  hear_all [] h = h
  hear_all (b ∷ bytes) h = hear_all bytes (hear b h)

  unfoldable pub watch : Bytes → Heard
  watch bytes = let h = hear_all bytes nothing_heard in if length h.line == 0 then h else emit h

-- What is kept is bounded: in lines, and in the line that is read.
pub record IsBounded (h : Heard) : Type 0 where
  pub few : length h.lines ≤ last_words
  pub short : length h.line ≤ line_cap

module _ (lossy : Bytes → Bytes) where
  emit-IsBounded : (h : Heard) → IsBounded h → IsBounded (emit lossy h)
  unfolding emit
  emit-IsBounded h v = record {
    few = elim (Bool-cases (length h.lines == last_words)) [
      | inl full ↦
          let size : length h.lines ≡ last_words = ground arith in
          rw full
            (omega (arith, size, length-append (drop 1 h.lines) (_ ∷ []), length-drop 1 h.lines))
      | inr room ↦
          let size : length h.lines < last_words = let few = v.few in ground arith in
          rw room (omega (arith, size, length-append h.lines (_ ∷ [])))
    ];
    short = omega arith;
  }

  hear-IsBounded : (byte : ℕ) (h : Heard) → IsBounded h → IsBounded (hear lossy byte h)
  unfolding hear
  hear-IsBounded byte h v = elim (Bool-cases (byte == 10)) [
    | inl newline ↦ rw newline (emit-IsBounded h v)
    | inr other ↦ elim (Bool-cases (ltb (length h.line) line_cap)) [
      | inl room ↦
          let size : length h.line < line_cap = ground arith in
          rw (other, room)
            (record { few = v.few; short = omega (arith, size, length-append h.line (byte ∷ [])) })
      | inr full ↦ rw (other, full) (record { few = v.few; short = v.short })
    ]
  ]

  hear_all-IsBounded :
      (bytes : Bytes) (h : Heard) → IsBounded h → IsBounded (hear_all lossy bytes h)
  unfolding hear_all
  hear_all-IsBounded [] h v = v
  hear_all-IsBounded (b ∷ bytes) h v =
      hear_all-IsBounded bytes (hear lossy b h) (hear-IsBounded b h v)

  -- However much a child writes, no more lines than the last ones are kept, and no more than the cap
  -- of the line that is read.
  pub watch-IsBounded : (bytes : Bytes) → IsBounded (watch lossy bytes)
  unfolding watch
  watch-IsBounded bytes =
      let h = hear_all lossy bytes nothing_heard in
      let v =
        hear_all-IsBounded bytes nothing_heard
          (record { few = omega arith; short = omega arith }) in
      elim (Bool-cases (length h.line == 0)) [
        | inl none_left ↦ rw none_left v
        | inr some_left ↦ rw some_left (emit-IsBounded h v)
      ]
