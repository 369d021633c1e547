-- ===== src/Wire/Utf8.antt =====
-- `std::str::from_utf8` of the Rust standard library: which byte strings are valid UTF-8.
-- A Rust `String` is held here as its bytes, `IsUtf8` being what its type promises of them.
use gylo.Prelude.{ℕ, ◌≡◌, Bool, true, false, ◌&&◌, ◌||◌, [], ◌∷◌, ltb, leb, ◌==◌}
use gylo.Wire.Words.{Bytes}

abbrev within : ℕ → ℕ → ℕ → Bool
within lo hi b = leb lo b && leb b hi

abbrev continues : ℕ → Bool
continues = within 0x80 0xbf

-- The second byte of a sequence of three bytes, by the first.
abbrev second_of_three : ℕ → ℕ → Bool
second_of_three a b =
    (a == 0xe0 && within 0xa0 0xbf b)
    || (within 0xe1 0xec a && continues b)
    || (a == 0xed && within 0x80 0x9f b)
    || (within 0xee 0xef a && continues b)

-- The second byte of a sequence of four bytes, by the first.
abbrev second_of_four : ℕ → ℕ → Bool
second_of_four a b =
    (a == 0xf0 && within 0x90 0xbf b)
    || (within 0xf1 0xf3 a && continues b)
    || (a == 0xf4 && within 0x80 0x8f b)

-- One clause for each number of bytes left, so that the sequences of two, three and four fit.
unfoldable pub is_utf8 : Bytes → Bool
is_utf8 [] = true
is_utf8 (a ∷ []) = ltb a 0x80
is_utf8 (a ∷ b ∷ []) = (ltb a 0x80 && is_utf8 (b ∷ [])) || (within 0xc2 0xdf a && continues b)
is_utf8 (a ∷ b ∷ c ∷ []) =
    (ltb a 0x80 && is_utf8 (b ∷ c ∷ []))
    || (within 0xc2 0xdf a && continues b && is_utf8 (c ∷ []))
    || (second_of_three a b && continues c)
is_utf8 (a ∷ b ∷ c ∷ d ∷ rest) =
    let one = ltb a 0x80 && is_utf8 (b ∷ c ∷ d ∷ rest) in
    let two = within 0xc2 0xdf a && continues b && is_utf8 (c ∷ d ∷ rest) in
    let three = second_of_three a b && continues c && is_utf8 (d ∷ rest) in
    let four = second_of_four a b && continues c && continues d && is_utf8 rest in
    if_first (ltb a 0x80) one (if_first (within 0xc2 0xdf a) two (three || four))
  where
    if_first : Bool → Bool → Bool → Bool
    if_first true x y = x
    if_first false x y = y

abbrev pub IsUtf8 : Bytes → Type 0
IsUtf8 s = is_utf8 s ≡ true
