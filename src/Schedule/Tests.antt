-- ===== src/Schedule/Tests.antt =====
-- Cron expressions, and the theorems on them at concrete texts.
use gylo.Prelude.{◌≡◌, refl, [], ◌∷◌, ◌++◌}
use gylo.Schedule.{Text, is_whitespace, field_count, normalise}
use gylo.Schedule.Laws.{Completes, field_count-normalise}

-- `0 3 * * *`.
abbrev daily : Text
daily = b'0' ∷ 0x20 ∷ b'3' ∷ 0x20 ∷ b'*' ∷ 0x20 ∷ b'*' ∷ 0x20 ∷ b'*' ∷ []

completed : normalise daily ≡ b'0' ∷ 0x20 ∷ daily ++ (0x20 ∷ b'*' ∷ [])
unfolding normalise field_count is_whitespace
completed = refl

field_count-normalise_example : Completes daily
field_count-normalise_example = field_count-normalise daily
