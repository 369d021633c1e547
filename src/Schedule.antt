-- ===== src/Schedule.antt =====
-- crates/gylo-core/src/schedule.rs. Texts are lists of code points. The `cron`, `chrono` and
-- `chrono_tz` crates are not part of the repository: `CronCrate` holds the functions called.
pub mod Laws
mod Tests
use gylo.Prelude.{
  ℕ, ◌+◌, ◌≡◌, ◌<◌, Bool, true, false, ◌||◌, ◌&&◌, List, [], ◌∷◌, ◌++◌, Option, none, some, leb,
  ◌==◌, if◌then◌else◌,
}
use gylo.Prelude.Results.{Result, ok, err, ◌>>=◌, map_err}

abbrev pub Text : Type 0
Text = List ℕ

-- `char::is_whitespace`: the code points with the property White_Space.
unfoldable pub is_whitespace : ℕ → Bool
is_whitespace c =
    (leb 9 c && leb c 13)
    || c == 0x20
    || c == 0x85
    || c == 0xa0
    || c == 0x1680
    || (leb 0x2000 c && leb c 0x200a)
    || c == 0x2028
    || c == 0x2029
    || c == 0x202f
    || c == 0x205f
    || c == 0x3000

-- `split_whitespace().count()`: maximal runs of other characters. The flag says whether the
-- character before stands in such a run.
unfoldable pub count_fields : Bool → Text → ℕ
count_fields inside [] = if inside then 1 else 0
count_fields inside (c ∷ text) =
    let rest = count_fields (if is_whitespace c then false else true) text in
    if is_whitespace c && inside then 1 + rest else rest

unfoldable pub field_count : Text → ℕ
unfolding count_fields
field_count text = count_fields false text

-- `"0 "` and `" *"`.
abbrev pub zero_space : Text
zero_space = b'0' ∷ 0x20 ∷ []

abbrev pub space_star : Text
space_star = 0x20 ∷ b'*' ∷ []

-- The `cron` crate wants seven fields; the form with five has neither seconds nor year.
unfoldable pub normalise : Text → Text
normalise expression =
    if field_count expression == 5
    then zero_space ++ (expression ++ space_star)
    else if field_count expression == 6
    then expression ++ space_star
    else expression

-- The functions of the crates, over their types of schedules and zones. An instant is a number.
pub record CronCrate : Type 1 where
  pub Cron : Type 0
  pub Tz : Type 0
  pub tz_from_str : Text → Option Tz
  pub cron_from_str : Text → Result Text Cron
  pub cron_to_string : Cron → Text
  -- The first instant of `cron.after(..)` in the zone.
  pub after_next : Cron → Tz → ℕ → Option ℕ

pub data ScheduleError : Type 0 where
  expression : Text → Text → ScheduleError
  timezone : Text → ScheduleError
  no_occurrence : Text → ScheduleError

unfoldable pub ok_or {ℓ} : {A : Type ℓ} → ScheduleError → Option A → Result ScheduleError A
ok_or e none = err e
ok_or e (some a) = ok a

module _ (crate : CronCrate) where
  pub record Schedule : Type 0 where
    pub cron : crate.Cron
    pub zone : crate.Tz

  -- `Schedule::parse`.
  unfoldable pub parse : Text → Text → Result ScheduleError Schedule
  unfolding ok_or
  parse expr zone_name = do
    zone ← ok_or (timezone zone_name) (crate.tz_from_str zone_name)
    cron ← map_err (expression expr) (crate.cron_from_str (normalise expr))
    ok (record { cron = cron; zone = zone })

  -- `Schedule::next_after`.
  unfoldable pub next_after : Schedule → ℕ → Result ScheduleError ℕ
  unfolding ok_or
  next_after s after =
      ok_or (no_occurrence (crate.cron_to_string s.cron)) (crate.after_next s.cron s.zone after)
