-- ===== src/Cron.antt =====
-- server/internal/executor/schedule.go: the form's schedules and cron expressions; this file is `ToCron`,
-- and its children are `FromCron` and what holds of the two together. `ValidateCronExpr` is the
-- parser of robfig/cron, a parameter. An error is the field that it names: its message is left out.
pub mod FromCron
pub mod Days
pub mod Week
pub mod Shapes
pub mod OwnKeys
pub mod RoundTrip
pub mod Custom
mod Tests
use breckr.Base.{
  Text, codes, ℕ, Bool, true, false, not, any, if◌then◌else◌, Option, none, some, List, [], ◌∷◌,
  ◌++◌, map, ℤ, in_range, Result, ok, err, ◌>>=◌, ◌==◌, Text_eq, nat_eq, leb, is_empty, trim_space,
  decimal, join, order_by,
}

-- Pointer fields, of which a JSON body may carry any.
pub record Schedule : Type 0 where
  pub every : Text
  pub interval : Option ℤ
  pub minute : Option ℤ
  pub hour : Option ℤ
  pub day : Option ℤ
  pub weekdays : List ℤ
  pub cron : Option Text

pub data Frequency : Type 0 where
  freq_minutes freq_hours freq_day freq_week freq_month freq_custom : Frequency

-- `FreqMinutes` to `FreqCustom`.
unfoldable pub frequency_text : Frequency → Text
frequency_text freq_minutes = codes "minutes"
frequency_text freq_hours = codes "hours"
frequency_text freq_day = codes "day"
frequency_text freq_week = codes "week"
frequency_text freq_month = codes "month"
frequency_text freq_custom = codes "custom"

-- The cases of the switch on `Every`.
unfoldable pub find_frequency : Text → Option Frequency
unfolding frequency_text
find_frequency every =
    if every == frequency_text freq_minutes
    then some freq_minutes
    else if every == frequency_text freq_hours
    then some freq_hours
    else if every == frequency_text freq_day
    then some freq_day
    else if every == frequency_text freq_week
    then some freq_week
    else if every == frequency_text freq_month
    then some freq_month
    else if every == frequency_text freq_custom
    then some freq_custom
    else none

abbrev pub schedule_field : Text
schedule_field = codes "schedule"

abbrev pub week_day_max : ℕ
week_day_max = 6

-- `requireInt`.
unfoldable pub require_int : Option ℤ → ℕ → ℕ → Result Text ℕ
unfolding in_range
require_int none min max = err schedule_field
require_int (some value) min max = elim (in_range min max value) [
  | none ↦ err schedule_field
  | some n ↦ ok n
]

-- The loop of `requireWeekdays`, over the days seen so far.
unfoldable pub add_day : ℕ → List ℕ → List ℕ
add_day d days = if any (nat_eq d) days then days else days ++ d ∷ []

unfoldable pub check_days : List ℕ → List ℤ → Result Text (List ℕ)
unfolding require_int add_day
check_days days [] = ok days
check_days days (value ∷ values) = do
  checked ← require_int (some value) 0 week_day_max
  check_days (add_day checked days) values

unfoldable pub require_weekdays : List ℤ → Result Text (List ℕ)
unfolding check_days order_by
require_weekdays [] = err schedule_field
require_weekdays (value ∷ values) = do days ← check_days [] (value ∷ values); ok (order_by leb days)

unfoldable pub join_ints : List ℕ → Text
unfolding decimal
join_ints values = join (map decimal values) (codes ",")

-- The bytes of the expressions.
abbrev pub star : Text
star = codes "*"

abbrev pub every_nth : ℕ → Text
unfolding decimal
every_nth n = codes "*/" ++ decimal n

-- Five fields with a space between them.
abbrev pub expression : Text → Text → Text → Text → Text → Text
expression minute hour dom month dow =
    minute ++ 32 ∷ (hour ++ 32 ∷ (dom ++ 32 ∷ (month ++ 32 ∷ dow)))

module _ (accepts : Text → Bool) where
  unfoldable pub custom_cron : Option Text → Result Text Text
  unfolding trim_space
  custom_cron none = err schedule_field
  custom_cron (some cron) =
      let expr = trim_space cron in
      if is_empty expr
      then err schedule_field
      else if not (accepts expr)
      then err schedule_field
      else ok expr

  unfoldable pub cron_of : Frequency → Schedule → Result Text Text
  unfolding require_int require_weekdays decimal join_ints custom_cron
  cron_of freq_minutes s = do
    interval ← require_int s.interval 1 59
    ok (expression (every_nth interval) star star star star)
  cron_of freq_hours s = do
    interval ← require_int s.interval 1 23
    minute ← require_int s.minute 0 59
    ok (expression (decimal minute) (every_nth interval) star star star)
  cron_of freq_day s = do
    hour ← require_int s.hour 0 23
    minute ← require_int s.minute 0 59
    ok (expression (decimal minute) (decimal hour) star star star)
  cron_of freq_week s = do
    weekdays ← require_weekdays s.weekdays
    hour ← require_int s.hour 0 23
    minute ← require_int s.minute 0 59
    ok (expression (decimal minute) (decimal hour) star star (join_ints weekdays))
  cron_of freq_month s = do
    day_of_month ← require_int s.day 1 31
    hour ← require_int s.hour 0 23
    minute ← require_int s.minute 0 59
    ok (expression (decimal minute) (decimal hour) (decimal day_of_month) star star)
  cron_of freq_custom s = custom_cron s.cron

  -- `ToCron`.
  unfoldable pub to_cron : Option Schedule → Result Text Text
  unfolding find_frequency cron_of
  to_cron none = err schedule_field
  to_cron (some s) = elim (find_frequency s.every) [
    | none ↦ err schedule_field
    | some f ↦ cron_of f s
  ]
