-- ===== src/Cron/FromCron.antt =====
-- `FromCron`: the schedule that an expression came from. The parts that the source returns as
-- `custom` from are a `none` here, which becomes `custom` at the end.
use breckr.Base.{
  Text, ℕ, suc, ◌+◌, zero, ◌-◌, not, ◌&&◌, ◌||◌, if◌then◌else◌, Option, none, some, List, [], ◌∷◌,
  map, pos, ◌==◌, Text_eq, nat_eq, leb, ltb, trim_space, fields, split, plain_int, is_digit,
  order_by,
}
use breckr.Cron.{
  Schedule, Frequency, freq_minutes, freq_hours, freq_day, freq_week, freq_month, freq_custom,
  frequency_text, add_day, week_day_max, star,
}

-- `stepOf`: "*/" before digits.
unfoldable pub step_of : Text → Option ℕ
unfolding plain_int
step_of (a ∷ b ∷ s) = if nat_eq a 42 && nat_eq b 47 then plain_int s else none
step_of _ = none

-- `rangePattern`: two digits with a dash between them.
unfoldable pub range_of : Text → Option (ℕ × ℕ)
range_of (a ∷ b ∷ c ∷ []) =
    if is_digit a && nat_eq b 45 && is_digit c then some (a - 48, c - 48) else none
range_of _ = none

-- `count` days from one on.
unfoldable pub days_from : ℕ → ℕ → List ℕ
days_from from zero = []
days_from from (suc count) = from ∷ days_from (suc from) count

-- The days that one part of the field adds.
unfoldable pub part_days : Text → Option (List ℕ)
unfolding range_of plain_int days_from
part_days part = elim (range_of part) [
  | some (from, to) ↦
      if ltb to from || ltb week_day_max to then none else some (days_from from (to + 1 - from))
  | none ↦ elim (plain_int part) [
    | none ↦ none
    | some single ↦ if ltb week_day_max single then none else some (single ∷ [])
  ]
]

unfoldable pub add_days : List ℕ → List ℕ → List ℕ
unfolding add_day
add_days seen [] = seen
add_days seen (d ∷ ds) = add_days (add_day d seen) ds

-- The loop of `parseWeekdays`.
unfoldable pub parse_parts : List ℕ → List Text → Option (List ℕ)
unfolding part_days add_days
parse_parts seen [] = some seen
parse_parts seen (part ∷ parts) = elim (part_days part) [
  | none ↦ none
  | some days ↦ parse_parts (add_days seen days) parts
]

unfoldable pub sorted_days : List ℕ → Option (List ℕ)
unfolding order_by
sorted_days [] = none
sorted_days (d ∷ seen) = some (order_by leb (d ∷ seen))

unfoldable pub parse_weekdays : Text → Option (List ℕ)
unfolding parse_parts sorted_days split
parse_weekdays field = elim (parse_parts [] (split 44 field)) [
  | none ↦ none
  | some seen ↦ sorted_days seen
]

-- A schedule with none of the keys.
abbrev pub only_every : Frequency → Schedule
only_every f = record {
  every = frequency_text f;
  interval = none;
  minute = none;
  hour = none;
  day = none;
  weekdays = [];
  cron = none;
}

abbrev pub every_minutes : ℕ → Schedule
every_minutes n = record (only_every freq_minutes) { interval = some (pos n) }

abbrev pub every_hours : ℕ → ℕ → Schedule
every_hours n m = record (only_every freq_hours) { interval = some (pos n); minute = some (pos m) }

abbrev pub at_time : Frequency → ℕ → ℕ → Schedule
at_time f h m = record (only_every f) { hour = some (pos h); minute = some (pos m) }

-- A fixed minute, of every hour, of one in some, or of one in the day.
unfoldable pub fixed_minute : Text → Text → Option Schedule
unfolding step_of plain_int
fixed_minute minute hour = elim (plain_int minute) [
  | none ↦ none
  | some m ↦ if hour == star then some (every_hours 1 m) else elim (step_of hour) [
    | some step ↦ some (every_hours step m)
    | none ↦ elim (plain_int hour) [ none ↦ none | some h ↦ some (at_time freq_day h m) ]
  ]
]

-- Both day fields are "*".
unfoldable pub any_day : Text → Text → Option Schedule
unfolding fixed_minute
any_day minute hour =
    if hour == star
    then if minute == star then some (every_minutes 1) else elim (step_of minute) [
      | some step ↦ some (every_minutes step)
      | none ↦ fixed_minute minute hour
    ]
    else fixed_minute minute hour

-- A day field is restricted.
unfoldable pub some_days : ℕ → ℕ → Text → Text → Option Schedule
unfolding parse_weekdays plain_int
some_days m h dom dow =
    if dom == star
    then elim (parse_weekdays dow) [
      | none ↦ none
      | some weekdays ↦ some (record (at_time freq_week h m) { weekdays = map pos weekdays })
    ]
    else if dow == star
    then elim (plain_int dom) [
      | none ↦ none
      | some d ↦
          if leb 1 d && leb d 31
          then some (record (at_time freq_month h m) { day = some (pos d) })
          else none
    ]
    else none

unfoldable pub restricted : Text → Text → Text → Text → Option Schedule
unfolding some_days plain_int
restricted minute hour dom dow = elim (plain_int minute) [
  | none ↦ none
  | some m ↦ elim (plain_int hour) [ none ↦ none | some h ↦ some_days m h dom dow ]
]

-- One of the five structured shapes, or none.
unfoldable pub structured : List Text → Option Schedule
unfolding any_day restricted
structured (minute ∷ hour ∷ dom ∷ month ∷ dow ∷ []) =
    if not (month == star)
    then none
    else if dom == star && dow == star
    then any_day minute hour
    else restricted minute hour dom dow
structured _ = none

abbrev pub shape_or_custom : Text → Option Schedule → Schedule
shape_or_custom expr none = record (only_every freq_custom) { cron = some expr }
shape_or_custom expr (some s) = s

-- `FromCron`.
unfoldable pub from_cron : Text → Schedule
unfolding structured fields trim_space
from_cron expr = shape_or_custom expr (structured (fields (trim_space expr)))
