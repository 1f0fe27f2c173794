-- ===== src/Cron/OwnKeys.antt =====
-- The part of a schedule that its expression says: what a form is expected to open with.
use breckr.Base.{
  ℕ, zero, suc, ◌≤◌, ◌<◌, ◌+◌, nat_eq, Bool, any, keep, some, List, [], ◌∷◌, map, ℤ, pos, is_pos,
  ◌≡◌, inl, inr, Bool-cases, refl, In, In-keep, keep-In, arith, Text_eq, text_beq,
}
use breckr.Cron.{
  Schedule, Frequency, freq_minutes, freq_hours, freq_day, freq_week, freq_month, freq_custom,
  frequency_text, find_frequency,
}
use breckr.Cron.FromCron.{only_every, days_from}
use breckr.Cron.Days.{Rising, All-In, keep-Rising, Rising-ext}
use breckr.Cron.Week.{IsWeek}

-- The days from Sunday to Saturday that a list has.
abbrev week : List ℕ
week = 0 ∷ 1 ∷ 2 ∷ 3 ∷ 4 ∷ 5 ∷ 6 ∷ []

unfoldable pub listed_days : List ℤ → List ℕ
listed_days values = keep (λ d. any (is_pos d) values) week

-- A schedule with the keys of its frequency only, and its weekdays in order, each once.
unfoldable pub own_keys : Frequency → Schedule → Schedule
own_keys freq_minutes s = record (only_every freq_minutes) { interval = s.interval }
own_keys freq_hours s = record (only_every freq_hours) { interval = s.interval; minute = s.minute }
own_keys freq_day s = record (only_every freq_day) { hour = s.hour; minute = s.minute }
own_keys freq_week s = record (only_every freq_week) {
  hour = s.hour;
  minute = s.minute;
  weekdays = map pos (listed_days s.weekdays);
}
own_keys freq_month s = record (only_every freq_month) {
  hour = s.hour;
  minute = s.minute;
  day = s.day;
}
own_keys freq_custom s = record (only_every freq_custom) { cron = s.cron }

In-days_from : (from count d : ℕ) → from ≤ d → d < from + count → In d (days_from from count)
unfolding days_from
In-days_from from zero d l h = absurd (omega (arith, l, h))
In-days_from from (suc count) d l h = elim (Bool-cases (nat_eq d from)) [
  | inl e ↦ inl (ground arith)
  | inr e ↦ inr (In-days_from (suc from) count d (ground arith) (omega (arith, h)))
]

In-week : (d : ℕ) → d ≤ 6 → In d week
unfolding days_from
In-week d h = In-days_from 0 7 d (omega arith) (omega (arith, h))

week-Rising : Rising week
week-Rising = ground arith

-- The days that were checked are the listed ones.
pub IsWeek-listed :
    (values : List ℤ) (days : List ℕ) → IsWeek values days → days ≡ listed_days values
unfolding listed_days
IsWeek-listed values days w =
    Rising-ext days (listed_days values) w.rising (keep-Rising listed week week-Rising)
      (λ x i. In-keep listed x week (In-week x (All-In _ days w.small x i)) ((w.members x).0 i))
      (λ x i. (w.members x).1 (keep-In listed x week i).1)
  where
    listed : ℕ → Bool
    listed d = any (is_pos d) values

pub find_own : (f : Frequency) → find_frequency (frequency_text f) ≡ some f
unfolding find_frequency frequency_text text_beq
find_own freq_minutes = refl
find_own freq_hours = refl
find_own freq_day = refl
find_own freq_week = refl
find_own freq_month = refl
find_own freq_custom = refl

pub find_frequency-own_keys :
    (f : Frequency) (s : Schedule) → find_frequency (own_keys f s).every ≡ some f
unfolding own_keys
find_frequency-own_keys freq_minutes s = find_own freq_minutes
find_frequency-own_keys freq_hours s = find_own freq_hours
find_frequency-own_keys freq_day s = find_own freq_day
find_frequency-own_keys freq_week s = find_own freq_week
find_frequency-own_keys freq_month s = find_own freq_month
find_frequency-own_keys freq_custom s = find_own freq_custom
