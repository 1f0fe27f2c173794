-- ===== src/Cron/Tests.antt =====
-- A week written down twice, an expression the form does not know, and a step that is too long.
use breckr.Base.{codes, none, some, [], ◌∷◌, pos, true, ok, err, ◌≡◌, refl, text_beq, arith}
use breckr.Cron.{Schedule, freq_week, find_frequency, to_cron, schedule_field, every_nth}
use breckr.Cron.FromCron.{from_cron, every_minutes}
use breckr.Cron.OwnKeys.{own_keys}
use breckr.Cron.RoundTrip.{from_cron-to_cron, to_cron-from_cron}
use breckr.Cron.Custom.{long_step}

abbrev mondays_and_fridays : Schedule
mondays_and_fridays = record {
  every = codes "week";
  interval = some (pos 7);
  minute = some (pos 30);
  hour = some (pos 9);
  day = none;
  weekdays = pos 5 ∷ pos 1 ∷ pos 5 ∷ [];
  cron = none;
}

from_cron-to_cron_example :
    from_cron (codes "30 9 * * 1,5") ≡ own_keys freq_week mondays_and_fridays
unfolding text_beq find_frequency to_cron
from_cron-to_cron_example =
    from_cron-to_cron (λ s. true) mondays_and_fridays freq_week (codes "30 9 * * 1,5") refl
      (λ e. cc e) refl

to_cron-from_cron_example :
    to_cron (λ s. true) (some (from_cron (codes "30 9 * * 1,5"))) ≡ ok (codes "30 9 * * 1,5")
unfolding text_beq find_frequency to_cron
to_cron-from_cron_example =
    to_cron-from_cron (λ s. true) mondays_and_fridays freq_week (codes "30 9 * * 1,5") refl
      (λ e. cc e) refl

long_step_example :
    (from_cron (codes "*/90 * * * *") ≡ every_minutes 90)
    × (to_cron (λ s. true) (some (every_minutes 90)) ≡ err schedule_field)
unfolding every_nth
long_step_example = long_step (λ s. true) 90 (omega arith) (omega arith)
