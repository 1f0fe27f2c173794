-- ===== src/Cron/RoundTrip.antt =====
-- `FromCron` after `ToCron`: what the form saved is what it opens with.
use breckr.Base.{
  Text, ◌≤◌, Bool, some, ok, bind-ok, ok_injective, ◌≡◌, ◌≢◌, refl, ap, sym, ◌∙◌, arith, decimal,
  plain_int-decimal, max_int, Text_eq,
}
use breckr.Cron.{
  Schedule, Frequency, freq_minutes, freq_hours, freq_day, freq_week, freq_month, freq_custom,
  find_frequency, cron_of, to_cron, every_nth, star, join_ints, require_int, require_weekdays,
}
use breckr.Cron.FromCron.{from_cron, only_every, every_minutes, every_hours, at_time}
use breckr.Cron.OwnKeys.{own_keys, IsWeek-listed, find_frequency-own_keys}
use breckr.Cron.Week.{
  require_int-InRange, require_weekdays-IsWeek, require_weekdays-pos, parse_weekdays-join_ints,
}
use breckr.Cron.Shapes.{
  decimal-IsWord, every_nth-IsWord, star-IsWord, join_ints-IsWord, decimal-not_star,
  join_ints-not_star, step_of-decimal, step_of-every_nth, every_nth-not_star, any_day-step,
  any_day-time, any_day-minutes, structured-any_day, structured-week, structured-month,
  from_cron-expression,
}

module _ (accepts : Text → Bool) where
  from_cron-cron_of :
      (f : Frequency) (s : Schedule) (expr : Text)
      → f ≢ freq_custom
      → cron_of accepts f s ≡ ok expr
      → from_cron expr ≡ own_keys f s
  unfolding cron_of own_keys
  from_cron-cron_of freq_minutes s expr n h =
      let (k, e, g) = bind-ok (require_int s.interval 1 59) _ expr h in
      let v = require_int-InRange s.interval 1 59 k e in
      let opened =
        from_cron-expression (every_nth k) star star star star (every_minutes k)
          (every_nth-IsWord k) star-IsWord star-IsWord star-IsWord star-IsWord
          (structured-any_day (every_nth k) star
            ∙ any_day-minutes k (every_nth k) (every_nth-not_star k)
                (step_of-every_nth k (omega (arith, v.high)))) in
      ap from_cron (sym (ok_injective g))
      ∙ opened
      ∙ ap (λ i. record (only_every freq_minutes) { interval = i }) (sym v.is_it)
  from_cron-cron_of freq_hours s expr n h =
      let (k, e, g) = bind-ok (require_int s.interval 1 23) _ expr h in
      let (m, e', g') = bind-ok (require_int s.minute 0 59) _ expr g in
      let v = require_int-InRange s.interval 1 23 k e in
      let w = require_int-InRange s.minute 0 59 m e' in
      let opened =
        from_cron-expression (decimal m) (every_nth k) star star star (every_hours k m)
          (decimal-IsWord m) (every_nth-IsWord k) star-IsWord star-IsWord star-IsWord
          (structured-any_day (decimal m) (every_nth k)
            ∙ any_day-step k m (decimal m) (every_nth k)
                (plain_int-decimal m (omega (arith, w.high))) (every_nth-not_star k)
                (step_of-every_nth k (omega (arith, v.high)))) in
      ap from_cron (sym (ok_injective g')) ∙ opened ∙ rw (v.is_it, w.is_it) refl
  from_cron-cron_of freq_day s expr n h =
      let (k, e, g) = bind-ok (require_int s.hour 0 23) _ expr h in
      let (m, e', g') = bind-ok (require_int s.minute 0 59) _ expr g in
      let v = require_int-InRange s.hour 0 23 k e in
      let w = require_int-InRange s.minute 0 59 m e' in
      let small : k ≤ max_int = omega (arith, v.high) in
      let opened =
        from_cron-expression (decimal m) (decimal k) star star star (at_time freq_day k m)
          (decimal-IsWord m) (decimal-IsWord k) star-IsWord star-IsWord star-IsWord
          (structured-any_day (decimal m) (decimal k)
            ∙ any_day-time k m (decimal m) (decimal k) (plain_int-decimal m (omega (arith, w.high)))
                (plain_int-decimal k small) (decimal-not_star k small) (step_of-decimal k)) in
      ap from_cron (sym (ok_injective g')) ∙ opened ∙ rw (v.is_it, w.is_it) refl
  from_cron-cron_of freq_week s expr n h =
      let (days, e, g) = bind-ok (require_weekdays s.weekdays) _ expr h in
      let (k, e', g') = bind-ok (require_int s.hour 0 23) _ expr g in
      let (m, e'', g'') = bind-ok (require_int s.minute 0 59) _ expr g' in
      let v = require_int-InRange s.hour 0 23 k e' in
      let w = require_int-InRange s.minute 0 59 m e'' in
      let days_are = require_weekdays-IsWeek s.weekdays days e in
      let read = parse_weekdays-join_ints days days_are.rising days_are.small days_are.some_day in
      let opened =
        from_cron-expression (decimal m) (decimal k) star star (join_ints days) _ (decimal-IsWord m)
          (decimal-IsWord k) star-IsWord star-IsWord (join_ints-IsWord days days_are.some_day)
          (structured-week k m (decimal m) (decimal k) (join_ints days) days
            (plain_int-decimal m (omega (arith, w.high)))
            (plain_int-decimal k (omega (arith, v.high))) (join_ints-not_star days read) read) in
      ap from_cron (sym (ok_injective g''))
      ∙ opened
      ∙ rw (v.is_it, w.is_it, IsWeek-listed s.weekdays days days_are) refl
  from_cron-cron_of freq_month s expr n h =
      let (d, e, g) = bind-ok (require_int s.day 1 31) _ expr h in
      let (k, e', g') = bind-ok (require_int s.hour 0 23) _ expr g in
      let (m, e'', g'') = bind-ok (require_int s.minute 0 59) _ expr g' in
      let u = require_int-InRange s.day 1 31 d e in
      let v = require_int-InRange s.hour 0 23 k e' in
      let w = require_int-InRange s.minute 0 59 m e'' in
      let small : d ≤ max_int = omega (arith, u.high) in
      let opened =
        from_cron-expression (decimal m) (decimal k) (decimal d) star star _ (decimal-IsWord m)
          (decimal-IsWord k) (decimal-IsWord d) star-IsWord star-IsWord
          (structured-month k m d (decimal m) (decimal k) (decimal d)
            (plain_int-decimal m (omega (arith, w.high)))
            (plain_int-decimal k (omega (arith, v.high))) (plain_int-decimal d small)
            (decimal-not_star d small) (ground (arith, u.low, u.high))) in
      ap from_cron (sym (ok_injective g'')) ∙ opened ∙ rw (u.is_it, v.is_it, w.is_it) refl
  from_cron-cron_of freq_custom s expr n h = absurd (n refl)

  -- A schedule of the form that is not custom and is saved opens as itself, with the keys of its
  -- frequency only and its weekdays in order, each once.
  pub from_cron-to_cron :
      (s : Schedule) (f : Frequency) (expr : Text)
      → find_frequency s.every ≡ some f
      → f ≢ freq_custom
      → to_cron accepts (some s) ≡ ok expr
      → from_cron expr ≡ own_keys f s
  unfolding to_cron
  from_cron-to_cron s f expr e n h = from_cron-cron_of f s expr n (rw (to_cron, e) at h)

  cron_of-own_keys :
      (f : Frequency) (s : Schedule) (expr : Text)
      → cron_of accepts f s ≡ ok expr
      → cron_of accepts f (own_keys f s) ≡ ok expr
  unfolding cron_of own_keys
  cron_of-own_keys freq_minutes s expr h = h
  cron_of-own_keys freq_hours s expr h = h
  cron_of-own_keys freq_day s expr h = h
  cron_of-own_keys freq_week s expr h =
      let (days, e, g) = bind-ok (require_weekdays s.weekdays) _ expr h in
      let days_are = require_weekdays-IsWeek s.weekdays days e in
      let again = require_weekdays-pos days days_are.rising days_are.small days_are.some_day in
      rw (← IsWeek-listed s.weekdays days days_are) (rw (again, require_int) g)
  cron_of-own_keys freq_month s expr h = h
  cron_of-own_keys freq_custom s expr h = h

  -- What was saved opens as a schedule that is saved as the same.
  pub to_cron-own_keys :
      (s : Schedule) (f : Frequency) (expr : Text)
      → find_frequency s.every ≡ some f
      → to_cron accepts (some s) ≡ ok expr
      → to_cron accepts (some (own_keys f s)) ≡ ok expr
  unfolding to_cron
  to_cron-own_keys s f expr e h =
      rw (to_cron, find_frequency-own_keys f s) (cron_of-own_keys f s expr (rw (to_cron, e) at h))

  -- The expression of a saved schedule that is not custom opens as a schedule that is saved as
  -- the same expression.
  pub to_cron-from_cron :
      (s : Schedule) (f : Frequency) (expr : Text)
      → find_frequency s.every ≡ some f
      → f ≢ freq_custom
      → to_cron accepts (some s) ≡ ok expr
      → to_cron accepts (some (from_cron expr)) ≡ ok expr
  to_cron-from_cron s f expr e n h =
      rw (from_cron-to_cron s f expr e n h) (to_cron-own_keys s f expr e h)
