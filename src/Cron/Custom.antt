-- ===== src/Cron/Custom.antt =====
-- Expressions that the form has no control for.
use breckr.Base.{Text, ℕ, ◌≤◌, ◌<◌, Bool, some, in_range, err, ◌≡◌, ◌∙◌, arith, max_int, Text_eq}
use breckr.Cron.{
  freq_minutes, cron_of, to_cron, expression, every_nth, star, require_int, schedule_field,
}
use breckr.Cron.FromCron.{from_cron, every_minutes}
use breckr.Cron.Shapes.{
  every_nth-IsWord, star-IsWord, step_of-every_nth, every_nth-not_star, any_day-minutes,
  structured-any_day, from_cron-expression,
}
use breckr.Cron.OwnKeys.{find_own}

module _ (accepts : Text → Bool) where
  -- A step of more than 59 minutes, in every hour of every day, opens as a schedule in minutes
  -- with that interval, which cannot be saved.
  pub long_step :
      (n : ℕ)
      → 59 < n
      → n ≤ max_int
      → (from_cron (expression (every_nth n) star star star star) ≡ every_minutes n)
        × (to_cron accepts (some (every_minutes n)) ≡ err schedule_field)
  unfolding to_cron cron_of require_int in_range
  long_step n l h = (
    from_cron-expression (every_nth n) star star star star (every_minutes n) (every_nth-IsWord n)
        star-IsWord star-IsWord star-IsWord star-IsWord
        (structured-any_day (every_nth n) star
          ∙ any_day-minutes n (every_nth n) (every_nth-not_star n) (step_of-every_nth n h)),
    rw (to_cron, find_own freq_minutes) (ground (arith, l)),
  )
