-- ===== src/Cron/Shapes.antt =====
-- The fields of the expressions that `ToCron` writes, as `FromCron` reads them.
use breckr.Base.{
  Text, ℕ, ◌≤◌, true, false, All-append, All-map, ◌&&◌, text_beq, text_beq_iff, Option, none, some,
  List, [], ◌∷◌, ◌++◌, map, pos, ◌≡◌, ◌≢◌, inl, inr, Bool-cases, refl, ap, ◌∙◌, arith, leb, decimal,
  decimal-Prints, IsDigits, plain_int, plain_int-decimal, max_int, fields, fields-word, fields-last,
  fields-trim_space, IsWord, NoSpace, trim_space, is_empty, ◌==◌, Text_eq,
}
use breckr.Cron.{Schedule, freq_day, freq_week, freq_month, expression, every_nth, star, join_ints}
use breckr.Cron.FromCron.{
  step_of, structured, shape_or_custom, from_cron, every_minutes, every_hours, at_time, any_day,
  fixed_minute, some_days, restricted, parse_weekdays,
}

-- The words that `ToCron` writes.
digits-NoSpace : (s : Text) → IsDigits s → NoSpace s
digits-NoSpace = All-map (λ c h. ground arith)

pub decimal-IsWord : (n : ℕ) → IsWord (decimal n)
decimal-IsWord n =
    let p = decimal-Prints n in
    record { some_letter = p.some_digit; no_space = digits-NoSpace (decimal n) p.only_digits }

pub every_nth-IsWord : (n : ℕ) → IsWord (every_nth n)
unfolding every_nth
every_nth-IsWord n = record {
  some_letter = refl;
  no_space = (refl, (refl, (decimal-IsWord n).no_space));
}

pub star-IsWord : IsWord star
star-IsWord = record { some_letter = refl; no_space = (refl, tt) }

IsWord-append : (s t : Text) → IsWord s → IsWord t → IsWord (s ++ 44 ∷ t)
IsWord-append s t p q = record {
  some_letter = longer s;
  no_space = All-append _ s (44 ∷ t) p.no_space (refl, q.no_space);
}
  where
    longer : (u : Text) → is_empty (u ++ 44 ∷ t) ≡ false
    longer [] = refl
    longer (c ∷ u) = refl

pub join_ints-IsWord : (days : List ℕ) → days ≢ [] → IsWord (join_ints days)
unfolding join_ints
join_ints-IsWord [] n = absurd (n refl)
join_ints-IsWord (d ∷ []) n = decimal-IsWord d
join_ints-IsWord (d ∷ e ∷ ds) n =
    IsWord-append (decimal d) (join_ints (e ∷ ds)) (decimal-IsWord d)
      (join_ints-IsWord (e ∷ ds) (λ z. cc z))

-- Five words are the five fields.
fields-expression :
    (a b c d e : Text)
    → IsWord a
    → IsWord b
    → IsWord c
    → IsWord d
    → IsWord e
    → fields (trim_space (expression a b c d e)) ≡ a ∷ b ∷ c ∷ d ∷ e ∷ []
fields-expression a b c d e p q r s t =
    fields-trim_space (expression a b c d e)
    ∙ fields-word a _ p
    ∙ ap (λ x. a ∷ x)
        (fields-word b _ q
          ∙ ap (λ x. b ∷ x)
              (fields-word c _ r
                ∙ ap (λ x. c ∷ x) (fields-word d _ s ∙ ap (λ x. d ∷ x) (fields-last e t))))

-- What is read as something is no "*", which is not.
not_star :
    {A : Type 0} (read : Text → Option A) (s : Text) (a : A)
    → read s ≡ some a
    → read star ≡ none
    → (s == star) ≡ false
not_star read s a h n = elim (Bool-cases (s == star)) [
  | inl e ↦ let same : s ≡ star = (text_beq_iff s star).0 e in cc (h, n, ap read same)
  | inr e ↦ e
]

pub decimal-not_star : (n : ℕ) → n ≤ max_int → (decimal n == star) ≡ false
unfolding plain_int
decimal-not_star n h = not_star plain_int (decimal n) n (plain_int-decimal n h) refl

pub join_ints-not_star :
    (days : List ℕ) → parse_weekdays (join_ints days) ≡ some days → (join_ints days == star) ≡ false
unfolding parse_weekdays
join_ints-not_star days h = not_star parse_weekdays (join_ints days) days h refl

step_of-digits : (s : Text) → IsDigits s → step_of s ≡ none
unfolding step_of
step_of-digits [] h = refl
step_of-digits (c ∷ []) h = refl
step_of-digits (c ∷ d ∷ s) (h, hs) = ground (arith, h)

pub step_of-decimal : (n : ℕ) → step_of (decimal n) ≡ none
step_of-decimal n = step_of-digits (decimal n) (decimal-Prints n).only_digits

pub step_of-every_nth : (n : ℕ) → n ≤ max_int → step_of (every_nth n) ≡ some n
unfolding step_of every_nth
step_of-every_nth n h = plain_int-decimal n h

pub every_nth-not_star : (n : ℕ) → (every_nth n == star) ≡ false
unfolding every_nth text_beq
every_nth-not_star n = refl

-- Each shape, from its own fields.
pub any_day-step :
    (n m : ℕ) (a b : Text)
    → plain_int a ≡ some m
    → (b == star) ≡ false
    → step_of b ≡ some n
    → any_day a b ≡ some (every_hours n m)
unfolding any_day fixed_minute
any_day-step n m a b p q r = rw (q, fixed_minute, p, q, r) refl

pub any_day-time :
    (h m : ℕ) (a b : Text)
    → plain_int a ≡ some m
    → plain_int b ≡ some h
    → (b == star) ≡ false
    → step_of b ≡ none
    → any_day a b ≡ some (at_time freq_day h m)
unfolding any_day fixed_minute
any_day-time h m a b p q r s = rw (fixed_minute, p, r, s, q) refl

pub any_day-minutes :
    (n : ℕ) (a : Text)
    → (a == star) ≡ false
    → step_of a ≡ some n
    → any_day a star ≡ some (every_minutes n)
unfolding any_day text_beq
any_day-minutes n a p q = rw (p, q) refl

pub structured-any_day : (a b : Text) → structured (a ∷ b ∷ star ∷ star ∷ star ∷ []) ≡ any_day a b
unfolding structured text_beq
structured-any_day a b = refl

pub structured-week :
    (h m : ℕ) (a b c : Text) (days : List ℕ)
    → plain_int a ≡ some m
    → plain_int b ≡ some h
    → (c == star) ≡ false
    → parse_weekdays c ≡ some days
    → structured (a ∷ b ∷ star ∷ star ∷ c ∷ [])
      ≡ some (record (at_time freq_week h m) { weekdays = map pos days })
unfolding structured restricted some_days text_beq
structured-week h m a b c days p q r s = rw (r, restricted, p, q, some_days, s) refl

pub structured-month :
    (h m d : ℕ) (a b c : Text)
    → plain_int a ≡ some m
    → plain_int b ≡ some h
    → plain_int c ≡ some d
    → (c == star) ≡ false
    → leb 1 d && leb d 31 ≡ true
    → structured (a ∷ b ∷ c ∷ star ∷ star ∷ [])
      ≡ some (record (at_time freq_month h m) { day = some (pos d) })
unfolding structured restricted some_days text_beq
structured-month h m d a b c p q r s t = rw (s, restricted, p, q, some_days, r, s, t) refl

from_cron-structured :
    (expr : Text) (ws : List Text) (s : Schedule)
    → fields (trim_space expr) ≡ ws
    → structured ws ≡ some s
    → from_cron expr ≡ s
unfolding from_cron
from_cron-structured expr ws s p q = ap (shape_or_custom expr) (ap structured p ∙ q)

pub from_cron-expression :
    (a b c d e : Text) (s : Schedule)
    → IsWord a
    → IsWord b
    → IsWord c
    → IsWord d
    → IsWord e
    → structured (a ∷ b ∷ c ∷ d ∷ e ∷ []) ≡ some s
    → from_cron (expression a b c d e) ≡ s
from_cron-expression a b c d e s p q r t u h =
    from_cron-structured (expression a b c d e) (a ∷ b ∷ c ∷ d ∷ e ∷ []) s
      (fields-expression a b c d e p q r t u) h
