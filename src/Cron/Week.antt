-- ===== src/Cron/Week.antt =====
-- `requireWeekdays` gives a set of days that `parseWeekdays` reads back from `joinInts`.
use breckr.Base.{
  ℕ, ◌≤◌, ◌<◌, true, any, In, All, All-append, ◌+◌, Option, none, some, List, [], ◌∷◌, map, ℤ, pos,
  negsuc, in_range, is_pos, ok, bind-ok, ◌≡◌, ◌≢◌, ◌↔◌, ◌⊎◌, inl, inr, Bool-cases, refl, ap, sym,
  ◌∙◌, subst, arith, nat_eq, leb, order_by, order_by-In, decimal, digits, split-join, NoByte,
  plain_int, plain_int-decimal,
}
use breckr.Cron.{require_int, check_days, require_weekdays, add_day, join_ints}
use breckr.Cron.FromCron.{range_of, part_days, add_days, parse_parts, sorted_days, parse_weekdays}
use breckr.Cron.Days.{
  Rising, Different, order_by-Rising, Rising-order_by, add_day-Different, add_day-In,
  add_days-Rising, order_by-All,
}

-- What was asked for is there, and within the bounds.
pub record InRange (min max : ℕ) (value : Option ℤ) (n : ℕ) : Type 0 where
  pub is_it : value ≡ some (pos n)
  pub low : min ≤ n
  pub high : n ≤ max

pub require_int-InRange :
    (value : Option ℤ) (min max n : ℕ) → require_int value min max ≡ ok n → InRange min max value n
unfolding require_int in_range
require_int-InRange none min max n h = cc h
require_int-InRange (some (negsuc k)) min max n h = cc h
require_int-InRange (some (pos k)) min max n h = record {
  is_it = ground arith;
  low = ground arith;
  high = ground arith;
}

-- What the loop over the days gives.
record Checked (days : List ℕ) (values : List ℤ) (out : List ℕ) : Type 0 where
  different : Different out
  small : All (λ d. d ≤ 6) out
  members : (x : ℕ) → In x out ↔ (In x days ⊎ (any (is_pos x) values ≡ true))

add_day-All :
    (n : ℕ) (days : List ℕ) → n ≤ 6 → All (λ d. d ≤ 6) days → All (λ d. d ≤ 6) (add_day n days)
unfolding add_day
add_day-All n days l h = elim (Bool-cases (any (nat_eq n) days)) [
  | inl e ↦ rw e h
  | inr e ↦ rw e (All-append _ days (n ∷ []) h (l, tt))
]

listed_one :
    (n x : ℕ) (values : List ℤ)
    → any (is_pos x) (pos n ∷ values) ≡ true
    → (x ≡ n) ⊎ (any (is_pos x) values ≡ true)
listed_one n x values h = elim (Bool-cases (nat_eq n x)) [
  | inl e ↦ inl (ground arith)
  | inr e ↦ inr (ground (arith, h))
]

listed_first : (n x : ℕ) (values : List ℤ) → x ≡ n → any (is_pos x) (pos n ∷ values) ≡ true
listed_first n x values h = ground arith

listed_later :
    (v : ℤ) (x : ℕ) (values : List ℤ)
    → any (is_pos x) values ≡ true
    → any (is_pos x) (v ∷ values) ≡ true
listed_later v x values h = ground (arith, h)

members_listed :
    {A : Type 0} (n x : ℕ) (days : List ℕ) (values : List ℤ)
    → A ↔ (In x (add_day n days) ⊎ (any (is_pos x) values ≡ true))
    → A ↔ (In x days ⊎ (any (is_pos x) (pos n ∷ values) ≡ true))
members_listed n x days values (there, back) = (
  λ a. elim (there a) [
    | inl i ↦ elim ((add_day-In n x days).0 i) [
      | inl q ↦ inr (listed_first n x values q)
      | inr j ↦ inl j
    ]
    | inr h ↦ inr (listed_later (pos n) x values h)
  ],
  λ b. elim b [
    | inl i ↦ back (inl ((add_day-In n x days).1 (inr i)))
    | inr h ↦ elim (listed_one n x values h) [
      | inl q ↦ back (inl ((add_day-In n x days).1 (inl q)))
      | inr j ↦ back (inr j)
    ]
  ],
)

check_days-Checked :
    (days : List ℕ) (values : List ℤ) (out : List ℕ)
    → Different days
    → All (λ d. d ≤ 6) days
    → check_days days values ≡ ok out
    → Checked days values out
unfolding check_days
check_days-Checked days [] out d s h =
    let q : days ≡ out = cc in
    subst (Checked days []) q (record {
      different = d;
      small = s;
      members = λ x. (λ i. inl i, λ i. elim i [ inl j ↦ j | inr f ↦ cc f ]);
    })
check_days-Checked days (value ∷ values) out d s h =
    let (n, e, g) = bind-ok (require_int (some value) 0 6) _ out h in
    let v = require_int-InRange (some value) 0 6 n e in
    let is : value ≡ pos n = cc (v.is_it) in
    let rest =
      check_days-Checked (add_day n days) values out (add_day-Different n days d)
        (add_day-All n days v.high s) g in
    record {
      different = rest.different;
      small = rest.small;
      members = λ x.
          subst (λ v. In x out ↔ (In x days ⊎ (any (is_pos x) (v ∷ values) ≡ true))) (sym is)
            (members_listed n x days values (rest.members x));
    }

-- A week: its days rise, are at most 6, and are the listed_one ones.
pub record IsWeek (values : List ℤ) (days : List ℕ) : Type 0 where
  pub rising : Rising days
  pub small : All (λ d. d ≤ 6) days
  pub some_day : days ≢ []
  pub members : (x : ℕ) → In x days ↔ (any (is_pos x) values ≡ true)

pub require_weekdays-IsWeek :
    (values : List ℤ) (days : List ℕ) → require_weekdays values ≡ ok days → IsWeek values days
unfolding require_weekdays
require_weekdays-IsWeek [] days h = cc h
require_weekdays-IsWeek (value ∷ values) days h =
    let (out, e, g) = bind-ok (check_days [] (value ∷ values)) _ days h in
    let c = check_days-Checked [] (value ∷ values) out tt tt e in
    let q : order_by leb out ≡ days = cc in
    let (n, first, later) = bind-ok (require_int (some value) 0 6) _ out e in
    let is : value ≡ pos n = cc ((require_int-InRange (some value) 0 6 n first).is_it) in
    let there : any (is_pos n) (value ∷ values) ≡ true =
      subst (λ v. any (is_pos n) (v ∷ values) ≡ true) (sym is) (listed_first n n values refl) in
    subst (IsWeek (value ∷ values)) q (record {
      rising = order_by-Rising out c.different;
      small = order_by-All _ out c.small;
      some_day = λ z. subst (In n) z ((order_by-In leb n out).1 ((c.members n).1 (inr there)));
      members = λ x. (
        λ i. elim ((c.members x).0 ((order_by-In leb x out).0 i)) [ inl j ↦ absurd j | inr f ↦ f ],
        λ f. (order_by-In leb x out).1 ((c.members x).1 (inr f)),
      );
    })

-- One day is one digit.
decimal_one : (d : ℕ) → d < 10 → decimal d ≡ (48 + d) ∷ []
unfolding decimal digits
decimal_one d h = ground arith

part_days-decimal : (d : ℕ) → d ≤ 6 → part_days (decimal d) ≡ some (d ∷ [])
unfolding part_days range_of
part_days-decimal d h =
    subst (λ s. part_days s ≡ some (d ∷ [])) (sym one)
      (rw (subst (λ s. plain_int s ≡ some d) one (plain_int-decimal d (omega arith)), part_days)
        (ground arith))
  where
    one : decimal d ≡ (48 + d) ∷ []
    one = decimal_one d (omega arith)

parse_parts-decimal :
    (seen ds : List ℕ)
    → All (λ d. d ≤ 6) ds
    → parse_parts seen (map decimal ds) ≡ some (add_days seen ds)
unfolding parse_parts add_days
parse_parts-decimal seen [] h = refl
parse_parts-decimal seen (d ∷ ds) (p, h) =
    rw (part_days-decimal d p, parse_parts) (parse_parts-decimal (add_day d seen) ds h)

NoByte-decimal : (d : ℕ) → d ≤ 6 → NoByte 44 (decimal d)
NoByte-decimal d h = rw (decimal_one d (omega arith)) (ground arith, tt)

All-decimal : (ds : List ℕ) → All (λ d. d ≤ 6) ds → All (NoByte 44) (map decimal ds)
All-decimal [] h = tt
All-decimal (d ∷ ds) (p, h) = (NoByte-decimal d p, All-decimal ds h)

pub parse_weekdays-join_ints :
    (days : List ℕ)
    → Rising days
    → All (λ d. d ≤ 6) days
    → days ≢ []
    → parse_weekdays (join_ints days) ≡ some days
unfolding parse_weekdays join_ints sorted_days
parse_weekdays-join_ints [] r s n = absurd (n refl)
parse_weekdays-join_ints (d ∷ ds) r s n =
    rw (split-join 44 (decimal d) (map decimal ds) (All-decimal (d ∷ ds) s)) (
      rw (parse_parts-decimal [] (d ∷ ds) s) (
        ap sorted_days (add_days-Rising [] (d ∷ ds) r (λ x i. refl))
        ∙ ap some (Rising-order_by (d ∷ ds) r)))

require_int-fits : (min max n : ℕ) → min ≤ n → n ≤ max → require_int (some (pos n)) min max ≡ ok n
unfolding require_int in_range
require_int-fits min max n l h = ground (arith, l, h)

-- Such days are checked without change.
check_days-pos :
    (seen ds : List ℕ) → All (λ d. d ≤ 6) ds → check_days seen (map pos ds) ≡ ok (add_days seen ds)
unfolding check_days add_days
check_days-pos seen [] h = refl
check_days-pos seen (d ∷ ds) (p, h) =
    rw (check_days, require_int-fits 0 6 d (omega arith) p) (check_days-pos (add_day d seen) ds h)

pub require_weekdays-pos :
    (days : List ℕ)
    → Rising days
    → All (λ d. d ≤ 6) days
    → days ≢ []
    → require_weekdays (map pos days) ≡ ok days
unfolding require_weekdays
require_weekdays-pos [] r s n = absurd (n refl)
require_weekdays-pos (d ∷ ds) r s n =
    rw (check_days-pos [] (d ∷ ds) s)
      (rw (add_days-Rising [] (d ∷ ds) r (λ x i. refl)) (ap ok (Rising-order_by (d ∷ ds) r)))
