-- ===== src/Executor/Page.antt =====
-- server/internal/executor/executor.go, `Execute`: one spec run against a page. The page is the browser
-- driver's, a parameter with a state of its own; so are `%q`, the clock and the floats.
use breckr.Base.{
  Text, codes, ℕ, Bool, true, false, not, ◌||◌, if◌then◌else◌, Option, none, some, List, [], ◌∷◌,
  ◌++◌, Result, ok, err, nat_eq, is_empty, is_digit, keep, trim_space, decimal,
}
use breckr.Types.Task.{Condition, TaskSpec, ExtractKind, text, number, attribute, count, exists}
use breckr.Executor.{
  Floats, Value, nothing, words, flag, amount, CheckResult, TaskResult, condition_key,
}

-- `types.Page`: each call may change the page.
pub record PageOps (P : Type 0) : Type 0 where
  pub navigate : Text → P → P × Option Text
  pub wait_for_selector : Text → P → P × Option Text
  pub has : Text → P → P × Result Text Bool
  pub count_of : Text → P → P × Result Text ℕ
  pub attribute_of : Text → Text → P → P × Result Text Text
  pub text_of : Text → P → P × Result Text Text

-- What is kept of a call's answer, and its error passed on.
abbrev pub with_answer :
    {P A B : Type 0} → P × Result Text A → (A → Result Text B) → P × Result Text B
with_answer (page, ok a) f = (page, f a)
with_answer (page, err e) f = (page, err e)

-- The next step on the page, unless an error came first.
abbrev pub then_page :
    {P A B : Type 0} → P × Result Text A → (A → P → P × Result Text B) → P × Result Text B
then_page (page, ok a) f = f a page
then_page (page, err e) f = (page, err e)

-- `numberJunk`: what is not a digit, "." or "-" is dropped.
abbrev pub is_number_byte : ℕ → Bool
is_number_byte c = is_digit c || nat_eq c 46 || nat_eq c 45

-- `shouldWait`.
unfoldable pub should_wait : Condition → Bool
should_wait c = if not (is_empty c.wait_for_selector) then true else elim c.extract [
  | exists ↦ false
  | count ↦ false
  | text ↦ true
  | number ↦ true
  | attribute ↦ true
]

abbrev pub wait_target : Condition → Text
wait_target c = if is_empty c.wait_for_selector then c.selector else c.wait_for_selector

module _ {P F : Type 0} (page_ops : PageOps P) (ops : Floats F) (of_count : ℕ → F)
    (quote : Text → Text) where
  -- `ParseNumber`.
  unfoldable pub parse_number : Text → Text → Result Text F
  parse_number raw selector = elim (ops.parse (keep is_number_byte raw)) [
    | none ↦
        err (
          codes "could not parse a number from " ++ (quote raw ++ (codes " at " ++ quote selector)))
    | some x ↦ ok x
  ]

  unfoldable pub numbered : Text → Text → Result Text (Value F × Text)
  unfolding parse_number
  numbered selector raw = elim (parse_number raw selector) [
    | ok x ↦ ok (amount x, raw)
    | err e ↦ err e
  ]

  -- `extractValue`.
  unfoldable pub extract_kind : ExtractKind → Condition → P → P × Result Text (Value F × Text)
  unfolding numbered trim_space decimal
  extract_kind exists c page =
      with_answer (page_ops.has c.selector page)
        (λ present. ok (flag present, if present then codes "present" else codes ""))
  extract_kind count c page =
      with_answer (page_ops.count_of c.selector page) (λ n. ok (amount (of_count n), decimal n))
  extract_kind attribute c page =
      with_answer (page_ops.attribute_of c.selector c.attribute_name page)
        (λ raw. ok (words raw, raw))
  extract_kind number c page =
      with_answer (page_ops.text_of c.selector page) (λ raw. numbered c.selector (trim_space raw))
  extract_kind text c page =
      with_answer (page_ops.text_of c.selector page)
        (λ raw. ok (words (trim_space raw), trim_space raw))

  unfoldable pub extract_value : Condition → P → P × Result Text (Value F × Text)
  unfolding extract_kind
  extract_value c page = extract_kind c.extract c page

  abbrev pub check_of : Condition → Value F × Text → CheckResult F
  check_of c (value, raw) = record {
    key = condition_key quote c;
    value = value;
    raw = raw;
    met = false;
  }

  -- The wait of one condition.
  unfoldable pub wait_for : Text → Condition → P → P × Option Text
  unfolding should_wait
  wait_for url c page =
      if should_wait c then go (page_ops.wait_for_selector (wait_target c) page) else (page, none)
    where
      go : P × Option Text → P × Option Text
      go (page', none) = (page', none)
      go (page', some e) = (
        page',
        some (
            codes "no element matched "
            ++ (quote (wait_target c) ++ (codes " at " ++ (url ++ (codes ": " ++ e))))),
      )

  abbrev after_wait :
      (P → P × Result Text (Value F × Text)) → P × Option Text → P × Result Text (Value F × Text)
  after_wait f (page, none) = f page
  after_wait f (page, some e) = (page, err e)

  unfoldable pub check_condition : Text → Condition → P → P × Result Text (Value F × Text)
  unfolding wait_for extract_value
  check_condition url c page = after_wait (extract_value c) (wait_for url c page)

  -- The loop of `Execute`, which the first error ends.
  unfoldable pub check_all : Text → List Condition → P → P × Result Text (List (CheckResult F))
  unfolding check_condition
  check_all url [] page = (page, ok [])
  check_all url (c ∷ cs) page =
      then_page (check_condition url c page)
        (λ x page'. with_answer (check_all url cs page') (λ checks. ok (check_of c x ∷ checks)))

  abbrev pub result_of : Text → Text → List (CheckResult F) → TaskResult F
  result_of url now [] = record {
    value = nothing;
    raw = [];
    url = url;
    checked_at = now;
    checks = [];
  }
  result_of url now (k ∷ ks) = record {
    value = k.value;
    raw = k.raw;
    url = url;
    checked_at = now;
    checks = k ∷ ks;
  }

  abbrev pub after_navigate :
      (P → P × Result Text (TaskResult F)) → P × Option Text → P × Result Text (TaskResult F)
  after_navigate f (page, none) = f page
  after_navigate f (page, some e) = (page, err e)

  -- `Execute`: one navigation, then every condition in order.
  unfoldable pub execute : Text → TaskSpec → P → P × Result Text (TaskResult F)
  unfolding check_all
  execute now spec page =
      after_navigate
        (λ page'.
          with_answer (check_all spec.url spec.conditions page')
            (λ checks. ok (result_of spec.url now checks)))
        (page_ops.navigate spec.url page)
