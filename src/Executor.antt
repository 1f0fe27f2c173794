-- ===== src/Executor.antt =====
-- server/internal/executor/executor.go: how a task's conditions are judged. A float64 is a parameter,
-- with the standard library's operations on it; `%q` of fmt is an input too.
pub mod Verdict
pub mod Page
pub mod Render
pub mod Filled
pub mod Complete
mod Tests
use breckr.Base.{
  Text, codes, ℕ, Bool, true, false, not, ◌&&◌, ◌||◌, Option, none, some, List, [], ◌∷◌, ◌++◌,
  length, map, lookup, nat_eq, if◌then◌else◌, ◌==◌, Text_eq, trim_space,
}
use breckr.Types.Task.{
  Condition, TaskSpec, MatchMode, match_all, match_any, ExtractKind, text, number, attribute, count,
  exists, CompareOperator, lt, lte, gt, gte, eq, neq, contains, not_contains, is_true, is_false,
  changed,
}

-- The operations of float64 and strconv that the source uses.
pub record Floats (F : Type 0) : Type 0 where
  pub less : F → F → Bool
  pub less_eq : F → F → Bool
  pub same : F → F → Bool
  pub nan : F
  pub parse : Text → Option F
  -- `FormatFloat(x, 'f', -1, 64)`.
  pub format : F → Text

-- The `any` of an extraction.
pub data Value (F : Type 0) : Type 0 where
  nothing : Value F
  words : Text → Value F
  flag : Bool → Value F
  amount : F → Value F

pub record CheckResult (F : Type 0) : Type 0 where
  pub key : Text
  pub value : Value F
  pub raw : Text
  pub met : Bool

pub record TaskResult (F : Type 0) : Type 0 where
  pub value : Value F
  pub raw : Text
  pub url : Text
  pub checked_at : Text
  pub checks : List (CheckResult F)

abbrev pub kind_text : ExtractKind → Text
kind_text text = codes "text"
kind_text number = codes "number"
kind_text attribute = codes "attribute"
kind_text count = codes "count"
kind_text exists = codes "exists"

-- `Condition.Key`.
unfoldable pub condition_key : (Text → Text) → Condition → Text
condition_key quote c =
    quote c.selector
    ++ (codes "|" ++ (kind_text c.extract ++ (codes "|" ++ quote c.attribute_name)))

-- `strings.HasPrefix` and `strings.Contains`.
unfoldable pub has_prefix : Text → Text → Bool
has_prefix s [] = true
has_prefix [] (c ∷ p) = false
has_prefix (b ∷ s) (c ∷ p) = nat_eq b c && has_prefix s p

unfoldable pub text_contains : Text → Text → Bool
unfolding has_prefix
text_contains [] p = has_prefix [] p
text_contains (c ∷ s) p = has_prefix (c ∷ s) p || text_contains s p

unfoldable pub combine : MatchMode → Bool → Bool → Bool
combine match_any met b = met || b
combine match_all met b = met && b

abbrev pub starts_met : MatchMode → Bool
starts_met match_any = false
starts_met match_all = true

-- With the floats 1 and 0, which a Boolean is as a number.
module _ {F : Type 0} (ops : Floats F) (one zero : F) where
  unfoldable pub stringify : Value F → Text
  stringify nothing = codes ""
  stringify (words s) = s
  stringify (flag true) = codes "true"
  stringify (flag false) = codes "false"
  stringify (amount x) = ops.format x

  unfoldable pub to_number : Value F → F
  unfolding trim_space
  to_number nothing = ops.nan
  to_number (words s) = elim (ops.parse (trim_space s)) [ none ↦ ops.nan | some x ↦ x ]
  to_number (flag true) = one
  to_number (flag false) = zero
  to_number (amount x) = x

  -- `==` of two interface values.
  unfoldable pub same_value : Value F → Value F → Bool
  same_value nothing nothing = true
  same_value (words s) (words t) = s == t
  same_value (flag true) (flag b) = b
  same_value (flag false) (flag b) = not b
  same_value (amount x) (amount y) = ops.same x y
  same_value _ _ = false

  -- `EvaluateCondition`, operator by operator.
  unfoldable pub evaluate_operator : CompareOperator → Text → Value F → Value F → Bool
  unfolding same_value to_number stringify text_contains
  evaluate_operator is_true target v previous = same_value v (flag true)
  evaluate_operator is_false target v previous = same_value v (flag false)
  evaluate_operator changed target v previous =
      not (same_value previous nothing) && not (same_value previous v)
  evaluate_operator lt target v previous = ops.less (to_number v) (to_number (words target))
  evaluate_operator lte target v previous = ops.less_eq (to_number v) (to_number (words target))
  evaluate_operator gt target v previous = ops.less (to_number (words target)) (to_number v)
  evaluate_operator gte target v previous = ops.less_eq (to_number (words target)) (to_number v)
  evaluate_operator contains target v previous = text_contains (stringify v) target
  evaluate_operator not_contains target v previous = not (text_contains (stringify v) target)
  evaluate_operator eq target v previous = stringify v == target
  evaluate_operator neq target v previous = not (stringify v == target)

  unfoldable pub evaluate_condition : Condition → Value F → Value F → Bool
  unfolding evaluate_operator
  evaluate_condition c v previous = evaluate_operator c.operator c.value v previous

  -- `previous[key]`, nil for an absent key.
  abbrev pub previous_of : List (Text × Value F) → Text → Value F
  previous_of previous key = elim (lookup key previous) [ none ↦ nothing | some v ↦ v ]

  unfoldable pub check_with : List (Text × Value F) → Condition → CheckResult F → CheckResult F
  unfolding evaluate_condition
  check_with previous c k = record k {
    met = evaluate_condition c k.value (previous_of previous k.key);
  }

  -- The loop of `EvaluateConditions`: the checks are written as it goes.
  unfoldable pub evaluate_loop :
      MatchMode
      → List (Text × Value F)
      → List Condition
      → List (CheckResult F)
      → Bool
      → Bool × List (CheckResult F)
  unfolding check_with combine
  evaluate_loop mode previous [] ks met = (met, ks)
  evaluate_loop mode previous (c ∷ cs) [] met = (met, [])
  evaluate_loop mode previous (c ∷ cs) (k ∷ ks) met =
      let checked = check_with previous c k in
      let (out, rest) = evaluate_loop mode previous cs ks (combine mode met checked.met) in
      (out, checked ∷ rest)

  -- `EvaluateConditions`.
  unfoldable pub evaluate_conditions :
      TaskSpec → TaskResult F → List (Text × Value F) → Bool × TaskResult F
  unfolding evaluate_loop
  evaluate_conditions spec result previous =
      let (out, checks) =
        evaluate_loop spec.match_mode previous spec.conditions result.checks
          (starts_met spec.match_mode) in
      if nat_eq (length spec.conditions) 0
        || not (nat_eq (length result.checks) (length spec.conditions))
      then (false, result)
      else (out, record result { checks = checks })
