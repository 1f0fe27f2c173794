-- ===== src/Types/Words.antt =====
-- server/internal/types/types.go and constants.go: the words of a spec as JSON has them, and which of
-- them go together.
use breckr.Base.{Text, codes, ℕ, Bool, true, false, List, [], ◌∷◌}
use breckr.Types.Task.{
  MatchMode, match_all, match_any, ExtractKind, text, number, attribute, count, exists,
  CompareOperator, lt, lte, gt, gte, eq, neq, contains, not_contains, is_true, is_false, changed,
}

-- A spec with its words still texts, as JSON decodes it.
pub record DraftCondition : Type 0 where
  pub selector : Text
  pub wait_for_selector : Text
  pub extract : Text
  pub attribute_name : Text
  pub operator : Text
  pub value : Text

pub record DraftSpec : Type 0 where
  pub url : Text
  pub match_mode : Text
  pub conditions : List DraftCondition
  pub message : Text

abbrev pub extract_kinds : List ExtractKind
extract_kinds = text ∷ number ∷ attribute ∷ count ∷ exists ∷ []

unfoldable pub operator_text : CompareOperator → Text
operator_text lt = codes "lt"
operator_text lte = codes "lte"
operator_text gt = codes "gt"
operator_text gte = codes "gte"
operator_text eq = codes "eq"
operator_text neq = codes "neq"
operator_text contains = codes "contains"
operator_text not_contains = codes "not_contains"
operator_text is_true = codes "is_true"
operator_text is_false = codes "is_false"
operator_text changed = codes "changed"

abbrev numeric_operators : List CompareOperator
numeric_operators = lt ∷ lte ∷ gt ∷ gte ∷ eq ∷ neq ∷ changed ∷ []

abbrev text_operators : List CompareOperator
text_operators = eq ∷ neq ∷ contains ∷ not_contains ∷ changed ∷ []

-- `OperatorsByKind`.
unfoldable pub operators_by_kind : ExtractKind → List CompareOperator
operators_by_kind text = text_operators
operators_by_kind number = numeric_operators
operators_by_kind attribute = text_operators
operators_by_kind count = numeric_operators
operators_by_kind exists = is_true ∷ is_false ∷ changed ∷ []

-- `ValuelessOperators` and `NumericKinds`, as membership.
abbrev pub is_valueless : CompareOperator → Bool
is_valueless is_true = true
is_valueless is_false = true
is_valueless changed = true
is_valueless _ = false

abbrev pub is_numeric_kind : ExtractKind → Bool
is_numeric_kind number = true
is_numeric_kind count = true
is_numeric_kind _ = false

abbrev pub is_attribute : ExtractKind → Bool
is_attribute attribute = true
is_attribute _ = false

unfoldable pub match_text : MatchMode → Text
match_text match_all = codes "all"
match_text match_any = codes "any"

abbrev pub max_conditions : ℕ
max_conditions = 10
