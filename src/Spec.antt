-- ===== src/Spec.antt =====
-- server/internal/executor/spec.go: a spec as a request sends it, checked and normalised. `net/url`,
-- `strconv.ParseFloat` and the cron parser are parameters. An error is the field that it names: its
-- message is left out.
pub mod Checks
pub mod Usable
pub mod Again
mod Tests
use breckr.Base.{
  Text, codes, ℕ, suc, ◌+◌, Bool, true, false, not, ◌&&◌, ◌||◌, all, any, find, if◌then◌else◌,
  Option, none, some, List, [], ◌∷◌, ◌++◌, Result, ok, err, ◌>>=◌, ◌==◌, Text_eq, nat_eq, ltb, leb,
  is_empty, trim_space, decimal, plain_int, length, is_digit,
}
use breckr.Types.Notify.{NotifyMode, default_notify_mode, find_notify_mode}
use breckr.Types.Task.{
  Condition, TaskSpec, MatchMode, match_all, match_any, ExtractKind, text, number, attribute, count,
  exists, CompareOperator, lt, lte, gt, gte, eq, neq, contains, not_contains, is_true, is_false,
  changed,
}
use breckr.Types.Placeholder.{find_all, indexed, message_placeholders}
use breckr.Types.Words.{
  DraftCondition, DraftSpec, extract_kinds, operator_text, operators_by_kind, is_valueless,
  is_numeric_kind, is_attribute, match_text, max_conditions,
}
use breckr.Executor.{kind_text}
use breckr.Cron.{Schedule, to_cron, schedule_field}

-- The fields of a `url.URL` that the source reads, and its `String`.
pub record ParsedUrl : Type 0 where
  pub scheme : Text
  pub host : Text
  pub printed : Text

-- What the source uses of other packages: `url.Parse`, whether `ParseFloat` takes a text, and
-- `ValidateCronExpr`.
pub record Parsers : Type 0 where
  pub parse_url : Text → Option ParsedUrl
  pub is_float : Text → Bool
  pub is_cron : Text → Bool

unfoldable pub require_string : Text → Text → Result Text Text
unfolding trim_space
require_string value field =
    let trimmed = trim_space value in if is_empty trimmed then err field else ok trimmed

unfoldable pub condition_field : ℕ → Text → Text
unfolding decimal
condition_field index name = codes "conditions[" ++ (decimal index ++ (codes "]." ++ name))

-- What a loop found, or an error on the field.
abbrev pub or_fail {ℓ} : {A : Type ℓ} → Text → Option A → Result Text A
or_fail field none = err field
or_fail field (some a) = ok a

unfoldable pub validate_extract : Text → ℕ → Result Text ExtractKind
unfolding find condition_field
validate_extract raw index =
    or_fail (condition_field index (codes "extract")) (find (λ k. kind_text k == raw) extract_kinds)

unfoldable pub validate_operator : Text → ExtractKind → ℕ → Result Text CompareOperator
unfolding find operators_by_kind operator_text condition_field
validate_operator raw extract index =
    or_fail (condition_field index (codes "operator"))
      (find (λ o. operator_text o == raw) (operators_by_kind extract))

unfoldable pub validate_match : Text → Result Text MatchMode
unfolding find match_text trim_space
validate_match raw =
    if is_empty (trim_space raw)
    then ok match_all
    else or_fail (codes "match") (find (λ m. match_text m == raw) (match_all ∷ match_any ∷ []))

-- The loop of `validateMessage`.
unfoldable pub is_known : ℕ → Text → Bool
unfolding indexed plain_int
is_known conditions name = elim (indexed name) [
  | some digits ↦ elim (plain_int digits) [ none ↦ false | some position ↦ leb position conditions ]
  | none ↦ any (λ p. p == name) message_placeholders
]

unfoldable pub validate_message : Text → ℕ → Result Text Text
unfolding find_all is_known trim_space
validate_message raw conditions =
    let message = trim_space raw in
    if is_empty message
    then ok []
    else if all (is_known conditions) (find_all message)
    then ok message
    else err (codes "message")

unfoldable pub validate_notify_mode : Text → Result Text NotifyMode
unfolding find_notify_mode trim_space
validate_notify_mode raw =
    if is_empty (trim_space raw)
    then ok default_notify_mode
    else or_fail (codes "notify_mode") (find_notify_mode raw)

-- `TaskIDPattern`.
abbrev pub is_id_byte : ℕ → Bool
is_id_byte c =
    is_digit c
    || (leb 65 c && leb c 90)
    || (leb 97 c && leb c 122)
    || nat_eq c 46
    || nat_eq c 95
    || nat_eq c 45

unfoldable pub validate_task_id : Text → Result Text Text
unfolding require_string
validate_task_id raw = do
  id ← require_string raw (codes "id")
  if all is_id_byte id then ok id else err (codes "id")

unfoldable pub validate_name : Text → Result Text Text
unfolding require_string
validate_name raw = require_string raw (codes "name")

-- The cases on the number of conditions.
unfoldable pub validate_count : ℕ → Result Text ℕ
validate_count n = if nat_eq n 0 || ltb max_conditions n then err (codes "conditions") else ok n

module _ (p : Parsers) where
  unfoldable pub validate_url : Text → Result Text Text
  unfolding require_string
  validate_url raw = do
    value ← require_string raw (codes "url")
    u ← or_fail (codes "url") (p.parse_url value)
    if is_empty u.scheme
        then err (codes "url")
        else if not (u.scheme == codes "http") && not (u.scheme == codes "https")
        then err (codes "url")
        else if is_empty u.host
        then err (codes "url")
        else ok u.printed

  -- The attribute of a condition, and its value.
  unfoldable pub validate_attribute : DraftCondition → ExtractKind → ℕ → Result Text Text
  unfolding require_string condition_field
  validate_attribute c extract index =
      if is_attribute extract
      then require_string c.attribute_name (condition_field index (codes "attribute"))
      else ok []

  unfoldable pub validate_value :
      DraftCondition → ExtractKind → CompareOperator → ℕ → Result Text Text
  unfolding require_string condition_field
  validate_value c extract operator index = if is_valueless operator then ok [] else do
    value ← require_string c.value (condition_field index (codes "value"))
    if is_numeric_kind extract && not (p.is_float value)
        then err (condition_field index (codes "value"))
        else ok value

  unfoldable pub validate_condition : DraftCondition → ℕ → Result Text Condition
  unfolding require_string validate_extract validate_operator validate_attribute validate_value
      trim_space condition_field
  validate_condition c index = do
    selector ← require_string c.selector (condition_field index (codes "selector"))
    extract ← validate_extract c.extract index
    operator ← validate_operator c.operator extract index
    attribute_name ← validate_attribute c extract index
    value ← validate_value c extract operator index
    ok (record {
      selector = selector;
      wait_for_selector = trim_space c.wait_for_selector;
      extract = extract;
      attribute_name = attribute_name;
      operator = operator;
      value = value;
    })

  unfoldable pub validate_conditions : ℕ → List DraftCondition → Result Text (List Condition)
  unfolding validate_condition
  validate_conditions index [] = ok []
  validate_conditions index (c ∷ cs) = do
    condition ← validate_condition c index
    rest ← validate_conditions (suc index) cs
    ok (condition ∷ rest)

  -- `ValidateSpec`.
  unfoldable pub validate_spec : Option DraftSpec → Result Text TaskSpec
  unfolding validate_url validate_match validate_count validate_conditions validate_message
  validate_spec none = err (codes "spec")
  validate_spec (some s) = do
    url ← validate_url s.url
    mode ← validate_match s.match_mode
    _ ← validate_count (length s.conditions)
    conditions ← validate_conditions 0 s.conditions
    message ← validate_message s.message (length conditions)
    ok (record { url = url; match_mode = mode; conditions = conditions; message = message })

  unfoldable pub validate_cron : Text → Result Text Text
  unfolding require_string
  validate_cron raw = do
    expr ← require_string raw (codes "cron_expr")
    if p.is_cron expr then ok expr else err (codes "cron_expr")

  -- `ResolveCron`.
  unfoldable pub resolve_cron : Option Schedule → Option Text → Result Text Text
  unfolding to_cron validate_cron
  resolve_cron (some schedule) cron_expr = to_cron p.is_cron (some schedule)
  resolve_cron none (some cron_expr) = validate_cron cron_expr
  resolve_cron none none = err schedule_field
