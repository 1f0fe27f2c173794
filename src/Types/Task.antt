-- ===== src/Types/Task.antt =====
-- server/internal/types/types.go: conditions, specs and tasks as stored.
use breckr.Base.{Text, Bool, Option, List}
use breckr.Types.Notify.{NotifyMode}

pub data ExtractKind : Type 0 where
  text number attribute count exists : ExtractKind

pub data CompareOperator : Type 0 where
  lt lte gt gte eq neq contains not_contains is_true is_false changed : CompareOperator

pub data MatchMode : Type 0 where
  match_all match_any : MatchMode

-- One thing to watch on the page.
pub record Condition : Type 0 where
  pub selector : Text
  pub wait_for_selector : Text
  pub extract : ExtractKind
  pub attribute_name : Text
  pub operator : CompareOperator
  pub value : Text

pub record TaskSpec : Type 0 where
  pub url : Text
  pub match_mode : MatchMode
  pub conditions : List Condition
  pub message : Text

-- A task as stored. No spec is a legacy row, or one whose JSON no longer parses.
pub record Task : Type 0 where
  pub id : Text
  pub name : Text
  pub cron_expr : Text
  pub enabled : Bool
  pub spec : Option TaskSpec
  pub condition_met : Bool
  pub notify_mode : NotifyMode
  pub last_notified_at : Option Text
