-- ===== src/Types/Run.antt =====
-- server/internal/types/types.go: runs, their outcomes and the attempts behind an alert.
use breckr.Base.{Text, ℕ, Bool, Option}
use breckr.Types.Notify.{NotificationReason, ChannelType}

pub data RunStatus : Type 0 where
  running success failed : RunStatus

pub data TriggerSource : Type 0 where
  cron manual : TriggerSource

-- One execution of a task. `none` is SQL's NULL.
pub record Run : Type 0 where
  pub id : ℕ
  pub task_id : Text
  pub started_at : Text
  pub finished_at : Option Text
  pub status : RunStatus
  pub condition_met : Bool
  pub notified : Bool
  pub trigger_source : TriggerSource
  pub result_summary : Option Text
  pub error_text : Option Text
  pub notification_status : Option NotificationReason
  pub notification_detail : Option Text
  pub notification_message : Option Text

-- What `RunTask` returns.
pub record RunOutcome : Type 0 where
  pub run_id : ℕ
  pub status : RunStatus
  pub condition_met : Bool
  pub notified : Bool
  pub error_text : Text

-- One channel's outcome for one run, as stored.
pub record NotificationAttempt : Type 0 where
  pub run_id : ℕ
  pub channel_id : Option Text
  pub channel_name : Text
  pub channel_type : ChannelType
  pub status : Option NotificationReason
  pub detail : Option Text
  pub message : Option Text
  pub attempted_at : Text
