-- ===== src/Types/Notify.antt =====
-- server/internal/types/definition.go and types.go: alert modes and delivery outcomes.
use breckr.Base.{Text, codes, Bool, false, Option, none, some, ◌==◌, if◌then◌else◌, Text_eq}

-- When a task alerts, given a condition that is met.
pub data NotifyMode : Type 0 where
  transition always : NotifyMode

unfoldable pub mode_text : NotifyMode → Text
mode_text transition = codes "transition"
mode_text always = codes "always"

abbrev pub default_notify_mode : NotifyMode
default_notify_mode = transition

-- `IsNotifyMode`, with the mode that the text names.
unfoldable pub find_notify_mode : Text → Option NotifyMode
unfolding mode_text
find_notify_mode s =
    if mode_text transition == s
    then some transition
    else if mode_text always == s
    then some always
    else none

-- Why a notification did or did not go out. The empty reason of the source is `none` of an Option.
pub data NotificationReason : Type 0 where
  sent disabled error : NotificationReason

pub record NotificationOutcome : Type 0 where
  pub delivered : Bool
  pub reason : Option NotificationReason
  pub detail : Text

-- The zero value: no alert was owed.
abbrev pub no_outcome : NotificationOutcome
no_outcome = record { delivered = false; reason = none; detail = codes "" }

pub data ChannelType : Type 0 where
  telegram discord slack webhook email : ChannelType

-- server/internal/notifier/transport.go: one alert, as a transport needs it.
pub record Message : Type 0 where
  pub subject : Text
  pub body : Text
