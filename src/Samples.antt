-- ===== src/Samples.antt =====
-- Data that the tests share: one task, linked to two channels.
pub mod Jobs
use breckr.Base.{codes, true, false, none, some, [], ◌∷◌, ok}
use breckr.Types.Notify.{transition, sent, webhook, email}
use breckr.Types.Task.{Task}
use breckr.Store.Database.{Database, StoredChannel}
use breckr.Notifier.{Transports, failure}

-- The webhook takes the alert, the mail server refuses it.
abbrev pub some_transports : Transports
some_transports = record {
  quote = λ s. s;
  build_from_config = λ kind config. elim kind [
    | webhook ↦ ok (λ m. record { delivered = true; reason = some sent; detail = codes "200" })
    | _ ↦ ok (λ m. failure (codes "refused"))
  ];
}

abbrev pub price_row : Task
price_row = record {
  id = codes "price";
  name = codes "Price";
  cron_expr = codes "* * * * *";
  enabled = true;
  spec = none;
  condition_met = false;
  notify_mode = transition;
  last_notified_at = none;
}

abbrev pub hook : StoredChannel
hook = record {
  id = codes "h";
  name = codes "Hook";
  type = webhook;
  enabled = true;
  broken = false;
  config = some (codes "x");
}

abbrev pub mail : StoredChannel
mail = record hook { id = codes "m"; name = codes "Mail"; type = email }

abbrev pub two_channels : Database
two_channels = record {
  tasks = price_row ∷ [];
  runs = [];
  next_run_id = 1;
  channels = hook ∷ mail ∷ [];
  links =
      record { task_id = codes "price"; channel_id = codes "h" }
      ∷ record { task_id = codes "price"; channel_id = codes "m" }
      ∷ [];
  attempts = [];
}
