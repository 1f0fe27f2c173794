-- ===== src/Runner/Wired.antt =====
-- The notifier's fan-out as the runner's dispatcher, as server/internal/app/app.go wires it.
use breckr.Base.{ℕ, List}
use breckr.Store.Database.{Driver}
use breckr.Notifier.{Transports, dispatch_task}
use breckr.Notifier.Dispatch.{dispatch_task_reason}
use breckr.Runner.{Dispatcher}

-- `order` is the order in which the sends finish, `d` the driver's answer to the read of the channels.
abbrev pub sql_dispatcher : Transports → List ℕ → Driver → Dispatcher
sql_dispatcher t order d = record {
  dispatch_task = λ db task_id m. dispatch_task t order d db task_id m;
  consistent = λ db task_id m. (dispatch_task_reason t order m d db task_id).0;
}
