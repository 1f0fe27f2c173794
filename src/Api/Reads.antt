-- ===== src/Api/Reads.antt =====
-- server/internal/api/task_handler.go: the handlers that change nothing, but for the run that one starts.
use breckr.Base.{Text, ℕ, Option, none, some, List, map, Result, ok, err, ◌>>=◌}
use breckr.Types.Task.{Task}
use breckr.Spec.{Parsers}
use breckr.Store.Database.{Driver}
use breckr.Store.Tasks.{list_tasks}
use breckr.Store.Runs.{get_latest_run_by_task}
use breckr.Store.Channels.{list_channel_ids_by_task}
use breckr.Scheduler.Cron.{CronLib, Compiled}
use breckr.Scheduler.{get_definition}
use breckr.Api.Requests.{TaskView, Response, internal_error, listed, not_found, accepted}
use breckr.Api.Tasks.{ServerState, decorate}

module _ {C : Type 0} (lib : CronLib C) (timeout : ℕ) (p : Parsers) where
  unfoldable pub views : Driver → Driver → Driver → ServerState C → Result Text (List TaskView)
  unfolding get_latest_run_by_task list_tasks list_channel_ids_by_task decorate
  views d1 d2 d3 w = do
    latest_runs ← get_latest_run_by_task d1 w.db
    stored ← list_tasks d2 w.db
    channel_ids ← list_channel_ids_by_task d3 w.db
    ok (
        map
          (λ (t : Task). decorate lib timeout p t (latest_runs t.id) (channel_ids t.id) w.registry)
          stored)

  -- `HandleGetAllTasks`.
  unfoldable pub handle_get_all_tasks : Driver → Driver → Driver → ServerState C → Response
  unfolding views
  handle_get_all_tasks d1 d2 d3 w = elim (views d1 d2 d3 w) [
    | err e ↦ internal_error
    | ok tasks ↦ listed tasks
  ]

  -- `HandleRunTaskNow`: the definition whose run is started.
  unfoldable pub handle_run_task_now : Text → ServerState C → Option Compiled × Response
  unfolding get_definition
  handle_run_task_now id w = elim (get_definition lib timeout id w.registry) [
    | none ↦ (none, not_found)
    | some d ↦ (some d, accepted)
  ]
