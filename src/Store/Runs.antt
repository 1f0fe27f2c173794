-- ===== src/Store/Runs.antt =====
-- server/internal/store/run_store.go, over the table of runs.
use breckr.Base.{
  Text, codes, ℕ, suc, Bool, true, false, Option, none, some, List, [], ◌∷◌, ◌++◌, Result, ok, err,
  ◌==◌, ◌&&◌, not, if◌then◌else◌, find, update, keep, length, any, leb, text_le, Text_eq, ℕ_eq,
}
use breckr.Types.Notify.{NotificationReason}
use breckr.Types.Run.{Run, RunStatus, running, success, failed, TriggerSource}
use breckr.Store.Database.{Database, Error, Driver, exec, empty_as_null}
use breckr.Store.Tasks.{has_id}

abbrev pub has_run_id : ℕ → Run → Bool
has_run_id id r = r.id == id

abbrev pub is_running : Run → Bool
is_running r = elim r.status [ running ↦ true | _ ↦ false ]

abbrev pub is_success : Run → Bool
is_success r = elim r.status [ success ↦ true | _ ↦ false ]

-- The row that `StartRun` inserts; the columns it leaves out have their defaults.
abbrev pub new_run : ℕ → Text → Text → TriggerSource → Run
new_run id task_id now source = record {
  id = id;
  task_id = task_id;
  started_at = now;
  finished_at = none;
  status = running;
  condition_met = false;
  notified = false;
  trigger_source = source;
  result_summary = none;
  error_text = none;
  notification_status = none;
  notification_detail = none;
  notification_message = none;
}

-- The driver's answer to a row whose task does not exist, under `foreign_keys(1)`.
abbrev pub no_such_task : Error
no_such_task = codes "FOREIGN KEY constraint failed"

-- `StartRun`.
unfoldable pub start_run :
    Driver → Text → Text → TriggerSource → Database → Database × Result Error ℕ
start_run (some e) now task_id source db = (db, err e)
start_run none now task_id source db =
    if any (has_id task_id) db.tasks
    then (
      record db {
        runs = db.runs ++ new_run db.next_run_id task_id now source ∷ [];
        next_run_id = suc db.next_run_id;
      },
      ok db.next_run_id,
    )
    else (db, err no_such_task)

pub record CompleteRunInput : Type 0 where
  pub id : ℕ
  pub status : RunStatus
  pub condition_met : Bool
  pub notified : Bool
  -- The result as `SafeMarshal` encodes it, if `HasResult`.
  pub result : Option Text
  pub error_text : Text
  pub notification_status : Option NotificationReason
  pub notification_detail : Text
  pub notification_message : Text

-- The assignments of the UPDATE.
unfoldable pub completed : Text → CompleteRunInput → Run → Run
completed now i r = record r {
  finished_at = some now;
  status = i.status;
  condition_met = i.condition_met;
  notified = i.notified;
  result_summary = i.result;
  error_text = empty_as_null i.error_text;
  notification_status = i.notification_status;
  notification_detail = empty_as_null i.notification_detail;
  notification_message = empty_as_null i.notification_message;
}

abbrev pub set_runs : (List Run → List Run) → Database → Database
set_runs f db = record db { runs = f db.runs }

-- `CompleteRun`.
unfoldable pub complete_run : Driver → Text → CompleteRunInput → Database → Database × Option Error
unfolding completed
complete_run d now i = exec d (set_runs (update (has_run_id i.id) (completed now i)))

-- `GetRun`: an absent run is no error.
unfoldable pub get_run : Driver → ℕ → Database → Result Error (Option Run)
get_run none id db = ok (find (has_run_id id) db.runs)
get_run (some e) id db = err e

abbrev pub interrupted : Text
interrupted = codes "Interrupted: the server stopped while this run was in flight."

abbrev pub interrupt : Text → Run → Run
interrupt now r = record r {
  status = failed;
  error_text = some interrupted;
  finished_at = some now;
}

-- `SweepInterruptedRuns`, with the number of rows affected.
unfoldable pub sweep_interrupted_runs : Driver → Text → Database → Database × Result Error ℕ
sweep_interrupted_runs (some e) now db = (db, err e)
sweep_interrupted_runs none now db =
    (set_runs (update is_running (interrupt now)) db, ok (length (keep is_running db.runs)))

-- `PruneOldRuns`, from the cutoff on: the attempts of a pruned run go with it.
unfoldable pub prune_runs : Driver → Text → Database → Database × Result Error ℕ
prune_runs (some e) cutoff db = (db, err e)
prune_runs none cutoff db =
    let old = λ (r : Run). not (text_le cutoff r.started_at) in
    let gone = λ (run : ℕ). any (λ r. r.id == run && old r) db.runs in
    (
      record db {
        runs = keep (λ r. not (old r)) db.runs;
        attempts = keep (λ a. not (gone a.run_id)) db.attempts;
      },
      ok (length (keep old db.runs)),
    )

-- The last row of a list that passes a test: `ORDER BY id DESC LIMIT 1`, as ids grow.
unfoldable pub find_last {ℓ} : {A : Type ℓ} → (A → Bool) → List A → Option A
find_last p [] = none
find_last p (x ∷ xs) = elim (find_last p xs) [
  | none ↦ if p x then some x else none
  | some y ↦ some y
]

has_summary : Run → Bool
has_summary r = elim r.result_summary [ none ↦ false | some _ ↦ true ]

-- `GetLastSuccessfulResult`, before the text is decoded. A driver's error reads as no result.
unfoldable pub last_successful_summary : Driver → Text → Database → Option Text
unfolding find_last has_summary
last_successful_summary (some e) task_id db = none
last_successful_summary none task_id db =
    elim (find_last (λ r. r.task_id == task_id && (is_success r && has_summary r)) db.runs) [
      | none ↦ none
      | some r ↦ r.result_summary
    ]

-- The run of a task with the largest id.
unfoldable pub latest_run : Text → List Run → Option Run
latest_run task_id [] = none
latest_run task_id (r ∷ rs) =
    let rest = latest_run task_id rs in
    if r.task_id == task_id
    then elim rest [ none ↦ some r | some q ↦ if leb r.id q.id then some q else some r ]
    else rest

-- `GetLatestRunByTask`: the map, as a function of the task.
unfoldable pub get_latest_run_by_task : Driver → Database → Result Error (Text → Option Run)
unfolding latest_run
get_latest_run_by_task (some e) db = err e
get_latest_run_by_task none db = ok (λ task_id. latest_run task_id db.runs)
