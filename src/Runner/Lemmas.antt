-- ===== src/Runner/Lemmas.antt =====
-- How the statements of a run change the row of its task.
use mathlib.Core.Option
use breckr.Base.{
  Text, Bool, true, Option, none, some, List, ◌≡◌, refl, arith, find, find-update_self, Text_eq, [],
  ◌∷◌, ℕ, Result, ok, err, Bool-cases, inl, inr,
}
use breckr.Types.Task.{Task}
use breckr.Types.Run.{TriggerSource}
use breckr.Store.Database.{Database, Error, Driver, transact}
use breckr.Store.Tasks.{has_id, set_task_condition_met, mark_task_notified}
use breckr.Store.Runs.{start_run, complete_run, CompleteRunInput}
use breckr.Store.Channels.{AttemptInput, record_attempts, insert_attempts, accepts, attempt_row}

-- The task's row.
abbrev pub task_of : Text → Database → Option Task
task_of id db = find (has_id id) db.tasks

abbrev pub armed_as : Bool → Task → Task
armed_as met t = record t { condition_met = met }

abbrev pub notified_at : Text → Task → Task
notified_at now t = record t { condition_met = true; last_notified_at = some now }

pub task_of-set_task_condition_met :
    (id : Text) (met : Bool) (db : Database)
    → task_of id (set_task_condition_met none id met db).0
      ≡ Option.map (armed_as met) (task_of id db)
unfolding set_task_condition_met
task_of-set_task_condition_met id met db = find-update_self (has_id id) _ (λ t. refl) db.tasks

pub task_of-mark_task_notified :
    (id now : Text) (db : Database)
    → task_of id (mark_task_notified none now id db).0
      ≡ Option.map (notified_at now) (task_of id db)
unfolding mark_task_notified
task_of-mark_task_notified id now db = find-update_self (has_id id) _ (λ t. refl) db.tasks

tasks-insert_attempts :
    (now : Text) (run_id : ℕ) (is : List AttemptInput) (db db' : Database)
    → insert_attempts now run_id is db ≡ ok db'
    → db'.tasks ≡ db.tasks
unfolding insert_attempts
tasks-insert_attempts now run_id [] db db' h = cc
tasks-insert_attempts now run_id (i ∷ is) db db' h =
    elim (Bool-cases (accepts db (attempt_row now run_id i))) [
      | inl e ↦ tasks-insert_attempts now run_id is _ db' (rw e at h)
      | inr e ↦ absurd (ground (arith, e))
    ]

pub tasks-record_attempts :
    (d : Driver) (now : Text) (run_id : ℕ) (is : List AttemptInput) (db : Database)
    → (record_attempts d now run_id is db).0.tasks ≡ db.tasks
unfolding record_attempts
tasks-record_attempts d now run_id [] db = refl
tasks-record_attempts (some e) now run_id (i ∷ is) db = refl
tasks-record_attempts none now run_id (i ∷ is) db =
    go (insert_attempts now run_id (i ∷ is) db) (tasks-insert_attempts now run_id (i ∷ is) db)
  where
    go :
        (r : Result Error Database)
        → ((db' : Database) → r ≡ ok db' → db'.tasks ≡ db.tasks)
        → (transact none r db).0.tasks ≡ db.tasks
    go (ok db') h = h db' refl
    go (err e) h = refl

pub tasks-complete_run :
    (d : Driver) (now : Text) (i : CompleteRunInput) (db : Database)
    → (complete_run d now i db).0.tasks ≡ db.tasks
unfolding complete_run
tasks-complete_run none now i db = refl
tasks-complete_run (some e) now i db = refl

pub tasks-start_run :
    (d : Driver) (now id : Text) (s : TriggerSource) (db : Database)
    → (start_run d now id s db).0.tasks ≡ db.tasks
unfolding start_run
tasks-start_run (some e) now id s db = refl
tasks-start_run none now id s db = ground arith
