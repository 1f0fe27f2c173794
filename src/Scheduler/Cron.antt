-- ===== src/Scheduler/Cron.antt =====
-- What the registry relies on of github.com/robfig/cron: which job an entry id would fire. Ids start
-- at 1 and are not in use when they are given out; a refused expression changes nothing.
use breckr.Base.{
  Text, ℕ, Option, none, some, Result, ok, err, ◌≡◌, ◌≢◌, if◌then◌else◌, nat_eq, ℕ_eq,
}
use breckr.Types.Task.{TaskSpec}
use breckr.Store.Database.{Error}

-- types.ResolvedTask, as the data that its closures were built from.
pub record Compiled : Type 0 where
  pub id : Text
  pub name : Text
  pub cron : Text
  pub timeout : ℕ
  pub spec : TaskSpec

-- What a schedule fires: a task's definition, or something else that shares the scheduler, such as
-- the retention sweep.
pub data Job : Type 0 where
  task_job : Compiled → Job
  other_job : Text → Job

pub record CronLib (C : Type 0) : Type 0 where
  pub new : C
  pub add_func : Text → Job → C → C × Result Error ℕ
  pub remove : ℕ → C → C
  pub job : C → ℕ → Option Job
  pub job-new : (j : ℕ) → job new j ≡ none
  pub add_func_ok :
      (expr : Text) (f : Job) (c : C) (n : ℕ)
      → (add_func expr f c).1 ≡ ok n
      → (n ≢ 0)
        × (job c n ≡ none)
        × ((j : ℕ) → job (add_func expr f c).0 j ≡ (if nat_eq n j then some f else job c j))
  pub add_func_err :
      (expr : Text) (f : Job) (c : C) (x : Error)
      → (add_func expr f c).1 ≡ err x
      → (j : ℕ) → job (add_func expr f c).0 j ≡ job c j
  pub job-remove :
      (n : ℕ) (c : C) (j : ℕ) → job (remove n c) j ≡ (if nat_eq n j then none else job c j)
