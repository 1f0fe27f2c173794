-- ===== src/Scheduler.antt =====
-- server/internal/scheduler/registry.go: the live registry of tasks over the cron library, which is a
-- parameter. Each method is one step: that ScheduleAll lets go of the mutex between its tasks, and
-- SetEnabled before it writes the row, is left out.
pub mod Cron
pub mod Invariant
pub mod Ops
pub mod Keeps
pub mod History
pub mod Switch
mod Tests
use breckr.Base.{
  Text, ℕ, Bool, true, false, not, ◌&&◌, Option, none, some, List, [], ◌∷◌, Result, ok, err, ◌≡◌,
  ◌≢◌, if◌then◌else◌, nat_eq, lookup, put, delete, Text_eq, map,
}
use breckr.Types.Task.{Task, TaskSpec}
use breckr.Store.Database.{Database, Error, Driver}
use breckr.Store.Tasks.{set_task_enabled, list_tasks}
use Cron.{CronLib, Compiled, Job, task_job, other_job}

-- executor.CompilableTask.
pub record CompilableTask : Type 0 where
  pub id : Text
  pub name : Text
  pub cron_expr : Text
  pub spec : TaskSpec

-- `Compile` of executor.go: the closures of the resolved task read only these.
unfoldable pub compile : ℕ → CompilableTask → Compiled
compile timeout t = record {
  id = t.id;
  name = t.name;
  cron = t.cron_expr;
  timeout = timeout;
  spec = t.spec;
}

-- `entryID` is 0 while the task is disabled.
pub record Entry : Type 0 where
  pub definition : Compiled
  pub entry_id : ℕ

pub record Registry (C : Type 0) : Type 0 where
  pub cron : C
  pub entries : List (Text × Entry)
  -- `ScheduleAll` has installed the handler.
  pub has_handler : Bool

-- `New`, over a fresh cron.
unfoldable pub new_registry : {C : Type 0} → CronLib C → Registry C
new_registry lib = record { cron = lib.new; entries = []; has_handler = false }

-- The end of `Register` and the arming case of `SetEnabled`: the entry as `AddFunc` leaves it.
unfoldable pub armed :
    {C : Type 0} → Text → Compiled → Registry C → C × Result Error ℕ → Registry C × Bool
armed id d r (c, err e) = (record r { cron = c }, false)
armed id d r (c, ok n) = (
  record r { cron = c; entries = put id (record { definition = d; entry_id = n }) r.entries },
  true,
)

module _ {C : Type 0} (lib : CronLib C) (timeout : ℕ) where
  unfoldable pub remove_entry : Text → Option Entry → Registry C → Registry C
  remove_entry id none r = r
  remove_entry id (some e) r = record r {
    cron = if nat_eq e.entry_id 0 then r.cron else lib.remove e.entry_id r.cron;
    entries = delete id r.entries;
  }

  unfoldable pub remove_locked : Text → Registry C → Registry C
  unfolding remove_entry
  remove_locked id r = remove_entry id (lookup id r.entries) r

  unfoldable pub arm : Text → Compiled → Registry C → Registry C × Bool
  unfolding armed
  arm id d r = armed id d r (lib.add_func d.cron (task_job d) r.cron)

  unfoldable pub register_spec : Task → Option TaskSpec → Registry C → Registry C × Bool
  unfolding arm remove_locked compile
  register_spec t none r = (r, false)
  register_spec t (some spec) r =
      let d =
        compile timeout
          (record { id = t.id; name = t.name; cron_expr = t.cron_expr; spec = spec }) in
      let cleared = remove_locked t.id r in
      if not r.has_handler then (r, false) else if t.enabled then arm t.id d cleared else (
        record cleared {
          entries = put t.id (record { definition = d; entry_id = 0 }) cleared.entries;
        },
        true,
      )

  -- `Cron`, as app.go uses it: another job is added beside the tasks.
  unfoldable pub share : Text → Text → Registry C → Registry C
  share expr name r = record r { cron = (lib.add_func expr (other_job name) r.cron).0 }

  -- `Register`, and `Reschedule`, which is the same.
  unfoldable pub register : Task → Registry C → Registry C × Bool
  unfolding register_spec
  register t r = register_spec t t.spec r

  unfoldable pub unregister : Text → Registry C → Registry C
  unfolding remove_locked
  unregister id r = remove_locked id r

  unfoldable pub register_all : List Task → Registry C → Registry C
  unfolding register
  register_all [] r = r
  register_all (t ∷ ts) r = register_all ts (register t r).0

  -- `ScheduleAll`: a bad row is skipped, and a failed read is an error.
  unfoldable pub schedule_all : Driver → Database → Registry C → Registry C × Option Error
  unfolding register_all
  schedule_all d db r = elim (list_tasks d db) [
    | ok ts ↦ (register_all ts (record r { has_handler = true }), none)
    | err e ↦ (record r { has_handler = true }, some e)
  ]

  unfoldable pub enable_entry : Text → Bool → Option Entry → Registry C → Registry C × Bool
  unfolding arm
  enable_entry id on none r = (r, false)
  enable_entry id true (some e) r = if nat_eq e.entry_id 0 then arm id e.definition r else (r, true)
  enable_entry id false (some e) r = if nat_eq e.entry_id 0 then (r, true) else (
    record r {
      cron = lib.remove e.entry_id r.cron;
      entries = put id (record e { entry_id = 0 }) r.entries;
    },
    true,
  )

  -- `SetEnabled`: the registry first, then the row, unless the registry refused.
  unfoldable pub set_enabled :
      Driver → Text → Bool → Registry C → Database → Registry C × Bool × Database
  unfolding enable_entry
  set_enabled d id on r db =
      let (r', known) = enable_entry id on (lookup id r.entries) r in
      (r', known, if known then (set_task_enabled d id on db).0 else db)

  unfoldable pub get_definition : Text → Registry C → Option Compiled
  get_definition id r = elim (lookup id r.entries) [ none ↦ none | some e ↦ some e.definition ]

  unfoldable pub list_ids : Registry C → List Text
  list_ids r = map (λ (x : Text × Entry). x.0) r.entries

-- The calls that change the registry.
pub data Call : Type 0 where
  registers : Task → Call
  unregisters : Text → Call
  enables : Driver → Text → Bool → Call
  schedules_all : Driver → Call
  shares : Text → Text → Call

module _ {C : Type 0} (lib : CronLib C) (timeout : ℕ) where
  unfoldable pub step : Call → Registry C × Database → Registry C × Database
  unfolding register unregister set_enabled schedule_all share
  step (registers t) (r, db) = ((register lib timeout t r).0, db)
  step (unregisters id) (r, db) = (unregister lib timeout id r, db)
  step (enables d id on) (r, db) =
      let (r', known, db') = set_enabled lib timeout d id on r db in (r', db')
  step (schedules_all d) (r, db) = ((schedule_all lib timeout d db r).0, db)
  step (shares expr name) (r, db) = (share lib timeout expr name r, db)

  unfoldable pub run : List Call → Registry C × Database → Registry C × Database
  unfolding step
  run [] s = s
  run (c ∷ cs) s = run cs (step c s)
