-- ===== src/Scheduler/Tests.antt =====
-- Calls of the registry over a small cron library.
use breckr.Base.{
  codes, ℕ, true, false, none, some, List, [], ◌∷◌, ◌≡◌, refl, lookup, put, order_by, text_beq,
  ℕ_eq,
}
use breckr.Types.Task.{Task, TaskSpec, match_all}
use breckr.Store.Tasks.{list_tasks}
use breckr.Samples.{price_row, two_channels}
use breckr.Samples.Jobs.{job_at, jobs_lib}
use breckr.Scheduler.Cron.{Compiled, task_job}
use breckr.Scheduler.{
  Call, registers, schedules_all, run, new_registry, set_enabled, get_definition, unregister,
}
use breckr.Scheduler.Invariant.{IsSilent}
use breckr.Scheduler.History.{run-schedules}
use breckr.Scheduler.Switch.{run-set_enabled, run-unregister}

abbrev some_spec : TaskSpec
some_spec = record {
  url = codes "https://example.com";
  match_mode = match_all;
  conditions = [];
  message = [];
}

abbrev hourly : Task
hourly = record price_row { spec = some some_spec }

abbrev daily : Task
daily = record hourly { cron_expr = codes "0 9 * * *" }

-- The task is registered, and then again after an edit.
abbrev calls : List Call
calls = schedules_all none ∷ registers hourly ∷ registers daily ∷ []

abbrev daily_job : Compiled
daily_job = record {
  id = codes "price";
  name = codes "Price";
  cron = codes "0 9 * * *";
  timeout = 30;
  spec = some_spec;
}

-- The second registration took the id 2.
run-schedules_example :
    let r = (run jobs_lib 30 calls (new_registry jobs_lib, two_channels)).0 in
    (get_definition jobs_lib 30 (codes "price") r ≡ some daily_job)
    × (job_at r.cron 1 ≡ some (task_job daily_job)
        → codes "price" ≡ codes "price"
        → (daily_job ≡ daily_job) × (◌≡◌ {A = ℕ} 1 2))
unfolding run list_tasks order_by lookup new_registry put text_beq
run-schedules_example = run-schedules jobs_lib 30 calls two_channels 2 1 daily_job daily_job refl

run-set_enabled_example :
    let (r, db1) = run jobs_lib 30 calls (new_registry jobs_lib, two_channels) in
    let (r', known, db2) = set_enabled jobs_lib 30 none (codes "price") false r db1 in
    (known ≡ true → IsSilent jobs_lib (codes "price") r'.cron)
    × (known ≡ false → (r'.entries ≡ r.entries) × (db2 ≡ db1))
run-set_enabled_example = run-set_enabled jobs_lib 30 calls two_channels none (codes "price") false

run-unregister_example :
    let r' =
      unregister jobs_lib 30
        (codes "price")
        (run jobs_lib 30 calls (new_registry jobs_lib, two_channels)).0 in
    IsSilent jobs_lib (codes "price") r'.cron
    × (get_definition jobs_lib 30 (codes "price") r' ≡ none)
run-unregister_example = run-unregister jobs_lib 30 calls two_channels (codes "price")
