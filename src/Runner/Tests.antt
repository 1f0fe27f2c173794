-- ===== src/Runner/Tests.antt =====
-- One task, watched through two channels, and runs of it.
use breckr.Base.{
  codes, update, order_by, text_le, Bool, ℕ, true, false, none, some, List, [], ◌∷◌, ◌++◌, ok, err,
  ◌≡◌, refl, ltb, length, inl, find, text_beq, ◌⊎◌,
}
use breckr.Types.Notify.{NotificationOutcome, sent}
use breckr.Types.Task.{Task, TaskSpec, match_all}
use breckr.Store.Tasks.{
  mark_task_notified, set_task_condition_met, get_task, UpdateTaskInput, update_task,
}
use breckr.Store.Channels.{record_attempts, insert_attempts, accepts, list_channels_for_task}
use breckr.Runner.Edits.{alert-edited}
use breckr.Runner.Lemmas.{task_of}
use breckr.Types.Run.{cron}
use breckr.Store.Runs.{complete_run, start_run}
use breckr.Notifier.{
  dispatch_channel, attempt_inputs, dispatch_task, aggregate_of, fan_out, gather, finish,
  Transports, failure,
}
use breckr.Samples.{some_transports, price_row, two_channels}
use breckr.Runner.{
  Browser, Dispatcher, ResolvedTask, Answers, World, Runner, begun, persisted, advance, run_task,
  alert, settle, judge, finish_run, complete, announce, proceed, execute, evaluate,
}
use breckr.Runner.Wired.{sql_dispatcher}
use breckr.Runner.Trigger.{
  LeavesTask, TaskWritesWork, Triggered, db_at_read, alert_outcome, run_task-next_task,
}
use breckr.Runner.Failure.{run_task_failed}
use breckr.Runner.Announce.{notice, run_task_announces}
use breckr.Runner.History.{
  Visit, visit_all, visit, Observes, Observed, settles, rises, count_true, visit_all-rises,
  visit_all-retries,
}

abbrev some_browser : Browser ℕ ℕ
some_browser = record {
  with_page = λ timeout f. f timeout;
  without_page = λ timeout x. x;
  with_page_ok = λ timeout f r h. (timeout, h);
  without_page_ok = λ timeout x r h. h;
}

abbrev runner_with : Dispatcher → Runner ℕ ℕ
runner_with d = record {
  browser = some_browser;
  dispatcher = d;
  has_publisher = true;
  quote = λ s. s;
  safe_marshal = λ n. [];
}

abbrev some_runner : Runner ℕ ℕ
some_runner = runner_with (sql_dispatcher some_transports (1 ∷ 0 ∷ []) none)

-- A task that alerts above five, on a page that shows this number.
abbrev price_task : ℕ → ResolvedTask ℕ ℕ
price_task price = record {
  id = codes "price";
  name = codes "Price";
  timeout = 30;
  needs_browser = true;
  run = λ page. ok price;
  condition = some (λ db n. (ok (ltb 5 n), n));
  notify = none;
}

abbrev broken_task : ResolvedTask ℕ ℕ
broken_task = record (price_task 7) { run = λ page. err (codes "no such element") }

abbrev all_well : Answers
all_well = record {
  start = none;
  get = none;
  attempts = none;
  mark = none;
  arm = none;
  complete = none;
  started_at = codes "1";
  attempted_at = codes "2";
  notified_at = codes "2";
  finished_at = codes "3";
  while_running = λ db. db;
  while_sending = λ db. db;
}

abbrev some_world : World
some_world = record { db = two_channels; sent = []; published = [] }

abbrev untouched : LeavesTask all_well (codes "price")
untouched = record { running_keeps = λ db. refl; sending_keeps = λ db. refl }

abbrev writes_work : TaskWritesWork all_well
writes_work = record { get_works = refl; mark_works = refl; arm_works = refl }

run_task-next_task_example :
    Triggered some_runner all_well
      (price_task 7)
      true
      7
      (db_at_read some_runner all_well (price_task 7) cron two_channels)
      []
      price_row
      (run_task some_runner all_well (price_task 7) cron some_world).0
unfolding start_run execute evaluate find text_beq
run_task-next_task_example =
    run_task-next_task some_runner all_well (price_task 7) cron some_world price_row 1 7 7 true
      writes_work untouched refl refl refl refl

run_task_failed_example :
    ((run_task some_runner all_well broken_task cron some_world).0.sent ≡ [])
    × (((run_task some_runner all_well broken_task cron some_world).0.db.tasks ≡ price_row ∷ [])
        ⊎ ((run_task some_runner all_well broken_task cron some_world).0.db.tasks
            ≡ (db_at_read some_runner all_well broken_task cron two_channels).tasks))
unfolding run_task start_run text_beq proceed execute
run_task_failed_example = run_task_failed some_runner all_well broken_task cron some_world refl

run_task_announces_example :
    (run_task some_runner all_well broken_task cron some_world).0.published
    ≡ notice some_runner all_well broken_task ++ notice some_runner all_well broken_task
unfolding start_run text_beq
run_task_announces_example = run_task_announces some_runner all_well broken_task cron some_world

-- A dispatcher that always answers alike.
abbrev delivers : Dispatcher
delivers = record {
  dispatch_task = λ db task_id m. record {
    deliveries = [];
    aggregate = record { delivered = true; reason = some sent; detail = [] };
  };
  consistent = λ db task_id m. inl (refl, refl);
}

-- Every send fails.
abbrev down_transports : Transports
down_transports = record {
  quote = λ s. s;
  build_from_config = λ kind config. ok (λ m. failure (codes "down"));
}

abbrev down_runner : Runner ℕ ℕ
down_runner = runner_with (sql_dispatcher down_transports (1 ∷ 0 ∷ []) none)

abbrev visit_of : Runner ℕ ℕ → ResolvedTask ℕ ℕ → Visit ℕ ℕ
visit_of r t = record { runner = r; answers = all_well; task = t; source = cron }

-- A condition that reads the history: this is not the first run.
abbrev ran_before : ResolvedTask ℕ ℕ
ran_before = record (price_task 3) { condition = some (λ db n. (ok (ltb 1 (length db.runs)), n)) }

-- Above, met again by the history, below, above.
abbrev visits_of : Runner ℕ ℕ → List (Visit ℕ ℕ)
visits_of r =
    visit_of r (price_task 7)
    ∷ visit_of r ran_before
    ∷ visit_of r (price_task 3)
    ∷ visit_of r (price_task 8)
    ∷ []

observes :
    (r : Runner ℕ ℕ) (t : ResolvedTask ℕ ℕ) (value : ℕ) (met : Bool) (o : NotificationOutcome)
    (w : World)
    → t.id ≡ codes "price"
    → execute r t ≡ ok value
    → evaluate r t (db_at_read r all_well t cron w.db) value ≡ (ok met, value)
    → alert_outcome r all_well t value (db_at_read r all_well t cron w.db) ≡ o
    → Observes (codes "price") met o (visit_of r t) w
observes r t value met o w named reads judges answers = record {
  same_task = named;
  starts = refl;
  works = writes_work;
  keeps = record { running_keeps = λ db. refl; sending_keeps = λ db. refl };
  value = value;
  judged = value;
  reads = reads;
  judges = judges;
  would_be_answered = answers;
}

-- One channel took the alert, the other refused it.
abbrev half_sent : NotificationOutcome
half_sent = record { delivered = true; reason = some sent; detail = codes "Mail: refused" }

-- Two alerts.
visit_all-rises_example : length (visit_all (visits_of some_runner) some_world).sent ≡ 2
unfolding rises find text_beq settles Observed visit visit_all run_task execute evaluate start_run
    dispatch_task aggregate_of fan_out gather finish list_channels_for_task alert settle proceed
    judge finish_run complete announce order_by text_le dispatch_channel begun persisted advance
    mark_task_notified set_task_condition_met record_attempts insert_attempts accepts complete_run
    get_task attempt_inputs update
visit_all-rises_example =
    visit_all-rises (codes "price")
      ((true, half_sent) ∷ (true, half_sent) ∷ (false, half_sent) ∷ (true, half_sent) ∷ [])
      (visits_of some_runner) some_world price_row
      (
        observes some_runner (price_task 7) 7 true half_sent some_world refl refl refl refl,
        (
          observes some_runner ran_before 3 true half_sent _ refl refl refl refl,
          (
            observes some_runner (price_task 3) 3 false half_sent _ refl refl refl refl,
            (observes some_runner (price_task 8) 8 true half_sent _ refl refl refl refl, tt),
          ),
        ),
      )
      refl refl ((λ _. refl), ((λ _. refl), ((λ _. refl), ((λ _. refl), tt))))

abbrev all_down : NotificationOutcome
all_down = failure (codes "Hook: down" ++ 10 ∷ codes "Mail: down")

-- Met three times out of four while no alert gets through: three attempts.
visit_all-retries_example : length (visit_all (visits_of down_runner) some_world).sent ≡ 3
unfolding count_true find text_beq settles Observed visit visit_all run_task execute evaluate
    start_run dispatch_task aggregate_of fan_out gather finish list_channels_for_task alert settle
    proceed judge finish_run complete announce order_by text_le dispatch_channel begun persisted
    advance mark_task_notified set_task_condition_met record_attempts insert_attempts accepts
    complete_run get_task attempt_inputs update
visit_all-retries_example =
    visit_all-retries (codes "price")
      ((true, all_down) ∷ (true, all_down) ∷ (false, all_down) ∷ (true, all_down) ∷ [])
      (visits_of down_runner) some_world price_row
      (
        observes down_runner (price_task 7) 7 true all_down some_world refl refl refl refl,
        (
          observes down_runner ran_before 3 true all_down _ refl refl refl refl,
          (
            observes down_runner (price_task 3) 3 false all_down _ refl refl refl refl,
            (observes down_runner (price_task 8) 8 true all_down _ refl refl refl refl, tt),
          ),
        ),
      )
      refl refl refl ((λ _. refl), ((λ _. refl), ((λ _. refl), ((λ _. refl), tt))))

abbrev new_spec : TaskSpec
new_spec = record {
  url = codes "https://example.com/2";
  match_mode = match_all;
  conditions = [];
  message = [];
}

abbrev edit : UpdateTaskInput
edit = record {
  name = none;
  cron_expr = none;
  spec = some new_spec;
  notify_mode = none;
  channel_ids = none;
}

abbrev edited_meanwhile : Answers
edited_meanwhile = record all_well {
  while_sending = λ db. (update_task none none (codes "price") edit db).0;
}

alert-edited_example :
    (row : Task) × (task_of
        (codes "price")
        (alert (runner_with delivers) edited_meanwhile (price_task 7) 1 7 some_world).world.db
      ≡ some row)
    × (row.spec ≡ some new_spec)
    × (row.condition_met ≡ true)
unfolding find text_beq
alert-edited_example =
    alert-edited (runner_with delivers) edited_meanwhile (price_task 7) 1 7 some_world price_row
      edit new_spec (record { get_works = refl; mark_works = refl; arm_works = refl }) refl refl
      refl refl refl
