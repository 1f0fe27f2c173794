-- ===== src/Runner/Trigger.antt =====
-- The edge trigger: what one run does to the persisted state of its task, and when it alerts.
use mathlib.Core.Option
use breckr.Base.{
  Text, codes, sym, Option, Bool, true, false, none, some, List, [], ◌∷◌, ◌++◌, Result, ok, err,
  ◌≡◌, refl, ◌∙◌, find, ap, arith, if◌then◌else◌, ℕ, Bool-cases, inl, inr,
}
use breckr.Types.Notify.{
  NotifyMode, transition, always, NotificationReason, sent, disabled, error, NotificationOutcome,
  Message,
}
use breckr.Notifier.Aggregate.{Consistent}
use breckr.Types.Task.{Task}
use breckr.Types.Run.{TriggerSource}
use breckr.Store.Database.{Database, Error}
use breckr.Store.Tasks.{has_id, get_task, set_task_condition_met}
use breckr.Store.Runs.{start_run, complete_run, CompleteRunInput}
use breckr.Runner.Lemmas.{
  task_of, armed_as, notified_at, task_of-set_task_condition_met, task_of-mark_task_notified,
  tasks-record_attempts, tasks-complete_run, tasks-start_run,
}
use breckr.Runner.{
  Runner, Answers, ResolvedTask, World, is_due, is_disabled, advance, announce, complete, execute,
  notify_message, alert, settle, persisted, finish_run, judge, proceed, evaluate, begun, run_task,
  set_db,
}

-- The specification: in which mode a condition that is met or not, and was or was not, alerts.
unfoldable pub fires : Bool → NotifyMode → Bool → Bool
fires false mode was = false
fires true always was = true
fires true transition true = false
fires true transition false = true

-- The row after an alert: only one that was sent stamps the row, and one that nobody takes counts as
-- done.
unfoldable pub answered : Text → Option NotificationReason → Task → Task
answered now (some sent) t = notified_at now t
answered now (some disabled) t = armed_as true t
answered now (some error) t = t
answered now none t = t

-- The row after a run whose condition was `met`, if the alert step, had one been due, ended with this
-- outcome: a condition that is not met disarms it.
abbrev pub next_task : Text → Bool → NotificationOutcome → Task → Task
next_task now met o t =
    if fires met t.notify_mode t.condition_met
    then answered now o.reason t
    else if met
    then t
    else armed_as false t

is_due-fires :
    (met : Bool) (mode : NotifyMode) (was : Bool) → is_due met mode was ≡ fires met mode was
unfolding fires
is_due-fires false mode was = refl
is_due-fires true always was = refl
is_due-fires true transition true = refl
is_due-fires true transition false = refl

-- What the code writes after an alert.
abbrev advanced : Text → NotificationOutcome → Task → Task
advanced now o t =
    if o.delivered then notified_at now t else if is_disabled o.reason then armed_as true t else t

advanced-answered :
    (now : Text) (o : NotificationOutcome) (t : Task)
    → Consistent o
    → advanced now o t ≡ answered now o.reason t
unfolding answered
advanced-answered now o t (inl (d, s)) = rw (d, s) refl
advanced-answered now o t (inr (d, inl e)) = rw (d, e) refl
advanced-answered now o t (inr (d, inr e)) = rw (d, e) refl

-- Disarming a row that is disarmed.
disarmed : (t : Task) → t.condition_met ≡ false → armed_as false t ≡ t
disarmed t h = ap (λ b. armed_as b t) (sym h)

-- Nothing else writes the task's row while the run waits.
pub record LeavesTask (a : Answers) (id : Text) : Type 0 where
  pub running_keeps : (db : Database) → task_of id (a.while_running db) ≡ task_of id db
  pub sending_keeps : (db : Database) → task_of id (a.while_sending db) ≡ task_of id db

-- The statements on the task's row succeed. Those on runs and attempts may fail.
pub record TaskWritesWork (a : Answers) : Type 0 where
  pub get_works : a.get ≡ none
  pub mark_works : a.mark ≡ none
  pub arm_works : a.arm ≡ none

pub advance-task_of :
    (a : Answers) (id : Text) (o : NotificationOutcome) (db : Database) (t : Task)
    → TaskWritesWork a
    → task_of id db ≡ some t
    → task_of id (advance a id o db)
      ≡ some (
          if o.delivered
          then notified_at a.notified_at t
          else if is_disabled o.reason
          then armed_as true t
          else t)
unfolding advance
advance-task_of a id o db t h e =
    let sent =
      task_of-mark_task_notified id a.notified_at db
      ∙ ap (Option.map (notified_at a.notified_at)) e in
    let armed = task_of-set_task_condition_met id true db ∙ ap (Option.map (armed_as true)) e in
    ground (arith, h.mark_works, h.arm_works, sent, armed, e)

module _ {P R : Type 0} (r : Runner P R) (a : Answers) (t : ResolvedTask P R) where
  pub db-announce : (w : World) → (announce r w).db ≡ w.db
  unfolding announce
  db-announce w = ground arith

  pub sent-announce : (w : World) → (announce r w).sent ≡ w.sent
  unfolding announce
  sent-announce w = ground arith

  -- The message of this run's alert.
  abbrev pub alert_message : R → Message
  alert_message v = record { subject = codes "breckr: " ++ t.name; body = notify_message r t v }

  -- How the dispatcher answers it.
  abbrev pub alert_outcome : R → Database → NotificationOutcome
  alert_outcome v db = (r.dispatcher.dispatch_task db t.id (alert_message v)).aggregate

  module _ (works : TaskWritesWork a) (keeps : LeavesTask a t.id) (run_id : ℕ) (v : R) (w : World)
      (row : Task) (stored : task_of t.id w.db ≡ some row) where
    alert-task_of :
        task_of t.id (alert r a t run_id v w).world.db
        ≡ some (answered a.notified_at (alert_outcome v w.db).reason row)
    unfolding alert
    alert-task_of =
        advance-task_of a t.id _ _ row works (
          ap (find (has_id t.id)) (tasks-record_attempts a.attempts a.attempted_at run_id _ _)
          ∙ keeps.sending_keeps w.db
          ∙ stored)
        ∙ ap some (
            advanced-answered a.notified_at (alert_outcome v w.db) row
              (r.dispatcher.consistent w.db t.id (alert_message v)))

    -- The switch writes the row as the specification says, and alerts exactly when it is due.
    settle-next_task :
        (met : Bool)
        → (task_of t.id (settle r a t run_id v met (row.condition_met, row.notify_mode) w).world.db
            ≡ some (next_task a.notified_at met (alert_outcome v w.db) row))
          × ((settle r a t run_id v met (row.condition_met, row.notify_mode) w).world.sent ≡ (
              if fires met row.notify_mode row.condition_met
              then w.sent ++ (t.id, alert_message v) ∷ []
              else w.sent))
    unfolding settle
    settle-next_task met = elim (Bool-cases (is_due met row.notify_mode row.condition_met)) [
      | inl due ↦ rw (due, same ∙ due) (alert-task_of, unfold alert in refl)
      | inr idle ↦
          rw (idle, same ∙ idle)
            (elim (Bool-cases met) [
              | inl e ↦ rw e (stored, refl)
              | inr e ↦ elim (Bool-cases row.condition_met) [
                | inl f ↦ rw (e, f) (rw works.arm_works rearmed, refl)
                | inr f ↦ rw (e, f) (stored ∙ ap some (sym (disarmed row f)), refl)
              ]
            ])
    ]
      where
        same :
            fires met row.notify_mode row.condition_met
            ≡ is_due met row.notify_mode row.condition_met
        same = sym (is_due-fires met row.notify_mode row.condition_met)

        rearmed :
            task_of t.id (set_task_condition_met none t.id false w.db).0 ≡ some (armed_as false row)
        rearmed =
            task_of-set_task_condition_met t.id false w.db ∙ ap (Option.map (armed_as false)) stored

  pub db-complete-tasks :
      (i : CompleteRunInput) (w : World) → (complete r a i w).db.tasks ≡ w.db.tasks
  unfolding complete
  db-complete-tasks i w =
      ap (λ (d : Database). d.tasks)
        (db-announce (set_db w (complete_run a.complete a.finished_at i w.db).0))
      ∙ tasks-complete_run a.complete a.finished_at i w.db

  pub sent-complete : (i : CompleteRunInput) (w : World) → (complete r a i w).sent ≡ w.sent
  unfolding complete
  sent-complete i w = sent-announce _

  -- What a run that judged its condition on this database does to its task, and to the alerts sent.
  abbrev pub Triggered : Bool → R → Database → List (Text × Message) → Task → World → Type 0
  Triggered met v db before row w' =
      (task_of t.id w'.db ≡ some (next_task a.notified_at met (alert_outcome v db) row))
      × (w'.sent ≡ (
          if fires met row.notify_mode row.condition_met
          then before ++ (t.id, alert_message v) ∷ []
          else before))

  finish_run-Triggered :
      (works : TaskWritesWork a) (keeps : LeavesTask a t.id) (run_id : ℕ) (v : R) (w : World)
      (row : Task) (stored : task_of t.id w.db ≡ some row) (met : Bool)
      → Triggered met v w.db w.sent row (finish_run r a t run_id v met w).0
  unfolding finish_run persisted
  finish_run-Triggered works keeps run_id v w row stored met =
      let read : get_task a.get t.id w.db ≡ ok (some row) =
        unfold get_task in rw works.get_works (ap ok stored) in
      let (written, alerted) = settle-next_task works keeps run_id v w row stored met in
      rw (read, persisted)
        (ap (find (has_id t.id)) (db-complete-tasks _ _) ∙ written, sent-complete _ _ ∙ alerted)

  -- The database when the page has been read: the run row is there, and others have had their turn.
  abbrev pub db_at_read : TriggerSource → Database → Database
  db_at_read source db = a.while_running (start_run a.start a.started_at t.id source db).0

  -- A run that starts, reads its page and judges its condition goes on to the switch.
  begun-finish_run :
      (x : Database × Result Error ℕ) (w : World) (run_id : ℕ) (v v' : R) (met : Bool)
      → x.1 ≡ ok run_id
      → execute r t ≡ ok v
      → evaluate r t (a.while_running x.0) v ≡ (ok met, v')
      → begun r a t x w
        ≡ finish_run r a t run_id v' met (set_db (announce r (set_db w x.0)) (a.while_running x.0))
  unfolding begun proceed judge
  begun-finish_run (db, err e) w run_id v v' met started ran judged = cc
  begun-finish_run (db, ok n) w run_id v v' met started ran judged =
      let shown = announce r (set_db w db) in
      let same = db-announce (set_db w db) in
      let world = λ (d : Database). set_db shown (a.while_running d) in
      ap (λ x. proceed r a t n x (world shown.db)) ran
      ∙ ap (λ d. judge r a t n (evaluate r t (a.while_running d) v) (world d)) same
      ∙ ap (λ j. judge r a t n j (world db)) judged
      ∙ ap (λ k. finish_run r a t k v' met (world db)) (ground arith)

  -- A run that starts, reads its page and judges its condition, with its statements on the task
  -- row working and nobody else writing that row, sends one alert if the condition is met and, in
  -- the default mode, was not met before, and none otherwise; an alert that was sent stamps the
  -- row, one that found no channel arms it and one that failed leaves it, and a condition that is
  -- not met disarms it.
  pub run_task-next_task :
      (source : TriggerSource) (w : World) (row : Task) (run_id : ℕ) (v v' : R) (met : Bool)
      → TaskWritesWork a
      → LeavesTask a t.id
      → task_of t.id w.db ≡ some row
      → (start_run a.start a.started_at t.id source w.db).1 ≡ ok run_id
      → execute r t ≡ ok v
      → evaluate r t (db_at_read source w.db) v ≡ (ok met, v')
      → Triggered met v' (db_at_read source w.db) w.sent row (run_task r a t source w).0
  unfolding run_task
  run_task-next_task source w row run_id v v' met works keeps stored started ran judged =
      let x = start_run a.start a.started_at t.id source w.db in
      let there =
        keeps.running_keeps x.0
        ∙ ap (find (has_id t.id)) (tasks-start_run a.start a.started_at t.id source w.db)
        ∙ stored in
      let done =
        finish_run-Triggered works keeps run_id v'
          (set_db (announce r (set_db w x.0)) (a.while_running x.0)) row there met in
      rw (begun-finish_run x w run_id v v' met started ran judged) (
        done.0,
        done.1
            ∙ ap
                (λ before.
                  if fires met row.notify_mode row.condition_met
                  then before ++ (t.id, alert_message v') ∷ []
                  else before)
                (sent-announce (set_db w x.0)),
      )
