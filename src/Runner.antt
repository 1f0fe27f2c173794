-- ===== src/Runner.antt =====
-- server/internal/runner/runner.go: `RunTask` over the stores. The browser and the dispatcher are the
-- source's own interfaces; what the driver and the clock answer, and what other requests do to the
-- database while the page is read and while the alert is sent, are inputs of a run.
pub mod Lemmas
pub mod Trigger
pub mod Rows
pub mod History
pub mod Failure
pub mod Announce
pub mod Wired
pub mod Edits
mod Tests
use breckr.Base.{
  Text, codes, ℕ, Bool, true, false, not, ◌&&◌, ◌||◌, Option, none, some, List, [], ◌∷◌, ◌++◌, map,
  Result, ok, err, ◌≡◌, if◌then◌else◌,
}
use breckr.Types.Notify.{
  NotifyMode, always, default_notify_mode, NotificationReason, disabled, NotificationOutcome,
  no_outcome, Message,
}
use breckr.Types.Task.{Task}
use breckr.Types.Run.{RunStatus, success, failed, TriggerSource, RunOutcome}
use breckr.Store.Database.{Database, Error, Driver}
use breckr.Store.Tasks.{get_task, set_task_condition_met, mark_task_notified}
use breckr.Store.Runs.{start_run, complete_run, CompleteRunInput}
use breckr.Store.Channels.{AttemptInput, record_attempts}
use breckr.Events.{Resource, runs, tasks}
use breckr.Notifier.{Fanout, attempt_inputs}
use breckr.Notifier.Aggregate.{Consistent}

-- The slice of the browser pool that the runner needs. A run that succeeds succeeded on a page.
pub record Browser (P R : Type 0) : Type 0 where
  pub with_page : ℕ → (P → Result Error R) → Result Error R
  pub without_page : ℕ → Result Error R → Result Error R
  pub with_page_ok :
      (timeout : ℕ) (f : P → Result Error R) (r : R)
      → with_page timeout f ≡ ok r
      → (p : P) × (f p ≡ ok r)
  pub without_page_ok :
      (timeout : ℕ) (x : Result Error R) (r : R) → without_page timeout x ≡ ok r → x ≡ ok r

-- The slice of the notifier that the runner needs.
pub record Dispatcher : Type 0 where
  pub dispatch_task : Database → Text → Message → Fanout
  pub consistent :
      (db : Database) (task_id : Text) (m : Message)
      → Consistent (dispatch_task db task_id m).aggregate

-- types.ResolvedTask. The condition reads run history, and writes into the result it is given.
pub record ResolvedTask (P R : Type 0) : Type 0 where
  pub id : Text
  pub name : Text
  pub timeout : ℕ
  pub needs_browser : Bool
  pub run : Option P → Result Error R
  pub condition : Option (Database → R → Result Error Bool × R)
  pub notify : Option (R → Text)

-- One run's surroundings.
pub record Answers : Type 0 where
  pub start : Driver
  pub get : Driver
  pub attempts : Driver
  pub mark : Driver
  pub arm : Driver
  pub complete : Driver
  pub started_at : Text
  pub attempted_at : Text
  pub notified_at : Text
  pub finished_at : Text
  pub while_running : Database → Database
  pub while_sending : Database → Database

-- The database, the alerts handed to the dispatcher and the events published, oldest first.
pub record World : Type 0 where
  pub db : Database
  pub sent : List (Text × Message)
  pub published : List (List Resource)

abbrev pub set_db : World → Database → World
set_db w db = record w { db = db }

-- What the alert step leaves: the world, and what the run row records of it.
pub record Alerted : Type 0 where
  pub world : World
  pub outcome : NotificationOutcome
  pub message : Text

-- What the runner is built with: its logger is left out, a publisher may be missing.
pub record Runner (P R : Type 0) : Type 0 where
  pub browser : Browser P R
  pub dispatcher : Dispatcher
  pub has_publisher : Bool
  pub quote : Text → Text
  pub safe_marshal : R → Text

abbrev pub is_always : NotifyMode → Bool
is_always always = true
is_always _ = false

abbrev pub is_disabled : Option NotificationReason → Bool
is_disabled (some disabled) = true
is_disabled _ = false

-- The persisted edge-trigger state: an unreadable or absent task is disarmed, in the default mode.
unfoldable pub persisted : Result Error (Option Task) → Bool × NotifyMode
persisted (ok (some t)) = (t.condition_met, t.notify_mode)
persisted (ok none) = (false, default_notify_mode)
persisted (err e) = (false, default_notify_mode)

-- The first case of the switch: an alert is due.
abbrev pub is_due : Bool → NotifyMode → Bool → Bool
is_due met mode was_met = met && (is_always mode || not was_met)

-- After the fan-out: arm the trigger if sent, or if nothing was owed; else leave it to the next run.
unfoldable pub advance : Answers → Text → NotificationOutcome → Database → Database
advance a id o db =
    if o.delivered
    then (mark_task_notified a.mark a.notified_at id db).0
    else if is_disabled o.reason
    then (set_task_condition_met a.arm id true db).0
    else db

-- The message is stamped onto every attempt.
abbrev pub stamp : Text → AttemptInput → AttemptInput
stamp m i = record i { message = m }

abbrev pub failed_input : ℕ → Option Text → Text → CompleteRunInput
failed_input run_id result e = record {
  id = run_id;
  status = failed;
  condition_met = false;
  notified = false;
  result = result;
  error_text = e;
  notification_status = none;
  notification_detail = codes "";
  notification_message = codes "";
}

abbrev pub failed_outcome : ℕ → Text → RunOutcome
failed_outcome run_id e = record {
  run_id = run_id;
  status = failed;
  condition_met = false;
  notified = false;
  error_text = e;
}

module _ {P R : Type 0} (r : Runner P R) where
  unfoldable pub announce : World → World
  announce w =
      if r.has_publisher
      then record w { published = w.published ++ (runs ∷ tasks ∷ []) ∷ [] }
      else w

  -- Every terminal path writes the run row here, and announces it.
  unfoldable pub complete : Answers → CompleteRunInput → World → World
  unfolding announce
  complete a i w = announce (set_db w (complete_run a.complete a.finished_at i w.db).0)

  unfoldable pub execute : ResolvedTask P R → Result Error R
  execute t =
      if t.needs_browser
      then r.browser.with_page t.timeout (λ p. t.run (some p))
      else r.browser.without_page t.timeout (t.run none)

  unfoldable pub notify_message : ResolvedTask P R → R → Text
  notify_message t v = elim t.notify [
    | none ↦ codes "Task " ++ (r.quote t.name ++ codes " matched its condition.")
    | some render ↦ render v
  ]

  -- The alert, its attempts and the trigger.
  unfoldable pub alert : Answers → ResolvedTask P R → ℕ → R → World → Alerted
  unfolding notify_message
  alert a t run_id v w =
      let body = notify_message t v in
      let m : Message = record { subject = codes "breckr: " ++ t.name; body = body } in
      let fanout = r.dispatcher.dispatch_task w.db t.id m in
      let inputs = map (stamp body) (attempt_inputs fanout.deliveries) in
      let db = (record_attempts a.attempts a.attempted_at run_id inputs (a.while_sending w.db)).0 in
      record {
        world = record w {
          db = advance a t.id fanout.aggregate db;
          sent = w.sent ++ (t.id, m) ∷ [];
        };
        outcome = fanout.aggregate;
        message = body;
      }

  -- The switch on the condition and the persisted state.
  unfoldable pub settle :
      Answers → ResolvedTask P R → ℕ → R → Bool → Bool × NotifyMode → World → Alerted
  settle a t run_id v met (was_met, mode) w =
      if is_due met mode was_met
      then alert a t run_id v w
      else if not met && was_met
      then record {
        world = set_db w (set_task_condition_met a.arm t.id false w.db).0;
        outcome = no_outcome;
        message = codes "";
      }
      else record { world = w; outcome = no_outcome; message = codes "" }

  -- A run that extracted a result and evaluated its condition.
  unfoldable pub finish_run : Answers → ResolvedTask P R → ℕ → R → Bool → World → World × RunOutcome
  unfolding persisted
  finish_run a t run_id v met w =
      let s = settle a t run_id v met (persisted (get_task a.get t.id w.db)) w in
      (
        complete a
            (record {
              id = run_id;
              status = success;
              condition_met = met;
              notified = s.outcome.delivered;
              result = some (r.safe_marshal v);
              error_text = codes "";
              notification_status = s.outcome.reason;
              notification_detail = s.outcome.detail;
              notification_message = s.message;
            })
            s.world,
        record {
          run_id = run_id;
          status = success;
          condition_met = met;
          notified = s.outcome.delivered;
          error_text = codes "";
        },
      )

  -- The condition was evaluated: an error keeps the result and records the fault.
  unfoldable pub judge :
      Answers → ResolvedTask P R → ℕ → Result Error Bool × R → World → World × RunOutcome
  judge a t run_id (ok met, v) w = finish_run a t run_id v met w
  judge a t run_id (err e, v) w = (
    complete a (failed_input run_id (some (r.safe_marshal v)) (codes "condition failed: " ++ e)) w,
    failed_outcome run_id (codes ""),
  )

  unfoldable pub evaluate : ResolvedTask P R → Database → R → Result Error Bool × R
  evaluate t db v = elim t.condition [ none ↦ (ok false, v) | some c ↦ c db v ]

  -- The page was read, or not.
  unfoldable pub proceed :
      Answers → ResolvedTask P R → ℕ → Result Error R → World → World × RunOutcome
  unfolding evaluate
  proceed a t run_id (ok v) w = judge a t run_id (evaluate t w.db v) w
  proceed a t run_id (err e) w =
      (complete a (failed_input run_id none e) w, failed_outcome run_id e)

  begun : Answers → ResolvedTask P R → Database × Result Error ℕ → World → World × RunOutcome
  begun a t (db, err e) w = (set_db w db, failed_outcome 0 e)
  begun a t (db, ok run_id) w =
      let shown = announce (set_db w db) in
      proceed a t run_id (execute t) (set_db shown (a.while_running shown.db))

  -- `RunTask`.
  unfoldable pub run_task : Answers → ResolvedTask P R → TriggerSource → World → World × RunOutcome
  unfolding begun
  run_task a t source w = begun a t (start_run a.start a.started_at t.id source w.db) w
