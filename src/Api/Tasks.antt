-- ===== src/Api/Tasks.antt =====
-- server/internal/api/task_handler.go: each handler from a decoded request to its answer. What the
-- driver answers to each statement is an input. A handler runs alone.
use breckr.Base.{
  Text, codes, ℕ, Bool, true, not, if◌then◌else◌, Option, none, some, List, [], ◌∷◌, ◌++◌, Result,
  ok, err,
}
use breckr.Types.Notify.{mode_text}
use breckr.Types.Task.{Task}
use breckr.Types.Run.{Run}
use breckr.Events.{Resource, tasks, runs}
use breckr.Cron.FromCron.{from_cron}
use breckr.Spec.{Parsers}
use breckr.Store.Database.{Database, Driver, Error}
use breckr.Store.Tasks.{
  get_task, create_task, update_task, delete_task, set_task_enabled, UpdateTaskInput,
  is_empty_patch, is_none,
}
use breckr.Scheduler.Cron.{CronLib}
use breckr.Scheduler.{Registry, register, unregister, set_enabled, get_definition}
use breckr.Api.Requests.{
  CreateTaskRequest, UpdateTaskRequest, CreateInput, TaskView, Response, bad_request, rejected,
  internal_error, conflict, not_found, created, updated, no_content, nil_pointer, fail,
  validate_create, build_patch, validate_channel_ids,
}

-- What the handlers change: the database, the registry, and what was published, the last call last.
pub record ServerState (C : Type 0) : Type 0 where
  pub db : Database
  pub registry : Registry C
  pub published : List (List Resource)

abbrev pub publish_to : {C : Type 0} → List Resource → ServerState C → ServerState C
publish_to resources w = record w { published = w.published ++ resources ∷ [] }

abbrev pub with_db : {C : Type 0} → Database → ServerState C → ServerState C
with_db db w = record w { db = db }

abbrev pub set_registry : {C : Type 0} → Registry C → ServerState C → ServerState C
set_registry r w = record w { registry = r }

-- The driver's answers, in the order of the statements.
pub record CreateAnswers : Type 0 where
  pub get : Driver
  pub channels : Text → Driver
  pub create : Driver
  pub reread : Driver

pub record UpdateAnswers : Type 0 where
  pub get : Driver
  pub channels : Text → Driver
  pub write : Driver
  pub reread : Driver
  pub enable : Driver
  pub get_again : Driver

module _ {C : Type 0} (lib : CronLib C) (timeout : ℕ) (p : Parsers) where
  -- `decorate`.
  unfoldable pub decorate : Task → Option Run → List Text → Registry C → TaskView
  unfolding from_cron get_definition
  decorate t last_run channel_ids r = record {
    task = t;
    channel_ids = channel_ids;
    schedule = from_cron t.cron_expr;
    last_run = last_run;
    orphaned = is_none (get_definition lib timeout t.id r);
  }

  -- The end of `HandleCreateTask`: the row that was read back is armed.
  unfoldable pub arm_created :
      List Text → ServerState C → Result Error (Option Task) → ServerState C × Response
  unfolding register decorate
  arm_created channel_ids w (err e) = (w, internal_error)
  arm_created channel_ids w (ok none) = (w, nil_pointer)
  arm_created channel_ids w (ok (some t)) =
      let (r, scheduled) = register lib timeout t w.registry in
      (
        publish_to (tasks ∷ []) (set_registry r w),
        created (record (decorate t none channel_ids r) { orphaned = not scheduled }),
      )

  unfoldable pub create_checked :
      CreateAnswers → CreateTaskRequest → CreateInput → ServerState C → ServerState C × Response
  unfolding get_task create_task validate_channel_ids arm_created mode_text fail
  create_checked d body input w = elim (get_task d.get input.id w.db) [
    | err e ↦ (w, internal_error)
    | ok existing ↦ elim existing [
      | some t ↦ (w, conflict (codes "id"))
      | none ↦ elim (validate_channel_ids d.channels body.channel_ids w.db) [
        | err f ↦ (w, fail f)
        | ok channel_ids ↦
            let (db, row) =
              create_task d.create d.reread
                (record {
                  id = input.id;
                  name = input.name;
                  cron_expr = input.cron_expr;
                  spec = input.spec;
                  notify_mode = mode_text input.notify_mode;
                  enabled = elim body.enabled [ none ↦ true | some on ↦ on ];
                  channel_ids = channel_ids;
                })
                w.db in
            arm_created channel_ids (with_db db w) row
      ]
    ]
  ]

  -- `HandleCreateTask`, from the decoded body, or none.
  unfoldable pub handle_create_task :
      CreateAnswers → Option CreateTaskRequest → ServerState C → ServerState C × Response
  unfolding validate_create create_checked
  handle_create_task d none w = (w, bad_request)
  handle_create_task d (some body) w = elim (validate_create p body) [
    | err field ↦ (w, rejected field)
    | ok input ↦ create_checked d body input w
  ]

  -- `Reschedule`, if the row can be read.
  unfoldable pub reschedule : Result Error (Option Task) → ServerState C → ServerState C
  unfolding register
  reschedule (err e) w = w
  reschedule (ok none) w = w
  reschedule (ok (some t)) w = set_registry (register lib timeout t w.registry).0 w

  abbrev pub answer_updated : Text → Bool → ServerState C → ServerState C × Response
  answer_updated id enabled w = (publish_to (tasks ∷ []) w, updated id enabled)

  -- The row is written before it is scheduled again.
  unfoldable pub write_row :
      UpdateAnswers
      → Text
      → Bool
      → Option Bool
      → UpdateTaskInput
      → ServerState C
      → ServerState C × Response
  unfolding update_task set_task_enabled get_task reschedule
  write_row d id was enabled patch w =
      let (db, row) = update_task d.write d.reread id patch w.db in
      elim row [
        | err e ↦ (with_db db w, internal_error)
        | ok t ↦
            let now : Bool = elim enabled [ none ↦ was | some on ↦ on ] in
            let db' : Database = elim enabled [
              | none ↦ db
              | some on ↦ (set_task_enabled d.enable id on db).0
            ] in
            answer_updated id now (reschedule (get_task d.get_again id db') (with_db db' w))
      ]

  -- Only the switch: `SetEnabled` writes the row itself.
  unfoldable pub switch_row :
      UpdateAnswers → Text → Bool → Option Bool → ServerState C → ServerState C × Response
  unfolding set_enabled
  switch_row d id was none w = answer_updated id was w
  switch_row d id was (some on) w =
      let (r, known, db) = set_enabled lib timeout d.enable id on w.registry w.db in
      if known
      then answer_updated id on (record w { db = db; registry = r })
      else (record w { db = db; registry = r }, conflict [])

  unfoldable pub update_with :
      UpdateAnswers
      → Text
      → Bool
      → Option Bool
      → UpdateTaskInput
      → ServerState C
      → ServerState C × Response
  unfolding write_row switch_row is_empty_patch
  update_with d id was enabled patch w =
      if is_empty_patch patch
      then switch_row d id was enabled w
      else write_row d id was enabled patch w

  unfoldable pub update_channels :
      UpdateAnswers
      → Text
      → Bool
      → UpdateTaskRequest
      → UpdateTaskInput
      → ServerState C
      → ServerState C × Response
  unfolding update_with validate_channel_ids fail
  update_channels d id was body patch w = elim body.channel_ids [
    | none ↦ update_with d id was body.enabled patch w
    | some ids ↦ elim (validate_channel_ids d.channels ids w.db) [
      | err f ↦ (w, fail f)
      | ok channel_ids ↦
          update_with d id was body.enabled (record patch { channel_ids = some channel_ids }) w
    ]
  ]

  unfoldable pub update_existing :
      UpdateAnswers
      → Text
      → Task
      → Option UpdateTaskRequest
      → ServerState C
      → ServerState C × Response
  unfolding build_patch update_channels
  update_existing d id existing none w = (w, bad_request)
  update_existing d id existing (some body) w = elim (build_patch p body) [
    | err field ↦ (w, rejected field)
    | ok patch ↦ update_channels d id existing.enabled body patch w
  ]

  -- `HandleUpdateTask`.
  unfoldable pub handle_update_task :
      UpdateAnswers → Text → Option UpdateTaskRequest → ServerState C → ServerState C × Response
  unfolding get_task update_existing
  handle_update_task d id body w = elim (get_task d.get id w.db) [
    | err e ↦ (w, internal_error)
    | ok row ↦ elim row [
      | none ↦ (w, not_found)
      | some existing ↦ update_existing d id existing body w
    ]
  ]

  unfoldable pub delete_existing : Driver → Text → ServerState C → ServerState C × Response
  unfolding unregister delete_task
  delete_existing d id w =
      let cleared = set_registry (unregister lib timeout id w.registry) w in
      let (db, answer) = delete_task d id w.db in
      elim answer [
        | err e ↦ (with_db db cleared, internal_error)
        | ok gone ↦ (publish_to (tasks ∷ runs ∷ []) (with_db db cleared), no_content)
      ]

  -- `HandleDeleteTask`.
  unfoldable pub handle_delete_task :
      Driver → Driver → Text → ServerState C → ServerState C × Response
  unfolding get_task delete_existing
  handle_delete_task d1 d2 id w = elim (get_task d1 id w.db) [
    | err e ↦ (w, internal_error)
    | ok row ↦ elim row [ none ↦ (w, not_found) | some t ↦ delete_existing d2 id w ]
  ]
