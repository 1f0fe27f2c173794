-- ===== src/Api/Requests.antt =====
-- server/internal/api/task_handler.go: what the handlers check of a request, and what they answer.
use breckr.Base.{
  Text, codes, Bool, true, false, ◌||◌, any, if◌then◌else◌, Option, none, some, List, [], ◌∷◌, ◌++◌,
  Result, ok, err, ◌>>=◌, ◌==◌, Text_eq, is_empty,
}
use breckr.Types.Notify.{NotifyMode}
use breckr.Types.Task.{Task, TaskSpec}
use breckr.Types.Run.{Run}
use breckr.Types.Words.{DraftSpec}
use breckr.Cron.{Schedule}
use breckr.Spec.{
  Parsers, validate_task_id, validate_name, resolve_cron, validate_spec, validate_notify_mode,
}
use breckr.Store.Database.{Database, Driver, Error}
use breckr.Store.Tasks.{UpdateTaskInput}
use breckr.Store.Channels.{get_channel}

-- The decoded bodies. An absent field is `none`, or "" where the source has no pointer.
pub record CreateTaskRequest : Type 0 where
  pub id : Text
  pub name : Text
  pub schedule : Option Schedule
  pub cron_expr : Text
  pub spec : Option DraftSpec
  pub notify_mode : Option Text
  pub enabled : Option Bool
  pub channel_ids : List Text

pub record UpdateTaskRequest : Type 0 where
  pub enabled : Option Bool
  pub name : Option Text
  pub schedule : Option Schedule
  pub cron_expr : Option Text
  pub spec : Option DraftSpec
  pub notify_mode : Option Text
  pub channel_ids : Option (List Text)

-- An error of a handler: a `ValidationError`, by its field, or any other.
pub data Failure : Type 0 where
  invalid : Text → Failure
  broken : Error → Failure

-- `TaskWithStatus`, but for the next run, which is the cron library's.
pub record TaskView : Type 0 where
  pub task : Task
  pub channel_ids : List Text
  pub schedule : Schedule
  pub last_run : Option Run
  pub orphaned : Bool

-- What a handler answers: a status, and what the body has. `nil_pointer` is a panic.
pub data Response : Type 0 where
  bad_request : Response
  rejected : Text → Response
  internal_error : Response
  conflict : Text → Response
  not_found : Response
  listed : List TaskView → Response
  created : TaskView → Response
  updated : Text → Bool → Response
  no_content : Response
  accepted : Response
  nil_pointer : Response

-- `fail`.
unfoldable pub fail : Failure → Response
fail (invalid field) = rejected field
fail (broken e) = internal_error

pub record CreateInput : Type 0 where
  pub id : Text
  pub name : Text
  pub cron_expr : Text
  pub spec : TaskSpec
  pub notify_mode : NotifyMode

unfoldable pub optional_string : Text → Option Text
optional_string value = if is_empty value then none else some value

unfoldable pub optional_notify_mode : Option Text → Text
optional_notify_mode none = []
optional_notify_mode (some mode) = mode

-- An optional field, checked when it is there.
unfoldable pub if_present : {A B : Type 0} → Option A → (A → Result Text B) → Result Text (Option B)
if_present none check = ok none
if_present (some a) check = do b ← check a; ok (some b)

module _ (p : Parsers) where
  -- `validateCreate`.
  unfoldable pub validate_create : CreateTaskRequest → Result Text CreateInput
  unfolding validate_task_id validate_name resolve_cron validate_spec validate_notify_mode
      optional_string optional_notify_mode
  validate_create body = do
    id ← validate_task_id body.id
    name ← validate_name body.name
    cron_expr ← resolve_cron p body.schedule (optional_string body.cron_expr)
    spec ← validate_spec p body.spec
    mode ← validate_notify_mode (optional_notify_mode body.notify_mode)
    ok (record { id = id; name = name; cron_expr = cron_expr; spec = spec; notify_mode = mode })

  unfoldable pub patch_cron : Option Schedule → Option Text → Result Text (Option Text)
  unfolding resolve_cron
  patch_cron none none = ok none
  patch_cron (some schedule) cron_expr = do
    expr ← resolve_cron p (some schedule) cron_expr
    ok (some expr)
  patch_cron none (some cron_expr) = do expr ← resolve_cron p none (some cron_expr); ok (some expr)

  -- `buildPatch`: all but the channels.
  unfoldable pub build_patch : UpdateTaskRequest → Result Text UpdateTaskInput
  unfolding validate_name patch_cron validate_spec validate_notify_mode if_present
  build_patch body = do
    name ← if_present body.name validate_name
    cron_expr ← patch_cron body.schedule body.cron_expr
    spec ← if_present body.spec (λ s. validate_spec p (some s))
    mode ← if_present body.notify_mode validate_notify_mode
    ok (record {
      name = name;
      cron_expr = cron_expr;
      spec = spec;
      notify_mode = mode;
      channel_ids = none;
    })

-- The loop of `validateChannelIDs`, with the driver's answer to the query for each id.
unfoldable pub check_channel_ids :
    (Text → Driver) → Database → List Text → List Text → Result Failure (List Text)
unfolding get_channel
check_channel_ids drivers db unique [] = ok unique
check_channel_ids drivers db unique (id ∷ ids) = elim (is_empty id || any (λ u. u == id) unique) [
  | true ↦ check_channel_ids drivers db unique ids
  | false ↦ elim (get_channel (drivers id) id db) [
    | err e ↦ err (broken e)
    | ok found ↦ elim found [
      | none ↦ err (invalid (codes "channel_ids"))
      | some channel ↦ check_channel_ids drivers db (unique ++ id ∷ []) ids
    ]
  ]
]

unfoldable pub validate_channel_ids :
    (Text → Driver) → List Text → Database → Result Failure (List Text)
unfolding check_channel_ids
validate_channel_ids drivers ids db = check_channel_ids drivers db [] ids
