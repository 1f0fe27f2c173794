-- ===== src/Store/Tasks.antt =====
-- server/internal/store/task_store.go, over the table of tasks.
use breckr.Base.{
  Text, ℕ, Bool, true, false, Option, none, some, List, [], ◌∷◌, ◌++◌, Result, ok, err, ◌==◌,
  if◌then◌else◌, find, update, keep, order_by, text_le, ◌&&◌, not, any, Text_eq, ℕ_eq,
}
use breckr.Types.Notify.{NotifyMode, default_notify_mode, find_notify_mode}
use breckr.Types.Task.{Task, TaskSpec}
use breckr.Store.Database.{
  Database, Error, Driver, exec, transact, foreign_key_failed, unique_failed, has_channel_id,
}

-- The row with this primary key.
abbrev pub has_id : Text → Task → Bool
has_id id t = t.id == id

unfoldable pub parse_notify_mode : Text → NotifyMode
unfolding find_notify_mode
parse_notify_mode raw = elim (find_notify_mode raw) [ none ↦ default_notify_mode | some m ↦ m ]

abbrev pub set_tasks : (List Task → List Task) → Database → Database
set_tasks f db = record db { tasks = f db.tasks }

-- `GetTask`: an absent task is no error.
unfoldable pub get_task : Driver → Text → Database → Result Error (Option Task)
get_task none id db = ok (find (has_id id) db.tasks)
get_task (some e) id db = err e

unfoldable pub list_tasks : Driver → Database → Result Error (List Task)
list_tasks none db = ok (order_by (λ a b. text_le a.name b.name) db.tasks)
list_tasks (some e) db = err e

unfoldable pub set_task_enabled : Driver → Text → Bool → Database → Database × Option Error
set_task_enabled d id on = exec d (set_tasks (update (has_id id) λ t. record t { enabled = on }))

unfoldable pub set_task_condition_met : Driver → Text → Bool → Database → Database × Option Error
set_task_condition_met d id met =
    exec d (set_tasks (update (has_id id) λ t. record t { condition_met = met }))

unfoldable pub mark_task_notified : Driver → Text → Text → Database → Database × Option Error
mark_task_notified d now id = exec d (
    set_tasks
      (update (has_id id) λ t. record t { condition_met = true; last_notified_at = some now }))

-- What a PATCH writes: only the fields that are present.
pub record UpdateTaskInput : Type 0 where
  pub name : Option Text
  pub cron_expr : Option Text
  pub spec : Option TaskSpec
  pub notify_mode : Option NotifyMode
  pub channel_ids : Option (List Text)

abbrev pub or_else {ℓ} : {A : Type ℓ} → Option A → A → A
or_else none a = a
or_else (some b) a = b

abbrev pub is_none {ℓ} : {A : Type ℓ} → Option A → Bool
is_none none = true
is_none (some a) = false

-- The row read back, unless the write before it failed.
abbrev pub read_back :
    Driver → Text → Database × Option Error → Database × Result Error (Option Task)
read_back d id (db, none) = (db, get_task d id db)
read_back d id (db, some e) = (db, err e)

-- The assignments of the UPDATE: a new spec also clears `condition_met`.
unfoldable pub patch_task : UpdateTaskInput → Task → Task
patch_task p t = record t {
  name = or_else p.name t.name;
  cron_expr = or_else p.cron_expr t.cron_expr;
  spec = elim p.spec [ none ↦ t.spec | some s ↦ some s ];
  condition_met = elim p.spec [ none ↦ t.condition_met | some s ↦ false ];
  notify_mode = or_else p.notify_mode t.notify_mode;
}

-- The loop of `setTaskChannelsTx`: each link joins what is there, and is new.
unfoldable pub insert_links : Text → List Text → Database → Result Error Database
insert_links id [] db = ok db
insert_links id (c ∷ cs) db =
    let rest =
      insert_links id cs
        (record db { links = db.links ++ record { task_id = id; channel_id = c } ∷ [] }) in
    if any (λ l. l.task_id == id && l.channel_id == c) db.links
    then err unique_failed
    else if any (has_id id) db.tasks && any (has_channel_id c) db.channels
    then rest
    else err foreign_key_failed

-- `setTaskChannelsTx`: delete, then insert.
unfoldable pub set_task_channels : Text → List Text → Database → Result Error Database
unfolding insert_links
set_task_channels id channel_ids db =
    insert_links id channel_ids (record db { links = keep (λ l. not (l.task_id == id)) db.links })

unfoldable pub patch_links : Text → Option (List Text) → Database → Result Error Database
unfolding set_task_channels
patch_links id none db = ok db
patch_links id (some cs) db = set_task_channels id cs db

pub record CreateTaskInput : Type 0 where
  pub id : Text
  pub name : Text
  pub cron_expr : Text
  pub spec : TaskSpec
  pub notify_mode : Text
  pub enabled : Bool
  pub channel_ids : List Text

abbrev new_task : CreateTaskInput → NotifyMode → Task
new_task i mode = record {
  id = i.id;
  name = i.name;
  cron_expr = i.cron_expr;
  enabled = i.enabled;
  spec = some i.spec;
  condition_met = false;
  notify_mode = mode;
  last_notified_at = none;
}

-- The body of the transaction of `CreateTask`.
unfoldable pub insert_task : CreateTaskInput → Database → Result Error Database
unfolding set_task_channels parse_notify_mode
insert_task i db =
    if any (has_id i.id) db.tasks
    then err unique_failed
    else set_task_channels i.id i.channel_ids
        (record db { tasks = db.tasks ++ new_task i (parse_notify_mode i.notify_mode) ∷ [] })

-- `CreateTask`: the row and its links in one transaction, then the row read back.
unfoldable pub create_task :
    Driver → Driver → CreateTaskInput → Database → Database × Result Error (Option Task)
unfolding insert_task get_task
create_task d1 d2 i db = read_back d2 i.id (transact d1 (insert_task i db) db)

-- `IsEmpty`: nothing to write.
unfoldable pub is_empty_patch : UpdateTaskInput → Bool
is_empty_patch p =
    is_none p.name
    && is_none p.cron_expr
    && is_none p.spec
    && is_none p.notify_mode
    && is_none p.channel_ids

-- `UpdateTask`: one transaction over the row and its links, if anything is to be written, then the
-- row read back.
unfoldable pub update_task :
    Driver → Driver → Text → UpdateTaskInput → Database → Database × Result Error (Option Task)
unfolding patch_task patch_links get_task is_empty_patch
update_task d1 d2 id p db =
    let write =
      transact d1 (patch_links id p.channel_ids (set_tasks (update (has_id id) (patch_task p)) db))
        db in
    if is_empty_patch p then (db, get_task d2 id db) else read_back d2 id write

-- `DeleteTask`: run history, its attempts and the links go with it, by ON DELETE CASCADE.
unfoldable pub delete_task : Driver → Text → Database → Database × Result Error Bool
delete_task (some e) id db = (db, err e)
delete_task none id db =
    let gone = λ (run : ℕ). any (λ r. r.id == run && r.task_id == id) db.runs in
    (
      record db {
        tasks = keep (λ t. not (has_id id t)) db.tasks;
        runs = keep (λ r. not (r.task_id == id)) db.runs;
        links = keep (λ l. not (l.task_id == id)) db.links;
        attempts = keep (λ a. not (gone a.run_id)) db.attempts;
      },
      ok (any (has_id id) db.tasks),
    )
