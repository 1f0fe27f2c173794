-- ===== src/Store/Channels.antt =====
-- server/internal/store/channel_store.go, over the tables of channels, links and attempts.
use breckr.Base.{
  Text, codes, ℕ, Bool, true, false, not, if◌then◌else◌, find, update, Option, none, some, List, [],
  ◌∷◌, ◌++◌, map, Result, ok, err, ◌==◌, ◌&&◌, ◌||◌, keep, length, any, order_by, text_le, Text_eq,
  ℕ_eq,
}
use breckr.Types.Notify.{NotificationReason, ChannelType}
use breckr.Types.Run.{NotificationAttempt}
use breckr.Store.Database.{
  Database, StoredChannel, Error, Driver, transact, empty_as_null, has_channel_id, unique_failed,
}
use breckr.Store.Runs.{has_run_id}
use breckr.Store.Tasks.{is_none, or_else}

-- `ListChannelsForTask`: the enabled channels that the task is linked to, by name.
unfoldable pub list_channels_for_task : Driver → Text → Database → Result Error (List StoredChannel)
list_channels_for_task (some e) task_id db = err e
list_channels_for_task none task_id db = ok (
    order_by (λ a b. text_le a.name b.name)
      (keep (λ c. c.enabled && any (λ l. l.task_id == task_id && l.channel_id == c.id) db.links)
        db.channels))

unfoldable pub count_enabled_channels : Driver → Database → Result Error ℕ
count_enabled_channels (some e) db = err e
count_enabled_channels none db = ok (length (keep (λ c. c.enabled) db.channels))

abbrev constraint_failed : Error
constraint_failed = codes "constraint failed"

-- One channel's delivery outcome for one run.
pub record AttemptInput : Type 0 where
  pub channel_id : Text
  pub channel_name : Text
  pub channel_type : ChannelType
  pub status : Option NotificationReason
  pub detail : Text
  pub message : Text

abbrev pub attempt_row : Text → ℕ → AttemptInput → NotificationAttempt
attempt_row now run_id a = record {
  run_id = run_id;
  channel_id = empty_as_null a.channel_id;
  channel_name = a.channel_name;
  channel_type = a.channel_type;
  status = a.status;
  detail = empty_as_null a.detail;
  message = empty_as_null a.message;
  attempted_at = now;
}

-- The constraints on a new row: its run and the channel it names exist, and no other row of the run
-- names that channel.
abbrev pub names : Text → Option Text → Bool
names id none = false
names id (some c) = c == id

unfoldable pub accepts : Database → NotificationAttempt → Bool
accepts db a = any (has_run_id a.run_id) db.runs && (elim a.channel_id [
  | none ↦ true
  | some c ↦
      any (has_channel_id c) db.channels
      && not (any (λ b. b.run_id == a.run_id && names c b.channel_id) db.attempts)
])

unfoldable pub insert_attempts : Text → ℕ → List AttemptInput → Database → Result Error Database
unfolding accepts
insert_attempts now run_id [] db = ok db
insert_attempts now run_id (a ∷ as') db =
    let row = attempt_row now run_id a in
    let rest = insert_attempts now run_id as' (record db { attempts = db.attempts ++ row ∷ [] }) in
    if accepts db row then rest else err constraint_failed

-- `RecordAttempts`: one transaction.
unfoldable pub record_attempts :
    Driver → Text → ℕ → List AttemptInput → Database → Database × Option Error
unfolding insert_attempts
record_attempts d now run_id [] db = (db, none)
record_attempts d now run_id (a ∷ as') db = transact d (insert_attempts now run_id (a ∷ as') db) db

-- `ListAttempts`.
unfoldable pub list_attempts : Driver → ℕ → Database → Result Error (List NotificationAttempt)
list_attempts (some e) run_id db = err e
list_attempts none run_id db = ok (
    order_by (λ a b. text_le a.channel_name b.channel_name)
      (keep (λ a. a.run_id == run_id) db.attempts))

-- `GetChannel`: an absent channel is no error.
unfoldable pub get_channel : Driver → Text → Database → Result Error (Option StoredChannel)
get_channel none id db = ok (find (has_channel_id id) db.channels)
get_channel (some e) id db = err e

unfoldable pub list_channels : Driver → Database → Result Error (List StoredChannel)
list_channels none db = ok (order_by (λ a b. text_le a.name b.name) db.channels)
list_channels (some e) db = err e

-- `ListChannelIDsForTask`: the disabled ones too.
unfoldable pub list_channel_ids_for_task : Driver → Text → Database → Result Error (List Text)
list_channel_ids_for_task (some e) task_id db = err e
list_channel_ids_for_task none task_id db = ok (
    map (λ (c : StoredChannel). c.id)
      (order_by (λ a b. text_le a.name b.name)
        (keep (λ c. any (λ l. l.task_id == task_id && l.channel_id == c.id) db.links) db.channels)))

-- `ListChannelIDsByTask`: the map, as a function of the task.
unfoldable pub list_channel_ids_by_task : Driver → Database → Result Error (Text → List Text)
list_channel_ids_by_task (some e) db = err e
list_channel_ids_by_task none db = ok (λ task_id.
    map (λ (c : StoredChannel). c.id)
      (order_by (λ a b. text_le a.name b.name)
        (keep (λ c. any (λ l. l.task_id == task_id && l.channel_id == c.id) db.links) db.channels)))

pub record CreateChannelInput : Type 0 where
  pub id : Text
  pub name : Text
  pub type : ChannelType
  pub config : Text
  pub enabled : Bool

pub record UpdateChannelInput : Type 0 where
  pub name : Option Text
  pub config : Option Text
  pub enabled : Option Bool

-- `IsEmpty`.
unfoldable pub is_empty_channel_patch : UpdateChannelInput → Bool
is_empty_channel_patch p = is_none p.name && is_none p.config && is_none p.enabled

-- The row read back, unless the write before it failed.
abbrev pub read_channel_back :
    Driver → Text → Database × Option Error → Database × Result Error (Option StoredChannel)
read_channel_back d id (db, none) = (db, get_channel d id db)
read_channel_back d id (db, some e) = (db, err e)

-- The columns of a new row, but for its config.
abbrev pub new_channel : CreateChannelInput → StoredChannel
new_channel i = record {
  id = i.id;
  name = i.name;
  type = i.type;
  enabled = i.enabled;
  broken = false;
  config = none;
}

-- `json.Valid` of encoding/json, on what the cipher gives back.
module _ (is_json : Text → Bool) where
  -- What `scanChannel` makes of a config that was encrypted with the key in use.
  unfoldable pub with_config : Text → StoredChannel → StoredChannel
  with_config config c =
      if is_json config
      then record c { broken = false; config = some config }
      else record c { broken = true; config = none }

  unfoldable pub insert_channel : CreateChannelInput → Database → Result Error Database
  unfolding with_config
  insert_channel i db =
      if any (λ c. c.id == i.id || c.name == i.name) db.channels
      then err unique_failed
      else ok (record db { channels = db.channels ++ with_config i.config (new_channel i) ∷ [] })

  -- `CreateChannel`: the first answer is the cipher's.
  unfoldable pub create_channel :
      Option Error
      → Driver
      → Driver
      → CreateChannelInput
      → Database
      → Database × Result Error (Option StoredChannel)
  unfolding insert_channel get_channel
  create_channel (some e) d1 d2 i db = (db, err e)
  create_channel none d1 d2 i db = read_channel_back d2 i.id (transact d1 (insert_channel i db) db)

  unfoldable pub patch_channel : UpdateChannelInput → StoredChannel → StoredChannel
  unfolding with_config
  patch_channel p c =
      let named = record c {
        name = or_else p.name c.name;
        enabled = or_else p.enabled c.enabled;
      } in
      elim p.config [ none ↦ named | some config ↦ with_config config named ]

  -- The UPDATE: a name that another channel has is refused.
  unfoldable pub write_channel : Text → UpdateChannelInput → Database → Result Error Database
  unfolding patch_channel
  write_channel id p db =
      if any (has_channel_id id) db.channels
        && any (λ c. not (c.id == id) && names c.name p.name) db.channels
      then err unique_failed
      else ok (record db { channels = update (has_channel_id id) (patch_channel p) db.channels })

  -- `UpdateChannel`: the cipher is asked only for a config.
  unfoldable pub update_channel :
      Option Error
      → Driver
      → Driver
      → Text
      → UpdateChannelInput
      → Database
      → Database × Result Error (Option StoredChannel)
  unfolding write_channel is_empty_channel_patch get_channel
  update_channel c d1 d2 id p db =
      let written = read_channel_back d2 id (transact d1 (write_channel id p db) db) in
      if is_empty_channel_patch p
      then (db, get_channel d2 id db)
      else elim (if is_none p.config then none else c) [ none ↦ written | some e ↦ (db, err e) ]

-- ON DELETE SET NULL.
abbrev pub forget_channel : Text → NotificationAttempt → NotificationAttempt
forget_channel id a = if names id a.channel_id then record a { channel_id = none } else a

-- `DeleteChannel`: its links go with it, and its attempts stay without their channel.
unfoldable pub delete_channel : Driver → Text → Database → Database × Result Error Bool
delete_channel (some e) id db = (db, err e)
delete_channel none id db = (
  record db {
    channels = keep (λ c. not (has_channel_id id c)) db.channels;
    links = keep (λ l. not (l.channel_id == id)) db.links;
    attempts = map (forget_channel id) db.attempts;
  },
  ok (any (has_channel_id id) db.channels),
)
