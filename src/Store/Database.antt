-- ===== src/Store/Database.antt =====
-- server/internal/store: the database as its tables. A statement is given the driver's answer: an
-- error leaves the tables alone. A `withTx` block is one statement, since it commits all or nothing.
use breckr.Base.{
  Text, codes, ℕ, Bool, Option, none, some, List, Result, ok, err, is_empty, if◌then◌else◌, ◌==◌,
  Text_eq,
}
use breckr.Types.Task.{Task}
use breckr.Types.Run.{Run, NotificationAttempt}
use breckr.Types.Notify.{ChannelType}

-- A channel as `scanChannel` returns it: its config decrypted, or none and the row broken.
pub record StoredChannel : Type 0 where
  pub id : Text
  pub name : Text
  pub type : ChannelType
  pub enabled : Bool
  pub broken : Bool
  pub config : Option Text

-- A row of task_channels.
pub record Link : Type 0 where
  pub task_id : Text
  pub channel_id : Text

pub record Database : Type 0 where
  pub tasks : List Task
  pub runs : List Run
  -- The next AUTOINCREMENT id of `runs`.
  pub next_run_id : ℕ
  pub channels : List StoredChannel
  pub links : List Link
  pub attempts : List NotificationAttempt

-- The error text of a call, if it failed.
abbrev pub Error : Type 0
Error = Text

-- What the driver answers to one statement: none, or its error.
abbrev pub Driver : Type 0
Driver = Option Error

-- A statement that changes the database, and returns the error.
abbrev pub exec : Driver → (Database → Database) → Database → Database × Option Error
exec none f db = (f db, none)
exec (some e) f db = (db, some e)

-- "" is stored as NULL, so that absent and empty stay apart on read.
abbrev pub empty_as_null : Text → Option Text
empty_as_null s = if is_empty s then none else some s

-- The driver's answers to a statement that breaks a constraint of the schema.
abbrev pub foreign_key_failed : Error
foreign_key_failed = codes "FOREIGN KEY constraint failed"

abbrev pub unique_failed : Error
unique_failed = codes "UNIQUE constraint failed"

-- A statement, or a `withTx` block, that may break a constraint: all or nothing.
abbrev pub transact : Driver → Result Error Database → Database → Database × Option Error
transact (some e) r db = (db, some e)
transact none (ok db') db = (db', none)
transact none (err e) db = (db, some e)

abbrev pub has_channel_id : Text → StoredChannel → Bool
has_channel_id id c = c.id == id
