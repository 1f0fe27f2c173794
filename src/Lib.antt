-- ===== src/Lib.antt =====
-- A model of the breckr server (server/internal), which watches web pages on cron schedules and
-- alerts through notification channels when a task's condition is met.
--
-- The parts, and how they interact:
-- - Types: the data of types/types.go, types/definition.go and notifier/transport.go.
-- - Store: the tables of the database as lists (Database), and the statements of
--   store/task_store.go, store/run_store.go and store/channel_store.go as functions on them. Each
--   is given the driver's answer to it (Driver); an error, or a broken constraint of the schema,
--   leaves the tables alone.
-- - Notifier: notifier/dispatcher.go. The transports are a parameter (Transports), and so is the
--   order in which the parallel sends finish.
--   Notifier/ChannelSpec is notifier/spec.go, how a channel is configured, checked and shown;
--   `url.Parse` and `mail.ParseAddress` are parameters.
-- - Events: events/bus.go. A subscriber is a state machine whose steps are those of the publishers,
--   of its goroutine, of its reader and of `stop` (Events/Steps); Events/Bus has the map of them.
-- - Runner: runner/runner.go. `run_task` is RunTask. The browser pool and the dispatcher are
--   interfaces, as in the source; Runner/Wired fills the dispatcher with the notifier. What the
--   driver and the clock answer, and what other requests write while the page is read and while the
--   alert is sent, are inputs of a run (Answers). World is the database with the alerts and events
--   so far.
-- - Scheduler: scheduler/registry.go. The cron library is a parameter with laws (Scheduler/Cron). A
--   method is one step, and `run` is any sequence of them; that the source lets go of the mutex
--   between the tasks of ScheduleAll, and before SetEnabled writes the row, is left out.
-- - Cron: executor/schedule.go. `to_cron` is ToCron and `from_cron` is FromCron (Cron/FromCron).
--   The parser of cron expressions is a parameter.
-- - Spec: executor/spec.go, from a draft with the words of the request (Types/Words) to a TaskSpec.
--   The placeholders of a message are found as the patterns of types/constants.go find them
--   (Types/Placeholder).
-- - Executor: executor/executor.go, the run of a spec against a page (Executor/Page), the judging
--   of its conditions and the body of the alert (Executor/Render). The page, a float64 with its
--   operations and the quoting of fmt are parameters. The runner takes any run and condition, and
--   not these in particular.
-- - Api: api/task_handler.go, each handler over the database, the registry and what was published
--   (Api/Tasks, Api/Reads), from the decoded body (Api/Requests). What the driver answers to each
--   statement is an input, and a handler runs alone. Api/History has the start and any sequence of
--   requests.
--   Api/Merge is `mergeConfig` and the view of `present`, of api/channel_handler.go, with the JSON
--   codec as a parameter.
-- - Throttle: auth/throttle.go. The clock's readings and the order of a range over the map are
--   inputs.
-- - Session: auth/session.go. The cryptography is a parameter with laws (Crypto).
--
-- Samples and the Tests modules apply the theorems to concrete data.
--
-- Texts are lists of bytes, and ASCII where the source asks for space, letters or digits. Numbers
-- that only count or identify are natural numbers; those of a schedule are integers. The digits of
-- n are found with the fuel n + 1, which Base/Decimal shows to be enough; any other recursion is
-- structural. A validation error is the field that it names: the wording of its message is left
-- out. Times are texts that the store compares, as SQLite does.
--
-- Not modelled: the browser, the transports' network calls, the HTTP handlers but those of tasks,
-- configuration, migrations, the cipher and the web client, which are I/O or glue; log lines; and
-- the JSON encoding of specs and results.
pub mod Base
pub mod Types
pub mod Store
pub mod Notifier
pub mod Cron
pub mod Spec
pub mod Events
pub mod Runner
pub mod Samples
pub mod Scheduler
pub mod Throttle
pub mod Executor
pub mod Session
pub mod Api
