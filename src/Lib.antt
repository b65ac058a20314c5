-- ===== src/Lib.antt =====
-- cronbat: a cron daemon with job files, a web API and an SQLite history of runs.
--
-- The program's core is the set of closures in cmd/cronbat/main.go that manage the jobs. They share
-- `jobMap`, `jobStateMap`, the scheduler of internal/scheduler and the job files, under one mutex.
-- The web API calls them; the scheduler's timer and the API start runs, which are recorded in the
-- store, written to log files and announced as events.
--
--   Prelude, Text, Dict, Errors   numbers, lists, text, maps and error results, with their lemmas
--   World                         what the program calls and does not implement: the cron parser,
--                                 the duration parser, YAML and the file system. The theorems hold
--                                 for every world, one in which any call fails included
--   Config                        internal/config: `Job`, its methods, `SaveJob`, `LoadJobs` (job.go),
--                                 and the defaults of the settings (config.go)
--   Scheduler                     internal/scheduler/scheduler.go with Go's container/heap: Heap (its
--                                 Counts to Laws are about contents and order), Names, Fires,
--                                 and Order for a scheduler through any calls
--   Runner                        internal/runner: the ring buffer of a run's output (RingBuffer),
--                                 `BuildEnv` (Env), `Runner.Run` and the tee writers (Command)
--   Store                         internal/store: the table of runs, and `RecordRun`, `GetRun`,
--                                 `ListRuns` and `GetJobStats` as what their SQL says
--   Execution                     `executeJob` of cmd/cronbat/main.go, on Runner, RunLog, Store and
--                                 Broker
--   Daemon                        the closures of cmd/cronbat/main.go: State (`validateJob`,
--                                 `applyScheduleLocked`, `getJobState`), Create, Enable (`enableJob`,
--                                 `startJob`, `pauseJob`, ...), Remove (`archiveJob`, `deleteJob`),
--                                 Settings and Yaml (`updateJobSettings`, `updateJobYAML`); Boot is
--                                 the start of `main`, and Run any sequence of calls and firings
--                                 (Closed and the modules Keeps serve Run/Timely)
--   RunLog                        internal/runlog/manager.go: the capped writer (Capped), the paths
--                                 and reading the files (Files), `OpenRunWriters` (Writers) and
--                                 `Cleanup` (Cleanup)
--   Web                           internal/web/api: Status (`statusFromError`), Import
--                                 (jobs_transfer.go), Api (the state and the replies), Jobs (jobs.go),
--                                 Routes (`routeJobs` of handler.go) and Runs (runs.go). They call
--                                 the operations of Daemon, Store, Broker and RunLog
--   Broker                        internal/realtime/broker.go: the events' channels
--   Wrap                          cmd/cronbat/wrap.go: the command, the direct run and its records, and
--                                 the report over the API
--   CronSync                      cmd/cronbat/cronsync.go: Merge (`mergeCrontab`), Entries
--                                 (`parseCronbatEntries`)
--
-- Not modelled: the HTTP server and its mux, the event stream, the handlers of the configuration and
-- of the system's health and statistics, the export of jobs, opening the database, reading and writing the crontab, the start of
-- processes, the user interface, the command line and the watchdog: they are input and output
-- around this core.
--
-- An operation is a function of the state, of the clock's reading and of the call's arguments; it
-- returns its error or value and the new state. It is written as one helper for each call that can
-- fail, by clauses on that call's result. A map is an association list read through `lookup`; Go's
-- strings are lists of code points; a time is a natural number, and a cron schedule its `Next`.
-- `IsConsistent` (Daemon/Invariant) is the invariant of the daemon: under each name the job map, the
-- state map and the scheduler agree, and the name has no space around it (a job file read at the
-- start may name a job otherwise; such a daemon is outside the invariant). It has the names whose job
-- may be off the schedule, for an archiving has failed, as a parameter. Run takes the calls one after
-- the other, each atomic; `startJob`, `stopJob` and `pauseJob`, which take the mutex twice, can in the
-- program be parted by another call. The file of a job may
-- be changed by a write that fails. What SQLite and package time do beyond the statements' text is
-- the record `Engine` of Store; what a command writes and how it ends is `Process` of Runner/Command.
--
-- Fuel: the loops of the heap run on fuel. `up` halves its index, so the index plus one is enough;
-- `down` at least doubles its own, so the heap's length is enough. The search of cronsync for a new
-- name has one round for each name seen, and one more.
pub mod Prelude
pub mod Text
pub mod Dict
pub mod Errors
pub mod Config
pub mod World
pub mod Daemon
pub mod Scheduler
pub mod Runner
pub mod Store
pub mod Execution
pub mod RunLog
pub mod Broker
pub mod CronSync
pub mod Web
pub mod Wrap
