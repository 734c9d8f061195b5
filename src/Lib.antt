-- ===== src/Lib.antt =====
-- encode-system: a controller that hands video encodes to a fleet of nodes. A node's agent calls the
-- controller with a heartbeat; the handler stores what the node reports, fails jobs that the node has
-- lost, and answers with an instruction: reboot, update, or jobs to run. The model covers the job store
-- (backend/internal/store/store.go), the heartbeat handler and what it uses
-- (backend/internal/api/handlers.go, disk_alert.go), the completion and the operator's handlers, the log
-- caps on both sides, the agent's bookkeeping (backend/internal/agent), the scanner that creates the jobs
-- (backend/internal/scanner), the accounts and tokens that guard the management handlers, the renderer of
-- the jobs' scripts (backend/internal/flow) and the lock that keeps a background loop on one replica.
--
-- Files:
--   Prelude, Prelude/*     shared names, tests on numbers, lists, results
--   Table, Table/*         SELECT, UPDATE, DELETE … WHERE over a list of rows, and their lemmas
--   Model                  backend/internal/model/model.go
--   FullLog, FullLog/*     capFullLog, captureRunLog and the cut of the agent log
--   Jobs, Jobs/Lifecycle   the operations of store.go on jobs and nodes; CreateJob is `create_job`,
--                          AssignJob `assign_job`, and so on, under the source's names
--   Jobs/Queue             NextAssignableJob and NextAssignableJobForNode
--   Jobs/Trace, Jobs/Trace/*  the operations as data, runs of them, and what every run keeps
--   Server                 currentSettings, shouldAutoRetry, notifyJobFinished
--   Heartbeat, Heartbeat/* handleHeartbeat in its phases; `fill` is the loop over the free slots,
--                          `handle_heartbeat` the whole
--   Complete, Complete/*   handleJobComplete
--   Operator, Operator/*   handleRetryJob, handlePatchJob, handleCancelJob, handleDeleteJob; Operator/Bulk is
--                          handleBulkJobs and the retention (handlers_bulk.go, retention.go)
--   Agent, Agent/*         lineObserver and its trackers, jobRegistry, LogRing of backend/internal/agent
--   Script, Script/*       the quoting of values in rendered scripts, with the shells' reading rules
--   Scanner, Scanner/*     backend/internal/scanner: the scans of shares and buckets, the scan cycle, and
--                          the job made by hand (handleCreateJob)
--   Accounts, Accounts/*   users, sessions, API tokens and pairing codes: their part of store_ext.go, and
--                          auth_handlers.go, handlers_users.go, tokens.go, audit.go and the pairing of
--                          handlers_templates.go in backend/internal/api
--   Leader, Leader/*       the lock and the supervisor of the background loops (backend/internal/store/leader.go)
--   Routes, Routes/*       the routes of server.go with their middleware; `serve` takes a request to its handler
--   Sql, Sql/*             the rewriting of queries for Postgres (backend/internal/store/dialect.go)
--   Stream, Stream/*       the live log stream (backend/internal/api/logstream.go)
--   Notify, Notify/*       the alerts and the digest (backend/internal/notify)
--   Update, Update/*       the published payloads and rollback (backend/internal/update/update.go)
--   Package, Package/*     the check of a bin package and its extraction (handlers_publish.go, agent/extract.go)
--   FileSystem, FileSystem/* the tree of files and folders that the extraction works on
--   Provision, Provision/* requests and runs of provisioning (backend/internal/provision/engine.go)
--   Alerts, Alerts/*       the node alert loop (backend/internal/api/node_alert.go)
--   Render, Render/*       the renderer of job scripts and its two dialects (backend/internal/flow/render.go,
--                          dialect.go, dialect_bash.go)
--   Samples, */Examples    concrete tables and requests, and runs on them
--
-- State: `Store` holds the tables of jobs, nodes, flows and series as lists of rows, `Accounts` and
-- `Registry` those of the accounts and of pairing, `Runs` the runs of provisioning; `LogHub` and the buffer of
-- the digest are in memory. A method of the source is a function of the store
-- that returns the new one; a transaction is one function, whose error leaves the tables alone. The
-- clock is an argument, in whole seconds. What leaves the process (live events, alerts) is a list of
-- effects beside the store, and the heartbeat's reply is a value.
--
-- Loops: the loop over the free slots is recursion on their number, as the source's counter is; the
-- loops over reports, orphans, payloads and bytes are recursion on the list. A number is printed on
-- fuel, one more than the number, which has no more digits than that, and the theorem on the parameters
-- that Postgres reads proves that it is enough for them. There is no other fuel.
--
-- Not modelled: database errors other than those that the code makes itself, HTTP and JSON, the SQL
-- driver, and the parts of the program that are I/O, such as the
-- ansible process of a provisioning run, backups, and the agent's processes. The scripts that renderJob makes, and
-- strings.ToLower, are parameters of the environment; regular expressions and ParseFloat are parameters
-- of the observer; SHA-256, bcrypt, the random source and directory listings are parameters too. A node's
-- disk is a tree whose names differ when their bytes do; a full disk, access rights, and names that a file
-- system takes for the same (case, trailing dots) are left out. Requests
-- run one after another: two that overlap are two sequences of the store's methods, which are not
-- interleaved here except for the advisory lock. The notifier that tests inject is taken as
-- absent, as in production.
pub mod Prelude
pub mod Table
pub mod Model
pub mod FullLog
pub mod Jobs
pub mod Server
pub mod Heartbeat
pub mod Samples
pub mod Complete
pub mod Operator
pub mod Agent
pub mod Script
pub mod Scanner
pub mod Accounts
pub mod Leader
pub mod Render
pub mod Alerts
pub mod Sql
pub mod Routes
pub mod Notify
pub mod Stream
pub mod Provision
pub mod Update
pub mod FileSystem
pub mod Package
