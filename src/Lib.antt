-- ===== src/Lib.antt =====
-- A verification library for lark-utils-exp: the pipelines that synchronise star map data of game
-- activities with tables of the Feishu (Lark) service.
--
-- The program, as far as it is modelled. A pipeline (src/pipeline/runner.rs) runs steps over a shared
-- context and stops at the first failure. The table sync (src/pipeline/table_sync.rs) is such a
-- pipeline: it reads a sheet (src/pipeline/sheet.rs) and a table of manual entries, turns both into
-- source rows, merges these by their unique key, keeps the rows that the spreadsheet owns out of a
-- sync of manual entries alone, stores the merged rows in a database, plans the difference to the
-- main table, and writes it and the audit table in batches (src/pipeline/bitable.rs). What rows,
-- keys, fields and differences are is in src/pipeline/sync.rs. The video and the live sync
-- (src/pipeline/video.rs, src/pipeline/live.rs) are table syncs with their own field rules, and
-- src/pipeline/workflow.rs runs them over all activities. Links and column names are those of
-- src/lark/sheets.
--
-- Around the pipelines stands the workflow service (src/workflow.rs). It begins a run under a lease
-- that all instances share, polls the run's operation between heartbeats, tries the activities again
-- after errors that may pass, adds their outcomes up, records the end of the run, releases the lease
-- and tells the accounts of errors. The runs, their steps, the lease and the guards against repeated
-- notices are tables of a database (src/workflow_run.rs), which several instances change at once.
-- Auditors enter results into audit tables of the service: src/pipeline/audit_result_sync.rs brings
-- these back to the database, and src/pipeline/audit_notice.rs counts what still waits.
--
-- The files and the code they model:
--   Prelude, Text, Json, Host, Error: results of fallible code, texts as lists of character codes,
--     serde_json values, the parameters that stand for libraries, and the errors as values.
--   Sync/Values, Sync/Compare, Sync/Rules, Sync/Rows, Sync/Plan: src/pipeline/sync.rs, in the order
--     of its sections: cell values and keys, semantic equality, field rules, rows and the index,
--     the plan. A function has the name that it has there; a name that ends in `_from` is the loop
--     of the function.
--   Effects: the calls that leave the program, as a log. An action takes the log so far and gives a
--     result and the longer log. The replies of a service are a function of the log, since a table
--     may change between two calls.
--   Bitable, Bitable/Actions: src/pipeline/bitable.rs, first its pure functions, then the others.
--   Sheets, Sheets/Read, Sheets/Link: src/lark/sheets/mod.rs and url.rs, the start of an A1 range in
--     rich_text.rs, and src/pipeline/sheet.rs.
--   Pipeline: src/pipeline/runner.rs. A step returns the context that the code changes in place.
--   TableSync, TableSync/Context, TableSync/Steps, TableSync/Flow: src/pipeline/table_sync.rs: the
--     merge and the audit plan, the configuration and the context, the steps, the pipeline.
--   Activities: src/pipeline/workflow.rs, video.rs, live.rs and the tables of activity.rs.
--   WorkflowRun/Tables, WorkflowRun/Runs, WorkflowRun/Steps, WorkflowRun/Recovery,
--     WorkflowRun/Notices: the tables of src/workflow_run.rs as lists of rows, the newest first, and
--     each function as one transaction at a time of the database's clock. WorkflowRun/Sql has what
--     the SQL statements share; WorkflowRun/Operations has the transactions as data, so that a list
--     of them is what any number of instances do, one transaction after another.
--   Workflow/Settings, Workflow/Errors, Workflow/Kinds, Workflow/ReceiveIds, Workflow/Receivers,
--     Workflow/Results, Workflow/Outcomes: the pure functions of src/workflow.rs, with the records of
--     src/xingtu and the receiver types of src/lark/im that they use.
--   Workflow/World, Workflow/Tasks, Workflow/Exclusive, Workflow/Retry, Workflow/Notices,
--     Workflow/Activity, Workflow/Single: the other functions of src/workflow.rs. A world is a time,
--     the database and the notices sent. Each call of the database may fail without effect or after it
--     took effect, by an oracle. A future is a task, which a poll takes to its next wait; the heartbeat
--     comes before the polls that an oracle names.
--   Audit/Merge, Audit/Extra, Audit/Reviews, Audit/Sync: src/pipeline/audit_result_sync.rs: the loops
--     over a map that refuses conflicts, the extra fields, the reviewed records, the sync.
--   Audit/Notice: src/pipeline/audit_notice.rs, but for the sending of the card.
--   The other modules are about the module above them; Tests has runs on concrete input.
--
-- Numbers. `i64` values are integers, bounded where they are parsed; `f64` values are their bits.
-- Counts and row numbers are natural numbers: lists are far shorter than the machine's words.
-- Column numbers are taken over the whole of `i32`, and the checked arithmetic of the A1 ranges over
-- 64 bits.
--
-- Fuel. The pages of a field list are followed as long as the service says that there are more, so
-- that `read_bitable_field_names` takes fuel, one for each page, and ends as `unfinished` without it.
-- The retries count down from three. `chunks` has as much fuel as the list is long, each round taking
-- at least one record, and `column_number_to_name` as much as the number is great, which falls in each
-- round.
--
-- Parameters. `f64` parsing and printing, lower case, chrono's dates, URL parsing and the printing of
-- JSON (Host); the SDK's calls, the transport and the repository of the database (Services).
-- For the workflows: the faults and pauses of database calls and the heartbeat's timer (Environment),
-- the account table, the clients, the message service and the digest (Messaging), the derived
-- serialization of results, and the operation of a run, the attempt under a time limit and the
-- length of a sleep, whose bodies are other parts of the program.
--
-- Times are microseconds, and an interval of n seconds is a million times n. The transactions of
-- src/workflow_run.rs are taken as serial, one after another in the order of their effects.
--
-- Left out: logging, and the counters that are only logged. Of src/workflow_run.rs the queries that
-- only read the tables and the advisory lock, which nothing uses; of src/workflow.rs the login checks,
-- the audit notice, the grouping of activities by project in the sync of audit results and manual
-- registrations, the retry of a single source, and the concurrent part of `run_workflow_inner`, whose
-- outcomes are taken in any order. The server, the repositories of src/xingtu, the reports and the
-- messages are not modelled: most of them are SQL, calls of services, and handlers over both.
pub mod Prelude
pub mod Text
pub mod Json
pub mod Host
pub mod Error
pub mod Sync
pub mod Effects
pub mod Bitable
pub mod Sheets
pub mod Pipeline
pub mod TableSync
pub mod Activities
pub mod WorkflowRun
pub mod Workflow
pub mod Audit
pub mod Tests
