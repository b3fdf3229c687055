-- ===== src/WorkflowRun.antt =====
-- src/workflow_run.rs: the tables of workflow runs and steps, the lease that lets one instance run
-- at a time, and the guards against repeated notices.
pub mod Sql
pub mod Tables
pub mod Runs
pub mod Steps
pub mod Recovery
pub mod Notices
pub mod Operations
pub mod Invariant
pub mod Histories
pub mod Lease
pub mod Exclusion
pub mod Orphans
pub mod Guards
pub mod Claims
pub mod Marks
