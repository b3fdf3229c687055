-- ===== src/Workflow.antt =====
-- src/workflow.rs: the workflows that the scheduler and the interfaces start.
pub mod Settings
pub mod Errors
pub mod ReceiveIds
pub mod Receivers
pub mod Kinds
pub mod Results
pub mod Outcomes
pub mod Completion
pub mod World
pub mod Tasks
pub mod Notices
pub mod Exclusive
pub mod Endings
pub mod Telling
pub mod Closing
pub mod Beats
pub mod Retry
pub mod Budget
pub mod Activity
pub mod Daily
pub mod Single
