-- ===== src/Audit.antt =====
-- src/pipeline/audit_result_sync.rs: the results that auditors entered go back to the database.
pub mod Merge
pub mod Extra
pub mod Reviews
pub mod Notice
pub mod Pending
pub mod Sync
pub mod Quiet
pub mod Markdown
