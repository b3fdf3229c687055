-- ===== src/Sync.antt =====
-- src/pipeline/sync.rs: from sheet cells and table records to source rows and an upsert plan.
pub mod Values
pub mod Compare
pub mod Rules
pub mod Rows
pub mod Plan
