-- ===== src/Tests.antt =====
-- Runs of the model on concrete inputs.
mod Data
mod Rows
mod Plans
mod Texts
mod Runs
mod Ledger
mod Outcomes
mod Workflows
mod Audits
mod Daily
