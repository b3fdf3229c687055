-- ===== src/Workflow/Results.antt =====
-- What a workflow returns: the results of src/workflow.rs, and those of the parts that it adds up.
-- The counts are lengths of lists in memory and cannot reach the limit of `usize`.
use lark_utils_exp.Prelude.{ℕ, ◌+◌, List, [], ◌++◌, Bool, Option, none, some}
use lark_utils_exp.Text.{Text}
use lark_utils_exp.Workflow.Kinds.{WorkflowKind}

-- A date is its number of days.
pub record TraceContentResult : Type 0 where
  pub content_config_id : ℕ
  pub feishu_source_id : ℕ
  pub project : Text
  pub period : Text
  pub xingtu_account_id : Text
  pub content_type : Text
  pub xingtu_task_id : Text
  pub spreadsheet_url : Text
  pub stat_date : ℕ
  pub is_daily_final : Bool
  pub changed : Bool
  pub ticket_id : Text
  pub polls : ℕ

pub record TraceRoundResult : Type 0 where
  pub traced_count : ℕ
  pub skipped_count : ℕ
  pub results : List TraceContentResult

pub record PendingImportFailure : Type 0 where
  pub feishu_source_id : ℕ
  pub error : Text
  pub dead_lettered : Bool

pub record PendingImportResult : Type 0 where
  pub discovered_sources : ℕ
  pub imported_sources : ℕ
  pub partial_sources : ℕ
  pub failed_sources : ℕ
  pub dead_lettered_sources : ℕ
  pub persisted_rows : ℕ
  pub quarantined_rows : ℕ
  pub failures : List PendingImportFailure

pub record AuditResultSyncResult : Type 0 where
  pub tables_processed : ℕ
  pub records_read : ℕ
  pub reviewed_records : ℕ
  pub database_rows_updated : ℕ

pub record WorkflowActivityScope : Type 0 where
  pub project_id : ℕ
  pub activity_period_id : ℕ
  pub xingtu_account_id : Text
  pub audit_notice_enabled : Bool

pub record ActivityWorkflowResult : Type 0 where
  pub activity_period_id : ℕ
  pub trace : TraceRoundResult
  pub pending_import : PendingImportResult
  pub synced_activities : ℕ
  pub audit_result_sync : Option AuditResultSyncResult
  pub audit_notice_sent : Bool

pub record WorkflowActivityFailure : Type 0 where
  pub project_id : ℕ
  pub activity_period_id : ℕ
  pub xingtu_account_id : Text
  pub error : Text

pub record WorkflowRunResult : Type 0 where
  pub workflow_run_id : ℕ
  pub workflow_kind : WorkflowKind
  pub processed_activity_period_ids : List ℕ
  pub trace : TraceRoundResult
  pub pending_import : PendingImportResult
  pub synced_activities : ℕ
  pub audit_result_sync : Option AuditResultSyncResult
  pub audit_notice_sent : Bool
  pub failed_activities : List WorkflowActivityFailure

abbrev pub no_trace : TraceRoundResult
no_trace = record { traced_count = 0; skipped_count = 0; results = [] }

abbrev pub no_import : PendingImportResult
no_import = record {
  discovered_sources = 0;
  imported_sources = 0;
  partial_sources = 0;
  failed_sources = 0;
  dead_lettered_sources = 0;
  persisted_rows = 0;
  quarantined_rows = 0;
  failures = [];
}

abbrev pub no_audit : AuditResultSyncResult
no_audit = record {
  tables_processed = 0;
  records_read = 0;
  reviewed_records = 0;
  database_rows_updated = 0;
}

-- the three lines of `aggregate_activity_outcomes` on the trace
abbrev pub merge_trace_result : TraceRoundResult → TraceRoundResult → TraceRoundResult
merge_trace_result total current = record {
  traced_count = total.traced_count + current.traced_count;
  skipped_count = total.skipped_count + current.skipped_count;
  results = total.results ++ current.results;
}

-- fn merge_pending_import_result
abbrev pub merge_pending_import_result :
    PendingImportResult → PendingImportResult → PendingImportResult
merge_pending_import_result total current = record {
  discovered_sources = total.discovered_sources + current.discovered_sources;
  imported_sources = total.imported_sources + current.imported_sources;
  partial_sources = total.partial_sources + current.partial_sources;
  failed_sources = total.failed_sources + current.failed_sources;
  dead_lettered_sources = total.dead_lettered_sources + current.dead_lettered_sources;
  persisted_rows = total.persisted_rows + current.persisted_rows;
  quarantined_rows = total.quarantined_rows + current.quarantined_rows;
  failures = total.failures ++ current.failures;
}

-- fn merge_audit_result_sync_result
abbrev pub merge_audit_result_sync_result :
    AuditResultSyncResult → AuditResultSyncResult → AuditResultSyncResult
merge_audit_result_sync_result total current = record {
  tables_processed = total.tables_processed + current.tables_processed;
  records_read = total.records_read + current.records_read;
  reviewed_records = total.reviewed_records + current.reviewed_records;
  database_rows_updated = total.database_rows_updated + current.database_rows_updated;
}

-- The total of the audit results is kept where the workflow counts them and the activity has some.
abbrev pub merge_audit :
    Option AuditResultSyncResult → Option AuditResultSyncResult → Option AuditResultSyncResult
merge_audit none current = none
merge_audit (some total) none = some total
merge_audit (some total) (some current) = some (merge_audit_result_sync_result total current)
