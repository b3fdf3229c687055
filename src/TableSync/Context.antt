-- ===== src/TableSync/Context.antt =====
-- The configuration of a table's sync and the context that its steps share
-- (src/pipeline/table_sync.rs).
use lark_utils_exp.Prelude.{List, [], ◌∷◌, Bool, false, Option, if◌then◌else◌}
use lark_utils_exp.Text.{Text}
use lark_utils_exp.Json.{Value}
use lark_utils_exp.Sync.Rules.{contains}
use lark_utils_exp.Sync.Rows.{SourceRow, BitableRecord, Index}
use lark_utils_exp.Sync.Plan.{UpsertPlan, no_plan}
use lark_utils_exp.TableSync.{
  ActivityTableSyncSourceMode, ActivityTableSyncRuleConfig, AuditSourceRow,
}

-- `db_sync` is a flag: whether a repository is configured.
pub record TableSyncConfig : Type 0 where
  pub pipeline_name : Text
  pub bitable_url : Text
  pub spreadsheet_url : Text
  pub source_mode : ActivityTableSyncSourceMode
  pub manual_table_id : Option Text
  pub main_table_id : Text
  pub audit_table_id : Option Text
  pub unique_key_field : Text
  pub sync_rule : ActivityTableSyncRuleConfig
  pub db_sync : Bool

-- The fields of `TableSyncContext` that the steps assign.
pub record Context : Type 0 where
  pub sheet_rows : List (List Value)
  pub manual_records : List BitableRecord
  pub source_rows : List SourceRow
  pub audit_source_rows : List AuditSourceRow
  pub existing_main_loaded : Bool
  pub existing_records : List BitableRecord
  pub existing_index : Index
  pub upsert_plan : UpsertPlan

abbrev pub empty_context : Context
empty_context = record {
  sheet_rows = [];
  manual_records = [];
  source_rows = [];
  audit_source_rows = [];
  existing_main_loaded = false;
  existing_records = [];
  existing_index = [];
  upsert_plan = no_plan;
}

-- `retain` of the rows whose key is not in a set
unfoldable pub retain_source_rows : List Text → List SourceRow → List SourceRow
retain_source_rows owned [] = []
retain_source_rows owned (row ∷ rows) =
    let rest = retain_source_rows owned rows in
    if contains owned row.unique_key then rest else row ∷ rest

unfoldable pub retain_audit_rows : List Text → List AuditSourceRow → List AuditSourceRow
retain_audit_rows owned [] = []
retain_audit_rows owned (row ∷ rows) =
    let rest = retain_audit_rows owned rows in
    if contains owned row.unique_key then rest else row ∷ rest
