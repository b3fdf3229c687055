-- ===== src/TableSync.antt =====
-- src/pipeline/table_sync.rs: one table's sync. The merge of sources and the audit plan are here,
-- the steps in `Steps`.
pub mod Merge
pub mod Audit
pub mod Owned
pub mod Context
pub mod Steps
pub mod Flow
pub mod Reading
pub mod Safety
use lark_utils_exp.Prelude.{
  ℕ, List, [], ◌∷◌, ◌++◌, Bool, true, false, not, ◌&&◌, Option, none, some, is_nil, if◌then◌else◌,
  ok, err, set, length,
}
use lark_utils_exp.Text.{Text, text, text_eq, trim}
use lark_utils_exp.Json.{Value, string, object, Map, of_fields}
use lark_utils_exp.Json.Map.{get, insert, extend}
use lark_utils_exp.Host.{Host}
use lark_utils_exp.Error.{Fallible, with_context}
use lark_utils_exp.Sync.Values.{value_to_plain_string}
use lark_utils_exp.Sync.Rules.{FieldValueRules, contains, to_bitable_write_value}
use lark_utils_exp.Sync.Rows.{
  SourceRow, ExistingRecordIndexItem, Index, lookup, find_field_value_by_name, parse_sheet_rows,
}
use lark_utils_exp.Sync.Plan.{CreateRecordItem, UpdateRecordItem}

pub data ActivityTableSyncSourceMode : Type 0 where
  spreadsheet_and_manual manual_only : ActivityTableSyncSourceMode

abbrev pub reads_spreadsheet : ActivityTableSyncSourceMode → Bool
reads_spreadsheet spreadsheet_and_manual = true
reads_spreadsheet manual_only = false

pub record ActivityTableSyncRuleConfig : Type 0 where
  pub data_source_field : Text
  pub spreadsheet_source_value : Text
  pub manual_source_value : Text
  pub manual_overrides_spreadsheet : Bool
  pub manual_auto_approve : Bool
  pub manual_auto_approve_result : Text
  pub audit_result_field : Text

abbrev pub default_rule : ActivityTableSyncRuleConfig
default_rule = record {
  data_source_field = text "数据来源";
  spreadsheet_source_value = text "星图数据";
  manual_source_value = text "手动登记";
  manual_overrides_spreadsheet = false;
  manual_auto_approve = true;
  manual_auto_approve_result = text "审核通过";
  audit_result_field = text "审核结果";
}

pub record AuditSourceRow : Type 0 where
  pub unique_key : Text
  pub data_source : Option Text

-- fn attach_data_source
unfoldable pub attach_data_source : List SourceRow → Text → Text → List SourceRow
attach_data_source [] field source = []
attach_data_source (row ∷ rows) field source =
    record row { fields = insert field (string source) row.fields }
    ∷ attach_data_source rows field source

-- `merged_rows` and `key_to_index` of `merge_source_rows`.
pub record Merging : Type 0 where
  pub merged_rows : List SourceRow
  pub key_to_index : List (Text × ℕ)

-- A row is appended, and its place noted under its key.
unfoldable pub push_row : Merging → SourceRow → Merging
push_row m row = record {
  merged_rows = m.merged_rows ++ row ∷ [];
  key_to_index = (row.unique_key, length m.merged_rows) ∷ m.key_to_index;
}

unfoldable pub merge_spreadsheet : Merging → List SourceRow → Merging
merge_spreadsheet m [] = m
merge_spreadsheet m (row ∷ rows) = merge_spreadsheet (push_row m row) rows

-- One round of the loop over the manual rows.
unfoldable pub merge_manual_row : Bool → Merging → SourceRow → Merging
merge_manual_row overrides m row = elim (lookup row.unique_key m.key_to_index) [
  | some i ↦ if overrides then record m { merged_rows = set m.merged_rows i row } else m
  | none ↦ push_row m row
]

unfoldable pub merge_manual : Bool → Merging → List SourceRow → Merging
merge_manual overrides m [] = m
merge_manual overrides m (row ∷ rows) =
    merge_manual overrides (merge_manual_row overrides m row) rows

-- fn merge_source_rows
unfoldable pub merge_source_rows : List SourceRow → List SourceRow → Bool → List SourceRow
merge_source_rows spreadsheet manual overrides =
    (merge_manual overrides
      (merge_spreadsheet (record { merged_rows = []; key_to_index = [] }) spreadsheet)
      manual).merged_rows

-- fn is_manual_data_source
unfoldable pub is_manual_data_source : Option Text → Text → Bool
is_manual_data_source none manual = false
is_manual_data_source (some s) manual = text_eq (trim s) manual

-- fn approved_audit_result_fields
unfoldable pub approved_audit_result_fields : ActivityTableSyncRuleConfig → Map
approved_audit_result_fields rule =
    insert rule.audit_result_field (string rule.manual_auto_approve_result) []

pub record AuditPlan : Type 0 where
  pub need_create_records : List CreateRecordItem
  pub need_update_records : List UpdateRecordItem

abbrev pub no_audit : AuditPlan
no_audit = record { need_create_records = []; need_update_records = [] }

module _ (h : Host) where
  -- fn parse_spreadsheet_source_rows
  unfoldable pub parse_spreadsheet_source_rows :
      ActivityTableSyncSourceMode
      → List (List Value)
      → Text
      → FieldValueRules
      → Fallible (List SourceRow)
  parse_spreadsheet_source_rows manual_only rows key_field rules = ok []
  parse_spreadsheet_source_rows spreadsheet_and_manual rows key_field rules =
      with_context (text "解析 Sheet 行数据失败") (parse_sheet_rows h rules key_field rows)

  abbrev plain_of : Option Value → Option Text
  plain_of none = none
  plain_of (some v) = value_to_plain_string h v

  -- the loop of `collect_audit_source_rows`
  unfoldable pub audit_rows_from : Text → List Text → List SourceRow → List AuditSourceRow
  unfolding contains
  audit_rows_from field seen [] = []
  audit_rows_from field seen (row ∷ rows) = elim (contains seen row.unique_key) [
    | true ↦ audit_rows_from field seen rows
    | false ↦
        record { unique_key = row.unique_key; data_source = plain_of (get field row.fields) }
        ∷ audit_rows_from field (row.unique_key ∷ seen) rows
  ]

  -- fn collect_audit_source_rows
  unfoldable pub collect_audit_source_rows : List SourceRow → Text → List AuditSourceRow
  unfolding audit_rows_from
  collect_audit_source_rows rows field = audit_rows_from field [] rows

  -- The plain text of a field, found by its normalised name.
  abbrev pub plain_field : Map → Text → Option Text
  plain_field m name = plain_of (find_field_value_by_name h m name)

  -- Whether a record's data source is the spreadsheet.
  unfoldable pub is_spreadsheet_owned : ActivityTableSyncRuleConfig → ExistingRecordIndexItem → Bool
  is_spreadsheet_owned rule item = elim (plain_field item.fields rule.data_source_field) [
    | none ↦ false
    | some s ↦ text_eq (trim s) (trim rule.spreadsheet_source_value)
  ]

  -- fn spreadsheet_owned_keys
  unfoldable pub spreadsheet_owned_keys : ActivityTableSyncRuleConfig → Index → List Text
  unfolding is_spreadsheet_owned
  spreadsheet_owned_keys rule [] = []
  spreadsheet_owned_keys rule ((k, item) ∷ index) =
      let rest = spreadsheet_owned_keys rule index in
      if is_spreadsheet_owned rule item then k ∷ rest else rest

  -- fn audit_result_is_approved
  unfoldable pub audit_result_is_approved : Map → ActivityTableSyncRuleConfig → Bool
  audit_result_is_approved m rule = elim (plain_field m rule.audit_result_field) [
    | none ↦ false
    | some s ↦ text_eq s rule.manual_auto_approve_result
  ]

  module _ (key_field : Text) (rules : FieldValueRules) (rule : ActivityTableSyncRuleConfig) where
    abbrev pub should_auto_approve : AuditSourceRow → Bool
    should_auto_approve row =
        is_manual_data_source row.data_source rule.manual_source_value && rule.manual_auto_approve

    -- The fields of a new audit record.
    unfoldable pub audit_fields : AuditSourceRow → Map
    audit_fields row =
        let key =
          insert key_field (to_bitable_write_value h rules key_field (string row.unique_key)) [] in
        if should_auto_approve row then extend key (approved_audit_result_fields rule) else key

    abbrev pub approval : ExistingRecordIndexItem → UpdateRecordItem
    approval item = record {
      record_id = item.record_id;
      fields = object (of_fields (approved_audit_result_fields rule));
    }

    -- What one row adds to the audit plan of the rows behind it.
    unfoldable pub audit_row : Index → AuditSourceRow → AuditPlan → AuditPlan
    audit_row index row plan = elim (lookup row.unique_key index) [
      | some item ↦
          if should_auto_approve row && not (audit_result_is_approved item.fields rule)
          then record plan { need_update_records = approval item ∷ plan.need_update_records }
          else plan
      | none ↦ record plan {
        need_create_records =
            record { fields = object (of_fields (audit_fields row)) } ∷ plan.need_create_records;
      }
    ]

    -- fn build_audit_sync_records
    unfoldable pub build_audit_sync_records : List AuditSourceRow → Index → AuditPlan
    unfolding audit_row
    build_audit_sync_records [] index = no_audit
    build_audit_sync_records (row ∷ rows) index =
        audit_row index row (build_audit_sync_records rows index)
